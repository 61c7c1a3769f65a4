-- ===== src/Selfupdate/Changelog/Merged.antt =====
-- The notes of several releases, merged by category (selfupdate/changelog.go).
use vibepit.Prelude.{
  ◌≡◌, refl, ap, sym, ◌∙◌, subst, Bool, false, ◌||◌, List, [], ◌∷◌, ◌++◌, All, append_assoc,
  append-nil, Text, text_eq, text_eq_iff, text_eq_self, Bool-cases, inl, inr, map, arith,
}
use vibepit.Selfupdate.Releases.{ChangelogEntry, VersionMetadata}
use vibepit.Selfupdate.Changelog.{
  MergedEntry, Sections, Changes, entries_of, nothing_merged, append_to, merge_entries,
  merge_categories, changes_of, merge_from, merge_changes,
}

abbrev pub has_key : Text → Changes → Bool
has_key cat [] = false
has_key cat (c ∷ more) = text_eq c.0 cat || has_key cat more

-- The keys of a map are distinct.
abbrev pub IsMap : Changes → Type 0
IsMap [] = Unit
IsMap (c ∷ more) = (has_key c.0 more ≡ false) × IsMap more

abbrev pub tagged : Text → List ChangelogEntry → List MergedEntry
tagged version entries = map (λ e. record { entry = e; version = version }) entries

-- The notes of a category, release by release in the order of the list.
abbrev pub notes : Text → List VersionMetadata → List MergedEntry
notes cat [] = []
notes cat (m ∷ metas) = tagged m.version (entries_of cat (changes_of m)) ++ notes cat metas

merge_entries_same :
    (version cat : Text) (entries : List ChangelogEntry) (merged : Sections MergedEntry)
    → merge_entries version cat entries merged cat ≡ merged cat ++ tagged version entries
unfolding merge_entries
merge_entries_same version cat [] merged = sym (append-nil (merged cat))
merge_entries_same version cat (e ∷ entries) merged =
    let m : MergedEntry = record { entry = e; version = version } in
    merge_entries_same version cat entries (append_to cat m merged)
    ∙ rw (text_eq_self cat) (append_assoc (merged cat) (m ∷ []) (tagged version entries))

merge_entries_other :
    (version cat c : Text) (entries : List ChangelogEntry) (merged : Sections MergedEntry)
    → text_eq cat c ≡ false
    → merge_entries version cat entries merged c ≡ merged c
unfolding merge_entries
merge_entries_other version cat c [] merged h = refl
merge_entries_other version cat c (e ∷ entries) merged h =
    let m : MergedEntry = record { entry = e; version = version } in
    merge_entries_other version cat c entries (append_to cat m merged) h ∙ rw h refl

merge_categories_absent :
    (version c : Text) (changes : Changes) (merged : Sections MergedEntry)
    → has_key c changes ≡ false
    → merge_categories version changes merged c ≡ merged c
unfolding merge_categories
merge_categories_absent version c [] merged h = refl
merge_categories_absent version c (x ∷ changes) merged h =
    let not_x : text_eq x.0 c ≡ false = ground arith in
    let not_more : has_key c changes ≡ false = ground arith in
    merge_categories_absent version c changes (merge_entries version x.0 x.1 merged) not_more
    ∙ merge_entries_other version x.0 c x.1 merged not_x

merge_categories-entries_of :
    (version c : Text) (changes : Changes) (merged : Sections MergedEntry)
    → IsMap changes
    → merge_categories version changes merged c ≡ merged c ++ tagged version (entries_of c changes)
unfolding merge_categories entries_of
merge_categories-entries_of version c [] merged d = sym (append-nil (merged c))
merge_categories-entries_of version c (x ∷ changes) merged d = elim (Bool-cases (text_eq x.0 c)) [
  | inl same ↦
      let e = (text_eq_iff x.0 c).0 same in
      let alone = subst (λ w. has_key w changes ≡ false) e d.0 in
      merge_categories_absent version c changes (merge_entries version x.0 x.1 merged) alone
      ∙ subst (λ w. merge_entries version x.0 x.1 merged w ≡ merged w ++ tagged version x.1) e
          (merge_entries_same version x.0 x.1 merged)
      ∙ rw same refl
  | inr other ↦
      merge_categories-entries_of version c changes (merge_entries version x.0 x.1 merged) d.1
      ∙ ap (λ l. l ++ tagged version (entries_of c changes))
          (merge_entries_other version x.0 c x.1 merged other)
      ∙ rw other refl
]

merge_from-notes :
    (c : Text) (metas : List VersionMetadata) (merged : Sections MergedEntry)
    → All (λ m. IsMap (changes_of m)) metas
    → merge_from metas merged c ≡ merged c ++ notes c metas
unfolding merge_from
merge_from-notes c [] merged h = sym (append-nil (merged c))
merge_from-notes c (m ∷ metas) merged h =
    merge_from-notes c metas (merge_categories m.version (changes_of m) merged) h.1
    ∙ ap (λ l. l ++ notes c metas)
        (merge_categories-entries_of m.version c (changes_of m) merged h.0)
    ∙ append_assoc (merged c) (tagged m.version (entries_of c (changes_of m))) (notes c metas)

-- In whatever order the categories of each release are visited, the merge holds under each category
-- the notes of that category, those of the first release first, each with the version it is from.
pub merge_changes-notes :
    (cat : Text) (metas : List VersionMetadata)
    → All (λ m. IsMap (changes_of m)) metas
    → merge_changes metas cat ≡ notes cat metas
merge_changes-notes cat metas h = merge_from-notes cat metas nothing_merged h
