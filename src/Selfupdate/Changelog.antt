-- ===== src/Selfupdate/Changelog.antt =====
-- selfupdate/changelog.go: the notes of one release, and those of several, as text.
pub mod Merged
use vibepit.Prelude.{
  ℕ, ◌-◌, Bool, true, false, ◌&&◌, Option, none, some, List, [], ◌∷◌, ◌++◌, map, Text, codes, leb,
  text_eq, is_empty, if◌then◌else◌,
}
use vibepit.Prelude.Lines.{join}
use vibepit.Selfupdate.Releases.{ChangelogEntry, VersionMetadata}

pub record MergedEntry : Type 0 where
  pub entry : ChangelogEntry
  pub version : Text

abbrev repo_url : Text
repo_url = codes "https://github.com/bernd/vibepit"

abbrev pub changelog_categories : List Text
changelog_categories =
    codes "added"
    ∷ codes "changed"
    ∷ codes "fixed"
    ∷ codes "deprecated"
    ∷ codes "removed"
    ∷ codes "security"
    ∷ []

abbrev link : Text → Text → List Text
link name path =
    if is_empty name
    then []
    else (codes "[#" ++ name ++ codes "](" ++ repo_url ++ path ++ name ++ codes ")") ∷ []

unfoldable pub ref_suffix : ChangelogEntry → Text
ref_suffix e =
    let refs = link e.pr (codes "/pull/") ++ link e.issue (codes "/issues/") in
    if is_empty refs then [] else codes " (" ++ join (codes ", ") refs ++ codes ")"

abbrev pub format_entry : ChangelogEntry → Text
format_entry e = codes "- " ++ e.msg ++ ref_suffix e

unfoldable pub capitalize_category : Text → Text
capitalize_category [] = []
capitalize_category (c ∷ s) = if leb b'a' c && leb c b'z' then (c - 32) ∷ s else c ∷ s

-- `sections[cat]`, with nothing under a key that is missing
abbrev pub Sections : Type 0 → Type 0
Sections E = Text → List E

unfoldable pub section_lines : {E : Type 0} → Sections E → (E → Text) → List Text → List Text
section_lines sections line [] = []
section_lines sections line (cat ∷ cats) =
    let rest = section_lines sections line cats in
    if is_empty (sections cat)
    then rest
    else (codes "\n" ++ capitalize_category cat ++ codes ":") ∷ map line (sections cat) ++ rest

abbrev pub render_sections : {E : Type 0} → Sections E → (E → Text) → Text
render_sections sections line = join (codes "\n") (section_lines sections line changelog_categories)

abbrev pub Changes : Type 0
Changes = List (Text × List ChangelogEntry)

unfoldable pub entries_of : Text → Changes → List ChangelogEntry
entries_of cat [] = []
entries_of cat (c ∷ more) = let rest = entries_of cat more in if text_eq c.0 cat then c.1 else rest

abbrev pub render_changes : Changes → Text
render_changes changes = render_sections (λ cat. entries_of cat changes) format_entry

abbrev pub nothing_merged : Sections MergedEntry
nothing_merged cat = []

-- `merged[cat] = append(merged[cat], m)`
abbrev pub append_to : Text → MergedEntry → Sections MergedEntry → Sections MergedEntry
append_to cat m merged c = if text_eq cat c then merged c ++ m ∷ [] else merged c

unfoldable pub merge_entries :
    Text → Text → List ChangelogEntry → Sections MergedEntry → Sections MergedEntry
merge_entries version cat [] merged = merged
merge_entries version cat (e ∷ entries) merged =
    merge_entries version cat entries
      (append_to cat (record { entry = e; version = version }) merged)

unfoldable pub merge_categories : Text → Changes → Sections MergedEntry → Sections MergedEntry
merge_categories version [] merged = merged
merge_categories version (c ∷ more) merged =
    merge_categories version more (merge_entries version c.0 c.1 merged)

-- ranging over a nil map visits nothing
abbrev pub changes_of : VersionMetadata → Changes
changes_of m = elim m.changes [ none ↦ [] | some changes ↦ changes ]

unfoldable pub merge_from : List VersionMetadata → Sections MergedEntry → Sections MergedEntry
merge_from [] merged = merged
merge_from (m ∷ metas) merged = merge_from metas (merge_categories m.version (changes_of m) merged)

-- `MergeChanges`
abbrev pub merge_changes : List VersionMetadata → Sections MergedEntry
merge_changes metas = merge_from metas nothing_merged

-- `RenderMerged`
abbrev pub render_merged : Sections MergedEntry → Text
render_merged merged =
    render_sections merged
      (λ m. codes "- v" ++ m.version ++ codes ": " ++ m.entry.msg ++ ref_suffix m.entry)
