-- ===== src/Config/Setup/Added.antt =====
-- The entries that are not in the file yet (`newEntries` of config/setup.go).
use vibepit.Prelude.{
  ◌≡◌, ◌↔◌, inl, inr, refl, subst, true, false, not, ◌&&◌, List, [], ◌∷◌, Text, text_eq,
  text_eq_iff, text_eq_self, Bool-cases, arith,
}
use vibepit.Config.Setup.Append.{new_entries}
use vibepit.Proxy.Presets.{has}
use vibepit.Proxy.Presets.Domains.{IsDistinct}

new_entries_lem :
    (x : Text) (existing entries : List Text)
    → has x (new_entries existing entries) ≡ (has x entries && not (has x existing))
unfolding new_entries has
new_entries_lem x existing [] = refl
new_entries_lem x existing (d ∷ ds) = elim (Bool-cases (has d existing)) [
  | inl e ↦ rw e (elim (Bool-cases (text_eq d x)) [
    | inl q ↦
        let known : has x existing ≡ true =
          subst (λ t. has t existing ≡ true) ((text_eq_iff d x).0 q) e in
        ground (arith, new_entries_lem x existing ds, known, q)
    | inr q ↦ rw q (new_entries_lem x existing ds)
  ])
  | inr e ↦ rw e (elim (Bool-cases (text_eq d x)) [
    | inl q ↦
        let fresh : has x existing ≡ false =
          subst (λ t. has t existing ≡ false) ((text_eq_iff d x).0 q) e in
        rw (q, fresh) refl
    | inr q ↦ let more = new_entries_lem x (d ∷ existing) ds in ground (arith, q, more)
  ])
]

new_entries-IsDistinct : (existing entries : List Text) → IsDistinct (new_entries existing entries)
unfolding new_entries has
new_entries-IsDistinct existing [] = tt
new_entries-IsDistinct existing (d ∷ ds) = elim (Bool-cases (has d existing)) [
  | inl e ↦ rw e (new_entries-IsDistinct existing ds)
  | inr e ↦ rw e (
    ground (arith, new_entries_lem d (d ∷ existing) ds, text_eq_self d),
    new_entries-IsDistinct (d ∷ existing) ds,
  )
]

-- `added` are the entries that are not there yet, each once.
pub record IsNew (current entries added : List Text) : Type 0 where
  pub distinct : IsDistinct added
  pub same : (x : Text) → (has x added ≡ true) ↔ ((has x entries ≡ true) × (has x current ≡ false))

pub new_entries-IsNew :
    (current entries : List Text) → IsNew current entries (new_entries current entries)
new_entries-IsNew current entries = record {
  distinct = new_entries-IsDistinct current entries;
  same = λ x. ground (arith, new_entries_lem x current entries);
}
