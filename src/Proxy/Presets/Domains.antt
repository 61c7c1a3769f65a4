-- ===== src/Proxy/Presets/Domains.antt =====
-- The domains of a preset join those that are found (proxy/presets.go).
use vibepit.Prelude.{
  ◌≡◌, ◌⊎◌, inl, inr, refl, subst, true, false, List, [], ◌∷◌, ◌++◌, Text, text_eq, text_eq_iff,
  text_eq_self, if◌then◌else◌, arith, Bool-cases,
}
use vibepit.Proxy.Presets.{has, add_domains}

abbrev pub IsDistinct : List Text → Type 0
IsDistinct [] = Unit
IsDistinct (x ∷ xs) = (has x xs ≡ false) × IsDistinct xs

has-snoc :
    (x d : Text) (xs : List Text) → has x (xs ++ d ∷ []) ≡ (if has x xs then true else text_eq d x)
unfolding has
has-snoc x d [] = ground arith
has-snoc x d (y ∷ ys) = ground (arith, has-snoc x d ys)

IsDistinct-snoc :
    (d : Text) (xs : List Text) → has d xs ≡ false → IsDistinct xs → IsDistinct (xs ++ d ∷ [])
unfolding has
IsDistinct-snoc d [] n h = (refl, tt)
IsDistinct-snoc d (y ∷ ys) n h = (
  ground (arith, has-snoc y d ys, h.0, n, text_eq_iff d y, text_eq_iff y d, text_eq_self y),
  IsDistinct-snoc d ys (ground (arith, n)) h.1,
)

-- The domains of a preset are added: nothing is lost, nothing else is added, nothing is doubled.
pub record Adds (ds found after : List Text) : Type 0 where
  pub kept : (x : Text) → has x found ≡ true → has x after ≡ true
  pub added : (x : Text) → has x ds ≡ true → has x after ≡ true
  pub only : (x : Text) → has x after ≡ true → (has x found ≡ true) ⊎ (has x ds ≡ true)
  pub distinct : IsDistinct found → IsDistinct after

abbrev with_domain : Text → List Text → List Text
with_domain d found = if has d found then found else found ++ d ∷ []

has-with_domain :
    (x d : Text) (found : List Text)
    → has x (with_domain d found) ≡ (if has x found then true else text_eq d x)
has-with_domain x d found = elim (Bool-cases (has d found)) [
  | inl e ↦ rw e (elim (Bool-cases (text_eq d x)) [
    | inl q ↦
        let same : d ≡ x = (text_eq_iff d x).0 q in
        let there : has x found ≡ true = subst (λ t. has t found ≡ true) same e in
        ground (arith, q, there)
    | inr q ↦ ground (arith, q)
  ])
  | inr e ↦ rw e (has-snoc x d found)
]

pub add_domains-Adds : (ds found : List Text) → Adds ds found (add_domains ds found)
unfolding add_domains has
add_domains-Adds [] found = record {
  kept = λ x h. h;
  added = λ x h. cc;
  only = λ x h. inl h;
  distinct = λ h. h;
}
add_domains-Adds (d ∷ ds) found =
    let rest = add_domains-Adds ds (with_domain d found) in
    record {
      kept = λ x h. rest.kept x (ground (arith, h, has-with_domain x d found));
      added = λ x h. ground (arith, h, has-with_domain x d found, rest.kept x, rest.added x);
      only = λ x h. ground (arith, rest.only x h, has-with_domain x d found);
      distinct = λ h. rest.distinct (elim (Bool-cases (has d found)) [
        | inl e ↦ rw e h
        | inr e ↦ rw e (IsDistinct-snoc d found e h)
      ]);
    }
