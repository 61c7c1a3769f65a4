-- ===== src/Proxy/Pattern/Validation.antt =====
-- `validateDomainPattern`: which domains it accepts.
use vibepit.Prelude.{
  ℕ, suc, ◌+◌, ◌≤◌, ◌≡◌, ◌≢◌, ◌↔◌, refl, false, List, [], ◌∷◌, Text, arith, ◌⊎◌, inl, inr, All,
  text_eq, text_eq_iff, text_eq_self, is_empty, contains_byte, split, if◌then◌else◌, ok,
  Result-cases,
}
use vibepit.Proxy.Pattern.{
  dot, star, double_star, check_labels, check_breadth, validate_domain_pattern,
}

-- A wildcard stands alone in its label, and no label is empty.
abbrev pub WellFormed : Text → Type 0
WellFormed l = (l ≢ []) × ((l ≡ star) ⊎ (l ≡ double_star) ⊎ (contains_byte b'*' l ≡ false))

unfoldable pub count_double_stars : List Text → ℕ
count_double_stars [] = 0
count_double_stars (l ∷ ls) =
    let rest = count_double_stars ls in if text_eq l double_star then suc rest else rest

-- The domains that the documentation of the allowlist permits, by their labels.
pub record IsValidDomain (ls : List Text) : Type 0 where
  pub labels : All WellFormed ls
  pub one_run : count_double_stars ls ≤ 1
  pub narrow : (ls ≢ star ∷ []) × (ls ≢ double_star ∷ [])

-- The count that the loop returns, and what it has checked.
check_labels-ok :
    (n : ℕ) (ls : List Text) {k : ℕ}
    → check_labels n ls ≡ ok k
    → (k ≡ n + count_double_stars ls) × All WellFormed ls
unfolding check_labels count_double_stars is_empty
check_labels-ok n [] h = (ground arith, tt)
check_labels-ok n ([] ∷ ls) h = cc
check_labels-ok n ((c ∷ l) ∷ ls) {k} h = ground (
  arith,
  text_eq_iff (c ∷ l) star,
  text_eq_iff (c ∷ l) double_star,
  check_labels-ok (n + 1) ls {k = k},
  check_labels-ok n ls {k = k},
)

check_labels_complete :
    (n : ℕ) (ls : List Text)
    → All WellFormed ls
    → check_labels n ls ≡ ok (n + count_double_stars ls)
unfolding check_labels count_double_stars is_empty
check_labels_complete n [] w = ground arith
check_labels_complete n ([] ∷ ls) w = absurd (w.0.0 refl)
check_labels_complete n ((c ∷ l) ∷ ls) w = ground (
  arith,
  text_eq_iff (c ∷ l) star,
  text_eq_iff (c ∷ l) double_star,
  text_eq_self double_star,
  check_labels_complete (n + 1) ls w.1,
  check_labels_complete n ls w.1,
)

check_breadth_iff :
    (ls : List Text) → (check_breadth ls ≡ ok tt) ↔ ((ls ≢ star ∷ []) × (ls ≢ double_star ∷ []))
unfolding check_breadth
check_breadth_iff [] = ground arith
check_breadth_iff (l ∷ []) = ground (arith, text_eq_iff l star, text_eq_iff l double_star)
check_breadth_iff (l ∷ m ∷ ls) = ground arith

validate→IsValidDomain :
    (domain : Text) → validate_domain_pattern domain ≡ ok tt → IsValidDomain (split dot domain)
unfolding validate_domain_pattern is_empty
validate→IsValidDomain [] h = cc
validate→IsValidDomain (c ∷ s) h = elim (Result-cases (check_labels 0 (split dot (c ∷ s)))) [
  | inl (e, failed) ↦ ground arith
  | inr (n, passed) ↦
      let (counted, formed) = check_labels-ok 0 (split dot (c ∷ s)) passed in
      record {
        labels = formed;
        one_run = ground arith;
        narrow = (check_breadth_iff (split dot (c ∷ s))).0 (ground arith);
      }
]

IsValidDomain→validate :
    (domain : Text) → IsValidDomain (split dot domain) → validate_domain_pattern domain ≡ ok tt
unfolding validate_domain_pattern is_empty
IsValidDomain→validate [] v = unfold split in absurd (v.labels.0.0 refl)
IsValidDomain→validate (c ∷ s) v = ground (
  arith,
  check_labels_complete 0 (split dot (c ∷ s)) v.labels,
  v.one_run,
  (check_breadth_iff (split dot (c ∷ s))).1 v.narrow,
)

-- `validateDomainPattern` accepts a domain exactly if it is split into labels that are not empty
-- and mix no wildcard with other characters, at most one of them is `**`, and the domain is not a
-- single wildcard.
pub validate_domain_pattern_iff :
    (domain : Text) → (validate_domain_pattern domain ≡ ok tt) ↔ IsValidDomain (split dot domain)
validate_domain_pattern_iff domain = (validate→IsValidDomain domain, IsValidDomain→validate domain)
