-- ===== src/Session/Crlf/Normal.antt =====
-- The line endings that the conversion leaves.
use vibepit.Prelude.{
  ℕ, ◌≡◌, ◌==◌, ◌≢◌, refl, ap, [], ◌∷◌, inl, inr, Text, arith, Bool-cases, ◌&&◌, true, false, sym,
  subst,
}
use vibepit.Session.Crlf.{cr, lf, collapse, expand, to_crlf}

-- Every line feed of a text stands after a carriage return; `before` is the byte before the text.
abbrev pub IsCrlf : ℕ → Text → Type 0
IsCrlf before [] = Unit
IsCrlf before (c ∷ s) = (c ≡ lf → before ≡ cr) × IsCrlf c s

expand-IsCrlf : (before : ℕ) (s : Text) → IsCrlf before (expand s)
unfolding expand
expand-IsCrlf before [] = tt
expand-IsCrlf before (c ∷ s) = elim (Bool-cases (c == lf)) [
  | inl e ↦ rw e ((λ h. ground arith), ((λ h. refl), expand-IsCrlf lf s))
  | inr e ↦ rw e ((λ h. ground (arith, e)), expand-IsCrlf c s)
]

collapse-keep :
    (c : ℕ) (s : Text) → (c ≢ lf) → collapse (expand s) ≡ s → collapse (c ∷ expand s) ≡ c ∷ s
unfolding collapse expand
collapse-keep c [] n h = refl
collapse-keep c (d ∷ s) n h = elim (Bool-cases (d == lf)) [
  | inl e ↦ ground (arith, e, h)
  | inr e ↦ ground (arith, e, h)
]

collapse-expand : (s : Text) → collapse (expand s) ≡ s
unfolding collapse expand
collapse-expand [] = refl
collapse-expand (c ∷ s) =
    let rest = collapse-expand s in
    let keep = collapse-keep c s in
    elim (Bool-cases (c == lf)) [
      | inl e ↦ ground (arith, e, rest)
      | inr e ↦ ground (arith, e, rest, keep)
    ]

-- The text begins with a line feed.
abbrev pub StartsLf : Text → Type 0
StartsLf [] = ⊥
StartsLf (c ∷ s) = c ≡ lf

-- What a text becomes: a carriage return with its line feed stays, a line feed of its own gets one,
-- and every other byte stays, a carriage return without a line feed after it too.
pub data Converts : Text → Text → Type 0 where
  ends : Converts [] []
  both : {s t : Text} → Converts s t → Converts (cr ∷ lf ∷ s) (cr ∷ lf ∷ t)
  bare : {s t : Text} → Converts s t → Converts (lf ∷ s) (cr ∷ lf ∷ t)
  other :
      {s t : Text} (c : ℕ)
      → (c ≢ lf)
      → (c ≡ cr → ¬ StartsLf s)
      → Converts s t
      → Converts (c ∷ s) (c ∷ t)

one-Converts : (c : ℕ) → Converts (c ∷ []) (expand (c ∷ []))
unfolding expand
one-Converts c = elim (Bool-cases (c == lf)) [
  | inl e ↦
      let same : c ≡ lf = ground (arith, e) in
      rw e (subst (λ x. Converts (x ∷ []) (cr ∷ lf ∷ [])) (sym same) (bare ends))
  | inr e ↦ rw e (other c (λ h. ground (arith, e, h)) (λ _ h. h) ends)
]

-- a byte that does not begin a pair
step-Converts :
    (c d : ℕ) (s : Text)
    → (c == cr && d == lf) ≡ false
    → Converts (d ∷ s) (expand (collapse (d ∷ s)))
    → Converts (c ∷ d ∷ s) (expand (c ∷ collapse (d ∷ s)))
unfolding expand
step-Converts c d s n h = elim (Bool-cases (c == lf)) [
  | inl e ↦
      let same : c ≡ lf = ground (arith, e) in
      rw e (
        subst (λ x. Converts (x ∷ d ∷ s) (cr ∷ lf ∷ expand (collapse (d ∷ s)))) (sym same) (bare h))
  | inr e ↦ rw e (other c (λ l. ground (arith, e, l)) (λ r l. ground (arith, n, r, l)) h)
]

pair-Converts :
    (c d : ℕ) (s : Text)
    → (c == cr && d == lf) ≡ true
    → Converts s (expand (collapse s))
    → Converts (c ∷ d ∷ s) (expand (lf ∷ collapse s))
unfolding expand
pair-Converts c d s e h =
    let c_cr : c ≡ cr = ground (arith, e) in
    let d_lf : d ≡ lf = ground (arith, e) in
    subst (λ x. Converts (x ∷ d ∷ s) (cr ∷ lf ∷ expand (collapse s))) (sym c_cr)
      (subst (λ x. Converts (cr ∷ x ∷ s) (cr ∷ lf ∷ expand (collapse s))) (sym d_lf) (both h))

expand-Converts : (b : Text) → Converts b (expand (collapse b))
unfolding collapse
expand-Converts [] = unfold expand in ends
expand-Converts (c ∷ []) = one-Converts c
expand-Converts (c ∷ d ∷ s) = elim (Bool-cases (c == cr && d == lf)) [
  | inl e ↦ rw (e, collapse) (pair-Converts c d s e (expand-Converts s))
  | inr e ↦ rw (e, collapse) (step-Converts c d s e (expand-Converts (d ∷ s)))
]

-- The conversion gives each line feed of its own a carriage return and keeps every other byte, lone
-- carriage returns included; then every line feed follows a carriage return, and converting again
-- changes nothing.
pub to_crlf-IsCrlf :
    (b : Text) → Converts b (to_crlf b) × IsCrlf 0 (to_crlf b) × (to_crlf (to_crlf b) ≡ to_crlf b)
unfolding to_crlf
to_crlf-IsCrlf b =
    (expand-Converts b, expand-IsCrlf 0 (collapse b), ap expand (collapse-expand (collapse b)))
