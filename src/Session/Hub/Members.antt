-- ===== src/Session/Hub/Members.antt =====
-- Lists of client numbers, as `Detach` edits them.
use vibepit.Prelude.{
  ℕ, ◌≡◌, refl, true, false, none, some, List, [], ◌∷◌, ◌++◌, inl, inr, arith, Bool-cases,
  if◌then◌else◌, ◌==◌,
}
use vibepit.Session.Hub.{remove, last}
use vibepit.Session.Hub.Steps.{has}

abbrev pub IsDistinct : List ℕ → Type 0
IsDistinct [] = Unit
IsDistinct (x ∷ xs) = (has x xs ≡ false) × IsDistinct xs

pub has-append : (x : ℕ) (xs ys : List ℕ) → has x (xs ++ ys) ≡ (if has x xs then true else has x ys)
unfolding has
has-append x [] ys = refl
has-append x (y ∷ xs) ys = ground (arith, has-append x xs ys)

pub has-remove : (x y : ℕ) (xs : List ℕ) → has y (remove x xs) ≡ true → has y xs ≡ true
unfolding has remove
has-remove x y [] h = h
has-remove x y (z ∷ xs) h = ground (arith, has-remove x y xs)

pub has-remove_other : (x y : ℕ) (xs : List ℕ) → ¬ (x ≡ y) → has y (remove x xs) ≡ has y xs
unfolding has remove
has-remove_other x y [] n = refl
has-remove_other x y (z ∷ xs) n = ground (arith, has-remove_other x y xs)

pub has-remove_same : (x : ℕ) (xs : List ℕ) → IsDistinct xs → has x (remove x xs) ≡ false
unfolding has remove
has-remove_same x [] d = refl
has-remove_same x (z ∷ xs) d = ground (arith, has-remove_same x xs)

pub remove-IsDistinct : (x : ℕ) (xs : List ℕ) → IsDistinct xs → IsDistinct (remove x xs)
unfolding has remove
remove-IsDistinct x [] d = d
remove-IsDistinct x (z ∷ xs) d = elim (Bool-cases (z == x)) [
  | inl e ↦ rw e d.1
  | inr e ↦ rw e (
    elim (Bool-cases (has z (remove x xs))) [
      | inl f ↦ absurd (cc (d.0, has-remove x z xs f))
      | inr f ↦ f
    ],
    remove-IsDistinct x xs d.1,
  )
]

pub IsDistinct-snoc :
    (x : ℕ) (xs : List ℕ) → has x xs ≡ false → IsDistinct xs → IsDistinct (xs ++ x ∷ [])
unfolding has
IsDistinct-snoc x [] n d = (refl, tt)
IsDistinct-snoc x (z ∷ xs) n d =
    (ground (arith, has-append z xs (x ∷ []), d.0), IsDistinct-snoc x xs (ground arith) d.1)

pub has-last : (x : ℕ) (xs : List ℕ) → last xs ≡ some x → has x xs ≡ true
unfolding has last
has-last x [] h = cc
has-last x (z ∷ xs) h = ground (arith, has-last x xs)

pub last-none : (xs : List ℕ) → last xs ≡ none → xs ≡ []
unfolding last
last-none [] h = refl
last-none (z ∷ xs) h = ground arith
