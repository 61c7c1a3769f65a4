-- ===== src/Proxy/LogBuffer/Rotation.antt =====
-- The last elements of a list, and a list that is written in rotation.

use native.Mathlib.Nat.{mod_self, mod-eq_of_lt}
use vibepit.Prelude.{
  ℕ, zero, suc, ◌+◌, ◌-◌, ◌%◌, ◌≡◌, ◌≤◌, ◌<◌, refl, sym, ap, subst, List, [], ◌∷◌, ◌++◌,
  append_assoc, append-nil, length, take, drop, set, length-append, take-append_length,
  drop-append_length, drop-append_past, drop-drop, set-append_length, drop-append_le, around, arith,
}

-- The last `n` elements.
abbrev pub last {ℓ} : {A : Type ℓ} → ℕ → List A → List A
last n xs = drop (length xs - n) xs

module _ {ℓ} {A : Type ℓ} where
  -- One more element in a full history pushes the oldest one out.
  pub last-snoc :
      (n : ℕ) (xs : List A) (x : A)
      → n ≤ length xs
      → 0 < n
      → last n (xs ++ x ∷ []) ≡ drop 1 (last n xs) ++ x ∷ []
  last-snoc n xs x le pos =
      let more : length (xs ++ x ∷ []) - n ≡ length xs - n + 1 =
        omega (arith, length-append xs (x ∷ [])) in
      rw (more, drop-append_le (length xs - n + 1) xs (x ∷ []) (omega arith))
        (ap (λ l. l ++ x ∷ []) (sym (drop-drop 1 (length xs - n) xs)))

  pub take-set :
      (xs : List A) (i : ℕ) (x : A)
      → i < length xs
      → take (i + 1) (set xs i x) ≡ take i xs ++ x ∷ []
  take-set [] i x h = elim h [ ]
  take-set (y ∷ xs) zero x h = refl
  take-set (y ∷ xs) (suc i) x h =
      let e : suc i + 1 ≡ suc (i + 1) = omega arith in
      rw e (ap (λ l. y ∷ l) (take-set xs i x (omega arith)))

  -- A write at the place of the oldest element, which then holds the newest.
  abbrev pub Rotated : List A → ℕ → A → Type ℓ
  Rotated xs i x =
      let j = (i + 1) % length xs in
      drop j (set xs i x) ++ take j (set xs i x) ≡ drop 1 (drop i xs ++ take i xs) ++ x ∷ []

  pub wrapped : (before : List A) (y : A) → (length before + 1) % length (before ++ y ∷ []) ≡ 0
  wrapped before y =
      let e : length (before ++ y ∷ []) ≡ length before + 1 =
        omega (arith, length-append before (y ∷ [])) in
      rw e (mod_self (length before + 1))

  pub rotate_cut :
      (before : List A) (y : A) (after : List A) (x : A)
      → Rotated (before ++ y ∷ after) (length before) x
  rotate_cut before y [] x =
      let wrap : (length before + 1) % length (before ++ y ∷ []) ≡ 0 = wrapped before y in
      rw
        (
          wrap,
          set-append_length before y x [],
          drop-append_length before (y ∷ []),
          take-append_length before (y ∷ []),
        )
        (append-nil _)
  rotate_cut before y (z ∷ after) x =
      let on : (length before + 1) % length (before ++ y ∷ z ∷ after) ≡ length before + 1 =
        mod-eq_of_lt (omega (arith, length-append before (y ∷ z ∷ after))) in
      let front : take (length before + 1) (before ++ x ∷ z ∷ after) ≡ before ++ x ∷ [] =
        rw (sym (append_assoc before (x ∷ []) (z ∷ after)), sym (length-append before (x ∷ [])))
          (take-append_length (before ++ x ∷ []) (z ∷ after)) in
      rw
        (
          on,
          set-append_length before y x (z ∷ after),
          drop-append_length before (y ∷ z ∷ after),
          take-append_length before (y ∷ z ∷ after),
          drop-append_past before x (z ∷ after),
          front,
        )
        (ap (λ l. z ∷ l) (sym (append_assoc after before (x ∷ []))))

  pub rotate-set : (xs : List A) (i : ℕ) (x : A) → i < length xs → Rotated xs i x
  rotate-set xs i x h =
      let r = around xs i h in
      subst (λ l. Rotated l i x) (sym r.whole)
        (subst (λ k. Rotated (r.before ++ r.elem ∷ r.after) k x) r.place
          (rotate_cut r.before r.elem r.after x))
