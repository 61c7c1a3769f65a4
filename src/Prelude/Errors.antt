-- ===== src/Prelude/Errors.antt =====
-- A result with an error, and a computation that may panic (an index or a slice out of range).
use mathlib.Core.Path.{◌≡◌, refl, ap}
use mathlib.Core.Logic.{◌⊎◌, inl, inr}
use mathlib.Core.Bool.{Bool, true, false}
use mathlib.Core.Option.{Option, none, some}
use vibepit.Prelude.Tests.{if◌then◌else◌}

-- Go's `(T, error)` with a nil error, or with the error alone.
pub data Result (E A : Type 0) : Type 0 where
  ok : A → Result E A
  err : E → Result E A

infixl 5 ◌>>=◌
abbrev pub ◌>>=◌ : {E A B : Type 0} → Result E A → (A → Result E B) → Result E B
ok a >>= f = f a
err e >>= f = err e

abbrev pub map_err : {E F A : Type 0} → (E → F) → Result E A → Result F A
map_err f (ok a) = ok a
map_err f (err e) = err (f e)

pub Result-cases :
    {E A : Type 0} (r : Result E A) → ((e : E) × (r ≡ err e)) ⊎ ((a : A) × (r ≡ ok a))
Result-cases (ok a) = inr (a, refl)
Result-cases (err e) = inl (e, refl)

-- `none` is a run-time panic.
abbrev pub and_then {ℓ κ} : {A : Type ℓ} {B : Type κ} → Option A → (A → Option B) → Option B
and_then none f = none
and_then (some a) f = f a

-- The answer of a test that may panic: there is one, and it is right about `G`.
abbrev pub Decides : Type 0 → Option Bool → Type 0
Decides G (some true) = G
Decides G (some false) = ¬ G
Decides G none = ⊥

pub Decides-map : (F G : Type 0) (r : Option Bool) → (F → G) → (G → F) → Decides F r → Decides G r
Decides-map F G none f g d = d
Decides-map F G (some true) f g d = f d
Decides-map F G (some false) f g d = λ h. d (g h)

pub Decides-cases :
    (G : Type 0) (r : Option Bool)
    → Decides G r
    → ((r ≡ some true) × G) ⊎ ((r ≡ some false) × (¬ G))
Decides-cases G none d = absurd d
Decides-cases G (some true) d = inl (refl, d)
Decides-cases G (some false) d = inr (refl, d)

-- What a result that is no error says of the steps before it.
pub bind_ok :
    {E A B : Type 0} (r : Result E A) (f : A → Result E B) (b : B)
    → (r >>= f) ≡ ok b
    → (a : A) × (r ≡ ok a) × (f a ≡ ok b)
bind_ok (ok a) f b h = (a, refl, h)
bind_ok (err e) f b h = cc

pub ok_inj : {E A : Type 0} (a b : A) → Path (Result E A) (ok a) (ok b) → a ≡ b
ok_inj a b h = cc

pub map_err_ok :
    {E F A : Type 0} (g : E → F) (r : Result E A) (a : A) → map_err g r ≡ ok a → r ≡ ok a
map_err_ok g (ok x) a h = ap ok (ok_inj x a h)
map_err_ok g (err e) a h = cc

pub if_ok :
    {E A : Type 0} (b : Bool) (e : E) (r : Result E A) (a : A)
    → (if b then r else err e) ≡ ok a
    → (b ≡ true) × (r ≡ ok a)
if_ok true e r a h = (refl, h)
if_ok false e r a h = cc

pub if_not_ok :
    {E A : Type 0} (b : Bool) (e : E) (r : Result E A) (a : A)
    → (if b then err e else r) ≡ ok a
    → (b ≡ false) × (r ≡ ok a)
if_not_ok true e r a h = cc
if_not_ok false e r a h = (refl, h)
