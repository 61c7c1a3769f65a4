-- ===== src/Prelude/Integers.antt =====
-- Signed integers, and what the program uses of `strconv`.
use Prim.Native.Nat.{ℕ, zero, suc, ◌+◌, ◌-◌, ◌*◌, ◌^◌}
use mathlib.Core.Bool.{Bool, false, ◌&&◌}
use mathlib.Core.Option.{Option, none, some}
use mathlib.Core.List.{[], ◌∷◌}
use vibepit.Prelude.Tests.{leb, ltb, ◌==◌, if◌then◌else◌}
use vibepit.Prelude.Strings.{Text}

-- `negsuc n` is -(n + 1).
pub data ℤ : Type 0 where
  pos : ℕ → ℤ
  negsuc : ℕ → ℤ

abbrev pub negate : ℕ → ℤ
negate zero = pos 0
negate (suc n) = negsuc n

abbrev pub int_eq : ℤ → ℤ → Bool
int_eq (pos a) (pos b) = a == b
int_eq (pos a) (negsuc b) = false
int_eq (negsuc a) (pos b) = false
int_eq (negsuc a) (negsuc b) = a == b

-- decimal digits, after those that make `acc`
unfoldable pub digits_value : ℕ → Text → Option ℕ
digits_value acc [] = some acc
digits_value acc (c ∷ s) =
    let rest = digits_value (acc * 10 + (c - b'0')) s in
    if leb b'0' c && leb c b'9' then rest else none

unfoldable pub positive : ℕ → Text → Option ℤ
positive bits [] = none
positive bits (c ∷ s) = elim (digits_value 0 (c ∷ s)) [
  | none ↦ none
  | some n ↦ if ltb n (2 ^ (bits - 1)) then some (pos n) else none
]

unfoldable pub negative : ℕ → Text → Option ℤ
negative bits [] = none
negative bits (c ∷ s) = elim (digits_value 0 (c ∷ s)) [
  | none ↦ none
  | some n ↦ if leb n (2 ^ (bits - 1)) then some (negate n) else none
]

-- strconv.ParseInt(s, 10, bits): an optional sign and digits, in the range of the width
unfoldable pub parse_int : ℕ → Text → Option ℤ
parse_int bits [] = none
parse_int bits (c ∷ s) =
    if c == b'-'
    then negative bits s
    else if c == b'+'
    then positive bits s
    else positive bits (c ∷ s)

-- strconv.Atoi
abbrev pub atoi : Text → Option ℤ
atoi = parse_int 64

unfoldable pub uint_loop : ℕ → Text → ℕ
uint_loop n [] = n
uint_loop n (c ∷ s) =
    let d = c - b'0' in
    let rest = uint_loop (n * 10 + d) s in
    if leb b'0' c && leb c b'9' then if ltb (n * 10 + d) (2 ^ 64) then rest else 2 ^ 64 - 1 else 0

-- the value of strconv.ParseUint(s, 10, 64), whatever its error: 0 for a syntax error, and the
-- largest value where the digits go past it
abbrev pub parse_uint : Text → ℕ
parse_uint s = uint_loop 0 s
