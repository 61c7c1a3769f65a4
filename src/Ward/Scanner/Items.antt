-- ===== src/Ward/Scanner/Items.antt =====
-- The sequences that the output of a terminal program is made of, and what each does to the bar, stated
-- apart from the scanner of ward/scanner.go.
use vibepit.Prelude.{
  ℕ, ◌+◌, ◌-◌, ◌*◌, ◌^◌, ◌≡◌, ◌≤◌, ◌<◌, ◌⊎◌, Bool, true, false, ◌&&◌, ◌||◌, List, [], ◌∷◌, ◌++◌,
  Text, ◌==◌, is_empty, All,
}
use vibepit.Ward.Scanner.{ScanResult, no_result, or_result, esc, bel}

-- What the output is made of: a byte of text; an escape sequence of two bytes; a control sequence with
-- parameters, intermediate bytes and a final byte; one that sets or resets the private mode of a
-- number; a control string that ends with BEL, or with ESC and a backslash.
pub data Item : Type 0 where
  byte two_bytes : ℕ → Item
  control : Text → Text → ℕ → Item
  private_mode : Text → ℕ → Item
  control_string : ℕ → Text → Bool → Item

abbrev pub bytes_of : Item → Text
bytes_of (byte c) = c ∷ []
bytes_of (two_bytes c) = esc ∷ c ∷ []
bytes_of (control params between last) = esc ∷ b'[' ∷ (params ++ (between ++ last ∷ []))
bytes_of (private_mode digits last) = esc ∷ b'[' ∷ b'?' ∷ (digits ++ last ∷ [])
bytes_of (control_string intro body true) = esc ∷ intro ∷ (body ++ bel ∷ [])
bytes_of (control_string intro body false) = esc ∷ intro ∷ (body ++ esc ∷ 92 ∷ [])

abbrev pub IsIn : ℕ → ℕ → ℕ → Type 0
IsIn lo hi c = (lo ≤ c) × (c ≤ hi)

-- the number that digits spell, after those that make `n`
abbrev pub number : ℕ → Text → ℕ
number n [] = n
number n (d ∷ ds) = number (n * 10 + (d - b'0')) ds

-- The first parameter of a control sequence is not private.
abbrev pub IsPublic : Text → Type 0
IsPublic [] = Unit
IsPublic (c ∷ s) = (c == b'?') ≡ false

abbrev pub IsItem : Item → Type 0
IsItem (byte c) = (c == esc) ≡ false
IsItem (two_bytes c) =
    ((c == b'[') ≡ false)
    × ((c == b']') ≡ false)
    × ((c == b'P') ≡ false)
    × ((c == b'^') ≡ false)
    × ((c == b'_') ≡ false)
IsItem (control params between last) =
    All (IsIn 48 63) params × IsPublic params × All (IsIn 32 47) between × IsIn 64 126 last
IsItem (private_mode digits last) =
    All (IsIn b'0' b'9') digits × (number 0 digits < 2 ^ 64) × IsIn 64 126 last
IsItem (control_string intro body ended) =
    ((intro ≡ b']') ⊎ (intro ≡ b'P') ⊎ (intro ≡ b'^') ⊎ (intro ≡ b'_'))
    × All (λ c. ((c == bel) ≡ false) × ((c == esc) ≡ false)) body

-- The modes of the alternate screen.
abbrev pub is_alternate : ℕ → Bool
is_alternate n = n == 1049 || n == 1047 || n == 47

-- the parameter of an erasure that reaches the last row: none, or one that begins with 0, 2 or 3
abbrev pub reaches_bar : Text → Bool
reaches_bar [] = true
reaches_bar (c ∷ s) = c == b'0' || c == b'2' || c == b'3'

-- What a sequence does to the scroll region and to the bar: ESC c resets the terminal, CSI r without
-- parameters resets the scroll region, the alternate screen changes it, and CSI J erases.
abbrev pub effect : Item → ScanResult
effect (byte c) = no_result
effect (two_bytes c) = record { scroll_reset = c == b'c'; bar_erased = false }
effect (control params between last) = record {
  scroll_reset = last == b'r' && is_empty params;
  bar_erased = last == b'J' && reaches_bar params;
}
effect (private_mode digits last) = record {
  scroll_reset = (last == b'h' || last == b'l') && is_alternate (number 0 digits);
  bar_erased = false;
}
effect (control_string intro body ended) = no_result

abbrev pub all_bytes_of : List Item → Text
all_bytes_of [] = []
all_bytes_of (i ∷ is) = bytes_of i ++ all_bytes_of is

abbrev pub effects : List Item → ScanResult
effects [] = no_result
effects (i ∷ is) = or_result (effect i) (effects is)
