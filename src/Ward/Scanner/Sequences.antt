-- ===== src/Ward/Scanner/Sequences.antt =====
-- The scanner reads the sequences of the output whole (ward/scanner.go).
use vibepit.Prelude.{◌≡◌, true, false, List, [], ◌∷◌, Text}
use vibepit.Ward.Scanner.{Scanner, scan_byte, scan, in_ground}
use vibepit.Ward.Scanner.Items.{Item, bytes_of}

-- Before every byte of the text the scanner is inside a sequence.
abbrev pub IsInside : Scanner → Text → Type 0
IsInside s [] = Unit
IsInside s (b ∷ t) = (in_ground s ≡ false) × IsInside (scan_byte s b).0 t

-- The scanner is in ground before the text, and inside a sequence before each of its later bytes.
abbrev pub IsWhole : Scanner → Text → Type 0
IsWhole s [] = Unit
IsWhole s (b ∷ t) = (in_ground s ≡ true) × IsInside (scan_byte s b).0 t

-- The scanner is in ground exactly between the items.
abbrev pub IsAligned : Scanner → List Item → Type 0
IsAligned s [] = in_ground s ≡ true
IsAligned s (i ∷ is) = IsWhole s (bytes_of i) × IsAligned (scan s (bytes_of i)).0 is
