-- ===== src/Sshd/ShellEscape.antt =====
-- sshd/shell_escape.go: the quoting of an argument for a shell.
pub mod Words
use vibepit.Prelude.{
  ℕ, ◌==◌, ◌&&◌, ◌||◌, Bool, true, false, List, [], ◌∷◌, ◌++◌, Text, is_empty, leb, if◌then◌else◌,
}

abbrev pub quote : ℕ
quote = 39

abbrev pub backslash : ℕ
backslash = 92

-- a byte that needs no quotes
unfoldable pub is_safe : ℕ → Bool
is_safe c =
    (leb b'a' c && leb c b'z')
    || (leb b'A' c && leb c b'Z')
    || (leb b'0' c && leb c b'9')
    || c == b'-'
    || c == b'_'
    || c == b'.'
    || c == b'/'
    || c == b':'
    || c == b','
    || c == b'+'
    || c == b'='

unfoldable pub all_safe : Text → Bool
all_safe [] = true
all_safe (c ∷ s) = if is_safe c then all_safe s else false

-- strings.ReplaceAll(s, "'", "'\\''")
unfoldable pub escape_quotes : Text → Text
escape_quotes [] = []
escape_quotes (c ∷ s) =
    let rest = escape_quotes s in
    if c == quote then quote ∷ backslash ∷ quote ∷ quote ∷ rest else c ∷ rest

unfoldable pub shell_escape : Text → Text
shell_escape s =
    if is_empty s
    then quote ∷ quote ∷ []
    else if all_safe s
    then s
    else quote ∷ (escape_quotes s ++ quote ∷ [])
