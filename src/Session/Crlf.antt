-- ===== src/Session/Crlf.antt =====
-- session/session.go: the line endings of what the daemon itself writes to a raw terminal.
pub mod Normal
use vibepit.Prelude.{ℕ, ◌==◌, ◌&&◌, List, [], ◌∷◌, Text, if◌then◌else◌}

abbrev pub cr : ℕ
cr = 13

abbrev pub lf : ℕ
lf = 10

-- bytes.ReplaceAll(b, "\r\n", "\n")
unfoldable pub collapse : Text → Text
collapse [] = []
collapse (c ∷ []) = c ∷ []
collapse (c ∷ d ∷ s) =
    let rest = collapse (d ∷ s) in
    let after = collapse s in if c == cr && d == lf then lf ∷ after else c ∷ rest

-- bytes.ReplaceAll(b, "\n", "\r\n")
unfoldable pub expand : Text → Text
expand [] = []
expand (c ∷ s) = let rest = expand s in if c == lf then cr ∷ lf ∷ rest else c ∷ rest

unfoldable pub to_crlf : Text → Text
to_crlf b = expand (collapse b)
