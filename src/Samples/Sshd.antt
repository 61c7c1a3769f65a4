-- ===== src/Samples/Sshd.antt =====
-- Runs of the quoting for a shell (sshd/shell_escape.go).
use vibepit.Prelude.{◌≡◌, refl, some, codes, is_empty}
use vibepit.Sshd.ShellEscape.{shell_escape, all_safe, is_safe, escape_quotes}
use vibepit.Sshd.ShellEscape.Words.{read_word, plain, read_word-shell_escape}

read_word-shell_escape_example :
    read_word plain (shell_escape (codes "it's; x")) ≡ some (codes "it's; x")
read_word-shell_escape_example = read_word-shell_escape (codes "it's; x")

quoted_form : shell_escape (codes "it's") ≡ codes "'it'\\''s'"
unfolding shell_escape all_safe is_safe escape_quotes is_empty
quoted_form = refl
