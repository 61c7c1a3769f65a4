-- ===== src/Samples/Cleanup.antt =====
-- Runs of the cleanup of a session's processes (session/cleanup.go).
use vibepit.Prelude.{
  ◌≡◌, refl, arith, Option, none, some, [], ◌∷◌, codes, Text, is_empty, last_index, parse_int,
  positive, digits_value, pos, ◌++◌, ℕ, suc, zero,
}
use vibepit.Session.Cleanup.{
  Scan, parse_proc_stat, find_processes, terminate_group, kill_process, cleanup_descendants,
  keep_process, stat_of, belongs, terminate, is_killed, kill_rounds, words, add_byte, cut_space,
  parse_ids,
}
use vibepit.Session.Cleanup.StatLine.{Line, render, IsLine, parse_proc_stat-render}
use vibepit.Session.Cleanup.Signals.{Cleans, cleanup_descendants-Cleans}

-- the name has spaces and parentheses
abbrev odd_line : Line
odd_line = record {
  pid = codes "12";
  comm = codes "a) S 1 (b c";
  state = codes "S";
  ppid = codes "1";
  pgid = codes "11";
  sid = codes "7";
  more = codes "0 -1";
}

odd_line_words : IsLine odd_line
odd_line_words = record {
  pid = (omega arith, ((refl, refl), ((refl, refl), tt)));
  state = (omega arith, ((refl, refl), tt));
  ppid = (omega arith, ((refl, refl), tt));
  pgid = (omega arith, ((refl, refl), ((refl, refl), tt)));
  sid = (omega arith, ((refl, refl), tt));
  more = (refl, (refl, (refl, (refl, tt))));
}

parse_proc_stat-render_example :
    parse_proc_stat (render odd_line) ≡ some (record { pid = pos 12; pgid = pos 11; sid = pos 7 })
unfolding parse_int positive digits_value
parse_proc_stat-render_example = parse_proc_stat-render odd_line odd_line_words

-- a line of the session 7: a process and its group
abbrev line_of : ℕ → ℕ → Option Text
line_of p g = some (p ∷ codes " (sh) S 1 " ++ g ∷ codes " 7 0")

-- the shell 7, two processes of a group, one of another and a file that is gone; then one is left
abbrev scans : ℕ → Scan
scans zero =
    line_of b'7' b'7' ∷ line_of b'4' b'3' ∷ none ∷ line_of b'5' b'3' ∷ line_of b'6' b'6' ∷ []
scans (suc zero) = line_of b'7' b'7' ∷ line_of b'5' b'3' ∷ []
scans (suc (suc n)) = []

cleanup_descendants_run :
    cleanup_descendants (pos 7) (pos 7) (pos 1) scans
    ≡ terminate_group (pos 3) ∷ terminate_group (pos 6) ∷ kill_process (pos 5) ∷ []
unfolding cleanup_descendants is_empty find_processes keep_process stat_of parse_proc_stat
    last_index cut_space parse_int positive digits_value parse_ids words add_byte belongs terminate
    is_killed kill_rounds
cleanup_descendants_run = refl

cleanup_descendants-Cleans_example :
    Cleans (pos 7) (pos 7) (pos 1) scans (cleanup_descendants (pos 7) (pos 7) (pos 1) scans)
cleanup_descendants-Cleans_example = cleanup_descendants-Cleans (pos 7) (pos 7) (pos 1) scans
