-- ===== src/Session/Cleanup.antt =====
-- session/cleanup.go: the processes that a shell leaves behind are signalled.
pub mod StatLine
pub mod Scans
pub mod Sent
pub mod Signals
use vibepit.Prelude.{
  ℕ, zero, suc, ◌+◌, Bool, true, false, not, ◌&&◌, ◌||◌, Option, none, some, List, [], ◌∷◌, ◌++◌,
  map, Text, length, drop, get_elem?, leb, ltb, ◌==◌, if◌then◌else◌, push_first, first_index,
  last_index, take, and_then, ℤ, pos, int_eq, atoi, is_empty,
}
use vibepit.Prelude.Lines.{is_space}

-- the words of strings.Fields, on ASCII, with whether the text begins with the first one
unfoldable pub add_byte : ℕ → List Text × Bool → List Text × Bool
add_byte c (ws, joins) =
    if is_space c then (ws, false) else (if joins then push_first c ws else (c ∷ []) ∷ ws, true)

unfoldable pub words : Text → List Text × Bool
words [] = ([], false)
words (c ∷ s) = add_byte c (words s)

abbrev pub fields : Text → List Text
fields s = (words s).0

-- `strings.Cut(line, " ")` before the space, `none` where there is none
unfoldable pub cut_space : Text → Option Text
cut_space [] = none
cut_space (c ∷ s) =
    let rest : Option Text = elim (cut_space s) [ none ↦ none | some t ↦ some (c ∷ t) ] in
    if c == b' ' then some [] else rest

pub record Stat : Type 0 where
  pub pid : ℤ
  pub pgid : ℤ
  pub sid : ℤ

-- the fields after comm: state, ppid, pgid and sid
unfoldable pub parse_ids : ℤ → List Text → Option Stat
parse_ids pid (state ∷ ppid ∷ pgid ∷ sid ∷ more) =
    and_then (atoi pgid)
      (λ g. and_then (atoi sid) (λ s. some (record { pid = pid; pgid = g; sid = s })))
parse_ids pid [] = none
parse_ids pid (a ∷ []) = none
parse_ids pid (a ∷ b ∷ []) = none
parse_ids pid (a ∷ b ∷ c ∷ []) = none

-- `parseProcStat`
unfoldable pub parse_proc_stat : Text → Option Stat
parse_proc_stat line = and_then (last_index b')' line) (λ close.
    if leb (length line) (close + 2)
    then none
    else and_then (cut_space line) (λ pid_text.
      and_then (atoi pid_text) (λ pid. parse_ids pid (fields (drop (close + 2) line)))))

pub record ProcInfo : Type 0 where
  pub pid : ℤ
  pub pgid : ℤ

-- what is read from /proc, `none` for a file that cannot be read
abbrev pub Scan : Type 0
Scan = List (Option Text)

-- a process of the session, other than the shell and the program itself
unfoldable pub belongs : ℤ → ℤ → ℤ → Stat → Bool
belongs sid shell_pid self s =
    int_eq s.sid sid && not (int_eq s.pid shell_pid) && not (int_eq s.pid self)

abbrev pub info : Stat → ProcInfo
info s = record { pid = s.pid; pgid = s.pgid }

unfoldable pub stat_of : Option Text → Option Stat
stat_of file = and_then file parse_proc_stat

-- one turn of the loop, before the processes of the files that come after
unfoldable pub keep_process : ℤ → ℤ → ℤ → Option Stat → List ProcInfo → List ProcInfo
keep_process sid shell_pid self none rest = rest
keep_process sid shell_pid self (some s) rest =
    if belongs sid shell_pid self s then info s ∷ rest else rest

-- `findProcessesBySID`
unfoldable pub find_processes : ℤ → ℤ → ℤ → Scan → List ProcInfo
find_processes sid shell_pid self [] = []
find_processes sid shell_pid self (file ∷ files) =
    keep_process sid shell_pid self (stat_of file) (find_processes sid shell_pid self files)

-- SIGTERM to a process group, SIGKILL to a process
pub data Signal : Type 0 where
  terminate_group kill_process : ℤ → Signal

unfoldable pub is_killed : ℤ → List ℤ → Bool
is_killed g [] = false
is_killed g (k ∷ ks) = int_eq k g || is_killed g ks

unfoldable pub terminate : List ℤ → List ProcInfo → List Signal
terminate killed [] = []
terminate killed (p ∷ ps) =
    let same = terminate killed ps in
    let more = terminate (p.pgid ∷ killed) ps in
    if int_eq p.pgid (pos 0) || is_killed p.pgid killed then same else terminate_group p.pgid ∷ more

-- the rounds that are left, from the scan with an index on
unfoldable pub kill_rounds : (ℕ → List ProcInfo) → ℕ → ℕ → List Signal
kill_rounds scan zero i = []
kill_rounds scan (suc rounds) i =
    let rest = kill_rounds scan rounds (suc i) in
    if is_empty (scan i) then [] else map (λ p. kill_process p.pid) (scan i) ++ rest

-- `cleanupDescendants`, with what /proc holds at each scan
unfoldable pub cleanup_descendants : ℤ → ℤ → ℤ → (ℕ → Scan) → List Signal
cleanup_descendants shell_pid sid self files =
    let scan : ℕ → List ProcInfo = λ i. find_processes sid shell_pid self (files i) in
    if is_empty (scan 0) then [] else terminate [] (scan 0) ++ kill_rounds scan 5 1
