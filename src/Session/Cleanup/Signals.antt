-- ===== src/Session/Cleanup/Signals.antt =====
-- Which processes get a signal when a shell is gone (session/cleanup.go).
use vibepit.Prelude.{
  ℕ, ◌+◌, ◌≡◌, ◌≤◌, ◌<◌, refl, ap, sym, subst, true, false, List, [], ◌∷◌, ◌++◌, All, Any,
  All-append, Any-append_left, Any-append_right, Bool-cases, inl, inr, arith, ℤ, pos, int_eq,
  is_empty,
}
use vibepit.Session.Cleanup.{
  Stat, ProcInfo, Scan, info, find_processes, Signal, terminate_group, kill_process, is_killed,
  terminate, kill_rounds, cleanup_descendants,
}
use vibepit.Session.Cleanup.Scans.{Runs, Found, find_processes-Found, find_all, Runs-belongs}
use vibepit.Session.Cleanup.Sent.{
  terminate_targets, terminate_reaches, some_busy, rounds_reach, rounds_targets,
}

-- What a signal may go to: a group of a process of the first scan, but group 0; a process of a scan
-- that came after it, of which there are at most five.
abbrev pub Target : ℤ → ℤ → ℤ → (ℕ → Scan) → Signal → Type 0
Target sid shell self files (terminate_group g) =
    (int_eq g (pos 0) ≡ false) × (s : Stat) × Runs sid shell self (files 0) s × (g ≡ s.pgid)
Target sid shell self files (kill_process p) =
    (i : ℕ) × (s : Stat) × (1 ≤ i) × (i ≤ 5) × Runs sid shell self (files i) s × (p ≡ s.pid)

-- What the signals do: each goes to a target; each process of the first scan whose group is not 0 gets
-- its group terminated; and in the five rounds, as long as every scan shows a process, each process
-- of the round is killed.
pub record Cleans (sid shell self : ℤ) (files : ℕ → Scan) (signals : List Signal) : Type 0 where
  pub targets : All (Target sid shell self files) signals
  pub groups :
      (s : Stat)
      → Runs sid shell self (files 0) s
      → int_eq s.pgid (pos 0) ≡ false
      → Any (λ x. x ≡ terminate_group s.pgid) signals
  pub survivors :
      (j : ℕ) (s : Stat)
      → j < 5
      → ((m : ℕ) → m ≤ j → (t : Stat) × Runs sid shell self (files m) t)
      → Runs sid shell self (files (j + 1)) s
      → Any (λ x. x ≡ kill_process s.pid) signals

some_group :
    (s : Stat) (ps : List ProcInfo) → Any (λ p. p ≡ info s) ps → Any (λ p. p.pgid ≡ s.pgid) ps
some_group s [] at = absurd at
some_group s (p ∷ ps) (inl here) = inl (ap (λ q. q.pgid) here)
some_group s (p ∷ ps) (inr at) = inr (some_group s ps at)

module _ (sid shell self : ℤ) (files : ℕ → Scan) where
  scan : ℕ → List ProcInfo
  scan i = find_processes sid shell self (files i)

  shows : (i : ℕ) (s : Stat) → Runs sid shell self (files i) s → Any (λ p. p ≡ info s) (scan i)
  unfolding scan
  shows i s r =
      find_all sid shell self s (files i) (Runs-belongs sid shell self (files i) s r) r.shown

  busy_scan : (i : ℕ) → ((t : Stat) × Runs sid shell self (files i) t) → is_empty (scan i) ≡ false
  busy_scan i t = some_busy t.0 (scan i) (shows i t.0 t.1)

  started :
      is_empty (scan 0) ≡ false
      → cleanup_descendants shell sid self files ≡ terminate [] (scan 0) ++ kill_rounds scan 5 1
  unfolding scan cleanup_descendants
  started busy = rw busy refl

  idle : is_empty (scan 0) ≡ true → cleanup_descendants shell sid self files ≡ []
  unfolding scan cleanup_descendants
  idle empty = rw empty refl

  started_by :
      (s : Stat)
      → Runs sid shell self (files 0) s
      → cleanup_descendants shell sid self files ≡ terminate [] (scan 0) ++ kill_rounds scan 5 1
  started_by s r = started (busy_scan 0 (s, r))

  signal_targets : All (Target sid shell self files) (terminate [] (scan 0) ++ kill_rounds scan 5 1)
  unfolding scan
  signal_targets =
      let T = Target sid shell self files in
      All-append T (terminate [] (scan 0)) (kill_rounds scan 5 1)
        (terminate_targets (Found sid shell self (files 0)) T
          (λ p f named. (named, f.0, f.1, ap (λ q. q.pgid) f.2)) [] (scan 0)
          (find_processes-Found sid shell self (files 0)))
        (rounds_targets (λ i. Found sid shell self (files i)) T 5
          (λ i p lo hi f. (i, f.0, lo, hi, f.1, ap (λ q. q.pid) f.2)) scan
          (λ i. find_processes-Found sid shell self (files i)) 5 1 (omega arith) refl)

  reached :
      (s : Stat)
      → Runs sid shell self (files 0) s
      → int_eq s.pgid (pos 0) ≡ false
      → Any (λ x. x ≡ terminate_group s.pgid) (terminate [] (scan 0))
  unfolding is_killed
  reached s r named =
      elim (terminate_reaches s.pgid [] (scan 0) named (some_group s (scan 0) (shows 0 s r))) [
        | inl before ↦ ground arith
        | inr sent ↦ sent
      ]

  -- Every signal goes to the group, which is not 0, of a process of the session in the first scan, or
  -- to such a process of a later scan; the shell and the program itself are no such processes. Every
  -- such process of the first scan with a group gets its group terminated, and one that is still
  -- there in a round is killed, as long as no scan before came up empty.
  pub cleanup_descendants-Cleans :
      Cleans sid shell self files (cleanup_descendants shell sid self files)
  cleanup_descendants-Cleans = record {
    targets = elim (Bool-cases (is_empty (scan 0))) [
      | inl empty ↦ subst (All (Target sid shell self files)) (sym (idle empty)) tt
      | inr busy ↦ subst (All (Target sid shell self files)) (sym (started busy)) signal_targets
    ];
    groups = λ s r named.
        subst (Any (λ x. x ≡ terminate_group s.pgid)) (sym (started_by s r))
          (Any-append_left (λ x. x ≡ terminate_group s.pgid) _ _ (reached s r named));
    survivors = λ j s lt alive r.
        let first = alive 0 (omega arith) in
        let busy : (m : ℕ) → m < j → is_empty (scan (m + 1)) ≡ false =
          λ m le. busy_scan (m + 1) (alive (m + 1) (let q = le in omega (arith, q))) in
        subst (Any (λ x. x ≡ kill_process s.pid)) (sym (started_by first.0 first.1)) (
          Any-append_right (λ x. x ≡ kill_process s.pid) _ _
            (rounds_reach scan s 5 j 1 lt busy (shows (j + 1) s r)));
  }
