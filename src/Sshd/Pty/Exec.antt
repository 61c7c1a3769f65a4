-- ===== src/Sshd/Pty/Exec.antt =====
-- A command without a terminal is in the table of the server while it runs (sshd/server.go).
use vibepit.Prelude.{
  ℕ, ◌+◌, ◌%◌, ◌^◌, ◌≡◌, ◌≤◌, ◌<◌, refl, ap, ◌∙◌, false, Option, none, some, List, [], ◌∷◌, Text,
  All, ◌==◌, arith, Bool-cases, inl, inr, ==_iff, is_empty,
}
use native.Mathlib.Nat.{mod-eq_of_lt}
use vibepit.Sshd.Pty.{
  Server, RunResult, finished, not_run, register_exec, deregister_exec, delete, run_exec,
  handle_exec_session,
}
use vibepit.Sshd.Pty.Finish.{exit_codes}

-- No identifier in the table is ahead of the counter.
abbrev pub IsCounted : Server → Type 0
IsCounted s = All (λ e. e.0 ≤ s.exec_counter) s.exec_sessions

delete_fresh : (id : ℕ) (m : List (ℕ × Text)) → All (λ e. e.0 < id) m → delete id m ≡ m
unfolding delete
delete_fresh id [] h = refl
delete_fresh id ((k, v) ∷ m) h =
    let other : (k == id) ≡ false = let l = h.0 in ground arith in
    rw other (ap (λ u. (k, v) ∷ u) (delete_fresh id m h.1))

below : (n : ℕ) (m : List (ℕ × Text)) → All (λ e. e.0 ≤ n) m → All (λ e. e.0 < n + 1) m
below n [] h = tt
below n (e ∷ m) h = (let l = h.0 in omega (arith, l), below n m h.1)

delete_new : (id : ℕ) (v : Text) (m : List (ℕ × Text)) → delete id ((id, v) ∷ m) ≡ delete id m
unfolding delete
delete_new id v m = rw ((==_iff id id).1 refl) refl

deregister-register_exec :
    (s : Server) (command : Text)
    → IsCounted s
    → s.exec_counter + 1 < 2 ^ 64
    → (deregister_exec
        (register_exec s command)
        (register_exec s command).exec_counter).exec_sessions
      ≡ s.exec_sessions
unfolding register_exec deregister_exec
deregister-register_exec s command h room =
    let id = (s.exec_counter + 1) % 2 ^ 64 in
    delete_new id command s.exec_sessions
    ∙ ap (λ i. delete i s.exec_sessions) (mod-eq_of_lt room)
    ∙ delete_fresh (s.exec_counter + 1) s.exec_sessions (below s.exec_counter s.exec_sessions h)

run_exec_once :
    (command : Text) (pipe : Option Text) (result : RunResult)
    → (code : ℕ) × (exit_codes (run_exec command pipe result) ≡ code ∷ [])
unfolding run_exec exit_codes
run_exec_once command (some e) result = (1, refl)
run_exec_once command none (finished code) = (_, refl)
run_exec_once command none (not_run e) = (1, refl)

-- The table of the server is as it was once the command has ended, and there is one exit status.
handle_exec_session_lem :
    (s : Server) (command : Text) (pipe : Option Text) (result : RunResult)
    → IsCounted s
    → s.exec_counter + 1 < 2 ^ 64
    → ((handle_exec_session s command pipe result).1.exec_sessions ≡ s.exec_sessions)
      × (code : ℕ) × (exit_codes (handle_exec_session s command pipe result).2 ≡ code ∷ [])
unfolding handle_exec_session
handle_exec_session_lem s command pipe result h room = elim (Bool-cases (is_empty command)) [
  | inl e ↦ rw e (refl, 1, unfold exit_codes in refl)
  | inr e ↦
      let once = run_exec_once command pipe result in
      rw e (deregister-register_exec s command h room, once.0, once.1)
]
