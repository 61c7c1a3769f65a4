-- ===== src/Sshd/Pty/Finish.antt =====
-- Every session with a terminal ends once, and gives back its place (sshd/server.go).
use vibepit.Prelude.{
  ℕ, ◌≡◌, ◌↔◌, ◌⊎◌, inl, inr, refl, ap, ◌∙◌, false, Option, none, some, List, [], ◌∷◌, Text, Result,
  ok, err, is_empty, arith, Bool-cases, Option-cases, Result-cases,
}
use vibepit.Session.Client.{
  DetachReason, detach_none, detach_disconnect, detach_keepalive, detach_slow_consumer, label,
}
use vibepit.Tui.Selector.{Choice, new_session, session}
use vibepit.Sshd.Pty.{
  PtySize, clamp_pty_size, detach_exit_code, pty_env, Action, conn_up, conn_down, close_client,
  says, logs, runs, attaches, exits, finish_pty, fail_pty, attach_pty, create_pty, open_pty,
  select_pty, handle_pty_session,
}

pub data Mark : Type 0 where
  counted attached_to uncounted closed exited : Mark

-- The connection is given back and the status is sent, after the attachment if there is one, whose
-- client is closed in between.
abbrev pub Gives : {A : Type 0} → List A → List Mark → Type 0
Gives [] ms = ms ≡ uncounted ∷ exited ∷ []
Gives (a ∷ more) ms = (more ≡ []) × (ms ≡ attached_to ∷ uncounted ∷ closed ∷ exited ∷ [])

module _ {A : Type 0} where
  -- What the actions do to the count of connections and to the session, in their order; the sessions
  -- that they attach to; and their exits.
  unfoldable pub marks : List (Action A) → List Mark
  marks [] = []
  marks (conn_up ∷ xs) = counted ∷ marks xs
  marks (conn_down ∷ xs) = uncounted ∷ marks xs
  marks (close_client ∷ xs) = closed ∷ marks xs
  marks (says t ∷ xs) = marks xs
  marks (logs t ∷ xs) = marks xs
  marks (runs t ∷ xs) = marks xs
  marks (attaches a size ∷ xs) = attached_to ∷ marks xs
  marks (exits code ∷ xs) = exited ∷ marks xs

  unfoldable pub attached : List (Action A) → List A
  attached [] = []
  attached (conn_up ∷ xs) = attached xs
  attached (conn_down ∷ xs) = attached xs
  attached (close_client ∷ xs) = attached xs
  attached (says t ∷ xs) = attached xs
  attached (logs t ∷ xs) = attached xs
  attached (runs t ∷ xs) = attached xs
  attached (attaches a size ∷ xs) = a ∷ attached xs
  attached (exits code ∷ xs) = attached xs

  unfoldable pub exit_codes : List (Action A) → List ℕ
  exit_codes [] = []
  exit_codes (conn_up ∷ xs) = exit_codes xs
  exit_codes (conn_down ∷ xs) = exit_codes xs
  exit_codes (close_client ∷ xs) = exit_codes xs
  exit_codes (says t ∷ xs) = exit_codes xs
  exit_codes (logs t ∷ xs) = exit_codes xs
  exit_codes (runs t ∷ xs) = exit_codes xs
  exit_codes (attaches a size ∷ xs) = exit_codes xs
  exit_codes (exits code ∷ xs) = code ∷ exit_codes xs

detach_exit_code_iff : (r : DetachReason) → (detach_exit_code r ≡ 0) ↔ (r ≡ detach_none)
unfolding detach_exit_code
detach_exit_code_iff detach_none = (λ h. refl, λ h. refl)
detach_exit_code_iff detach_disconnect = (λ h. absurd (omega (arith, h)), λ h. absurd cc)
detach_exit_code_iff detach_keepalive = (λ h. absurd (omega (arith, h)), λ h. absurd cc)
detach_exit_code_iff detach_slow_consumer = (λ h. absurd (omega (arith, h)), λ h. absurd cc)

module _ {A : Type 0} (create : PtySize → List Text → Result Text A) (get : Text → Option A)
    (select : List Text → Result Text (Option (Choice Text))) (reason_of : A → DetachReason) where
  -- The handler is attached to one session, and its output ended with the shell.
  abbrev pub IsShellEnd : List A → Type 0
  IsShellEnd xs = (a : A) × (xs ≡ a ∷ []) × (reason_of a ≡ detach_none)

  -- The connection, which is counted already, is given back, and there is one exit status, 0 if the
  -- user quit (`quits`) or the shell ended, and only then.
  pub record Ends (quits : Type 0) (acts : List (Action A)) : Type 0 where
    pub code : ℕ
    pub given : Gives (attached acts) (marks acts)
    pub once : exit_codes acts ≡ code ∷ []
    pub clean : (code ≡ 0) ↔ (quits ⊎ IsShellEnd (attached acts))

  fail-Ends :
      (quits : Type 0) (t : Text) → ¬ quits → Ends quits (fail_pty create get select reason_of t)
  unfolding fail_pty finish_pty marks exit_codes attached
  fail-Ends quits t no_quit = record {
    code = 1;
    given = refl;
    once = refl;
    clean = (
      λ h. absurd (omega (arith, h)),
      λ h. absurd (elim h [ inl q ↦ no_quit q | inr (a, e, r) ↦ cc ]),
    );
  }

  quit-Ends :
      (quits : Type 0) → quits → Ends quits (finish_pty create get select reason_of false false 0)
  unfolding finish_pty marks exit_codes attached
  quit-Ends quits q = record {
    code = 0;
    given = refl;
    once = refl;
    clean = (λ h. inl q, λ h. refl);
  }

  attach_clean :
      (quits : Type 0) (a : A)
      → ¬ quits
      → (detach_exit_code (reason_of a) ≡ 0) ↔ (quits ⊎ IsShellEnd (a ∷ []))
  attach_clean quits a no_quit = (
    λ h. inr (a, refl, (detach_exit_code_iff (reason_of a)).0 h),
    λ h. elim h [
      | inl q ↦ absurd (no_quit q)
      | inr (b, e, r) ↦
          let same : a ≡ b = cc in (detach_exit_code_iff (reason_of a)).1 (ap reason_of same ∙ r)
    ],
  )

  attach-Ends :
      (quits : Type 0) (size : PtySize) (a : A)
      → ¬ quits
      → Ends quits (attach_pty create get select reason_of size a)
  unfolding attach_pty finish_pty marks exit_codes attached
  attach-Ends quits size a no_quit = elim (Bool-cases (is_empty (label (reason_of a)))) [
    | inl e ↦ rw e (record {
      code = detach_exit_code (reason_of a);
      given = (refl, refl);
      once = refl;
      clean = attach_clean quits a no_quit;
    })
    | inr e ↦ rw e (record {
      code = detach_exit_code (reason_of a);
      given = (refl, refl);
      once = refl;
      clean = attach_clean quits a no_quit;
    })
  ]

  create-Ends :
      (quits : Type 0) (size : PtySize) (env : List Text)
      → ¬ quits
      → Ends quits (create_pty create get select reason_of size env)
  unfolding create_pty
  create-Ends quits size env no_quit = elim (Result-cases (create size env)) [
    | inl (e, m) ↦ rw (m, create_pty) (fail-Ends quits _ no_quit)
    | inr (a, m) ↦ rw (m, create_pty) (attach-Ends quits size a no_quit)
  ]

  open-Ends :
      (quits : Type 0) (size : PtySize) (id : Text)
      → ¬ quits
      → Ends quits (open_pty create get select reason_of size id)
  unfolding open_pty
  open-Ends quits size id no_quit = elim (Option-cases (get id)) [
    | inl m ↦ rw (m, open_pty) (fail-Ends quits _ no_quit)
    | inr (a, m) ↦ rw (m, open_pty) (attach-Ends quits size a no_quit)
  ]

  select-Ends :
      (quits : Type 0) (size : PtySize) (env detached : List Text)
      (chosen : Result Text (Option (Choice Text)))
      → select detached ≡ chosen
      → (quits ↔ (chosen ≡ ok none))
      → Ends quits (select_pty create get select reason_of size env detached)
  unfolding select_pty
  select-Ends quits size env detached (err e) m q =
      rw (m, select_pty) (fail-Ends quits _ (λ h. let z = q.0 h in cc))
  select-Ends quits size env detached (ok none) m q =
      rw (m, select_pty) (quit-Ends quits (q.1 refl))
  select-Ends quits size env detached (ok (some new_session)) m q =
      rw (m, select_pty) (create-Ends quits size env (λ h. let z = q.0 h in cc))
  select-Ends quits size env detached (ok (some (session id))) m q =
      rw (m, select_pty) (open-Ends quits size id (λ h. let z = q.0 h in cc))

  -- The user leaves the selector, which is shown if a session is detached, without a choice.
  abbrev pub Quits : List Text → Type 0
  Quits [] = ⊥
  Quits (d ∷ ds) = select (d ∷ ds) ≡ ok none

  -- Whatever the manager and the selector answer: the handler of a session with a terminal first counts
  -- the connection, attaches to at most one session, and then gives the connection back, closes the
  -- client if there is one, and sends one exit status, each once and in this order. The status is 0
  -- exactly if the user left the selector without a choice, or the handler attached to one session
  -- whose output ended with the shell and not because the client was detached by force.
  pub handle_pty_session-Ends :
      (env : List Text) (term colorterm : Text) (cols rows : ℕ) (detached : List Text)
      → (code : ℕ) × (rest : List Mark) × (marks
            (handle_pty_session create get select reason_of env term colorterm cols rows detached)
          ≡ counted ∷ rest)
        × Gives
            (attached (
              handle_pty_session create get select reason_of env term colorterm cols rows detached))
            rest
        × (exit_codes
              (handle_pty_session create get select reason_of env term colorterm cols rows detached)
            ≡ code ∷ [])
        × ((code ≡ 0) ↔ (
            Quits detached
            ⊎ IsShellEnd (
                attached (
                  handle_pty_session create get select reason_of env term colorterm cols rows
                    detached))))
  unfolding handle_pty_session marks exit_codes attached is_empty
  handle_pty_session-Ends env term colorterm cols rows [] =
      let e = create-Ends ⊥ (clamp_pty_size cols rows) (pty_env env term colorterm) (λ h. h) in
      (e.code, _, refl, e.given, e.once, e.clean)
  handle_pty_session-Ends env term colorterm cols rows (d ∷ ds) =
      let e =
        select-Ends (Quits (d ∷ ds)) (clamp_pty_size cols rows) (pty_env env term colorterm)
          (d ∷ ds) (select (d ∷ ds)) refl (λ h. h, λ h. h) in
      (e.code, _, refl, e.given, e.once, e.clean)
