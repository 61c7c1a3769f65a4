-- ===== src/Ward/Command/Modes.antt =====
-- What other events leave of the command mode of the event loop (ward/wrapper.go).
use vibepit.Prelude.{
  ℕ, ◌≡◌, ◌⊎◌, inl, inr, refl, sym, ap, ap₂, ◌∙◌, true, false, ◌&&◌, ◌==◌, Option, none, some, List,
  [], ◌∷◌, Bool-cases, All, &&_iff, ==_iff,
}
use vibepit.Ward.Bar.{
  BarLoop, StatusUpdate, CommandState, command_none, command_active, command_pending, ActionResult,
  message_result, error_result, Event, status_event, alert_event, dismiss_event, enter_command,
  begin_action, cancel_command, action_event, show_alert, show_next_of, exit_command_mode,
  restore_of, is_none, is_active, is_idle, on_status, on_alert, on_dismiss, begins, after_action,
  on_cancel, handle, handle_all,
}

-- An event that the input does not send itself; the timer of command mode sends a cancellation.
abbrev pub IsForeign : Event → Type 0
IsForeign (status_event t) = Unit
IsForeign (alert_event su) = Unit
IsForeign dismiss_event = Unit
IsForeign enter_command = ⊥
IsForeign (begin_action g) = ⊥
IsForeign (cancel_command g) = Unit
IsForeign (action_event g r) = ⊥

-- The command mode is the same.
abbrev pub Same : BarLoop → BarLoop → Type 0
Same b c = (c.gen ≡ b.gen) × (c.cmd ≡ b.cmd) × (c.cancellable ≡ b.cancellable)

-- The command mode is off, and its context is cancelled.
abbrev pub IsOff : BarLoop → Type 0
IsOff b = (b.cmd ≡ command_none) × (b.cancellable ≡ false)

-- It is the same, or it was on and is off.
abbrev pub Moves : BarLoop → BarLoop → Type 0
Moves b c = Same b c ⊎ ((c.gen ≡ b.gen) × (b.cmd ≡ command_active) × IsOff c)

show_next-Same : (now : ℕ) (b : BarLoop) (q : List StatusUpdate) → Same b (show_next_of now b q)
unfolding show_next_of show_alert
show_next-Same now b [] = (refl, refl, refl)
show_next-Same now b (su ∷ q) = (refl, refl, refl)

restore-Same : (now : ℕ) (b : BarLoop) (a : Option StatusUpdate) → Same b (restore_of now b a)
unfolding restore_of show_alert
restore-Same now b none = show_next-Same now b b.queue
restore-Same now b (some su) = (refl, refl, refl)

is_active_lem : (c : CommandState) → is_active c ≡ true → c ≡ command_active
is_active_lem command_none h = absurd cc
is_active_lem command_active h = refl
is_active_lem command_pending h = absurd cc

pub begins-true : (g : ℕ) (b : BarLoop) → begins g b ≡ true → (b.cmd ≡ command_active) × (g ≡ b.gen)
begins-true g b h =
    let both = (&&_iff (is_active b.cmd) (g == b.gen)).0 h in
    (is_active_lem b.cmd both.0, (==_iff g b.gen).0 both.1)

pub exit-IsOff : (b : BarLoop) → IsOff (exit_command_mode b)
unfolding exit_command_mode
exit-IsOff b = (refl, refl)

Same-IsOff : (b c : BarLoop) → Same b c → IsOff b → IsOff c
Same-IsOff b c s o = (s.1 ∙ o.0, s.2 ∙ o.1)

pub begins_on : (g : ℕ) (b : BarLoop) → b.cmd ≡ command_active → b.gen ≡ g → begins g b ≡ true
begins_on g b e f = ap₂ (λ c n. is_active c && g == n) e f ∙ ((==_iff g g).1 refl)

pub begins_off : (g : ℕ) (b : BarLoop) → b.cmd ≡ command_none → begins g b ≡ false
begins_off g b e = ap (λ c. is_active c && g == b.gen) e

pub cancel_on : (now g : ℕ) (b : BarLoop) → begins g b ≡ true → IsOff (on_cancel now g b)
unfolding on_cancel
cancel_on now g b t =
    let s = restore-Same now (exit_command_mode b) b.active in
    simp t (
      Same-IsOff (exit_command_mode b) (restore_of now (exit_command_mode b) b.active) s
        (exit-IsOff b))

pub cancel_off : (now g : ℕ) (b : BarLoop) → begins g b ≡ false → on_cancel now g b ≡ b
unfolding on_cancel
cancel_off now g b t = simp t refl

-- a cancellation of the current generation
pub cancel-Moves : (now g : ℕ) (b : BarLoop) → Moves b (on_cancel now g b)
unfolding on_cancel
cancel-Moves now g b = elim (Bool-cases (begins g b)) [
  | inl t ↦
      let s = restore-Same now (exit_command_mode b) b.active in
      simp t (
        inr (
          s.0 ∙ (unfold exit_command_mode in refl),
          (begins-true g b t).0,
          Same-IsOff (exit_command_mode b) (restore_of now (exit_command_mode b) b.active) s
              (exit-IsOff b),
        ))
  | inr t ↦ simp t (inl (refl, refl, refl))
]

pub foreign-Moves : (now : ℕ) (e : Event) (b : BarLoop) → IsForeign e → Moves b (handle now e b).0
unfolding handle on_status on_alert on_dismiss
foreign-Moves now (status_event t) b f = inl (refl, refl, refl)
foreign-Moves now (alert_event su) b f = elim (Bool-cases (is_idle b)) [
  | inl t ↦ simp t (unfold show_alert in inl (refl, refl, refl))
  | inr t ↦ simp t (inl (refl, refl, refl))
]
foreign-Moves now dismiss_event b f = elim (Bool-cases (is_none b.cmd)) [
  | inl t ↦ simp t (inl (show_next-Same now (record b { dismiss = none; active = none }) b.queue))
  | inr t ↦ simp t (inl (refl, refl, refl))
]
foreign-Moves now enter_command b f = absurd f
foreign-Moves now (begin_action g) b f = absurd f
foreign-Moves now (cancel_command g) b f = cancel-Moves now g b
foreign-Moves now (action_event g r) b f = absurd f

pub Moves-Moves : (a b c : BarLoop) → Moves a b → Moves b c → Moves a c
Moves-Moves a b c (inl s) (inl t) = inl (t.0 ∙ s.0, t.1 ∙ s.1, t.2 ∙ s.2)
Moves-Moves a b c (inl s) (inr t) = inr (t.0 ∙ s.0, sym s.1 ∙ t.1, t.2)
Moves-Moves a b c (inr s) (inl t) = inr (t.0 ∙ s.0, s.1, Same-IsOff b c t s.2)
Moves-Moves a b c (inr s) (inr t) = inr (t.0 ∙ s.0, s.1, t.2)

abbrev pub AreForeign : List (ℕ × Event) → Type 0
AreForeign = All (λ e. IsForeign e.1)

pub batch-Moves : (es : List (ℕ × Event)) (b : BarLoop) → AreForeign es → Moves b (handle_all es b)
unfolding handle_all
batch-Moves [] b f = inl (refl, refl, refl)
batch-Moves ((now, e) ∷ es) b f =
    Moves-Moves b (handle now e b).0 (handle_all es (handle now e b).0) (foreign-Moves now e b f.0)
      (batch-Moves es (handle now e b).0 f.1)

pub after_action-IsOff :
    (now : ℕ) (b : BarLoop) (r : ActionResult) → IsOff b → IsOff (after_action now b r)
unfolding after_action show_alert
after_action-IsOff now b (error_result t) o = o
after_action-IsOff now b (message_result []) o =
    Same-IsOff (record b { active = none }) (show_next_of now (record b { active = none }) b.queue)
      (show_next-Same now (record b { active = none }) b.queue) o
after_action-IsOff now b (message_result (c ∷ t)) o = o
