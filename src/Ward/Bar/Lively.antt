-- ===== src/Ward/Bar/Lively.antt =====
-- The bar keeps its queue bounded, and something always ends what it shows (ward/wrapper.go).
use vibepit.Prelude.{
  ℕ, ◌≡◌, ◌≤◌, refl, Option, none, some, List, [], ◌∷◌, ◌++◌, Text, length, length-append,
  length-drop, ◌==◌, ◌&&◌, arith, inl, inr, Bool-cases,
}
use vibepit.Ward.Bar.{
  StatusUpdate, BarLoop, command_none, command_active, start, show_alert, show_next_of,
  exit_command_mode, restore_of, ActionResult, message_result, error_result, Event, status_event,
  alert_event, dismiss_event, enter_command, begin_action, cancel_command, action_event, is_idle,
  make_room, on_status, on_alert, on_dismiss, on_enter, on_begin, begins, after_action, on_action,
  on_cancel, handle, handle_all, max_alert_queue, is_none, is_pending,
}

-- The queue is bounded; outside command mode, a dismiss timer is armed unless no alert is active
-- and none is queued; in command mode, the idle timer is armed until an action begins.
pub record IsLively (b : BarLoop) : Type 0 where
  pub bounded : length b.queue ≤ max_alert_queue
  pub armed : b.cmd ≡ command_none → b.dismiss ≡ none → (b.active ≡ none) × (b.queue ≡ [])
  pub idles : b.cmd ≡ command_active → b.idle ≡ some b.gen

show_next-IsLively :
    (now : ℕ) (b : BarLoop) (q : List StatusUpdate)
    → b.queue ≡ q
    → b.active ≡ none
    → length q ≤ max_alert_queue
    → (b.cmd ≡ command_active → b.idle ≡ some b.gen)
    → IsLively (show_next_of now b q)
unfolding show_next_of show_alert
show_next-IsLively now b (next ∷ rest) e a l i = record {
  bounded = omega (arith, l);
  armed = λ c d. cc;
  idles = i;
}
show_next-IsLively now b [] e a l i = record {
  bounded = ground (arith, e);
  armed = λ c d. (a, e);
  idles = i;
}

make_room-bounded :
    (q : List StatusUpdate) (su : StatusUpdate)
    → length q ≤ max_alert_queue
    → length (make_room q ++ su ∷ []) ≤ max_alert_queue
make_room-bounded q su h = ground (arith, h, length-append (make_room q) (su ∷ []), length-drop 1 q)

module _ (now : ℕ) (b : BarLoop) (v : IsLively b) where
  on_status-IsLively : (msg : Text) → IsLively (on_status msg b)
  unfolding on_status
  on_status-IsLively msg = record { bounded = v.bounded; armed = v.armed; idles = v.idles }

  on_alert-IsLively : (su : StatusUpdate) → IsLively (on_alert now su b)
  unfolding on_alert show_alert
  on_alert-IsLively su = elim (Bool-cases (is_idle b)) [
    | inl e ↦ rw e (record { bounded = v.bounded; armed = λ c d. cc; idles = v.idles })
    | inr e ↦ rw e (record {
      bounded = make_room-bounded b.queue su v.bounded;
      armed = λ c d. absurd (let quiet = v.armed c d in ground (arith, e, c, quiet.0));
      idles = v.idles;
    })
  ]

  on_dismiss-IsLively : IsLively (on_dismiss now b)
  unfolding on_dismiss
  on_dismiss-IsLively = elim (Bool-cases (is_none b.cmd)) [
    | inl e ↦ rw e (
        show_next-IsLively now (record b { dismiss = none; active = none }) b.queue refl refl
          v.bounded v.idles)
    | inr e ↦ rw e (record {
      bounded = v.bounded;
      armed = λ c d. absurd (ground (arith, e, c));
      idles = v.idles;
    })
  ]

  on_enter-IsLively : IsLively (on_enter now b)
  unfolding on_enter
  on_enter-IsLively = record { bounded = v.bounded; armed = λ c d. cc; idles = λ c. refl }

  on_begin-IsLively : (g : ℕ) → IsLively (on_begin g b)
  unfolding on_begin
  on_begin-IsLively g = elim (Bool-cases (begins g b)) [
    | inl e ↦ rw e (record { bounded = v.bounded; armed = λ c d. cc; idles = λ c. cc })
    | inr e ↦ rw e v
  ]

  after_action-IsLively : (r : ActionResult) → IsLively (after_action now (exit_command_mode b) r)
  unfolding after_action exit_command_mode show_alert
  after_action-IsLively (error_result msg) = record {
    bounded = v.bounded;
    armed = λ c d. cc;
    idles = λ c. cc;
  }
  after_action-IsLively (message_result []) =
      show_next-IsLively now (record (exit_command_mode b) { active = none }) b.queue refl refl
        v.bounded (λ c. cc)
  after_action-IsLively (message_result (c ∷ msg)) = record {
    bounded = v.bounded;
    armed = λ x d. cc;
    idles = λ x. cc;
  }

  on_action-IsLively : (g : ℕ) (r : ActionResult) → IsLively (on_action now g r b)
  unfolding on_action
  on_action-IsLively g r = elim (Bool-cases (is_pending b.cmd && g == b.gen)) [
    | inl e ↦ rw e (after_action-IsLively r)
    | inr e ↦ rw e v
  ]

  restore-IsLively :
      (a : Option StatusUpdate) → b.active ≡ a → IsLively (restore_of now (exit_command_mode b) a)
  unfolding restore_of exit_command_mode show_alert
  restore-IsLively (some su) e = record {
    bounded = v.bounded;
    armed = λ c d. absurd (ground (arith, d));
    idles = λ c. cc;
  }
  restore-IsLively none e =
      show_next-IsLively now (exit_command_mode b) b.queue refl e v.bounded (λ c. cc)

  on_cancel-IsLively : (g : ℕ) → IsLively (on_cancel now g b)
  unfolding on_cancel
  on_cancel-IsLively g = elim (Bool-cases (begins g b)) [
    | inl e ↦ rw e (restore-IsLively b.active refl)
    | inr e ↦ rw e v
  ]

  handle-IsLively : (e : Event) → IsLively (handle now e b).0
  unfolding handle
  handle-IsLively (status_event msg) = on_status-IsLively msg
  handle-IsLively (alert_event su) = on_alert-IsLively su
  handle-IsLively dismiss_event = on_dismiss-IsLively
  handle-IsLively enter_command = on_enter-IsLively
  handle-IsLively (begin_action g) = on_begin-IsLively g
  handle-IsLively (action_event g r) = on_action-IsLively g r
  handle-IsLively (cancel_command g) = on_cancel-IsLively g

-- Whatever events have come in whatever order: at most 64 alerts are queued; outside command mode a
-- dismiss timer is armed whenever an alert is active or queued; and in command mode, until an
-- action begins, the idle timer is armed with the generation that it will cancel.
pub handle_all-IsLively :
    (es : List (ℕ × Event)) (b : BarLoop) → IsLively b → IsLively (handle_all es b)
unfolding handle_all
handle_all-IsLively [] b v = v
handle_all-IsLively ((now, e) ∷ es) b v =
    handle_all-IsLively es (handle now e b).0 (handle-IsLively now b v e)

pub start-IsLively : IsLively start
start-IsLively = record { bounded = omega arith; armed = λ c d. (refl, refl); idles = λ c. cc }
