-- ===== src/Ward/Bar/Generations.antt =====
-- One entry into command mode acknowledges one action (ward/wrapper.go).
use vibepit.Prelude.{
  ℕ, ◌≡◌, ◌≢◌, refl, ap, true, false, List, [], ◌∷◌, ◌==◌, ◌&&◌, arith, inl, inr, Bool-cases, All,
}
use vibepit.Ward.Bar.{
  BarLoop, command_pending, Event, status_event, alert_event, dismiss_event, enter_command,
  begin_action, cancel_command, action_event, is_idle, show_alert, on_status, on_alert, on_dismiss,
  on_begin, begins, on_action, on_cancel, handle, handle_all, is_none, is_pending, ack,
}

-- The event neither enters command mode nor is the result of the action of generation `g`.
abbrev pub IsOther : ℕ → Event → Type 0
IsOther g enter_command = ⊥
IsOther g (action_event h r) = h ≢ g
IsOther g _ = Unit

abbrev pub IsPending : ℕ → BarLoop → Type 0
IsPending g b = (b.cmd ≡ command_pending) × (b.gen ≡ g)

module _ (g now : ℕ) (b : BarLoop) (p : IsPending g b) where
  pending_begin : (h : ℕ) → begins h b ≡ false
  pending_begin h = ground (arith, p.0)

  handle-IsPending : (e : Event) → IsOther g e → IsPending g (handle now e b).0
  unfolding handle on_status on_alert on_dismiss on_begin on_action on_cancel show_alert
  handle-IsPending (status_event msg) o = p
  handle-IsPending (alert_event su) o = elim (Bool-cases (is_idle b)) [
    | inl e ↦ rw e p
    | inr e ↦ rw e p
  ]
  handle-IsPending dismiss_event o =
      let busy : is_none b.cmd ≡ false = ground (arith, p.0) in rw busy p
  handle-IsPending enter_command o = absurd o
  handle-IsPending (begin_action h) o = rw (pending_begin h) p
  handle-IsPending (action_event h r) o =
      let stale : (is_pending b.cmd && h == b.gen) ≡ false = ground (arith, o, p.1) in rw stale p
  handle-IsPending (cancel_command h) o = rw (pending_begin h) p

  cancel_pending : (h : ℕ) → on_cancel now h b ≡ b
  unfolding on_cancel
  cancel_pending h = rw (pending_begin h) refl

begin_acked : (g : ℕ) (b : BarLoop) → begins g b ≡ true → IsPending g (on_begin g b)
unfolding on_begin
begin_acked g b begun = let same : b.gen ≡ g = ground (arith, begun) in rw begun (refl, same)

handle_all-IsPending :
    (g : ℕ) (es : List (ℕ × Event)) (b : BarLoop)
    → IsPending g b
    → All (λ e. IsOther g e.1) es
    → IsPending g (handle_all es b)
unfolding handle_all
handle_all-IsPending g [] b p a = p
handle_all-IsPending g ((now, e) ∷ es) b p a =
    handle_all-IsPending g es (handle now e b).0 (handle-IsPending g now b p e a.0) a.1

-- Once an action is acknowledged, no second one is, and no cancellation takes effect, before its
-- own result comes or command mode is entered again, whatever other events arrive.
pub begin_ack_once :
    (g h now : ℕ) (es : List (ℕ × Event)) (b : BarLoop)
    → (handle now (begin_action g) b).1 ≡ ack true
    → All (λ e. IsOther g e.1) es
    → let c = handle_all es (handle now (begin_action g) b).0 in
      (c.cmd ≡ command_pending)
      × ((handle now (begin_action h) c).1 ≡ ack false)
      × ((handle now (cancel_command h) c).0 ≡ c)
unfolding handle
begin_ack_once g h now es b acked others =
    let begun : begins g b ≡ true = ground (arith, acked) in
    let at = begin_acked g b begun in
    let c = handle_all es (on_begin g b) in
    let p = handle_all-IsPending g es (on_begin g b) at others in
    (p.0, ap ack (pending_begin g now c p h), cancel_pending g now c p h)
