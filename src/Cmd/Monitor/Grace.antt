-- ===== src/Cmd/Monitor/Grace.antt =====
-- The screen goes back when its session is gone (cmd/monitor_ui.go).
use vibepit.Prelude.{
  ℕ, suc, ◌+◌, ◌≡◌, ◌≤◌, ◌<◌, refl, ap, ap₂, ◌∙◌, Bool, true, false, Option, none, some, List, [],
  ◌∷◌, ◌++◌, map, Text, err, length, leb, ltb, if◌then◌else◌, arith, Bool-cases, inl, inr,
}
use vibepit.Cmd.Monitor.{
  Monitor, Message, Command, logs_result, tick, go_back, disconnect_grace_ticks, disconnect_start,
  poll_failed, tick_at, update,
}

abbrev command_list : Option Command → List Command
command_list none = []
command_list (some c) = c ∷ []

-- The commands of a run of messages.
unfoldable pub commands : Monitor → List Message → List Command
commands m [] = []
commands m (x ∷ xs) = command_list (update m x).command ++ commands (update m x).monitor xs

length_zero : (es : List Bool) → length es ≡ 0 → es ≡ []
length_zero [] z = refl
length_zero (e ∷ es) z = absurd (omega (arith, z))

abbrev gone : Monitor → ℕ → Monitor
gone m n = record m { has_back = true; disconnect = some n }

ticks_gone :
    (m : Monitor) (n : ℕ) (es : List Bool)
    → n < disconnect_grace_ticks
    → n + length es ≤ disconnect_grace_ticks
    → commands (gone m n) (map tick es)
      ≡ (if ltb (n + length es) disconnect_grace_ticks then [] else go_back ∷ [])
unfolding commands update tick_at
ticks_gone m n [] h k = ground (arith, h)
ticks_gone m n (e ∷ es) h k = elim (Bool-cases (leb disconnect_grace_ticks (suc n))) [
  | inl t ↦
      let none_left : es ≡ [] = length_zero es (ground (arith, k, t)) in
      let last : ltb (n + suc (length es)) disconnect_grace_ticks ≡ false = ground (arith, t) in
      rw (t, last, none_left) refl
  | inr t ↦
      let more : n + suc (length es) ≡ suc n + length es = omega arith in
      rw (t, more)
        (ticks_gone (record m { first_tick_seen = true }) (suc n) es (ground (arith, t))
          (omega (arith, k)))
]

-- If a poll fails on a screen that was opened from another one and was connected, then no tick before
-- the twelfth runs a command, so that nothing polls, and the twelfth goes back to the other screen.
pub commands-go_back :
    (m : Monitor) (e : Text) (es : List Bool)
    → m.has_back ≡ true
    → m.disconnect ≡ none
    → length es ≤ disconnect_grace_ticks
    → commands m (logs_result (err e) ∷ map tick es)
      ≡ (if ltb (length es) disconnect_grace_ticks then [] else go_back ∷ [])
unfolding commands update poll_failed disconnect_start
commands-go_back m e es b d k =
    let same : m ≡ record m { has_back = true; disconnect = none } =
      ap₂ (λ x y. record m { has_back = x; disconnect = y }) b d in
    let zero_more : 0 + length es ≡ length es = omega arith in
    ap (λ x. commands x (logs_result (err e) ∷ map tick es)) same
    ∙ ticks_gone (record m { poll_in_flight = false }) 0 es (omega arith) (omega (arith, k))
    ∙ ap (λ x. if ltb x disconnect_grace_ticks then [] else go_back ∷ []) zero_more
