-- ===== src/Samples/Monitor.antt =====
-- Runs of the screen that follows the log (cmd/monitor_ui.go).
use vibepit.Prelude.{
  ◌≡◌, refl, true, false, [], ◌∷◌, ◌++◌, map, codes, ok, err, length, arith, ltb, if◌then◌else◌,
}
use vibepit.Proxy.LogBuffer.{
  LogEntry, LogBuffer, block, proxy, new_log_buffer, add_all, add, added, entries_after,
  entries_locked,
}
use vibepit.Cmd.Monitor.{
  Monitor, tick, logs_result, go_back, new_monitor, update, tick_at, tick_connected, receive,
  status_none, disconnect_grace_ticks,
}
use vibepit.Cmd.Monitor.Following.{
  System, Reaches, here, next, logs, acts, answers, after, start, IsSound, new_monitor-IsSound,
}
use vibepit.Cmd.Monitor.Grace.{commands, commands-go_back}
use vibepit.Cmd.Monitor.Offers.{Offers, item_keys-Offers}

abbrev entry : LogEntry
entry = record {
  id = 0;
  time = 5;
  domain = codes "a.org";
  port = codes "443";
  action = block;
  source = proxy;
  reason = [];
}

abbrev buffer : LogBuffer
buffer = added (new_log_buffer 3) entry

abbrev logged : System
logged = record (start true true) { log = [] ++ entry ∷ [] }

abbrev polled : System
polled = after logged (tick true)

abbrev answered : System
answered = after (record polled { pending = [] }) (logs_result (ok (entries_after buffer 0)))

shows_entry : map (λ i. i.entry) answered.monitor.items ≡ record entry { id = 1 } ∷ []
unfolding update tick_at tick_connected receive new_monitor entries_after entries_locked added
    new_log_buffer
shows_entry = refl

run : Reaches 3 (start true true) answered
unfolding update tick_at tick_connected new_monitor add_all add new_log_buffer
run =
    next polled answered
      (next logged polled (next (start true true) logged here (logs (start true true) entry))
        (acts logged (tick true) tt))
      (answers polled [] [] 0 buffer refl refl)

new_monitor-IsSound_example : IsSound answered
new_monitor-IsSound_example =
    new_monitor-IsSound 3 true true answered (omega arith) run (omega arith)

commands-go_back_example :
    commands
      (new_monitor true true)
      (logs_result (err (codes "gone")) ∷ map tick (true ∷ false ∷ []))
    ≡ (if ltb (length (true ∷ false ∷ [])) disconnect_grace_ticks then [] else go_back ∷ [])
unfolding new_monitor
commands-go_back_example =
    commands-go_back (new_monitor true true) (codes "gone") (true ∷ false ∷ []) refl refl
      (omega arith)

abbrev screen : Monitor
screen = record (new_monitor true true) {
  items = record { entry = entry; status = status_none } ∷ [];
}

item_keys-Offers_example : Offers screen (record { entry = entry; status = status_none })
unfolding new_monitor
item_keys-Offers_example =
    item_keys-Offers screen (record { entry = entry; status = status_none }) refl
