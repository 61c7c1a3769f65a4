-- ===== src/Samples/Input.antt =====
-- Runs of the input in and out of command mode (ward/command.go).
use vibepit.Prelude.{
  ℕ, ◌≡◌, refl, true, false, List, [], ◌∷◌, ◌++◌, Text, codes, contains_byte, is_empty,
}
use vibepit.Ward.Bar.{
  StatusUpdate, ActionResult, message_result, Event, alert_event, cancel_command, start, handle,
  handle_all, on_alert, show_alert, on_enter, visible_of, on_begin, on_action, on_cancel,
  after_action, exit_command_mode,
}
use vibepit.Ward.Command.{
  World, InputHandler, settle_of, send, is_done, entered, is_ack, act, process_input, read_input,
  read_all,
}
use vibepit.Ward.Command.Bytes.{Passes, process_input-Passes}
use vibepit.Ward.Command.Synced.{started, IsSynced, read_all-IsSynced}

abbrev hotkey : ℕ
hotkey = 29

abbrev answer_key : ℕ → Text → ActionResult
answer_key key target = message_result (codes "allowed")

abbrev alert : StatusUpdate
alert = record {
  message = codes "blocked";
  alert = true;
  timeout = 0;
  target = codes "a.b";
  key_hints = record { key = b'a'; desc = codes "allow"; require_alert = true } ∷ [];
}

-- an alert before the hotkey, and an idle timer of another generation before the action
abbrev coming : List (List (ℕ × Event) × ℕ)
coming =
    ([], 1)
    ∷ ((2, alert_event alert) ∷ [], 3)
    ∷ ([], 4)
    ∷ ((5, cancel_command 7) ∷ [], 6)
    ∷ ([], 7)
    ∷ []

abbrev chunks : List Text
chunks = (codes "ls" ++ hotkey ∷ codes "xad") ∷ []

ran :
    ((read_all answer_key hotkey (started coming) chunks).written ≡ codes "lsd")
    × ((read_all answer_key hotkey (started coming) chunks).called ≡ b'a' ∷ [])
unfolding read_all read_input process_input send settle_of is_done entered is_ack act handle
    handle_all on_alert show_alert on_enter visible_of on_begin on_action after_action
    exit_command_mode contains_byte is_empty on_cancel
ran = (refl, refl)

read_all-IsSynced_example :
    IsSynced
      (read_all answer_key hotkey (started coming) chunks).world
      (read_all answer_key hotkey (started coming) chunks).handler
      (read_all answer_key hotkey (started coming) chunks).in_command
read_all-IsSynced_example =
    read_all-IsSynced answer_key hotkey coming chunks (tt, ((tt, tt), (tt, ((tt, tt), (tt, tt)))))

abbrev world : World
world = record { bar = start; coming = [] }

abbrev new_handler : InputHandler
new_handler = record { target = []; visible_keys = []; gen = 0 }

-- a byte, the hotkey, a key of no use, escape and a byte
abbrev mixed : Text
mixed = b'l' ∷ hotkey ∷ b'x' ∷ 27 ∷ b's' ∷ []

process_input-Passes_example :
    Passes hotkey world new_handler false mixed
      (process_input answer_key hotkey world new_handler false mixed).written
      (process_input answer_key hotkey world new_handler false mixed).in_command
      (process_input answer_key hotkey world new_handler false mixed).called
    × (false ≡ false
        → contains_byte hotkey mixed ≡ false
        → ((process_input answer_key hotkey world new_handler false mixed).written ≡ mixed)
          × ((process_input answer_key hotkey world new_handler false mixed).in_command ≡ false))
process_input-Passes_example = process_input-Passes answer_key hotkey world new_handler false mixed
