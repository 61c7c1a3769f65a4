-- ===== src/Samples/Ward.antt =====
-- Runs of the terminal wrapper's parsers and event loop (the package ward).
use vibepit.Prelude.{
  ℕ, ◌≡◌, ◌≤◌, ◌++◌, refl, Bool, true, false, List, [], ◌∷◌, Text, codes, length, arith,
}
use vibepit.Ward.Scanner.{
  in_ground, no_result, scan, scan_byte, copy_chunk, repair, child, region, bar, after_escape,
}
use vibepit.Ward.Scanner.Items.{
  Item, byte, two_bytes, control, private_mode, control_string, effects,
}
use vibepit.Ward.Scanner.Repair.{copy_all, fresh_loop}
use vibepit.Ward.Osc133.{new_parser, ParserState, zone_unknown, push}
use vibepit.Ward.Osc133.Chunks.{zone_of, zone_after, push-chunks}
use vibepit.Ward.Osc133.Markers.{mark_a, mark_exit, marker_text, body_of, event_of, push-marker}
use vibepit.Ward.Bar.{
  BarLoop, StatusUpdate, Event, alert_event, enter_command, begin_action, dismiss_event,
  cancel_command, start, handle, handle_all, on_enter, command_pending, ack,
}
use vibepit.Ward.Bar.Lively.{IsLively, start-IsLively, handle_all-IsLively}
use vibepit.Ward.Bar.Generations.{begin_ack_once}

-- A reset that is cut in two, then text.
abbrev chunks : List (Bool × Text)
chunks = (true, codes "a" ++ (27 ∷ [])) ∷ (true, codes "cb") ∷ []

repaired :
    (copy_all true fresh_loop chunks).out
    ≡ child (codes "a" ++ (27 ∷ [])) ∷ child (codes "cb") ∷ region ∷ bar ∷ []
unfolding copy_all copy_chunk scan scan_byte after_escape repair in_ground
repaired = refl

-- A letter, a title that holds a CSI r, the alternate screen, an erasure of the line, a cursor
-- position and a reset of the scroll region.
abbrev output : List Item
output =
    byte b'a'
    ∷ control_string b']' (codes "0;[r") true
    ∷ private_mode (codes "1049") b'h'
    ∷ control (codes "1") [] b'J'
    ∷ control (codes "3;4") [] b'H'
    ∷ two_bytes b'7'
    ∷ control [] [] b'r'
    ∷ []

output_effects : effects output ≡ record { scroll_reset = true; bar_erased = false }
output_effects = refl

-- The title alone reports nothing.
title_only : effects (control_string b']' (codes "0;[r") true ∷ []) ≡ no_result
title_only = refl

abbrev prompt : Text
prompt = marker_text (body_of mark_a) true

push-chunks_example :
    ((push new_parser (prompt ++ codes "x")).0 ≡ (push (push new_parser prompt).0 (codes "x")).0)
    × ((push new_parser (prompt ++ codes "x")).1
        ≡ (push new_parser prompt).1 ++ (push (push new_parser prompt).0 (codes "x")).1)
    × ((push new_parser prompt).0.zone ≡ zone_after zone_unknown (push new_parser prompt).1)
    × (length (push new_parser prompt).0.params ≤ 32)
push-chunks_example = push-chunks new_parser prompt (codes "x") (omega arith)

push-marker_example :
    push
      (record { state = ParserState.at_ground; zone = zone_unknown; params = [] })
      (marker_text (body_of (mark_exit (codes "0"))) false)
    ≡ (
      record {
        state = ParserState.at_ground;
        zone = zone_of (event_of (mark_exit (codes "0")));
        params = body_of (mark_exit (codes "0"));
      },
      event_of (mark_exit (codes "0")) ∷ [],
    )
push-marker_example =
    push-marker (mark_exit (codes "0")) zone_unknown [] false
      (omega arith, omega arith, ((λ e. ground (arith, e), λ e. ground (arith, e)), tt))

abbrev alert : StatusUpdate
alert = record {
  message = codes "blocked";
  alert = true;
  timeout = 0;
  target = codes "a.b";
  key_hints = [];
}

abbrev events : List (ℕ × Event)
events = (1, alert_event alert) ∷ (2, alert_event alert) ∷ (3, enter_command) ∷ []

handle_all-IsLively_example : IsLively (handle_all events start)
handle_all-IsLively_example = handle_all-IsLively events start start-IsLively

abbrev in_command_mode : BarLoop
in_command_mode = handle_all ((3, enter_command) ∷ []) start

acknowledged : (handle 4 (begin_action 1) in_command_mode).1 ≡ ack true
unfolding handle handle_all on_enter
acknowledged = refl

abbrev later : List (ℕ × Event)
later = (5, dismiss_event) ∷ (6, cancel_command 1) ∷ []

begin_ack_once_example :
    ((handle_all later (handle 4 (begin_action 1) in_command_mode).0).cmd ≡ command_pending)
    × ((handle 4
          (begin_action 1)
          (handle_all later (handle 4 (begin_action 1) in_command_mode).0)).1
        ≡ ack false)
    × ((handle 4
          (cancel_command 1)
          (handle_all later (handle 4 (begin_action 1) in_command_mode).0)).0
        ≡ handle_all later (handle 4 (begin_action 1) in_command_mode).0)
begin_ack_once_example = begin_ack_once 1 1 4 later in_command_mode acknowledged (tt, (tt, tt))
