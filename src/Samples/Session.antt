-- ===== src/Samples/Session.antt =====
-- Runs of the sessions (the package session).
use vibepit.Prelude.{
  Bool, ℕ, ◌≡◌, ◌↔◌, ◌<◌, ◌≤◌, ◌++◌, refl, suc, true, false, none, some, List, [], ◌∷◌, Text, codes,
  arith,
}
use vibepit.Session.Crlf.{collapse, expand, to_crlf}
use vibepit.Session.Crlf.Normal.{Converts, IsCrlf, to_crlf-IsCrlf}
use vibepit.Session.Client.{detach_keepalive, detach_disconnect, read, eof, blocks, offer}
use vibepit.Session.Client.Stream.{Op, offers, reads, apply_all, fresh_trace, unread, stream-read}
use vibepit.Session.Hub.{
  Emulator, Session, closing, finished, attach, attach_at, attach_live, promote, nudge, resize_if,
  deliver, delivered, replay, cursor_text, must_fit, begin_close, pump_fail, pump_next,
}
use vibepit.Session.Hub.Steps.{
  has, start, Step, Reaches, here, then_step, attaches, pump_fails, pump_goes_on,
}
use vibepit.Session.Hub.Roster.{IsManned}
use vibepit.Session.Hub.Manned.{Reaches-IsManned}
use vibepit.Session.Hub.Reason.{closed_for_good}
use vibepit.Session.Hub.Exit.{Reaches-end}
use vibepit.Session.Manager.{new_manager, active, create, created, get}
use vibepit.Session.Manager.Limit.{handle_all, creates, exits, Event, create-within}

abbrev two_lines : Text
two_lines = 97 ∷ 13 ∷ 10 ∷ 98 ∷ 10 ∷ []

to_crlf-IsCrlf_example :
    Converts two_lines (to_crlf two_lines)
    × IsCrlf 0 (to_crlf two_lines)
    × (to_crlf (to_crlf two_lines) ≡ to_crlf two_lines)
to_crlf-IsCrlf_example = to_crlf-IsCrlf two_lines

two_lines-crlf : to_crlf two_lines ≡ 97 ∷ 13 ∷ 10 ∷ 98 ∷ 13 ∷ 10 ∷ []
unfolding to_crlf collapse expand
two_lines-crlf = refl

abbrev chunks : List Op
chunks = offers false (codes "hello") ∷ reads false 2 ∷ Op.closes detach_keepalive ∷ []

stream-read_example :
    ((apply_all chunks fresh_trace).returned ++ unread (apply_all chunks fresh_trace).client
      ≡ (apply_all chunks fresh_trace).taken)
    × ((stop : Bool) (n : ℕ)
        → ((read stop n (apply_all chunks fresh_trace).client).0 ≡ eof
            → (apply_all chunks fresh_trace).client.done ≡ false
            → (unread (apply_all chunks fresh_trace).client ≡ [])
              × ((apply_all chunks fresh_trace).client.output_closed ≡ true))
          × ((read stop n (apply_all chunks fresh_trace).client).0 ≡ blocks
              → unread (apply_all chunks fresh_trace).client ≡ []))
stream-read_example = stream-read chunks

-- An emulator that keeps all that it was given.
abbrev plain : Emulator Text
plain = record {
  write = λ v p. v ++ p;
  resize = λ v c r. v;
  is_alt_screen = λ v. false;
  render = λ v. v;
  scrollback = λ v. [];
  cursor_x = λ v. 0;
  cursor_y = λ v. 0;
}

abbrev at_start : Session Text
at_start = start [] 80 24

abbrev with_one : Session Text
with_one = attach plain at_start 100 30

abbrev with_two : Session Text
with_two = attach plain with_one 90 20

two_attached : Reaches plain at_start with_two
two_attached =
    then_step with_one with_two (then_step at_start with_one here (attaches at_start 100 30))
      (attaches with_one 90 20)

Reaches-IsManned_example : IsManned with_two
Reaches-IsManned_example = Reaches-IsManned plain [] 80 24 with_two two_attached

abbrev ended : Session Text
ended = pump_next false (pump_next false (pump_fail with_two))

after_end : Reaches plain at_start ended
after_end =
    then_step (pump_next false (pump_fail with_two)) ended
      (then_step (pump_fail with_two) (pump_next false (pump_fail with_two))
        (then_step with_two (pump_fail with_two) two_attached (pump_fails with_two))
        (pump_goes_on (pump_fail with_two) false))
      (pump_goes_on (pump_next false (pump_fail with_two)) false)

Reaches-end_example :
    (ended.pump ≡ closing []
      → (x : ℕ) → has x ended.clients ≡ true
      → (ended.client x).output_closed ≡ true)
    × (ended.wait ≡ finished → ended.clients ≡ [] → 0 < ended.tombstones)
Reaches-end_example = Reaches-end plain [] 80 24 ended after_end

one_made : 0 < with_one.fresh
unfolding attach_at attach_live promote nudge resize_if deliver
one_made = omega arith

one_open : (with_one.client 0).done ≡ false
unfolding attach_at attach_live promote nudge resize_if deliver delivered offer replay cursor_text
    to_crlf must_fit
one_open = refl

still_made : 0 < (begin_close with_one 0 detach_keepalive).fresh
unfolding begin_close
still_made = one_made

closed_for_good_example :
    (((begin_close (begin_close with_one 0 detach_keepalive) 0 detach_disconnect).client 0).done
      ≡ true)
    × (((begin_close (begin_close with_one 0 detach_keepalive) 0 detach_disconnect).client
          0).detach_reason
        ≡ detach_keepalive)
closed_for_good_example =
    closed_for_good plain 0 detach_keepalive with_one
      (begin_close (begin_close with_one 0 detach_keepalive) 0 detach_disconnect) one_made one_open
      (then_step (begin_close with_one 0 detach_keepalive) _ here
        (Step.closes (begin_close with_one 0 detach_keepalive) 0 detach_disconnect still_made))

abbrev events : List Event
events = creates true ∷ creates true ∷ exits 1 ∷ []

create-within_example :
    (active (handle_all events (new_manager 2)).sessions ≤ 2)
    × (((create (handle_all events (new_manager 2)) true).1
          ≡ created (suc (handle_all events (new_manager 2)).counter))
        ↔ (active (handle_all events (new_manager 2)).sessions < 2))
    × (get
          (handle_all events (new_manager 2)).sessions
          (suc (handle_all events (new_manager 2)).counter)
        ≡ none)
    × ((create (handle_all events (new_manager 2)) true).1
          ≡ created (suc (handle_all events (new_manager 2)).counter)
        → get
            (create (handle_all events (new_manager 2)) true).0.sessions
            (suc (handle_all events (new_manager 2)).counter)
          ≡ some (record { id = suc (handle_all events (new_manager 2)).counter; exited = false }))
create-within_example = create-within 2 events
