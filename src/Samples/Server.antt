-- ===== src/Samples/Server.antt =====
-- Runs of the session channel and of the handlers (sshd/rawsession.go and sshd/server.go).
use vibepit.Prelude.{
  ℕ, ◌≡◌, ◌↔◌, ◌⊎◌, refl, true, false, Option, some, List, [], ◌∷◌, Text, codes, Result, ok, err,
  All,
}
use vibepit.Session.Client.{DetachReason, detach_keepalive}
use vibepit.Tui.Selector.{Choice, session}
use vibepit.Sshd.Channel.{
  Window, pty_req, window_change, env, shell, exec, new_session, handler, handle_pty, on_request,
  on_pty_req, on_window_change, on_env, on_shell, on_exec, take_size, dispatch, has_pty, reply_req,
  coalesce,
}
use vibepit.Sshd.Channel.Dispatch.{Event, request, takes_size, run, started}
use vibepit.Sshd.Channel.Sizes.{Coalesces, sent, received, Fits, received-Fits}
use vibepit.Sshd.Pty.{PtySize, handle_pty_session}
use vibepit.Sshd.Pty.Finish.{
  Mark, counted, marks, Gives, exit_codes, attached, IsShellEnd, Quits, handle_pty_session-Ends,
}

abbrev window : ℕ → ℕ → Window
window w h = record { width = w; height = h }

abbrev events : List Event
events =
    request (record {
      type = pty_req (some (record { term = codes "xterm"; window = window 80 24 }));
      want_reply = true;
    })
    ∷ request (record {
      type = env (some (record { name = codes "LANG"; value = codes "C" }));
      want_reply = false;
    })
    ∷ request (record { type = shell; want_reply = true })
    ∷ request (record { type = window_change (some (window 5000 40)); want_reply = false })
    ∷ request (record { type = window_change (some (window 100 50)); want_reply = false })
    ∷ takes_size
    ∷ request (record { type = exec (some (codes "id")); want_reply = true })
    ∷ []

one_handler :
    started (run new_session events).1
    ≡ handle_pty (codes "LANG=C" ∷ []) (codes "xterm") (window 80 24) ∷ []
unfolding started run on_request on_pty_req on_window_change on_env on_shell on_exec dispatch
    has_pty reply_req coalesce handler take_size
one_handler = refl

received-Fits_example :
    Coalesces (sent new_session events) (received new_session events)
    × All Fits (received new_session events)
received-Fits_example = received-Fits events

-- a server with one detached session, which the user selects and which loses its connection
abbrev make_pty : PtySize → List Text → Result Text ℕ
make_pty size vars = err (codes "full")

abbrev get : Text → Option ℕ
get id = some 7

abbrev select : List Text → Result Text (Option (Choice Text))
select detached = ok (some (session (codes "s7")))

abbrev reason_of : ℕ → DetachReason
reason_of n = detach_keepalive

handle_pty_session-Ends_example :
    (code : ℕ) × (rest : List Mark) × (marks (
        handle_pty_session make_pty get select reason_of []
          (codes "xterm")
          []
          80
          24
          (codes "s7" ∷ []))
      ≡ counted ∷ rest)
    × Gives
        (attached (
          handle_pty_session make_pty get select reason_of []
            (codes "xterm")
            []
            80
            24
            (codes "s7" ∷ [])))
        rest
    × (exit_codes (
          handle_pty_session make_pty get select reason_of []
            (codes "xterm")
            []
            80
            24
            (codes "s7" ∷ []))
        ≡ code ∷ [])
    × ((code ≡ 0) ↔ (
        Quits make_pty get select reason_of (codes "s7" ∷ [])
        ⊎ IsShellEnd make_pty get select reason_of (
            attached (
              handle_pty_session make_pty get select reason_of []
                (codes "xterm")
                []
                80
                24
                (codes "s7" ∷ [])))))
handle_pty_session-Ends_example =
    handle_pty_session-Ends make_pty get select reason_of [] (codes "xterm") [] 80 24
      (codes "s7" ∷ [])
