-- ===== src/Sshd/Channel/Dispatch.antt =====
-- A session channel starts one handler at most, and answers every request (sshd/rawsession.go).
use vibepit.Prelude.{ℕ, suc, ◌≡◌, Bool, true, false, Option, List, [], ◌∷◌, ◌++◌, if◌then◌else◌}
use vibepit.Sshd.Channel.{
  Window, Request, RawSession, Effect, reply, handle_pty, handle_exec, handler, on_request,
  take_size,
}

-- A request of the client, or a size that the other goroutine takes.
pub data Event : Type 0 where
  request : Request → Event
  takes_size : Event

abbrev pub step : RawSession → Event → RawSession × List Effect
step s (request r) = on_request s r.type r.want_reply
step s takes_size = ((take_size s).0, [])

-- The state and the effects after a sequence of events.
unfoldable pub run : RawSession → List Event → RawSession × List Effect
run s [] = (s, [])
run s (e ∷ es) = let rest = run (step s e).0 es in (rest.0, (step s e).1 ++ rest.1)

-- The handlers among the effects, and the number of the replies.
unfoldable pub started : List Effect → List Effect
started [] = []
started (reply b ∷ es) = started es
started (handle_pty e t w ∷ es) = handle_pty e t w ∷ started es
started (handle_exec e c ∷ es) = handle_exec e c ∷ started es

unfoldable pub replies : List Effect → ℕ
replies [] = 0
replies (reply b ∷ es) = suc (replies es)
replies (handle_pty e t w ∷ es) = replies es
replies (handle_exec e c ∷ es) = replies es

-- The requests that want a reply.
unfoldable pub wanted : List Event → ℕ
wanted [] = 0
wanted (request r ∷ es) = if r.want_reply then suc (wanted es) else wanted es
wanted (takes_size ∷ es) = wanted es

-- A session whose handler is started, and one whose handler is not.
abbrev busy : RawSession → RawSession
busy s = record s { dispatched = true }

abbrev idle : RawSession → RawSession
idle s = record s { dispatched = false }

-- Nothing changes that the handler reads, and no other one is started.
record Frozen (s : RawSession) (r : RawSession × List Effect) : Type 0 where
  still : r.0.dispatched ≡ true
  same : handler r.0 ≡ handler s
  quiet : started r.1 ≡ []

-- the session with a given channel
abbrev pub wired : RawSession → Option (Option Window) → RawSession
wired s c = record s { winch = c }

-- A step before the handler is started: it starts the handler of the state after it, or nothing.
abbrev Starts : RawSession × List Effect → Type 0
Starts r = started r.1 ≡ (if r.0.dispatched then handler r.0 ∷ [] else [])

abbrev one_if : Bool → ℕ
one_if want = if want then 1 else 0
