-- ===== src/Sshd/Channel.antt =====
-- sshd/rawsession.go: the loop over the requests of a session channel, and the queue of the window
-- sizes that it shares with the goroutine that resizes the session.
pub mod Dispatch
pub mod Sizes
use vibepit.Prelude.{
  ℕ, Bool, true, false, ◌||◌, Option, none, some, List, [], ◌∷◌, ◌++◌, Text, codes, if◌then◌else◌,
}

pub record Window : Type 0 where
  pub width : ℕ
  pub height : ℕ

-- A payload is `none` where gossh.Unmarshal fails.
pub record PtyReqPayload : Type 0 where
  pub term : Text
  pub window : Window

pub record EnvPayload : Type 0 where
  pub name : Text
  pub value : Text

pub data RequestType : Type 0 where
  pty_req : Option PtyReqPayload → RequestType
  window_change : Option Window → RequestType
  env : Option EnvPayload → RequestType
  shell : RequestType
  exec : Option Text → RequestType
  unsupported : RequestType

pub record Request : Type 0 where
  pub type : RequestType
  pub want_reply : Bool

-- The fields of rawSession and the variables of the loop; `winch` is the channel of capacity 1, `none`
-- before it is made, with what it holds.
pub record RawSession : Type 0 where
  pub env : List Text
  pub raw_cmd : Text
  pub term : Text
  pub winch : Option (Option Window)
  pub initial_win : Window
  pub dispatched : Bool

abbrev pub new_session : RawSession
new_session = record {
  env = [];
  raw_cmd = [];
  term = [];
  winch = none;
  initial_win = record { width = 0; height = 0 };
  dispatched = false;
}

-- What the loop does: a reply, and the start of the handler with what it reads of the session.
pub data Effect : Type 0 where
  reply : Bool → Effect
  handle_pty : List Text → Text → Window → Effect
  handle_exec : List Text → Text → Effect

unfoldable pub has_pty : RawSession → Bool
has_pty s = elim s.winch [ none ↦ false | some w ↦ true ]

-- `replyReq`
unfoldable pub reply_req : Bool → Bool → List Effect
reply_req want answer = if want then reply answer ∷ [] else []

abbrev pub refuse : RawSession → Bool → RawSession × List Effect
refuse s want = (s, reply_req want false)

abbrev pub accept : RawSession → Bool → RawSession × List Effect
accept s want = (s, reply_req want true)

unfoldable pub on_pty_req : RawSession → Bool → Option PtyReqPayload → RawSession × List Effect
on_pty_req s want none = refuse s want
on_pty_req s want (some p) =
    if s.dispatched || has_pty s
    then refuse s want
    else accept (record s { term = p.term; initial_win = p.window; winch = some none }) want

-- the drop of the stale size and the send of the latest, both without blocking
unfoldable pub coalesce : Option (Option Window) → Window → Option (Option Window)
coalesce none w = none
coalesce (some pending) w = some (some w)

unfoldable pub on_window_change : RawSession → Bool → Option Window → RawSession × List Effect
on_window_change s want none = refuse s want
on_window_change s want (some w) =
    if has_pty s then accept (record s { winch = coalesce s.winch w }) want else refuse s want

unfoldable pub on_env : RawSession → Bool → Option EnvPayload → RawSession × List Effect
on_env s want none = refuse s want
on_env s want (some p) =
    if s.dispatched
    then refuse s want
    else accept (record s { env = s.env ++ (p.name ++ codes "=" ++ p.value) ∷ [] }) want

-- the handler of the session
unfoldable pub handler : RawSession → Effect
handler s = if has_pty s then handle_pty s.env s.term s.initial_win else handle_exec s.env s.raw_cmd

unfoldable pub dispatch : RawSession → Bool → RawSession × List Effect
dispatch s want =
    let started = record s { dispatched = true } in
    (started, reply_req want true ++ handler started ∷ [])

unfoldable pub on_shell : RawSession → Bool → RawSession × List Effect
on_shell s want = if s.dispatched then refuse s want else dispatch s want

unfoldable pub on_exec : RawSession → Bool → Option Text → RawSession × List Effect
on_exec s want none = refuse s want
on_exec s want (some command) =
    if s.dispatched then refuse s want else dispatch (record s { raw_cmd = command }) want

-- the body of the loop
unfoldable pub on_request : RawSession → RequestType → Bool → RawSession × List Effect
on_request s (pty_req p) want = on_pty_req s want p
on_request s (window_change p) want = on_window_change s want p
on_request s (env p) want = on_env s want p
on_request s shell want = on_shell s want
on_request s (exec p) want = on_exec s want p
on_request s unsupported want = refuse s want

-- The goroutine that resizes takes a size from the channel, if there is one.
unfoldable pub take_size : RawSession → RawSession × Option Window
take_size s = elim s.winch [
  | none ↦ (s, none)
  | some pending ↦ (record s { winch = some none }, pending)
]
