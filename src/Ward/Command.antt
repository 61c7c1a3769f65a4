-- ===== src/Ward/Command.antt =====
-- ward/command.go: the input that goes to the child or to the command mode, with the event loop of
-- Ward/Bar on the other side of the channel.
pub mod Modes
pub mod Bytes
pub mod Synced
use vibepit.Prelude.{
  ℕ, suc, Bool, true, false, not, ◌&&◌, ◌==◌, List, [], ◌∷◌, ◌++◌, Text, if◌then◌else◌,
  contains_byte,
}
use vibepit.Ward.Bar.{
  BarLoop, ActionResult, Event, Answer, enter_command, begin_action, cancel_command, action_event,
  silent, ack, response, handle, handle_all,
}

-- The fields that entering command mode sets; a new handler has them empty.
pub record InputHandler : Type 0 where
  pub target : Text
  pub visible_keys : List ℕ
  pub gen : ℕ

-- The event loop, and what else reaches it: before each turn of the input it handles a batch of other
-- events, and then the event of the input at a time.
pub record World : Type 0 where
  pub bar : BarLoop
  pub coming : List (List (ℕ × Event) × ℕ)

-- The loop handles a batch, and gives the time after it.
unfoldable pub settle_of : BarLoop → List (List (ℕ × Event) × ℕ) → World × ℕ
settle_of b [] = (record { bar = b; coming = [] }, 0)
settle_of b ((batch, now) ∷ rest) = (record { bar = handle_all batch b; coming = rest }, now)

abbrev pub settle : World → World × ℕ
settle w = settle_of w.bar w.coming

-- a send to the event channel, with the answer of the loop
unfoldable pub send : World → Event → World × Answer
send w e = let (v, now) = settle w in let r = handle now e v.bar in (record v { bar = r.0 }, r.1)

-- What `processInput` leaves: whether it is still in command mode, the bytes that were written to the
-- PTY, and the keys on which OnKey was called.
pub record Processed : Type 0 where
  pub world : World
  pub handler : InputHandler
  pub in_command : Bool
  pub written : Text
  pub called : List ℕ

abbrev pub leaves : World → InputHandler → Text → Processed
leaves w h rest = record { world = w; handler = h; in_command = false; written = rest; called = [] }

abbrev pub writes : ℕ → Processed → Processed
writes c r = record r { written = c ∷ r.written }

-- the context of a generation is cancelled
unfoldable pub is_done : World → ℕ → Bool
is_done w g = not (w.bar.cancellable && g == w.bar.gen)

unfoldable pub entered : InputHandler → Answer → InputHandler
entered h (response target keys gen) = record { target = target; visible_keys = keys; gen = gen }
entered h silent = h
entered h (ack b) = h

unfoldable pub is_ack : Answer → Bool
is_ack (ack b) = b
is_ack silent = false
is_ack (response target keys gen) = false

abbrev pub escape : ℕ
escape = 27

-- `on_key` is OnKey, by the key and the target
module _ (on_key : ℕ → Text → ActionResult) (hotkey : ℕ) where
  unfoldable pub cancel : World → InputHandler → Text → Processed
  cancel w h rest = leaves (send w (cancel_command h.gen)).0 h rest

  -- the handshake of an action key, and the action
  unfoldable pub act : World → InputHandler → ℕ → Text → Processed
  act w h key rest =
      let (v, answer) = send w (begin_action h.gen) in
      if is_ack answer
      then record (leaves (send v (action_event h.gen (on_key key h.target))).0 h rest) {
        called = key ∷ [];
      }
      else leaves v h rest

  -- `processInput`, with a handler
  unfoldable pub process_input : World → InputHandler → Bool → Text → Processed
  process_input w h in_command [] = record {
    world = w;
    handler = h;
    in_command = in_command;
    written = [];
    called = [];
  }
  process_input w h false (c ∷ rest) = elim (c == hotkey) [
    | true ↦ let (v, answer) = send w enter_command in process_input v (entered h answer) true rest
    | false ↦ writes c (process_input w h false rest)
  ]
  process_input w h true (c ∷ rest) =
      let v = (settle w).0 in
      if is_done v h.gen
      then leaves v h (c ∷ rest)
      else if c == escape
      then cancel v h rest
      else if c == hotkey
      then writes hotkey (cancel v h rest)
      else elim (contains_byte c h.visible_keys) [
        | true ↦ act v h c rest
        | false ↦ process_input v h true rest
      ]

  -- the reads of the input goroutine: a cancelled context is noticed between two reads
  unfoldable pub read_input : Processed → Text → Processed
  read_input p chunk =
      let v = (settle p.world).0 in
      let r = process_input v p.handler (p.in_command && not (is_done v p.handler.gen)) chunk in
      record r { written = p.written ++ r.written; called = p.called ++ r.called }

  unfoldable pub read_all : Processed → List Text → Processed
  read_all p [] = p
  read_all p (chunk ∷ chunks) = read_all (read_input p chunk) chunks
