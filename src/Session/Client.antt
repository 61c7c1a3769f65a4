-- ===== src/Session/Client.antt =====
-- session/client.go: a client's output channel, and its end.
pub mod Stream
use vibepit.Prelude.{
  ℕ, ◌≡◌, Bool, true, false, ◌&&◌, List, [], ◌∷◌, ◌++◌, Text, codes, length, take, drop, ltb,
  is_empty, if◌then◌else◌,
}

pub data DetachReason : Type 0 where
  detach_none detach_disconnect detach_keepalive detach_slow_consumer : DetachReason

unfoldable pub label : DetachReason → Text
label detach_keepalive = codes "connection lost"
label detach_slow_consumer = codes "dropped - slow"
label _ = []

-- `done` is also the state of `closeOnce`; `detaching` says that the call of `Detach` which follows
-- the close of `done` is still to come.
pub record Client : Type 0 where
  pub output : List Text
  pub output_closed : Bool
  pub done : Bool
  pub detaching : Bool
  pub pending : Text
  pub detach_reason : DetachReason

abbrev pub channel_cap : ℕ
channel_cap = 1024

abbrev pub new_client : Client
new_client = record {
  output = [];
  output_closed = false;
  done = false;
  detaching = false;
  pending = [];
  detach_reason = detach_none;
}

-- What `Read` returns, if it returns.
pub data ReadResult : Type 0 where
  got : Text → ReadResult
  eof blocks : ReadResult

-- `Read` into a buffer of `n` bytes; `stop` is the choice of select where both of its cases are
-- ready, true for `done`
unfoldable pub read : Bool → ℕ → Client → ReadResult × Client
read stop n c =
    if is_empty c.pending
    then (elim c.output [
      | [] ↦ if c.output_closed then (eof, c) else if c.done then (eof, c) else (blocks, c)
      | chunk ∷ rest ↦
          if c.done && stop
          then (eof, c)
          else (got (take n chunk), record c { output = rest; pending = drop n chunk })
    ])
    else (got (take n c.pending), record c { pending = drop n c.pending })

-- How the select of `deliver` ends.
pub data Offer : Type 0 where
  sent : Client → Offer
  dropped full : Offer

unfoldable pub offer : Bool → Client → Text → Offer
offer stop c chunk =
    if c.output_closed
    then dropped
    else if ltb (length c.output) channel_cap
    then if c.done && stop then dropped else sent (record c { output = c.output ++ chunk ∷ [] })
    else if c.done
    then dropped
    else full

unfoldable pub close_output : Client → Client
close_output c = record c { output_closed = true }

-- `CloseWithReason`, up to its call of `Detach`
unfoldable pub close_done : Client → DetachReason → Client
close_done c reason =
    if c.done then c else record c { done = true; detaching = true; detach_reason = reason }
