-- ===== src/Session/Hub.antt =====
-- session/session.go: the session as the hub between the shell's terminal and its clients.
pub mod Steps
pub mod Members
pub mod Roster
pub mod Manned
pub mod Exit
pub mod Reason
use vibepit.Prelude.{
  ℕ, suc, ◌+◌, ◌/◌, ◌%◌, ◌==◌, ◌≡◌, Bool, true, false, not, ◌&&◌, ◌||◌, Option, none, some, List,
  [], ◌∷◌, ◌++◌, Text, codes, is_empty, ltb, if◌then◌else◌, ℤ, pos, zero,
}
use vibepit.Session.Crlf.{to_crlf}
use vibepit.Session.Client.{
  Client, DetachReason, detach_none, detach_slow_consumer, new_client, Offer, sent, dropped, full,
  offer, close_output, close_done,
}

-- The terminal emulator (vt-go), with the scrollback as `renderVTEScrollback` renders it.
pub record Emulator (S : Type 0) : Type 0 where
  pub write : S → Text → S
  pub resize : S → ℕ → ℕ → S
  pub is_alt_screen : S → Bool
  pub render : S → Text
  pub scrollback : S → Text
  pub cursor_x : S → ℕ
  pub cursor_y : S → ℕ

-- Where the pump is: at its read, among the clients that get a chunk, or at those whose output it
-- closes after an error of the read; `closing []` is its end.
pub data Pump : Type 0 where
  reading : Pump
  sending : Text → List ℕ → Pump
  closing : List ℕ → Pump

-- Where `waitForExit` is: before the end of the shell, at the teardown, at its end.
pub data Wait : Type 0 where
  waiting stopping finished : Wait

-- `client` is the store of the clients made so far, numbered below `fresh`; `written` is what the
-- terminal was given as input, `tombstones` counts the expiry timers started. A zero time is 0.
pub record Session (S : Type 0) : Type 0 where
  pub client : ℕ → Client
  pub fresh : ℕ
  pub clients : List ℕ
  pub writer : Option ℕ
  pub exited : Bool
  pub exit_code : ℤ
  pub exited_at : ℕ
  pub detached_at : ℕ
  pub last_detach_reason : DetachReason
  pub vte : S
  pub cols : ℕ
  pub rows : ℕ
  pub written : List Text
  pub pump : Pump
  pub wait : Wait
  pub tombstones : ℕ

abbrev pub update : (ℕ → Client) → ℕ → Client → ℕ → Client
update f x c y = if y == x then c else f y

abbrev pub is_none : Option ℕ → Bool
is_none none = true
is_none (some w) = false

abbrev pub is_writer : Option ℕ → ℕ → Bool
is_writer none x = false
is_writer (some w) x = w == x

-- the loop of `Detach`: the first occurrence goes
unfoldable pub remove : ℕ → List ℕ → List ℕ
remove x [] = []
remove x (y ∷ ys) = let rest = remove x ys in if y == x then ys else y ∷ rest

unfoldable pub last : List ℕ → Option ℕ
last [] = none
last (x ∷ xs) = elim (last xs) [ some y ↦ some y | none ↦ some x ]

-- the decimal digits of a number; the fuel is more than the number
unfoldable pub decimal_loop : ℕ → ℕ → Text → Text
decimal_loop zero n acc = acc
decimal_loop (suc fuel) n acc =
    let rest = decimal_loop fuel (n / 10) ((b'0' + n % 10) ∷ acc) in
    if n / 10 == 0 then (b'0' + n % 10) ∷ acc else rest

unfoldable pub decimal : ℕ → Text
decimal n = decimal_loop (suc n) n []

abbrev pub esc : ℕ
esc = 27

abbrev pub enter_alt_screen : Text
enter_alt_screen = esc ∷ codes "[?1049h" ++ (esc ∷ codes "[2J")

abbrev pub keep_reason : DetachReason → DetachReason → DetachReason
keep_reason detach_none old = old
keep_reason new old = new

unfoldable pub delivered : Bool → Client → Text → Client
delivered stop c chunk = elim (offer stop c chunk) [
  | sent d ↦ d
  | dropped ↦ c
  | full ↦ close_done c detach_slow_consumer
]

module _ {S : Type 0} where
  -- `deliver`, up to the `Detach` of a client that is too slow
  unfoldable pub deliver : Bool → Session S → ℕ → Text → Session S
  deliver stop s x chunk = record s {
    client = update s.client x (delivered stop (s.client x) chunk);
  }

  -- `CloseWithReason`, up to `Detach`
  unfoldable pub begin_close : Session S → ℕ → DetachReason → Session S
  begin_close s x reason = record s { client = update s.client x (close_done (s.client x) reason) }

  -- `Detach`
  unfoldable pub detach : ℕ → Session S → ℕ → Session S
  detach now s x =
      let left = remove x s.clients in
      record s {
        client = update s.client x (record (s.client x) { detaching = false });
        clients = left;
        writer = if is_writer s.writer x then last left else s.writer;
        detached_at = if is_empty left then now else s.detached_at;
        last_detach_reason = keep_reason (s.client x).detach_reason s.last_detach_reason;
        tombstones = if is_empty left && s.exited then suc s.tombstones else s.tombstones;
      }

  -- `WriteInput`, `none` for its error; its write after the lock is taken with the test before it
  unfoldable pub write_input : Session S → ℕ → Text → Option (Session S)
  write_input s x p =
      if is_writer s.writer x then some (record s { written = s.written ++ p ∷ [] }) else none

  module _ (vt : Emulator S) where
    -- `resizeLocked`, under a condition
    unfoldable pub resize_if : Bool → Session S → ℕ → ℕ → Session S
    resize_if b s cols rows = record s {
      vte = if b then vt.resize s.vte cols rows else s.vte;
      cols = if b then cols else s.cols;
      rows = if b then rows else s.rows;
    }

    -- the condition of `Attach` and of `TakeOver`
    unfoldable pub must_fit : Session S → ℕ → ℕ → Bool
    must_fit s cols rows =
        ltb 0 cols && ltb 0 rows && (not (cols == s.cols) || not (rows == s.rows))

    unfoldable pub take_over : Session S → ℕ → ℕ → ℕ → Session S
    take_over s x cols rows =
        resize_if (must_fit s cols rows) (record s { writer = some x }) cols rows

    unfoldable pub resize : Session S → ℕ → ℕ → ℕ → Session S
    resize s x cols rows =
        resize_if (is_writer s.writer x && not (cols == s.cols && rows == s.rows)) s cols rows

    unfoldable pub cursor_text : S → Text
    cursor_text v =
        if is_empty (vt.render v)
        then []
        else esc ∷ codes "["
          ++ (decimal (vt.cursor_y v + 1)
              ++ (codes ";" ++ (decimal (vt.cursor_x v + 1) ++ codes "H")))

    -- what a new client gets first
    unfoldable pub replay : S → Text
    replay v =
        if vt.is_alt_screen v
        then enter_alt_screen
        else to_crlf (esc ∷ codes "c" ++ (vt.scrollback v ++ (vt.render v ++ cursor_text v)))

    -- the writer is the new client, if there was none
    unfoldable pub promote : Session S → ℕ → ℕ → ℕ → Session S
    promote s x cols rows =
        resize_if (is_none s.writer && must_fit s cols rows)
          (record s { writer = if is_none s.writer then some x else s.writer }) cols rows

    -- the write of Ctrl-L after the lock
    unfoldable pub nudge : Bool → Session S → Session S
    nudge b s = record s { written = if b then s.written ++ (12 ∷ []) ∷ [] else s.written }

    unfoldable pub attach_live : Session S → ℕ → ℕ → Session S
    attach_live s cols rows =
        let x = s.fresh in
        let made = record s { client = update s.client x new_client; fresh = suc x } in
        let told = deliver false (promote made x cols rows) x (replay s.vte) in
        nudge (vt.is_alt_screen s.vte && is_none s.writer)
          (record told { clients = told.clients ++ x ∷ [] })

    -- `Attach`, by whether the session has exited; the client that it returns is numbered by the
    -- old `fresh`
    unfoldable pub attach_at : Session S → ℕ → ℕ → Bool → Session S
    attach_at s cols rows true = record s {
      client = update s.client s.fresh (close_output new_client);
      fresh = suc s.fresh;
    }
    attach_at s cols rows false = attach_live s cols rows

    abbrev pub attach : Session S → ℕ → ℕ → Session S
    attach s cols rows = attach_at s cols rows s.exited

    -- The critical sections of `pump`, each by where it is: after a read with data, after one with
    -- an error, and what it does for the next client.
    unfoldable pub pump_read_at : Session S → Text → Pump → Session S
    pump_read_at s chunk reading = record s {
      vte = vt.write s.vte chunk;
      pump = sending chunk s.clients;
    }
    pump_read_at s chunk (sending d xs) = s
    pump_read_at s chunk (closing xs) = s

    abbrev pub pump_read : Session S → Text → Session S
    pump_read s chunk = pump_read_at s chunk s.pump

  unfoldable pub pump_fail_at : Session S → Pump → Session S
  pump_fail_at s reading = record s { exited = true; pump = closing s.clients }
  pump_fail_at s (sending d xs) = s
  pump_fail_at s (closing xs) = s

  abbrev pub pump_fail : Session S → Session S
  pump_fail s = pump_fail_at s s.pump

  unfoldable pub pump_next_at : Bool → Session S → Pump → Session S
  pump_next_at stop s reading = s
  pump_next_at stop s (sending d []) = record s { pump = reading }
  pump_next_at stop s (sending d (x ∷ xs)) = deliver stop (record s { pump = sending d xs }) x d
  pump_next_at stop s (closing []) = s
  pump_next_at stop s (closing (x ∷ xs)) = record s {
    client = update s.client x (close_output (s.client x));
    pump = closing xs;
  }

  abbrev pub pump_next : Bool → Session S → Session S
  pump_next stop s = pump_next_at stop s s.pump

  -- `waitForExit`: the shell has ended; and its end, once the pump is done
  unfoldable pub shell_ends_at : Session S → Wait → Session S
  shell_ends_at s waiting = record s { exited = true; wait = stopping }
  shell_ends_at s _ = s

  abbrev pub shell_ends : Session S → Session S
  shell_ends s = shell_ends_at s s.wait

  unfoldable pub finish_at : ℕ → ℤ → Session S → Wait → Pump → Session S
  finish_at now code s stopping (closing []) = record s {
    exit_code = code;
    exited_at = now;
    wait = finished;
    tombstones = if is_empty s.clients then suc s.tombstones else s.tombstones;
  }
  finish_at now code s _ _ = s

  abbrev pub finish : ℕ → ℤ → Session S → Session S
  finish now code s = finish_at now code s s.wait s.pump
