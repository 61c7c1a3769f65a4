-- ===== src/Session/Hub/Steps.antt =====
-- The interleavings of a session's critical sections (session/session.go, session/client.go).
use vibepit.Prelude.{
  ℕ, ◌≡◌, ◌<◌, Bool, true, false, none, some, List, [], ◌∷◌, Text, ℤ, pos, if◌then◌else◌, ◌==◌,
}
use vibepit.Session.Client.{DetachReason, detach_none, read, new_client}
use vibepit.Session.Hub.{
  Emulator, Session, reading, waiting, update, begin_close, detach, write_input, take_over, resize,
  attach, pump_read, pump_fail, pump_next, shell_ends, finish,
}

-- `x` is attached.
unfoldable pub has : ℕ → List ℕ → Bool
has x [] = false
has x (y ∷ ys) = if y == x then true else has x ys

module _ {S : Type 0} where
  -- What `Read` leaves of a client, in its session.
  unfoldable pub take_read : Bool → ℕ → Session S → ℕ → Session S
  take_read stop n s x = record s { client = update s.client x (read stop n (s.client x)).1 }

  -- a session as `newSession` makes it
  abbrev pub start : S → ℕ → ℕ → Session S
  start v cols rows = record {
    client = λ x. new_client;
    fresh = 0;
    clients = [];
    writer = none;
    exited = false;
    exit_code = pos 0;
    exited_at = 0;
    detached_at = 0;
    last_detach_reason = detach_none;
    vte = v;
    cols = cols;
    rows = rows;
    written = [];
    pump = reading;
    wait = waiting;
    tombstones = 0;
  }

  -- One critical section of one goroutine. A client is taken over only while it is attached, and
  -- `Detach` comes only after the client's `done` is closed.
  pub data Step (vt : Emulator S) : Session S → Session S → Type 0 where
    attaches : (s : Session S) (cols rows : ℕ) → Step vt s (attach vt s cols rows)
    takes_over :
        (s : Session S) (x cols rows : ℕ)
        → has x s.clients ≡ true
        → Step vt s (take_over vt s x cols rows)
    resizes : (s : Session S) (x cols rows : ℕ) → Step vt s (resize vt s x cols rows)
    inputs : (s t : Session S) (x : ℕ) (p : Text) → write_input s x p ≡ some t → Step vt s t
    reads : (s : Session S) (stop : Bool) (n x : ℕ) → Step vt s (take_read stop n s x)
    closes :
        (s : Session S) (x : ℕ) (r : DetachReason) → x < s.fresh → Step vt s (begin_close s x r)
    detaches :
        (s : Session S) (now x : ℕ) → (s.client x).detaching ≡ true → Step vt s (detach now s x)
    pump_reads : (s : Session S) (p : Text) → Step vt s (pump_read vt s p)
    pump_fails : (s : Session S) → Step vt s (pump_fail s)
    pump_goes_on : (s : Session S) (stop : Bool) → Step vt s (pump_next stop s)
    shell_exits : (s : Session S) → Step vt s (shell_ends s)
    finishes : (s : Session S) (now : ℕ) (code : ℤ) → Step vt s (finish now code s)

  -- The states that an interleaving reaches.
  pub data Reaches (vt : Emulator S) (s : Session S) : Session S → Type 0 where
    here : Reaches vt s s
    then_step : (t u : Session S) → Reaches vt s t → Step vt t u → Reaches vt s u

  pub invariant-Reaches :
      (vt : Emulator S) (P : Session S → Type 0)
      → ((s t : Session S) → Step vt s t → P s → P t)
      → (s t : Session S) → Reaches vt s t
      → P s
      → P t
  invariant-Reaches vt P keep s _ here p = p
  invariant-Reaches vt P keep s _ (then_step t u r e) p =
      keep t u e (invariant-Reaches vt P keep s t r p)
