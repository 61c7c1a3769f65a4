-- ===== src/Session/Hub/Manned.antt =====
-- Every critical section keeps the roster of a session (session/session.go).
use vibepit.Prelude.{
  ℕ, suc, ◌≡◌, ◌≤◌, refl, sym, subst, ℤ, Bool, true, false, some, [], ◌∷◌, ◌++◌, Text, length, inl,
  inr, arith, Bool-cases, if◌then◌else◌,
}
use vibepit.Session.Client.{DetachReason, new_client, channel_cap, close_output, close_done, read}
use vibepit.Session.Hub.{
  Emulator, Session, Pump, reading, sending, closing, Wait, waiting, stopping, finished, update,
  is_writer, delivered, deliver, begin_close, detach, write_input, take_over, resize, attach_at,
  attach_live, promote, nudge, resize_if, pump_read_at, pump_fail_at, pump_next_at, shell_ends_at,
  finish_at, is_none, replay,
}
use vibepit.Session.Hub.Steps.{
  has, Step, Reaches, invariant-Reaches, start, take_read, attaches, takes_over, resizes, inputs,
  reads, closes, detaches, pump_reads, pump_fails, pump_goes_on, shell_exits, finishes,
}
use vibepit.Session.Hub.Roster.{
  IsManned, Roster-update, Roster-detach, Roster-attach, Roster-make, close_done-IsLive,
  close_done-output, delivered-IsLive, delivered-bounded, read-IsLive, read-bounded,
}

module _ {S : Type 0} (s : Session S) (v : IsManned s) where
  deliver-IsManned : (stop : Bool) (x : ℕ) (chunk : Text) → IsManned (deliver stop s x chunk)
  unfolding deliver
  deliver-IsManned stop x chunk =
      Roster-update s.clients s.writer s.fresh s.client x (delivered stop (s.client x) chunk)
        (delivered-IsLive (s.client x) stop chunk)
        (delivered-bounded (s.client x) stop chunk (v.bounded x)) v

  close-IsManned : (x : ℕ) (r : DetachReason) → IsManned (begin_close s x r)
  unfolding begin_close
  close-IsManned x r =
      Roster-update s.clients s.writer s.fresh s.client x (close_done (s.client x) r)
        (close_done-IsLive (s.client x) r)
        (subst (λ o. length o ≤ channel_cap) (sym (close_done-output (s.client x) r)) (v.bounded x))
        v

  read-IsManned : (stop : Bool) (n x : ℕ) → IsManned (take_read stop n s x)
  unfolding take_read
  read-IsManned stop n x =
      Roster-update s.clients s.writer s.fresh s.client x (read stop n (s.client x)).1
        (read-IsLive (s.client x) stop n) (read-bounded (s.client x) stop n (v.bounded x)) v

  detach-IsManned : (now x : ℕ) → IsManned (detach now s x)
  unfolding detach
  detach-IsManned now x = Roster-detach s.clients s.writer s.fresh s.client x v

  pump_next-IsManned : (stop : Bool) (p : Pump) → IsManned (pump_next_at stop s p)
  unfolding pump_next_at deliver close_output
  pump_next-IsManned stop reading = v
  pump_next-IsManned stop (sending d []) = v
  pump_next-IsManned stop (sending d (x ∷ xs)) = unfold deliver in deliver-IsManned stop x d
  pump_next-IsManned stop (closing []) = v
  pump_next-IsManned stop (closing (x ∷ xs)) =
      Roster-update s.clients s.writer s.fresh s.client x (close_output (s.client x)) (λ l. l)
        (v.bounded x) v

  pump_read-IsManned : (vt : Emulator S) (d : Text) (p : Pump) → IsManned (pump_read_at vt s d p)
  unfolding pump_read_at
  pump_read-IsManned vt d reading = v
  pump_read-IsManned vt d (sending e xs) = v
  pump_read-IsManned vt d (closing xs) = v

  pump_fail-IsManned : (p : Pump) → IsManned (pump_fail_at s p)
  unfolding pump_fail_at
  pump_fail-IsManned reading = v
  pump_fail-IsManned (sending e xs) = v
  pump_fail-IsManned (closing xs) = v

  shell_ends-IsManned : (w : Wait) → IsManned (shell_ends_at s w)
  unfolding shell_ends_at
  shell_ends-IsManned waiting = v
  shell_ends-IsManned stopping = v
  shell_ends-IsManned finished = v

  finish-IsManned : (now : ℕ) (code : ℤ) (w : Wait) (p : Pump) → IsManned (finish_at now code s w p)
  unfolding finish_at
  finish-IsManned now code waiting p = v
  finish-IsManned now code stopping reading = v
  finish-IsManned now code stopping (sending d xs) = v
  finish-IsManned now code stopping (closing []) = v
  finish-IsManned now code stopping (closing (x ∷ xs)) = v
  finish-IsManned now code finished p = v

  attach_live-IsManned : (vt : Emulator S) (cols rows : ℕ) → IsManned (attach_live vt s cols rows)
  unfolding attach_live promote nudge resize_if deliver
  attach_live-IsManned vt cols rows =
      let made =
        Roster-attach s.clients s.writer s.fresh s.client new_client (λ h. cc) (omega arith) v in
      let c = update s.client s.fresh new_client in
      let d = delivered false (c s.fresh) (replay vt s.vte) in
      Roster-update (s.clients ++ s.fresh ∷ [])
        (if is_none s.writer then some s.fresh else s.writer) (suc s.fresh) c s.fresh d
        (delivered-IsLive (c s.fresh) false (replay vt s.vte))
        (delivered-bounded (c s.fresh) false (replay vt s.vte) (made.bounded s.fresh)) made

  attach-IsManned :
      (vt : Emulator S) (cols rows : ℕ) (b : Bool) → IsManned (attach_at vt s cols rows b)
  unfolding attach_at close_output
  attach-IsManned vt cols rows true =
      Roster-make s.clients s.writer s.fresh s.client (close_output new_client) (omega arith) v
  attach-IsManned vt cols rows false = attach_live-IsManned vt cols rows

  write_input-IsManned :
      (t : Session S) (x : ℕ) (p : Text) → write_input s x p ≡ some t → IsManned t
  unfolding write_input
  write_input-IsManned t x p h = elim (Bool-cases (is_writer s.writer x)) [
    | inl e ↦
        let eq : record s { written = s.written ++ p ∷ [] } ≡ t = ground (arith, e, h) in
        subst IsManned eq v
    | inr e ↦ absurd (ground (arith, e, h))
  ]

  take_over-IsManned :
      (vt : Emulator S) (x cols rows : ℕ)
      → has x s.clients ≡ true
      → IsManned (take_over vt s x cols rows)
  unfolding take_over resize_if
  take_over-IsManned vt x cols rows h = record {
    known = v.known;
    unique = v.unique;
    writer_in = λ w e. ground (arith, e, h);
    someone = λ e. cc;
    live = v.live;
    bounded = v.bounded;
  }

module _ {S : Type 0} (vt : Emulator S) where
  Step-IsManned : (s t : Session S) → Step vt s t → IsManned s → IsManned t
  unfolding resize resize_if
  Step-IsManned s _ (attaches _ c r) v = attach-IsManned s v vt c r s.exited
  Step-IsManned s _ (takes_over _ x c r h) v = take_over-IsManned s v vt x c r h
  Step-IsManned s _ (resizes _ x c r) v = v
  Step-IsManned s _ (inputs _ t x p h) v = write_input-IsManned s v t x p h
  Step-IsManned s _ (reads _ stop n x) v = read-IsManned s v stop n x
  Step-IsManned s _ (closes _ x r h) v = close-IsManned s v x r
  Step-IsManned s _ (detaches _ now x h) v = detach-IsManned s v now x
  Step-IsManned s _ (pump_reads _ p) v = pump_read-IsManned s v vt p s.pump
  Step-IsManned s _ (pump_fails _) v = pump_fail-IsManned s v s.pump
  Step-IsManned s _ (pump_goes_on _ stop) v = pump_next-IsManned s v stop s.pump
  Step-IsManned s _ (shell_exits _) v = shell_ends-IsManned s v s.wait
  Step-IsManned s _ (finishes _ now code) v = finish-IsManned s v now code s.wait s.pump

  -- Whatever the interleaving, provided that a client is taken over only while it is attached: the
  -- attached clients are distinct and none of them has already detached, one of them is the writer
  -- unless there is none, and no client's output channel ever holds more than its capacity.
  pub Reaches-IsManned :
      (v : S) (cols rows : ℕ) (t : Session S) → Reaches vt (start v cols rows) t → IsManned t
  Reaches-IsManned v cols rows t r =
      invariant-Reaches vt IsManned Step-IsManned (start v cols rows) t r (
        unfold has in
        record {
          known = λ x h. cc;
          unique = tt;
          writer_in = λ w h. cc;
          someone = λ h. refl;
          live = λ x h. cc;
          bounded = λ x. omega arith;
        })
