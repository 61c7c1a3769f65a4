-- ===== src/Session/Hub/Exit.antt =====
-- The end of a session: nobody is left waiting, and its expiry is started (session/session.go).
use vibepit.Prelude.{
  ℕ, ◌≡◌, ◌<◌, refl, subst, Bool, true, false, some, List, [], ◌∷◌, ◌++◌, Text, inl, inr, arith,
  Bool-cases, ℤ, is_empty,
}
use vibepit.Session.Client.{Client, DetachReason, close_output, close_done, read, offer}
use vibepit.Session.Hub.{
  Emulator, Session, Pump, reading, sending, closing, Wait, waiting, stopping, finished, update,
  is_writer, delivered, deliver, begin_close, detach, write_input, take_over, resize, attach_at,
  attach_live, promote, nudge, resize_if, pump_read_at, pump_fail_at, pump_next_at, shell_ends_at,
  finish_at,
}
use vibepit.Session.Hub.Steps.{
  has, Step, Reaches, invariant-Reaches, start, take_read, attaches, takes_over, resizes, inputs,
  reads, closes, detaches, pump_reads, pump_fails, pump_goes_on, shell_exits, finishes,
}
use vibepit.Session.Hub.Members.{has-remove}

-- The pump closes outputs only once the session has exited, and every attached client is closed or
-- among those to come; the end waits for the pump, and leaves an expiry timer if nobody is attached.
record Ending (exited : Bool) (pump : Pump) (wait : Wait) (clients : List ℕ) (client : ℕ → Client)
    (tombstones : ℕ) : Type 0 where
  rejects : (xs : List ℕ) → pump ≡ closing xs → exited ≡ true
  reached :
      (xs : List ℕ)
      → pump ≡ closing xs
      → (x : ℕ) → has x clients ≡ true
      → has x xs ≡ false
      → (client x).output_closed ≡ true
  ended : wait ≡ finished → pump ≡ closing []
  expires : wait ≡ finished → clients ≡ [] → 0 < tombstones

abbrev IsEnding : {S : Type 0} → Session S → Type 0
IsEnding s = Ending s.exited s.pump s.wait s.clients s.client s.tombstones

module _ (c : Client) (h : c.output_closed ≡ true) where
  delivered-closed : (stop : Bool) (d : Text) → (delivered stop c d).output_closed ≡ true
  unfolding delivered offer close_done
  delivered-closed stop d = ground (arith, h)

  close_done-closed : (q : DetachReason) → (close_done c q).output_closed ≡ true
  unfolding close_done
  close_done-closed q = ground (arith, h)

  read-closed : (stop : Bool) (n : ℕ) → (read stop n c).1.output_closed ≡ true
  unfolding read
  read-closed stop n = ground (arith, h)

module _ {S : Type 0} (s : Session S) (v : IsEnding s) where
  Ending-update :
      (x : ℕ) (c : Client)
      → ((s.client x).output_closed ≡ true → c.output_closed ≡ true)
      → Ending s.exited s.pump s.wait s.clients (update s.client x c) s.tombstones
  Ending-update x c k = record {
    rejects = v.rejects;
    reached = λ xs p y m n. ground (arith, k, v.reached xs p y m n);
    ended = v.ended;
    expires = v.expires;
  }

  detach-IsEnding : (now x : ℕ) → IsEnding (detach now s x)
  unfolding detach is_empty
  detach-IsEnding now x = record {
    rejects = v.rejects;
    reached = λ xs p y m n. ground (arith, v.reached xs p y (has-remove x y s.clients m) n);
    ended = v.ended;
    expires = λ w e. ground (arith, e, v.rejects [] (v.ended w));
  }

  pump_next-IsEnding : (stop : Bool) (p : Pump) → s.pump ≡ p → IsEnding (pump_next_at stop s p)
  unfolding pump_next_at deliver close_output has
  pump_next-IsEnding stop reading e = v
  pump_next-IsEnding stop (sending d []) e = record {
    rejects = λ xs p. cc;
    reached = λ xs p. cc;
    ended = λ w. cc (e, v.ended w);
    expires = v.expires;
  }
  pump_next-IsEnding stop (sending d (x ∷ xs)) e = record {
    rejects = λ ys p. cc;
    reached = λ ys p. cc;
    ended = λ w. cc (e, v.ended w);
    expires = v.expires;
  }
  pump_next-IsEnding stop (closing []) e = v
  pump_next-IsEnding stop (closing (x ∷ xs)) e = record {
    rejects = λ ys p. v.rejects (x ∷ xs) e;
    reached = λ ys p y m n.
        let same : xs ≡ ys = ground (arith, p) in
        let others : has y xs ≡ false = cc (same, n) in
        ground (arith, others, v.reached (x ∷ xs) e y m);
    ended = λ w. cc (e, v.ended w);
    expires = v.expires;
  }

  pump_read-IsEnding :
      (vt : Emulator S) (d : Text) (p : Pump) → s.pump ≡ p → IsEnding (pump_read_at vt s d p)
  unfolding pump_read_at
  pump_read-IsEnding vt d reading e = record {
    rejects = λ xs p. cc;
    reached = λ xs p. cc;
    ended = λ w. cc (e, v.ended w);
    expires = v.expires;
  }
  pump_read-IsEnding vt d (sending c xs) e = v
  pump_read-IsEnding vt d (closing xs) e = v

  pump_fail-IsEnding : (p : Pump) → s.pump ≡ p → IsEnding (pump_fail_at s p)
  unfolding pump_fail_at
  pump_fail-IsEnding reading e = record {
    rejects = λ xs p. refl;
    reached = λ xs p y m n. ground (arith, p, m, n);
    ended = λ w. cc (e, v.ended w);
    expires = v.expires;
  }
  pump_fail-IsEnding (sending c xs) e = v
  pump_fail-IsEnding (closing xs) e = v

  shell_ends-IsEnding : (w : Wait) → IsEnding (shell_ends_at s w)
  unfolding shell_ends_at
  shell_ends-IsEnding waiting = record {
    rejects = λ xs p. refl;
    reached = v.reached;
    ended = λ w. cc;
    expires = λ w. cc;
  }
  shell_ends-IsEnding stopping = v
  shell_ends-IsEnding finished = v

  finish-IsEnding :
      (now : ℕ) (code : ℤ) (w : Wait) (p : Pump) → s.pump ≡ p → IsEnding (finish_at now code s w p)
  unfolding finish_at is_empty
  finish-IsEnding now code waiting p e = v
  finish-IsEnding now code stopping reading e = v
  finish-IsEnding now code stopping (sending d xs) e = v
  finish-IsEnding now code stopping (closing []) e = record {
    rejects = v.rejects;
    reached = v.reached;
    ended = λ w. e;
    expires = λ w none_left. ground (arith, none_left);
  }
  finish-IsEnding now code stopping (closing (y ∷ ys)) e = v
  finish-IsEnding now code finished p e = v

  attach-IsEnding :
      (vt : Emulator S) (cols rows : ℕ) (b : Bool)
      → s.exited ≡ b
      → IsEnding (attach_at vt s cols rows b)
  unfolding attach_at attach_live promote nudge resize_if deliver close_output
  attach-IsEnding vt cols rows true e = record {
    rejects = v.rejects;
    reached = λ xs p y m n. ground (arith, v.reached xs p y m n);
    ended = v.ended;
    expires = v.expires;
  }
  attach-IsEnding vt cols rows false e = record {
    rejects = v.rejects;
    reached = λ xs p y m n. cc (e, v.rejects xs p);
    ended = v.ended;
    expires = λ w p. cc (e, v.rejects [] (v.ended w));
  }

  write_input-IsEnding :
      (t : Session S) (x : ℕ) (p : Text) → write_input s x p ≡ some t → IsEnding t
  unfolding write_input
  write_input-IsEnding t x p h = elim (Bool-cases (is_writer s.writer x)) [
    | inl w ↦
        let eq : record s { written = s.written ++ p ∷ [] } ≡ t = ground (arith, h, w) in
        subst IsEnding eq v
    | inr w ↦ absurd (ground (arith, h, w))
  ]

module _ {S : Type 0} (vt : Emulator S) where
  Step-IsEnding : (s t : Session S) → Step vt s t → IsEnding s → IsEnding t
  unfolding resize take_over resize_if begin_close take_read
  Step-IsEnding s _ (attaches _ c q) v = attach-IsEnding s v vt c q s.exited refl
  Step-IsEnding s _ (takes_over _ x c q m) v = v
  Step-IsEnding s _ (resizes _ x c q) v = v
  Step-IsEnding s _ (inputs _ t x p h) v = write_input-IsEnding s v t x p h
  Step-IsEnding s _ (reads _ stop n x) v =
      Ending-update s v x (read stop n (s.client x)).1 (λ k. read-closed (s.client x) k stop n)
  Step-IsEnding s _ (closes _ x q m) v =
      Ending-update s v x (close_done (s.client x) q) (λ k. close_done-closed (s.client x) k q)
  Step-IsEnding s _ (detaches _ now x m) v = detach-IsEnding s v now x
  Step-IsEnding s _ (pump_reads _ p) v = pump_read-IsEnding s v vt p s.pump refl
  Step-IsEnding s _ (pump_fails _) v = pump_fail-IsEnding s v s.pump refl
  Step-IsEnding s _ (pump_goes_on _ stop) v = pump_next-IsEnding s v stop s.pump refl
  Step-IsEnding s _ (shell_exits _) v = shell_ends-IsEnding s v s.wait
  Step-IsEnding s _ (finishes _ now code) v = finish-IsEnding s v now code s.wait s.pump refl

  -- Whatever the interleaving: once the pump is done, the output of every client that is attached is
  -- closed, and once the session has finished, an expiry timer has been started if nobody is
  -- attached.
  pub Reaches-end :
      (w : S) (cols rows : ℕ) (t : Session S)
      → Reaches vt (start w cols rows) t
      → (t.pump ≡ closing [] → (x : ℕ) → has x t.clients ≡ true → (t.client x).output_closed ≡ true)
        × (t.wait ≡ finished → t.clients ≡ [] → 0 < t.tombstones)
  Reaches-end w cols rows t path =
      let v : IsEnding t =
        invariant-Reaches vt IsEnding Step-IsEnding (start w cols rows) t path (record {
          rejects = λ xs p. cc;
          reached = λ xs p. cc;
          ended = λ e. cc;
          expires = λ e. cc;
        }) in
      (λ p x m. v.reached [] p x m (unfold has in refl), v.expires)
