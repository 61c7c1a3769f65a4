-- ===== src/Session/Hub/Reason.antt =====
-- The first close of a client decides its reason (session/client.go).
use vibepit.Prelude.{
  ℕ, ◌≡◌, ◌<◌, refl, Bool, true, false, some, [], ◌∷◌, ◌++◌, Text, inl, inr, arith, Bool-cases,
  ◌==◌, ℤ, subst,
}
use vibepit.Session.Client.{Client, DetachReason, close_output, close_done, read, offer}
use vibepit.Session.Hub.{
  Emulator, Session, Pump, reading, sending, closing, Wait, waiting, stopping, finished, update,
  is_writer, delivered, deliver, begin_close, detach, write_input, take_over, resize, attach_at,
  attach_live, promote, nudge, resize_if, pump_read_at, pump_fail_at, pump_next_at, shell_ends_at,
  finish_at,
}
use vibepit.Session.Hub.Steps.{
  Step, Reaches, invariant-Reaches, take_read, attaches, takes_over, resizes, inputs, reads, closes,
  detaches, pump_reads, pump_fails, pump_goes_on, shell_exits, finishes,
}

abbrev ClosedFor : DetachReason → Client → Type 0
ClosedFor r c = (c.done ≡ true) × (c.detach_reason ≡ r)

-- The client `x` is made, and closed for the reason `r`.
abbrev pub IsClosedFor : {S : Type 0} → ℕ → DetachReason → Session S → Type 0
IsClosedFor x r s = (x < s.fresh) × ClosedFor r (s.client x)

module _ (r : DetachReason) (c : Client) (h : ClosedFor r c) where
  delivered-ClosedFor : (stop : Bool) (d : Text) → ClosedFor r (delivered stop c d)
  unfolding delivered offer close_done
  delivered-ClosedFor stop d = ground (arith, h.0, h.1)

  close_done-ClosedFor : (q : DetachReason) → ClosedFor r (close_done c q)
  unfolding close_done
  close_done-ClosedFor q = rw h.0 (refl, h.1)

  read-ClosedFor : (stop : Bool) (n : ℕ) → ClosedFor r (read stop n c).1
  unfolding read
  read-ClosedFor stop n = ground (arith, h.0, h.1)

update-ClosedFor :
    (r : DetachReason) (f : ℕ → Client) (x y : ℕ) (c : Client)
    → (ClosedFor r (f y) → ClosedFor r c)
    → ClosedFor r (f x)
    → ClosedFor r (update f y c x)
update-ClosedFor r f x y c g h = elim (Bool-cases (x == y)) [
  | inl e ↦ let same : x ≡ y = ground (arith, e) in rw e (g (subst (λ z. ClosedFor r (f z)) same h))
  | inr e ↦ rw e h
]

module _ {S : Type 0} (s : Session S) (x : ℕ) (r : DetachReason) (h : IsClosedFor x r s) where
  pump_next-IsClosedFor : (stop : Bool) (p : Pump) → IsClosedFor x r (pump_next_at stop s p)
  unfolding pump_next_at deliver close_output
  pump_next-IsClosedFor stop reading = h
  pump_next-IsClosedFor stop (sending d []) = h
  pump_next-IsClosedFor stop (sending d (y ∷ ys)) = (
    h.0,
    update-ClosedFor r s.client x y (delivered stop (s.client y) d)
        (λ g. delivered-ClosedFor r (s.client y) g stop d) h.1,
  )
  pump_next-IsClosedFor stop (closing []) = h
  pump_next-IsClosedFor stop (closing (y ∷ ys)) =
      (h.0, update-ClosedFor r s.client x y (close_output (s.client y)) (λ g. g) h.1)

  pump_read-IsClosedFor :
      (vt : Emulator S) (d : Text) (p : Pump) → IsClosedFor x r (pump_read_at vt s d p)
  unfolding pump_read_at
  pump_read-IsClosedFor vt d reading = h
  pump_read-IsClosedFor vt d (sending e xs) = h
  pump_read-IsClosedFor vt d (closing xs) = h

  pump_fail-IsClosedFor : (p : Pump) → IsClosedFor x r (pump_fail_at s p)
  unfolding pump_fail_at
  pump_fail-IsClosedFor reading = h
  pump_fail-IsClosedFor (sending e xs) = h
  pump_fail-IsClosedFor (closing xs) = h

  shell_ends-IsClosedFor : (w : Wait) → IsClosedFor x r (shell_ends_at s w)
  unfolding shell_ends_at
  shell_ends-IsClosedFor waiting = h
  shell_ends-IsClosedFor stopping = h
  shell_ends-IsClosedFor finished = h

  finish-IsClosedFor :
      (now : ℕ) (code : ℤ) (w : Wait) (p : Pump) → IsClosedFor x r (finish_at now code s w p)
  unfolding finish_at
  finish-IsClosedFor now code waiting p = h
  finish-IsClosedFor now code stopping reading = h
  finish-IsClosedFor now code stopping (sending d xs) = h
  finish-IsClosedFor now code stopping (closing []) = h
  finish-IsClosedFor now code stopping (closing (y ∷ ys)) = h
  finish-IsClosedFor now code finished p = h

  attach-IsClosedFor :
      (vt : Emulator S) (cols rows : ℕ) (b : Bool) → IsClosedFor x r (attach_at vt s cols rows b)
  unfolding attach_at attach_live promote nudge resize_if deliver close_output
  attach-IsClosedFor vt cols rows true =
      let other : (x == s.fresh) ≡ false = ground (arith, h.0) in (omega (arith, h.0), rw other h.1)
  attach-IsClosedFor vt cols rows false =
      let other : (x == s.fresh) ≡ false = ground (arith, h.0) in (omega (arith, h.0), rw other h.1)

  write_input-IsClosedFor :
      (t : Session S) (y : ℕ) (p : Text) → write_input s y p ≡ some t → IsClosedFor x r t
  unfolding write_input
  write_input-IsClosedFor t y p e = elim (Bool-cases (is_writer s.writer y)) [
    | inl w ↦
        let eq : record s { written = s.written ++ p ∷ [] } ≡ t = ground (arith, e, w) in
        subst (IsClosedFor x r) eq h
    | inr w ↦ absurd (ground (arith, e, w))
  ]

module _ {S : Type 0} (vt : Emulator S) (x : ℕ) (r : DetachReason) where
  Step-IsClosedFor : (s t : Session S) → Step vt s t → IsClosedFor x r s → IsClosedFor x r t
  unfolding resize take_over resize_if begin_close detach take_read
  Step-IsClosedFor s _ (attaches _ c q) h = attach-IsClosedFor s x r h vt c q s.exited
  Step-IsClosedFor s _ (takes_over _ y c q m) h = h
  Step-IsClosedFor s _ (resizes _ y c q) h = h
  Step-IsClosedFor s _ (inputs _ t y p e) h = write_input-IsClosedFor s x r h t y p e
  Step-IsClosedFor s _ (reads _ stop n y) h = (
    h.0,
    update-ClosedFor r s.client x y (read stop n (s.client y)).1
        (λ g. read-ClosedFor r (s.client y) g stop n) h.1,
  )
  Step-IsClosedFor s _ (closes _ y q m) h = (
    h.0,
    update-ClosedFor r s.client x y (close_done (s.client y) q)
        (λ g. close_done-ClosedFor r (s.client y) g q) h.1,
  )
  Step-IsClosedFor s _ (detaches _ now y m) h = (
    h.0,
    update-ClosedFor r s.client x y (record (s.client y) { detaching = false }) (λ g. g) h.1,
  )
  Step-IsClosedFor s _ (pump_reads _ p) h = pump_read-IsClosedFor s x r h vt p s.pump
  Step-IsClosedFor s _ (pump_fails _) h = pump_fail-IsClosedFor s x r h s.pump
  Step-IsClosedFor s _ (pump_goes_on _ stop) h = pump_next-IsClosedFor s x r h stop s.pump
  Step-IsClosedFor s _ (shell_exits _) h = shell_ends-IsClosedFor s x r h s.wait
  Step-IsClosedFor s _ (finishes _ now code) h = finish-IsClosedFor s x r h now code s.wait s.pump

  -- The close of an open client records its reason, and no later close, and no other critical
  -- section in whatever interleaving, changes it or opens the client again.
  pub closed_for_good :
      (s t : Session S)
      → x < s.fresh
      → (s.client x).done ≡ false
      → Reaches vt (begin_close s x r) t
      → ((t.client x).done ≡ true) × ((t.client x).detach_reason ≡ r)
  unfolding begin_close close_done
  closed_for_good s t made is_open path =
      let at : IsClosedFor x r (begin_close s x r) = ground (arith, made, is_open) in
      (invariant-Reaches vt (IsClosedFor x r) Step-IsClosedFor (begin_close s x r) t path at).1
