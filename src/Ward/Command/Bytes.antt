-- ===== src/Ward/Command/Bytes.antt =====
-- What of the input reaches the child (ward/command.go).
use vibepit.Prelude.{
  ℕ, ◌≡◌, refl, ap, subst, inl, inr, Bool, true, false, ◌==◌, List, [], ◌∷◌, ◌∙◌, Text, Bool-cases,
  arith, contains_byte,
}
use vibepit.Ward.Bar.{
  Answer, ack, silent, response, ActionResult, enter_command, begin_action, handle,
}
use vibepit.Ward.Command.{
  InputHandler, World, Processed, settle, send, is_done, entered, is_ack, escape, cancel, act,
  process_input,
}

-- Command mode is still on when the event loop has handled what came in between: its context is not
-- cancelled, and it is that of the handler's generation.
abbrev pub IsLive : World → InputHandler → Type 0
IsLive w h = ((settle w).0.bar.cancellable ≡ true) × (h.gen ≡ (settle w).0.bar.gen)

-- What a chunk gives the child, from one mode to another, and the keys on which OnKey is called.
pub data Passes (hotkey : ℕ)
    : World → InputHandler → Bool → Text → Text → Bool → List ℕ → Type 0 where
  -- the end of the chunk
  ends : (w : World) (h : InputHandler) (m : Bool) → Passes hotkey w h m [] [] m []
  -- out of command mode: a byte, and the hotkey, which the event loop answers with the keys
  passes :
      {w : World} {h : InputHandler} {rest out : Text} {m : Bool} {called : List ℕ} (c : ℕ)
      → (c == hotkey) ≡ false
      → Passes hotkey w h false rest out m called
      → Passes hotkey w h false (c ∷ rest) (c ∷ out) m called
  enters :
      {w : World} {h : InputHandler} {rest out : Text} {m : Bool} {called : List ℕ} (c : ℕ)
      (target : Text) (keys : List ℕ) (gen : ℕ)
      → (c == hotkey) ≡ true
      → (send w enter_command).1 ≡ response target keys gen
      → Passes hotkey
          (send w enter_command).0
          (record { target = target; visible_keys = keys; gen = gen })
          true
          rest
          out
          m
          called
      → Passes hotkey w h false (c ∷ rest) out m called
  -- in command mode: a byte that is no key of it
  ignores :
      {w : World} {h : InputHandler} {rest out : Text} {m : Bool} {called : List ℕ} (c : ℕ)
      → IsLive w h
      → (c == escape) ≡ false
      → (c == hotkey) ≡ false
      → contains_byte c h.visible_keys ≡ false
      → Passes hotkey (settle w).0 h true rest out m called
      → Passes hotkey w h true (c ∷ rest) out m called
  -- escape, the hotkey again, an action key that the loop acknowledges or not, and the first byte after
  -- a cancellation: the rest goes to the child
  escapes :
      {w : World} {h : InputHandler} {rest : Text} (c : ℕ)
      → IsLive w h
      → (c == escape) ≡ true
      → Passes hotkey w h true (c ∷ rest) rest false []
  repeats :
      {w : World} {h : InputHandler} {rest : Text} (c : ℕ)
      → IsLive w h
      → (c == escape) ≡ false
      → (c == hotkey) ≡ true
      → Passes hotkey w h true (c ∷ rest) (hotkey ∷ rest) false []
  acts :
      {w : World} {h : InputHandler} {rest : Text} (c : ℕ)
      → IsLive w h
      → (c == escape) ≡ false
      → (c == hotkey) ≡ false
      → contains_byte c h.visible_keys ≡ true
      → (send (settle w).0 (begin_action h.gen)).1 ≡ ack true
      → Passes hotkey w h true (c ∷ rest) rest false (c ∷ [])
  too_late :
      {w : World} {h : InputHandler} {rest : Text} (c : ℕ)
      → IsLive w h
      → (c == escape) ≡ false
      → (c == hotkey) ≡ false
      → contains_byte c h.visible_keys ≡ true
      → ((send (settle w).0 (begin_action h.gen)).1 ≡ ack true → ⊥)
      → Passes hotkey w h true (c ∷ rest) rest false []
  cancelled :
      {w : World} {h : InputHandler} {rest : Text} (c : ℕ)
      → (IsLive w h → ⊥)
      → Passes hotkey w h true (c ∷ rest) (c ∷ rest) false []

goes_on : (w : World) (h : InputHandler) → is_done (settle w).0 h.gen ≡ false → IsLive w h
unfolding is_done
goes_on w h d = ground (arith, d)

cancelled_of : (w : World) (h : InputHandler) → is_done (settle w).0 h.gen ≡ true → IsLive w h → ⊥
unfolding is_done
cancelled_of w h d l = ground (arith, d, l.0, l.1)

acknowledged : (a : Answer) → is_ack a ≡ true → a ≡ ack true
unfolding is_ack
acknowledged (ack b) e = ap ack e
acknowledged silent e = absurd cc
acknowledged (response t ks g) e = absurd cc

unacknowledged : (a : Answer) → is_ack a ≡ false → a ≡ ack true → ⊥
unfolding is_ack
unacknowledged a e t = let z = subst (λ x. is_ack x ≡ false) t e in cc

-- The event loop answers the hotkey with a target, keys and a generation.
answered :
    (w : World)
    → (target : Text) × (keys : List ℕ) × (gen : ℕ) × ((send w enter_command).1
        ≡ response target keys gen)
unfolding send handle
answered w = (_, _, _, refl)

module _ (on_key : ℕ → Text → ActionResult) (hotkey : ℕ) where
  abbrev Gives : World → InputHandler → Bool → Text → Processed → Type 0
  Gives w h m bytes r = Passes hotkey w h m bytes r.written r.in_command r.called

  act-Gives :
      (w : World) (h : InputHandler) (key : ℕ) (rest : Text)
      → IsLive w h
      → (key == escape) ≡ false
      → (key == hotkey) ≡ false
      → contains_byte key h.visible_keys ≡ true
      → Gives w h true (key ∷ rest) (act on_key hotkey (settle w).0 h key rest)
  unfolding act
  act-Gives w h key rest l e k v =
      let a = (send (settle w).0 (begin_action h.gen)).1 in
      elim (Bool-cases (is_ack a)) [
        | inl y ↦ simp y (acts key l e k v (acknowledged a y))
        | inr n ↦ simp n (too_late key l e k v (unacknowledged a n))
      ]

  process_input-Gives :
      (w : World) (h : InputHandler) (m : Bool) (bytes : Text)
      → Gives w h m bytes (process_input on_key hotkey w h m bytes)
  unfolding process_input cancel
  process_input-Gives w h m [] = ends w h m
  process_input-Gives w h false (c ∷ rest) = elim (Bool-cases (c == hotkey)) [
    | inl e ↦
        let sent = send w enter_command in
        let (target, keys, gen, a) = answered w in
        let h' : InputHandler = record { target = target; visible_keys = keys; gen = gen } in
        let same : entered h sent.1 ≡ h' = ap (entered h) a ∙ unfold entered in refl in
        let r = process_input on_key hotkey sent.0 (entered h sent.1) true rest in
        let more =
          subst (λ x. Gives sent.0 x true rest r) same
            (process_input-Gives sent.0 (entered h sent.1) true rest) in
        rw (e, process_input) (enters c target keys gen e a more)
    | inr e ↦ rw (e, process_input) (passes c e (process_input-Gives w h false rest))
  ]
  process_input-Gives w h true (c ∷ rest) =
      let v = (settle w).0 in
      elim (Bool-cases (is_done v h.gen)) [
        | inl d ↦ simp d (cancelled c (cancelled_of w h d))
        | inr d ↦
            let l = goes_on w h d in
            elim (Bool-cases (c == escape)) [
              | inl e ↦ simp (d, e) (escapes c l e)
              | inr e ↦ elim (Bool-cases (c == hotkey)) [
                | inl k ↦ simp (d, e, k) (repeats c l e k)
                | inr k ↦ elim (Bool-cases (contains_byte c h.visible_keys)) [
                  | inl a ↦ simp (d, e, k, a) (act-Gives w h c rest l e k a)
                  | inr a ↦
                      simp (d, e, k, a) (ignores c l e k a (process_input-Gives v h true rest))
                ]
              ]
            ]
      ]

  -- Without the hotkey nothing is held back.
  plain :
      (w : World) (h : InputHandler) (m n : Bool) (bytes out : Text) (called : List ℕ)
      → Passes hotkey w h m bytes out n called
      → m ≡ false
      → contains_byte hotkey bytes ≡ false
      → (out ≡ bytes) × (n ≡ false)
  unfolding contains_byte
  plain w h m n bytes out called (ends u g k) e f = (refl, e)
  plain w h m n bytes out called (passes c p r) e f =
      let more = plain w h false _ _ _ _ r refl (ground (arith, p)) in
      (ap (λ u. c ∷ u) more.0, more.1)
  plain w h m n bytes out called (enters c t ks g p a r) e f = absurd (ground (arith, p))
  plain w h m n bytes out called (ignores c l x y z r) e f = absurd cc
  plain w h m n bytes out called (escapes c l x) e f = absurd cc
  plain w h m n bytes out called (repeats c l x y) e f = absurd cc
  plain w h m n bytes out called (acts c l x y z a) e f = absurd cc
  plain w h m n bytes out called (too_late c l x y z a) e f = absurd cc
  plain w h m n bytes out called (cancelled c l) e f = absurd cc

  -- Whatever else reaches the event loop: out of command mode every byte of a chunk but the hotkey,
  -- which enters command mode, is written to the child in order. While command mode is on, a byte that
  -- is neither escape nor the hotkey nor one of the keys that the loop gave is dropped, and each of
  -- the others ends the mode: escape and such a key are not written, the hotkey is, and a key is the
  -- one on which OnKey is called, once, if the loop acknowledges it. Once the mode is cancelled, the
  -- next byte is written. What comes after the end is written as it is. So a chunk without the hotkey
  -- that comes out of command mode is written as a whole.
  pub process_input-Passes :
      (w : World) (h : InputHandler) (m : Bool) (bytes : Text)
      → Passes hotkey w h m bytes
          (process_input on_key hotkey w h m bytes).written
          (process_input on_key hotkey w h m bytes).in_command
          (process_input on_key hotkey w h m bytes).called
        × (m ≡ false
            → contains_byte hotkey bytes ≡ false
            → ((process_input on_key hotkey w h m bytes).written ≡ bytes)
              × ((process_input on_key hotkey w h m bytes).in_command ≡ false))
  process_input-Passes w h m bytes =
      let r = process_input-Gives w h m bytes in
      (
        r,
        plain w h m (process_input on_key hotkey w h m bytes).in_command bytes
            (process_input on_key hotkey w h m bytes).written
            (process_input on_key hotkey w h m bytes).called r,
      )
