-- ===== src/Ward/Command/Synced.antt =====
-- The input and the event loop agree on the command mode (ward/command.go).
use vibepit.Prelude.{
  ℕ, ◌≡◌, ◌⊎◌, inl, inr, refl, sym, ap, ap₂, ◌∙◌, Bool, true, false, not, ◌&&◌, ◌==◌, List, [], ◌∷◌,
  Text, Bool-cases, All, ==_iff, contains_byte,
}
use vibepit.Ward.Bar.{
  BarLoop, start, command_active, command_pending, ActionResult, Event, enter_command, is_pending,
  on_enter, on_begin, begins, on_action, on_cancel, exit_command_mode, handle,
}
use vibepit.Ward.Command.{
  InputHandler, World, Processed, settle, settle_of, send, is_done, entered, is_ack, escape, cancel,
  act, process_input, read_input, read_all,
}
use vibepit.Ward.Command.Modes.{
  Moves, IsOff, AreForeign, batch-Moves, begins_on, begins_off, cancel_on, cancel_off, exit-IsOff,
  after_action-IsOff,
}

-- Only the input enters command mode and acts.
abbrev pub IsAlone : World → Type 0
IsAlone w = All (λ p. AreForeign p.0) w.coming

-- In command mode the loop has the generation of the input, and its command mode is on or was
-- cancelled; out of it the loop's command mode is off.
abbrev pub Agrees : BarLoop → InputHandler → Bool → Type 0
Agrees b h true = (b.gen ≡ h.gen) × (((b.cmd ≡ command_active) × (b.cancellable ≡ true)) ⊎ IsOff b)
Agrees b h false = IsOff b

abbrev pub IsSynced : World → InputHandler → Bool → Type 0
IsSynced w h m = IsAlone w × Agrees w.bar h m

Moves-Agrees :
    (b c : BarLoop) (h : InputHandler) (m : Bool) → Moves b c → Agrees b h m → Agrees c h m
Moves-Agrees b c h true (inl s) (g, inl on) = (s.0 ∙ g, inl (s.1 ∙ on.0, s.2 ∙ on.1))
Moves-Agrees b c h true (inl s) (g, inr off) = (s.0 ∙ g, inr (s.1 ∙ off.0, s.2 ∙ off.1))
Moves-Agrees b c h true (inr t) (g, a) = (t.0 ∙ g, inr t.2)
Moves-Agrees b c h false (inl s) off = (s.1 ∙ off.0, s.2 ∙ off.1)
Moves-Agrees b c h false (inr t) off = t.2

settle_of-Moves :
    (b : BarLoop) (coming : List (List (ℕ × Event) × ℕ))
    → All (λ p. AreForeign p.0) coming
    → All (λ p. AreForeign p.0) (settle_of b coming).0.coming × Moves b (settle_of b coming).0.bar
unfolding settle_of
settle_of-Moves b [] f = (tt, inl (refl, refl, refl))
settle_of-Moves b ((es, now) ∷ rest) f = (f.1, batch-Moves es b f.0)

settle-Moves : (w : World) → IsAlone w → IsAlone (settle w).0 × Moves w.bar (settle w).0.bar
settle-Moves w alone = settle_of-Moves w.bar w.coming alone

settle-IsSynced :
    (w : World) (h : InputHandler) (m : Bool) → IsSynced w h m → IsSynced (settle w).0 h m
settle-IsSynced w h m (alone, a) =
    let s = settle-Moves w alone in (s.0, Moves-Agrees w.bar (settle w).0.bar h m s.1 a)

cancel-IsOff :
    (now : ℕ) (b : BarLoop) (h : InputHandler) → Agrees b h true → IsOff (on_cancel now h.gen b)
cancel-IsOff now b h a = elim a.1 [
  | inl on ↦ cancel_on now h.gen b (begins_on h.gen b on.0 a.0)
  | inr off ↦
      let same = cancel_off now h.gen b (begins_off h.gen b off.0) in
      (ap (λ c. c.cmd) same ∙ off.0, ap (λ c. c.cancellable) same ∙ off.1)
]

begin-Agrees :
    (b : BarLoop) (h : InputHandler)
    → Agrees b h true
    → ((begins h.gen b ≡ true)
        × ((on_begin h.gen b).cmd ≡ command_pending)
        × ((on_begin h.gen b).gen ≡ h.gen))
      ⊎ ((begins h.gen b ≡ false) × IsOff (on_begin h.gen b))
unfolding on_begin
begin-Agrees b h a = elim a.1 [
  | inl on ↦ let t = begins_on h.gen b on.0 a.0 in inl (t, simp t refl, simp t a.0)
  | inr off ↦ let t = begins_off h.gen b off.0 in inr (t, simp t off)
]

action-IsOff :
    (now : ℕ) (b : BarLoop) (g : ℕ) (r : ActionResult)
    → b.cmd ≡ command_pending
    → b.gen ≡ g
    → IsOff (on_action now g r b)
unfolding on_action
action-IsOff now b g r p e =
    let t : (is_pending b.cmd && g == b.gen) ≡ true =
      ap₂ (λ c n. is_pending c && g == n) p e ∙ (==_iff g g).1 refl in
    simp t (after_action-IsOff now (exit_command_mode b) r (exit-IsOff b))

done-IsOff :
    (w : World) (h : InputHandler) → Agrees w.bar h true → is_done w h.gen ≡ true → IsOff w.bar
unfolding is_done
done-IsOff w h (g, inl on) d =
    let open_now : not (w.bar.cancellable && h.gen == w.bar.gen) ≡ false =
      ap₂ (λ c n. not (c && h.gen == n)) on.1 g ∙ ap not ((==_iff h.gen h.gen).1 refl) in
    absurd cc
done-IsOff w h (g, inr off) d = off

Moves-pending :
    (b c : BarLoop) (g : ℕ)
    → Moves b c
    → b.cmd ≡ command_pending
    → b.gen ≡ g
    → (c.cmd ≡ command_pending) × (c.gen ≡ g)
Moves-pending b c g (inl s) p e = (s.1 ∙ p, s.0 ∙ e)
Moves-pending b c g (inr t) p e = absurd (let z = sym t.1 ∙ p in cc)

enter-IsSynced :
    (w : World) (h : InputHandler)
    → IsSynced w h false
    → IsSynced (send w enter_command).0 (entered h (send w enter_command).1) true
unfolding send handle on_enter entered
enter-IsSynced w h (alone, a) = ((settle-Moves w alone).0, (refl, inl (refl, refl)))

module _ (on_key : ℕ → Text → ActionResult) (hotkey : ℕ) where
  abbrev pub Ends : Processed → Type 0
  Ends r = IsSynced r.world r.handler r.in_command

  cancel-Ends :
      (w : World) (h : InputHandler) (rest : Text)
      → IsSynced w h true
      → Ends (cancel on_key hotkey w h rest)
  unfolding cancel send handle
  cancel-Ends w h rest s =
      let t = settle-IsSynced w h true s in (t.0, cancel-IsOff (settle w).1 (settle w).0.bar h t.1)

  act-Ends :
      (w : World) (h : InputHandler) (key : ℕ) (rest : Text)
      → IsSynced w h true
      → Ends (act on_key hotkey w h key rest)
  unfolding act send handle is_ack
  act-Ends w h key rest s =
      let t = settle-IsSynced w h true s in
      let v = (settle w).0 in
      let begun = record v { bar = on_begin h.gen v.bar } in
      let u = settle-Moves begun t.0 in
      elim (begin-Agrees v.bar h t.1) [
        | inl (b, p, g) ↦
            let still = Moves-pending begun.bar (settle begun).0.bar h.gen u.1 p g in
            let acted =
              action-IsOff (settle begun).1 (settle begun).0.bar h.gen (on_key key h.target) still.0
                still.1 in
            simp b (u.0, acted)
        | inr (b, off) ↦ simp b (t.0, off)
      ]

  process_input-Ends :
      (w : World) (h : InputHandler) (m : Bool) (bytes : Text)
      → IsSynced w h m
      → Ends (process_input on_key hotkey w h m bytes)
  unfolding process_input
  process_input-Ends w h m [] s = s
  process_input-Ends w h false (c ∷ rest) s = elim (Bool-cases (c == hotkey)) [
    | inl e ↦
        let sent = send w enter_command in
        rw (e, process_input)
          (process_input-Ends sent.0 (entered h sent.1) true rest (enter-IsSynced w h s))
    | inr e ↦ rw (e, process_input) (process_input-Ends w h false rest s)
  ]
  process_input-Ends w h true (c ∷ rest) s =
      let v = (settle w).0 in
      let t = settle-IsSynced w h true s in
      elim (Bool-cases (is_done v h.gen)) [
        | inl d ↦ simp d (t.0, done-IsOff v h t.1 d)
        | inr d ↦ elim (Bool-cases (c == escape)) [
          | inl e ↦ simp (d, e) (cancel-Ends v h rest t)
          | inr e ↦ elim (Bool-cases (c == hotkey)) [
            | inl k ↦ simp (d, e, k) (cancel-Ends v h rest t)
            | inr k ↦ elim (Bool-cases (contains_byte c h.visible_keys)) [
              | inl a ↦ simp (d, e, k, a) (act-Ends v h c rest t)
              | inr a ↦ simp (d, e, k, a) (process_input-Ends v h true rest t)
            ]
          ]
        ]
      ]

  read_input-Ends :
      (p : Processed) (chunk : Text) → Ends p → Ends (read_input on_key hotkey p chunk)
  unfolding read_input
  read_input-Ends p chunk s =
      let v = (settle p.world).0 in
      let t = settle-IsSynced p.world p.handler p.in_command s in
      process_input-Ends v p.handler (p.in_command && not (is_done v p.handler.gen)) chunk
        (noticed v p.handler p.in_command t)
    where
      noticed :
          (v : World) (h : InputHandler) (m : Bool)
          → IsSynced v h m
          → IsSynced v h (m && not (is_done v h.gen))
      noticed v h false t = t
      noticed v h true t = elim (Bool-cases (is_done v h.gen)) [
        | inl d ↦ simp d (t.0, done-IsOff v h t.1 d)
        | inr d ↦ simp d t
      ]

  read_all-Ends :
      (p : Processed) (chunks : List Text) → Ends p → Ends (read_all on_key hotkey p chunks)
  unfolding read_all
  read_all-Ends p [] s = s
  read_all-Ends p (chunk ∷ chunks) s =
      read_all-Ends (read_input on_key hotkey p chunk) chunks (read_input-Ends p chunk s)

-- the wrapper when it starts, with what is to reach the loop
abbrev pub started : List (List (ℕ × Event) × ℕ) → Processed
started coming = record {
  world = record { bar = start; coming = coming };
  handler = record { target = []; visible_keys = []; gen = 0 };
  in_command = false;
  written = [];
  called = [];
}

-- However the input is cut into reads, and whatever other events and expired timers reach the event
-- loop before, between and during the turns of the input: after any read, if the input is in command
-- mode, then the loop has its generation, and its command mode is on or was cancelled; and if not,
-- then the command mode of the loop is off with its context cancelled, no action being pending.
pub read_all-IsSynced :
    (on_key : ℕ → Text → ActionResult) (hotkey : ℕ) (coming : List (List (ℕ × Event) × ℕ))
    (chunks : List Text)
    → All (λ p. AreForeign p.0) coming
    → IsSynced
        (read_all on_key hotkey (started coming) chunks).world
        (read_all on_key hotkey (started coming) chunks).handler
        (read_all on_key hotkey (started coming) chunks).in_command
read_all-IsSynced on_key hotkey coming chunks alone =
    read_all-Ends on_key hotkey (started coming) chunks (alone, (refl, refl))
