-- ===== src/Ward/Osc133/Chunks.antt =====
-- The parser of prompt markers finds the same, however the output is cut into chunks (ward/osc133.go).
use vibepit.Prelude.{
  ℕ, ◌≡◌, ◌≤◌, refl, sym, ap, ◌∙◌, Option, none, some, List, [], ◌∷◌, ◌++◌, append_assoc, Text,
  length, length-append, ltb, ◌==◌, arith, inl, inr, Bool-cases, ◌⊎◌,
}
use vibepit.Ward.Osc133.{
  Event, prompt_start, command_start, command_executed, command_finished, Zone, zone_unknown,
  zone_prompt, zone_input, zone_output, Parser, ParserState, at_ground, escape, osc_param,
  osc_escape, param_buf_cap, esc, bel, backslash, dispatch, command_of, marker, in_param, finish,
  push_byte, push,
}

abbrev pub zone_of : Event → Zone
zone_of prompt_start = zone_prompt
zone_of command_start = zone_input
zone_of command_executed = zone_output
zone_of (command_finished code) = zone_unknown

-- The zone that a list of events leaves.
unfoldable pub zone_after : Zone → List Event → Zone
zone_after z [] = z
zone_after z (e ∷ es) = zone_after (zone_of e) es

zone_after-append :
    (z : Zone) (xs ys : List Event) → zone_after z (xs ++ ys) ≡ zone_after (zone_after z xs) ys
unfolding zone_after
zone_after-append z [] ys = refl
zone_after-append z (x ∷ xs) ys = zone_after-append (zone_of x) xs ys

pub push-append :
    (p : Parser) (xs ys : Text)
    → ((push p (xs ++ ys)).0 ≡ (push (push p xs).0 ys).0)
      × ((push p (xs ++ ys)).1 ≡ (push p xs).1 ++ (push (push p xs).0 ys).1)
unfolding push
push-append p [] ys = (refl, refl)
push-append p (x ∷ xs) ys =
    let rest = push-append (push_byte p x).0 xs ys in
    (
      rest.0,
      ap (λ l. (push_byte p x).1 ++ l) rest.1
          ∙ sym (
              append_assoc (push_byte p x).1 (push (push_byte p x).0 xs).1
                (push (push (push_byte p x).0 xs).0 ys).1),
    )

-- A dispatched marker has the zone of its event.
dispatch-zone :
    (params : Text) (z : Zone) (e : Event) → dispatch params ≡ some (z, e) → z ≡ zone_of e
unfolding dispatch command_of marker
dispatch-zone params z e h = ground (arith, h)

abbrev IsSound : Parser → Parser × List Event → Type 0
IsSound p r = (r.0.zone ≡ zone_after p.zone r.1) × (length r.0.params ≤ param_buf_cap)

finish-IsSound :
    (p : Parser) (o : Option (Zone × Event))
    → length p.params ≤ param_buf_cap
    → dispatch p.params ≡ o
    → IsSound p (finish p o)
unfolding finish zone_after
finish-IsSound p none h e = (refl, h)
finish-IsSound p (some (z, ev)) h e = (dispatch-zone p.params z ev e, h)

in_param-IsSound : (p : Parser) (b : ℕ) → length p.params ≤ param_buf_cap → IsSound p (in_param p b)
unfolding in_param zone_after
in_param-IsSound p b h = elim (Bool-cases (b == bel)) [
  | inl e ↦ rw e (finish-IsSound p (dispatch p.params) h refl)
  | inr e ↦ elim (Bool-cases (b == esc)) [
    | inl f ↦ rw (e, f) (refl, h)
    | inr f ↦ elim (Bool-cases (ltb (length p.params) param_buf_cap)) [
      | inl g ↦ rw (e, f, g) (refl, ground (arith, g, length-append p.params (b ∷ [])))
      | inr g ↦ rw (e, f, g) (refl, h)
    ]
  ]
]

ParserState-cases :
    (s : ParserState) → (s ≡ at_ground) ⊎ (s ≡ escape) ⊎ (s ≡ osc_param) ⊎ (s ≡ osc_escape)
ParserState-cases at_ground = inl refl
ParserState-cases escape = inr (inl refl)
ParserState-cases osc_param = inr (inr (inl refl))
ParserState-cases osc_escape = inr (inr (inr refl))

push_byte-IsSound :
    (p : Parser) (b : ℕ) → length p.params ≤ param_buf_cap → IsSound p (push_byte p b)
unfolding zone_after push_byte in_param
push_byte-IsSound p b h = elim (ParserState-cases p.state) [
  | inl e ↦ ground (arith, e, h)
  | inr (inl e) ↦ ground (arith, e, h)
  | inr (inr (inl e)) ↦ rw (e, push_byte) (in_param-IsSound p b h)
  | inr (inr (inr e)) ↦ elim (Bool-cases (b == backslash)) [
    | inl f ↦ rw (e, push_byte, f) (finish-IsSound p (dispatch p.params) h refl)
    | inr f ↦ rw (e, push_byte, f) (refl, h)
  ]
]

push-IsSound : (p : Parser) (t : Text) → length p.params ≤ param_buf_cap → IsSound p (push p t)
unfolding push zone_after
push-IsSound p [] h = (refl, h)
push-IsSound p (b ∷ bs) h =
    let first = push_byte-IsSound p b h in
    let rest = push-IsSound (push_byte p b).0 bs first.1 in
    (
      rest.0
          ∙ ap (λ z. zone_after z (push (push_byte p b).0 bs).1) first.0
          ∙ sym (zone_after-append p.zone (push_byte p b).1 (push (push_byte p b).0 bs).1),
      rest.1,
    )

-- Cutting the output into chunks changes neither the events nor the state; the zone is always that
-- of the last event; and the parameters never leave their buffer of 32 bytes.
pub push-chunks :
    (p : Parser) (xs ys : Text)
    → length p.params ≤ param_buf_cap
    → ((push p (xs ++ ys)).0 ≡ (push (push p xs).0 ys).0)
      × ((push p (xs ++ ys)).1 ≡ (push p xs).1 ++ (push (push p xs).0 ys).1)
      × ((push p xs).0.zone ≡ zone_after p.zone (push p xs).1)
      × (length (push p xs).0.params ≤ param_buf_cap)
push-chunks p xs ys h =
    let cut = push-append p xs ys in
    let sound = push-IsSound p xs h in (cut.0, cut.1, sound.0, sound.1)
