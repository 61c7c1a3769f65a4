-- ===== src/Ward/Osc133/Markers.antt =====
-- What a whole marker gives (ward/osc133.go).
use vibepit.Prelude.{
  ℕ, ◌+◌, ◌≡◌, ◌≢◌, ◌≤◌, refl, ap, ◌∙◌, Bool, true, false, none, some, List, [], ◌∷◌, ◌++◌,
  append_assoc, append-nil, Text, length, length-append, ltb, ◌==◌, arith, All, ◌<◌, lt→ltb, codes,
  parse_int, text_eq, ap₂,
}
use vibepit.Ward.Osc133.{
  Event, prompt_start, command_start, command_executed, command_finished, Zone, Parser, at_ground,
  osc_param, param_buf_cap, esc, bel, backslash, dispatch, command_of, marker, in_param, exit_code,
  finish, push_byte, push,
}
use vibepit.Ward.Osc133.Chunks.{zone_of, push-append}

-- A byte that may stand in the body of a marker.
abbrev pub IsBody : ℕ → Type 0
IsBody b = (b ≢ bel) × (b ≢ esc)

-- the parser inside a marker, after some of its body
abbrev within : Zone → Text → Parser
within z params = record { state = osc_param; zone = z; params = params }

push_byte-body :
    (z : Zone) (params : Text) (b : ℕ)
    → IsBody b
    → length params < param_buf_cap
    → push_byte (within z params) b ≡ (within z (params ++ b ∷ []), [])
unfolding push_byte in_param
push_byte-body z params b a h =
    let no_bel : (b == bel) ≡ false = ground (arith, a.0) in
    let no_esc : (b == esc) ≡ false = ground (arith, a.1) in
    rw (no_bel, no_esc, lt→ltb (length params) param_buf_cap h) refl

push-body :
    (z : Zone) (params body : Text)
    → All IsBody body
    → length params + length body ≤ param_buf_cap
    → push (within z params) body ≡ (within z (params ++ body), [])
unfolding push
push-body z params [] a h = rw (append-nil params) refl
push-body z params (b ∷ bs) a h =
    let rest =
      push-body z (params ++ b ∷ []) bs a.1 (omega (arith, h, length-append params (b ∷ []))) in
    rw (push_byte-body z params b a.0 (omega (arith, h)), rest, append_assoc params (b ∷ []) bs)
      refl

-- The two ends of a marker, BEL and ESC backslash.
abbrev pub end : Bool → Text
end true = bel ∷ []
end false = esc ∷ backslash ∷ []

-- The whole marker with a body.
abbrev pub marker_text : Text → Bool → Text
marker_text body short = esc ∷ b']' ∷ (body ++ end short)

push-end :
    (z : Zone) (body : Text) (short : Bool) (w : Zone) (e : Event)
    → dispatch body ≡ some (w, e)
    → push (within z body) (end short)
      ≡ (record { state = at_ground; zone = w; params = body }, e ∷ [])
unfolding push push_byte in_param finish
push-end z body true w e d = rw d refl
push-end z body false w e d = rw d refl

push-opening :
    (z : Zone) (old t : Text)
    → push (record { state = at_ground; zone = z; params = old }) (esc ∷ b']' ∷ t)
      ≡ push (within z []) t
unfolding push push_byte
push-opening z old t = refl

push-joined : (p q : Parser) (xs ys : Text) → push p xs ≡ (q, []) → push p (xs ++ ys) ≡ push q ys
push-joined p q xs ys e =
    let (state, events) = push-append p xs ys in
    ap₂ (λ (a : Parser) (b : List Event). (a, b)) (state ∙ ap (λ r. (push r.0 ys).0) e)
      (events ∙ ap (λ r. r.1 ++ (push r.0 ys).1) e)

push-whole :
    (z : Zone) (old body : Text) (short : Bool) (w : Zone) (e : Event)
    → All IsBody body
    → length body ≤ param_buf_cap
    → dispatch body ≡ some (w, e)
    → push (record { state = at_ground; zone = z; params = old }) (marker_text body short)
      ≡ (record { state = at_ground; zone = w; params = body }, e ∷ [])
push-whole z old body short w e a h d =
    push-opening z old (body ++ end short)
    ∙ push-joined (within z []) (within z body) body (end short)
        (push-body z [] body a (omega (arith, h)))
    ∙ push-end z body short w e d

-- The markers that a shell sends, the last with the text of an exit code.
pub data Marker : Type 0 where
  mark_a mark_b mark_c mark_d : Marker
  mark_exit : Text → Marker

abbrev pub body_of : Marker → Text
body_of mark_a = codes "133;A"
body_of mark_b = codes "133;B"
body_of mark_c = codes "133;C"
body_of mark_d = codes "133;D"
body_of (mark_exit code) = codes "133;D;" ++ code

abbrev pub event_of : Marker → Event
event_of mark_a = prompt_start
event_of mark_b = command_start
event_of mark_c = command_executed
event_of mark_d = command_finished none
event_of (mark_exit code) = command_finished (parse_int 32 code)

-- The text of the code is not empty, fits in the buffer, and has no byte that ends a marker.
abbrev pub IsMarker : Marker → Type 0
IsMarker (mark_exit code) = (0 < length code) × (length code ≤ 26) × All IsBody code
IsMarker _ = Unit

dispatch-body :
    (m : Marker) → IsMarker m → dispatch (body_of m) ≡ some (zone_of (event_of m), event_of m)
unfolding dispatch command_of marker exit_code text_eq
dispatch-body mark_a h = refl
dispatch-body mark_b h = refl
dispatch-body mark_c h = refl
dispatch-body mark_d h = refl
dispatch-body (mark_exit code) h =
    let long : ltb 6 (length (codes "133;D;" ++ code)) ≡ true =
      lt→ltb 6 (length (codes "133;D;" ++ code)) (omega (arith, h.0)) in
    rw (long, exit_code) refl

IsBody-above : (b : ℕ) → esc < b → IsBody b
IsBody-above b h = (λ e. ground (arith, e), λ e. ground (arith, e))

IsBody-start : (c : ℕ) (s : Text) → esc < c → All IsBody s → All IsBody (codes "133;" ++ (c ∷ s))
IsBody-start c s h a =
    let three = IsBody-above b'3' (omega arith) in
    (
      IsBody-above b'1' (omega arith),
      (three, (three, (IsBody-above b';' (omega arith), (IsBody-above c h, a)))),
    )

body_of-IsBody : (m : Marker) → IsMarker m → All IsBody (body_of m)
body_of-IsBody mark_a h = IsBody-start b'A' [] (omega arith) tt
body_of-IsBody mark_b h = IsBody-start b'B' [] (omega arith) tt
body_of-IsBody mark_c h = IsBody-start b'C' [] (omega arith) tt
body_of-IsBody mark_d h = IsBody-start b'D' [] (omega arith) tt
body_of-IsBody (mark_exit code) h =
    IsBody-start b'D' (b';' ∷ code) (omega arith) (IsBody-above b';' (omega arith), h.2)

length-body : (m : Marker) → IsMarker m → length (body_of m) ≤ param_buf_cap
length-body mark_a h = omega arith
length-body mark_b h = omega arith
length-body mark_c h = omega arith
length-body mark_d h = omega arith
length-body (mark_exit code) h = omega (arith, h.1)

-- A marker, with either of its ends, that begins outside any sequence gives exactly its own event
-- and its zone, and the parser is outside any sequence again.
pub push-marker :
    (m : Marker) (z : Zone) (old : Text) (short : Bool)
    → IsMarker m
    → push (record { state = at_ground; zone = z; params = old }) (marker_text (body_of m) short)
      ≡ (
        record { state = at_ground; zone = zone_of (event_of m); params = body_of m },
        event_of m ∷ [],
      )
push-marker m z old short h =
    push-whole z old (body_of m) short (zone_of (event_of m)) (event_of m) (body_of-IsBody m h)
      (length-body m h) (dispatch-body m h)
