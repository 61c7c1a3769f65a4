-- ===== src/Sshd/Channel/Sizes.antt =====
-- The sizes of the window that the session gets (sshd/rawsession.go and sshd/server.go).
use native.Mathlib.Nat.{mod-eq_of_lt}
use vibepit.Prelude.{
  ℕ, ◌≡◌, ◌≤◌, ◌<◌, ◌%◌, ◌^◌, refl, sym, ◌⊎◌, subst, Bool, true, false, ◌||◌, Option, none, some,
  List, [], ◌∷◌, ◌++◌, append-nil, if◌then◌else◌, arith, Bool-cases, inl, inr, All, ltb, ◌==◌,
}
use vibepit.Sshd.Channel.{
  Window, PtyReqPayload, RequestType, RawSession, Effect, pty_req, window_change, env, shell, exec,
  unsupported, new_session, has_pty, on_pty_req, coalesce, on_window_change, on_env, dispatch,
  on_shell, on_exec, on_request, take_size,
}
use vibepit.Sshd.Channel.Dispatch.{Event, request, takes_size, step, wired}
use vibepit.Sshd.Pty.{clamp_dim, clamp_pty_size, max_pty_cols, max_pty_rows}

abbrev option_list {ℓ} : {A : Type ℓ} → Option A → List A
option_list none = []
option_list (some a) = a ∷ []

abbrev held : Option (Option Window) → List Window
held none = []
held (some p) = option_list p

-- the size that a step takes from the channel, and the size that it sends there
unfoldable pub takes : RawSession → Event → List Window
takes s (request r) = []
takes s takes_size = option_list (take_size s).1

unfoldable pub sends_of : Bool → RequestType → List Window
sends_of pty (window_change (some w)) = if pty then w ∷ [] else []
sends_of pty (window_change none) = []
sends_of pty (pty_req p) = []
sends_of pty (env p) = []
sends_of pty shell = []
sends_of pty (exec p) = []
sends_of pty unsupported = []

abbrev pub sends : RawSession → Event → List Window
sends s (request r) = sends_of (has_pty s) r.type
sends s takes_size = []

-- The sizes that are sent by the changes of the window that the loop accepts.
unfoldable pub sent : RawSession → List Event → List Window
sent s [] = []
sent s (e ∷ es) = sends s e ++ sent (step s e).0 es

-- The sizes that are taken from the channel, the one that it holds at the end included.
unfoldable pub received : RawSession → List Event → List Window
received s [] = held s.winch
received s (e ∷ es) = takes s e ++ received (step s e).0 es

-- Some of the elements, in their order.
pub data Among : List Window → List Window → Type 0 where
  among_nil : Among [] []
  keep : {ws vs : List Window} (w : Window) → Among ws vs → Among (w ∷ ws) (w ∷ vs)
  skip : {ws vs : List Window} (w : Window) → Among ws vs → Among ws (w ∷ vs)

abbrev pub latest : Window → List Window → Window
latest w [] = w
latest w (v ∷ vs) = latest v vs

-- Only stale sizes are lost: the last one arrives.
pub record Coalesces (ins outs : List Window) : Type 0 where
  pub among : Among outs ins
  pub last : (w : Window) → latest w outs ≡ latest w ins

same-Coalesces : (ws : List Window) → Coalesces ws ws
same-Coalesces [] = record { among = among_nil; last = λ w. refl }
same-Coalesces (w ∷ ws) =
    let r = same-Coalesces ws in record { among = keep w r.among; last = λ v. refl }

stale :
    (p : Option Window) (w : Window) (ins outs : List Window)
    → Coalesces (w ∷ ins) outs
    → Coalesces (option_list p ++ (w ∷ ins)) outs
stale none w ins outs c = c
stale (some v) w ins outs c = record { among = skip v c.among; last = λ u. c.last u }

taken :
    (p : Option Window) (ins outs : List Window)
    → Coalesces ins outs
    → Coalesces (option_list p ++ ins) (option_list p ++ outs)
taken none ins outs c = c
taken (some v) ins outs c = record { among = keep v c.among; last = λ u. c.last v }

held_if :
    (t : Bool) (a b : RawSession × List Effect) (ws : List Window)
    → held a.0.winch ≡ ws
    → held b.0.winch ≡ ws
    → held (if t then a else b).0.winch ≡ ws
held_if true a b ws h k = h
held_if false a b ws h k = k

-- What the channel holds after a request: the size that is sent, or what it held.
abbrev Holds : RawSession → RequestType → RawSession × List Effect → Type 0
Holds s t r =
    ((held r.0.winch ≡ held s.winch) × (sends_of (has_pty s) t ≡ []))
    ⊎ ((w : Window) × (held r.0.winch ≡ w ∷ []) × (sends_of (has_pty s) t ≡ w ∷ []))

pty_req-Holds :
    (s : RawSession) (c : Option (Option Window)) (p : PtyReqPayload) (want : Bool)
    → held (on_pty_req (wired s c) want (some p)).0.winch ≡ held c
unfolding on_pty_req has_pty
pty_req-Holds s none p want = held_if (s.dispatched || false) _ _ [] refl refl
pty_req-Holds s (some v) p want = let t : (s.dispatched || true) ≡ true = ground arith in rw t refl

change-Holds :
    (s : RawSession) (c : Option (Option Window)) (w : Window) (want : Bool)
    → Holds (wired s c) (window_change (some w)) (on_window_change (wired s c) want (some w))
unfolding on_window_change has_pty sends_of coalesce
change-Holds s none w want = inl (refl, refl)
change-Holds s (some v) w want = inr (w, refl, refl)

on_request-Holds :
    (s : RawSession) (t : RequestType) (want : Bool) → Holds s t (on_request s t want)
unfolding on_request sends_of on_pty_req on_env on_shell on_exec on_window_change dispatch
on_request-Holds s (pty_req none) want = inl (refl, refl)
on_request-Holds s (pty_req (some p)) want = inl (pty_req-Holds s s.winch p want, refl)
on_request-Holds s (window_change none) want = inl (refl, refl)
on_request-Holds s (window_change (some w)) want = change-Holds s s.winch w want
on_request-Holds s (env none) want = inl (refl, refl)
on_request-Holds s (env (some p)) want =
    inl (held_if s.dispatched _ _ (held s.winch) refl refl, refl)
on_request-Holds s shell want = inl (held_if s.dispatched _ _ (held s.winch) refl refl, refl)
on_request-Holds s (exec none) want = inl (refl, refl)
on_request-Holds s (exec (some c)) want =
    inl (held_if s.dispatched _ _ (held s.winch) refl refl, refl)
on_request-Holds s unsupported want = inl (refl, refl)

stale_held :
    (c : Option (Option Window)) (w : Window) (ins outs : List Window)
    → Coalesces (w ∷ ins) outs
    → Coalesces (held c ++ (w ∷ ins)) outs
stale_held none w ins outs c = c
stale_held (some p) w ins outs c = stale p w ins outs c

taken_held :
    (s : RawSession) (c : Option (Option Window)) (ins outs : List Window)
    → Coalesces (held (take_size (wired s c)).0.winch ++ ins) outs
    → Coalesces (held c ++ ins) (option_list (take_size (wired s c)).1 ++ outs)
unfolding take_size
taken_held s none ins outs c = c
taken_held s (some p) ins outs c = taken p ins outs c

received-Coalesces :
    (s : RawSession) (es : List Event) → Coalesces (held s.winch ++ sent s es) (received s es)
unfolding sent received takes
received-Coalesces s [] =
    subst (λ u. Coalesces u (held s.winch)) (sym (append-nil (held s.winch)))
      (same-Coalesces (held s.winch))
received-Coalesces s (takes_size ∷ es) =
    taken_held s s.winch (sent (take_size s).0 es) (received (take_size s).0 es)
      (received-Coalesces (take_size s).0 es)
received-Coalesces s (request r ∷ es) =
    let t = (on_request s r.type r.want_reply).0 in
    let rest = received-Coalesces t es in
    elim (on_request-Holds s r.type r.want_reply) [
      | inl (h, e) ↦ rw e (subst (λ u. Coalesces (u ++ sent t es) (received t es)) h rest)
      | inr (w, h, e) ↦ rw e (
          stale_held s.winch w (sent t es) (received t es)
            (subst (λ u. Coalesces (u ++ sent t es) (received t es)) h rest))
    ]

-- A dimension in its bounds, and the one that is asked for if that is in them.
abbrev pub IsClamped : ℕ → ℕ → ℕ → Type 0
IsClamped limit v d = (0 < d) × (d ≤ limit) × (0 < v → v ≤ limit → d ≡ v)

clamp_dim-IsClamped :
    (v dflt limit : ℕ)
    → 0 < dflt
    → dflt ≤ limit
    → limit < 2 ^ 16
    → IsClamped limit v (clamp_dim v dflt limit)
unfolding clamp_dim
clamp_dim-IsClamped v dflt limit a b c = elim (Bool-cases (v == 0)) [
  | inl z ↦ rw z (a, b, λ h k. ground (arith, z, h))
  | inr z ↦ elim (Bool-cases (ltb limit v)) [
    | inl t ↦ rw (z, t) (omega (arith, a, b), omega arith, λ h k. ground (arith, t, k))
    | inr t ↦
        let small : v < 2 ^ 16 = ground (arith, t, c) in
        let same : v % 2 ^ 16 ≡ v = mod-eq_of_lt small in
        rw (z, t, same) (ground (arith, z), ground (arith, t), λ h k. refl)
  ]
]

-- the size that a window gives the session
abbrev pub Fits : Window → Type 0
Fits w =
    let size = clamp_pty_size w.width w.height in
    IsClamped max_pty_cols w.width size.cols × IsClamped max_pty_rows w.height size.rows

window-Fits : (w : Window) → Fits w
unfolding clamp_pty_size
window-Fits w = (
  clamp_dim-IsClamped w.width 80 2048 (omega arith) (omega arith) (omega arith),
  clamp_dim-IsClamped w.height 24 2048 (omega arith) (omega arith) (omega arith),
)

all-Fit : (ws : List Window) → All Fits ws
all-Fit [] = tt
all-Fit (w ∷ ws) = (window-Fits w, all-Fit ws)

-- The sizes that reach the session are those of the changes of the window that the loop accepts, in
-- their order: some may be left out while the goroutine that resizes is busy, but never the last
-- one. Each dimension is clamped to between 1 and 2048, and is what was asked for if that is in
-- these bounds.
pub received-Fits :
    (es : List Event)
    → Coalesces (sent new_session es) (received new_session es) × All Fits (received new_session es)
received-Fits es = (received-Coalesces new_session es, all-Fit (received new_session es))
