-- ===== src/Proxy/Http/Authority.antt =====
-- How the host and the port of a request are read (proxy/http.go).
use vibepit.Prelude.{
  ℕ, suc, ◌+◌, ◌≡◌, refl, ap, sym, ◌∙◌, true, false, ◌||◌, Option, none, some, [], ◌∷◌, ◌++◌,
  append_assoc, Text, length, length-append, take, drop, contains_byte, first_index, last_index,
  ◌==◌, ==_iff, to_lower, take-append_length, arith, if◌then◌else◌,
}
use vibepit.Proxy.Http.{
  starts_bracket, cut_port, split_bracketed, split_plain, net_split_host_port, split_host_port,
}

-- A text without the bytes that part a host and a port.
abbrev pub IsPart : Text → Type 0
IsPart s =
    (contains_byte b':' s ≡ false) × (contains_byte b'[' s ≡ false) × (contains_byte b']' s ≡ false)

-- What a request names: a host alone, a host with a port, an IPv6 address in brackets with a port, and
-- one without brackets, which is taken as a host alone.
pub data Names : Text → Text → Option Text → Type 0 where
  alone : (host : Text) → contains_byte b':' host ≡ false → Names host host none
  with_port :
      (host port : Text) → IsPart host → IsPart port → Names (host ++ b':' ∷ port) host (some port)
  bracketed :
      (host port : Text)
      → contains_byte b'[' host ≡ false
      → contains_byte b']' host ≡ false
      → IsPart port
      → Names (b'[' ∷ (host ++ b']' ∷ b':' ∷ port)) host (some port)
  address :
      (a b c : Text)
      → contains_byte b'[' (a ++ b':' ∷ b) ≡ false
      → contains_byte b':' c ≡ false
      → Names ((a ++ b':' ∷ b) ++ b':' ∷ c) ((a ++ b':' ∷ b) ++ b':' ∷ c) none

contains-append :
    (c : ℕ) (s t : Text) → contains_byte c (s ++ t) ≡ (contains_byte c s || contains_byte c t)
unfolding contains_byte
contains-append c [] t = refl
contains-append c (x ∷ s) t = ground (arith, contains-append c s t)

last_absent : (c : ℕ) (s : Text) → contains_byte c s ≡ false → last_index c s ≡ none
unfolding last_index contains_byte
last_absent c [] h = refl
last_absent c (x ∷ s) h =
    let x_other : (x == c) ≡ false = ground arith in
    let rest = last_absent c s (ground arith) in rw (rest, x_other) refl

last_after :
    (c : ℕ) (front s : Text)
    → contains_byte c s ≡ false
    → last_index c (front ++ c ∷ s) ≡ some (length front)
unfolding last_index
last_after c [] s h = rw (last_absent c s h, (==_iff c c).1 refl) refl
last_after c (x ∷ front) s h = rw (last_after c front s h) refl

first_after :
    (c : ℕ) (front s : Text)
    → contains_byte c front ≡ false
    → first_index c (front ++ c ∷ s) ≡ some (length front)
unfolding first_index contains_byte
first_after c [] s h = rw ((==_iff c c).1 refl) refl
first_after c (x ∷ front) s h =
    let x_other : (x == c) ≡ false = ground arith in
    let rest = first_after c front s (ground arith) in rw (rest, x_other) refl

drop_after : (front : Text) (c : ℕ) (s : Text) → drop (length front + 1) (front ++ c ∷ s) ≡ s
drop_after [] c s = refl
drop_after (x ∷ front) c s =
    let e : suc (length front) + 1 ≡ suc (length front + 1) = omega arith in
    rw e (drop_after front c s)

abbrev pub port_or : Text → Option Text → Text
port_or default none = default
port_or default (some port) = port

no_bracket : (s : Text) → contains_byte b'[' s ≡ false → starts_bracket s ≡ false
unfolding contains_byte
no_bracket [] h = refl
no_bracket (c ∷ s) h = ground arith

-- A byte that is in neither part is not in the whole.
absent :
    (c : ℕ) (s : Text) (d : ℕ) (t : Text)
    → contains_byte c s ≡ false
    → (d == c) ≡ false
    → contains_byte c t ≡ false
    → contains_byte c (s ++ d ∷ t) ≡ false
unfolding contains_byte
absent c s d t h e k = let a = contains-append c s (d ∷ t) in ground (arith, a, h, e, k)

split_plain_named :
    (host port : Text)
    → IsPart host
    → IsPart port
    → split_plain (host ++ b':' ∷ port) (length host) ≡ some (host, port)
unfolding split_plain
split_plain_named host port h p =
    let front = take-append_length host (b':' ∷ port) in
    let no_open = absent b'[' host b':' port h.1 refl p.1 in
    let no_close = absent b']' host b':' port h.2 refl p.2 in
    let behind = drop_after host b':' port in rw (front, h.0, no_open, no_close, behind) refl

net_split_of :
    (s : Text) (i : ℕ)
    → last_index b':' s ≡ some i
    → net_split_host_port s ≡ (if starts_bracket s then split_bracketed s i else split_plain s i)
unfolding net_split_host_port
net_split_of s i e =
    ap
      (λ o. elim o as (λ _. Option (Text × Text)) [
        | none ↦ none
        | some j ↦ if starts_bracket s then split_bracketed s j else split_plain s j
      ])
      e

net_split_named :
    (host port : Text)
    → IsPart host
    → IsPart port
    → net_split_host_port (host ++ b':' ∷ port) ≡ some (host, port)
net_split_named host port h p =
    let bare = no_bracket (host ++ b':' ∷ port) (absent b'[' host b':' port h.1 refl p.1) in
    net_split_of (host ++ b':' ∷ port) (length host) (last_after b':' host port p.0)
    ∙ ap
        (λ b.
          if b
          then split_bracketed (host ++ b':' ∷ port) (length host)
          else split_plain (host ++ b':' ∷ port) (length host))
        bare
    ∙ split_plain_named host port h p

net_split_alone : (host : Text) → contains_byte b':' host ≡ false → net_split_host_port host ≡ none
unfolding net_split_host_port
net_split_alone host h =
    ap
      (λ o. elim o as (λ _. Option (Text × Text)) [
        | none ↦ none
        | some j ↦ if starts_bracket host then split_bracketed host j else split_plain host j
      ])
      (last_absent b':' host h)

front_bracket : (s t : Text) → contains_byte b'[' s ≡ false → starts_bracket (s ++ b':' ∷ t) ≡ false
unfolding contains_byte
front_bracket [] t h = refl
front_bracket (c ∷ s) t h = ground arith

holds : (c : ℕ) (s t : Text) → contains_byte c (s ++ c ∷ t) ≡ true
unfolding contains_byte
holds c [] t = let e = (==_iff c c).1 refl in ground (arith, e)
holds c (x ∷ s) t = ground (arith, holds c s t)

drop_two :
    (front : Text) (a b : ℕ) (s : Text) → drop (length front + 1 + 1) (front ++ a ∷ b ∷ s) ≡ s
drop_two [] a b s = refl
drop_two (x ∷ front) a b s =
    let e : suc (length front) + 1 + 1 ≡ suc (length front + 1 + 1) = omega arith in
    rw e (drop_two front a b s)

net_split_address :
    (a b c : Text)
    → contains_byte b'[' (a ++ b':' ∷ b) ≡ false
    → contains_byte b':' c ≡ false
    → net_split_host_port ((a ++ b':' ∷ b) ++ b':' ∷ c) ≡ none
unfolding split_plain
net_split_address a b c h k =
    let host = a ++ b':' ∷ b in
    let bare : starts_bracket (host ++ b':' ∷ c) ≡ false = front_bracket host c h in
    let front = take-append_length host (b':' ∷ c) in
    let colons : contains_byte b':' host ≡ true = holds b':' a b in
    net_split_of (host ++ b':' ∷ c) (length host) (last_after b':' host c k)
    ∙ rw (bare, front, colons) refl

unbracket :
    (host port : Text)
    → contains_byte b'[' host ≡ false
    → IsPart port
    → cut_port
        (b'[' ∷ (host ++ b']' ∷ b':' ∷ port))
        (host ++ b']' ∷ b':' ∷ port)
        (drop (length (b'[' ∷ host) + 1) (b'[' ∷ (host ++ b']' ∷ b':' ∷ port)))
        (length (b'[' ∷ host) + 1)
        (take (length host) (host ++ b']' ∷ b':' ∷ port))
      ≡ some (host, port)
unfolding contains_byte
unbracket host port h p =
    let no_open = absent b'[' host b']' (b':' ∷ port) h refl (ground (arith, p.1)) in
    let tail : drop (length (b'[' ∷ host) + 1) (b'[' ∷ (host ++ b']' ∷ b':' ∷ port)) ≡ b':' ∷ port =
      drop_after (b'[' ∷ host) b']' (b':' ∷ port) in
    let front = take-append_length host (b']' ∷ b':' ∷ port) in
    let behind : drop (length (b'[' ∷ host) + 1 + 1) (b'[' ∷ (host ++ b']' ∷ b':' ∷ port)) ≡ port =
      drop_two (b'[' ∷ host) b']' b':' port in
    rw (no_open, tail, front, behind) (rw p.2 refl)

split_bracketed_named :
    (host port : Text)
    → contains_byte b'[' host ≡ false
    → contains_byte b']' host ≡ false
    → IsPart port
    → split_bracketed (b'[' ∷ (host ++ b']' ∷ b':' ∷ port)) (length (b'[' ∷ host) + 1)
      ≡ some (host, port)
unfolding split_bracketed contains_byte
split_bracketed_named host port h k p =
    let hp = b'[' ∷ (host ++ b']' ∷ b':' ∷ port) in
    let i = length (b'[' ∷ host) + 1 in
    ap
      (λ o. elim o as (λ _. Option (Text × Text)) [
        | none ↦ none
        | some j ↦
            if j + 1 == i
            then cut_port hp (drop 1 hp) (drop (j + 1) hp) i (drop 1 (take j hp))
            else none
      ])
      (first_after b']' (b'[' ∷ host) (b':' ∷ port) (ground (arith, k)))
    ∙ rw ((==_iff i i).1 refl) (unbracket host port h p)

net_split_bracketed :
    (host port : Text)
    → contains_byte b'[' host ≡ false
    → contains_byte b']' host ≡ false
    → IsPart port
    → net_split_host_port (b'[' ∷ (host ++ b']' ∷ b':' ∷ port)) ≡ some (host, port)
net_split_bracketed host port h k p =
    let hp = b'[' ∷ (host ++ b']' ∷ b':' ∷ port) in
    let front = b'[' ∷ (host ++ b']' ∷ []) in
    let whole : front ++ b':' ∷ port ≡ hp =
      ap (λ u. b'[' ∷ u) (append_assoc host (b']' ∷ []) (b':' ∷ port)) in
    let place : length front ≡ length (b'[' ∷ host) + 1 =
      ap suc (length-append host (b']' ∷ [])) ∙ omega arith in
    let last : last_index b':' hp ≡ some (length (b'[' ∷ host) + 1) =
      ap (last_index b':') (sym whole) ∙ last_after b':' front port p.0 ∙ ap some place in
    net_split_of hp (length (b'[' ∷ host) + 1) last ∙ split_bracketed_named host port h k p

split_of :
    (s default : Text) (o : Option (Text × Text))
    → net_split_host_port s ≡ o
    → split_host_port s default ≡ (elim o as (λ _. Text × Text) [
      | none ↦ (to_lower s, default)
      | some hp ↦ (to_lower hp.0, hp.1)
    ])
unfolding split_host_port
split_of s default o e =
    ap
      (λ u. elim u as (λ _. Text × Text) [
        | none ↦ (to_lower s, default)
        | some hp ↦ (to_lower hp.0, hp.1)
      ])
      e

-- What a request names is what the handlers read, in lower case, with the default port where it names
-- none.
pub split_host_port-Names :
    {s host : Text} {port : Option Text} (default : Text)
    → Names s host port
    → split_host_port s default ≡ (to_lower host, port_or default port)
split_host_port-Names default (alone host h) = split_of host default none (net_split_alone host h)
split_host_port-Names default (with_port host port h p) =
    split_of (host ++ b':' ∷ port) default (some (host, port)) (net_split_named host port h p)
split_host_port-Names default (bracketed host port h k p) =
    split_of (b'[' ∷ (host ++ b']' ∷ b':' ∷ port)) default (some (host, port))
      (net_split_bracketed host port h k p)
split_host_port-Names default (address a b c h k) =
    split_of ((a ++ b':' ∷ b) ++ b':' ∷ c) default none (net_split_address a b c h k)
