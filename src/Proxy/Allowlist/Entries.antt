-- ===== src/Proxy/Allowlist/Entries.antt =====
-- The entries of the allowlists: where an entry is cut, and what an accepted one looks like.
use vibepit.Prelude.{
  ℕ, suc, ◌+◌, ◌<◌, ◌≡◌, ◌≢◌, ◌↔◌, refl, sym, ap, subst, true, false, none, some, [], ◌∷◌, ◌++◌,
  Text, text_eq_iff, is_empty, contains_byte, last_index, length, length-append, ◌∙◌, take, drop,
  take-append_length, drop-append_past, ok, arith, ◌⊎◌, inl, inr, Option-cases, Result-cases,
}
use vibepit.Proxy.Pattern.{star, validate_domain_pattern}
use vibepit.Proxy.Allowlist.{colon, space, all_digits, validate_parts, validate_http_entry}

-- A text is cut at the last `c`: nothing after it is a `c`.
abbrev pub CutAt : ℕ → Text → ℕ → Type 0
CutAt c s i =
    (s ≡ take i s ++ c ∷ drop (i + 1) s)
    × (contains_byte c (drop (i + 1) s) ≡ false)
    × (i < length s)

CutAt-zero : (c x : ℕ) (s : Text) → x ≡ c → contains_byte c s ≡ false → CutAt c (x ∷ s) 0
CutAt-zero c x s e h = (ap (λ y. y ∷ s) e, h, omega arith)

CutAt-suc : (c x : ℕ) (s : Text) (i : ℕ) → CutAt c s i → CutAt c (x ∷ s) (suc i)
CutAt-suc c x s i (e, h, l) =
    let one_more : suc i + 1 ≡ suc (i + 1) = omega arith in
    rw one_more (ap (λ t. x ∷ t) e, h, omega arith)

pub last_index-none : (c : ℕ) (s : Text) → last_index c s ≡ none → contains_byte c s ≡ false
unfolding last_index contains_byte
last_index-none c [] h = refl
last_index-none c (x ∷ s) h = ground (arith, last_index-none c s)

pub last_index-some : (c : ℕ) (s : Text) (i : ℕ) → last_index c s ≡ some i → CutAt c s i
unfolding last_index
last_index-some c [] i h = cc
last_index-some c (x ∷ s) i h = elim (Option-cases (last_index c s)) [
  | inl n ↦
      let at_zero : i ≡ 0 = ground arith in
      subst (CutAt c (x ∷ s)) (sym at_zero)
        (CutAt-zero c x s (ground arith) (last_index-none c s n))
  | inr (j, e) ↦
      let next : i ≡ suc j = ground arith in
      subst (CutAt c (x ∷ s)) (sym next) (CutAt-suc c x s j (last_index-some c s j e))
]

none-last_index : (c : ℕ) (s : Text) → contains_byte c s ≡ false → last_index c s ≡ none
unfolding last_index contains_byte
none-last_index c [] h = refl
none-last_index c (x ∷ s) h = ground (arith, none-last_index c s)

pub last_index-append :
    (c : ℕ) (s t : Text) → contains_byte c t ≡ false → last_index c (s ++ c ∷ t) ≡ some (length s)
unfolding last_index
last_index-append c [] t h = rw (none-last_index c t h) (ground arith)
last_index-append c (x ∷ s) t h = rw (last_index-append c s t h)

-- An entry is a domain, a colon, and a port with no colon in it.
pub record Parts (entry : Text) : Type 0 where
  pub domain : Text
  pub port : Text
  pub joined : entry ≡ domain ++ colon ∷ port
  pub no_colon : contains_byte colon port ≡ false

-- What `ValidateHTTPEntry` asks of an entry.
pub record IsValidHttpEntry (entry : Text) : Type 0 where
  pub parts : Parts entry
  pub some_domain : parts.domain ≢ []
  pub some_port : parts.port ≢ []
  pub one_colon : contains_byte colon parts.domain ≡ false
  pub no_spaces :
      (contains_byte space parts.domain ≡ false) × (contains_byte space parts.port ≡ false)
  pub good_domain : validate_domain_pattern parts.domain ≡ ok tt
  pub good_port : (parts.port ≡ star) ⊎ (all_digits parts.port ≡ true)

-- The parts of an entry are determined: they are what the code cuts.
module _ {entry : Text} (p : Parts entry) where
  pub Parts-index : last_index colon entry ≡ some (length p.domain)
  Parts-index = rw p.joined (last_index-append colon p.domain p.port p.no_colon)

  pub Parts-domain : take (length p.domain) entry ≡ p.domain
  Parts-domain = rw p.joined (take-append_length p.domain (colon ∷ p.port))

  pub Parts-port : drop (length p.domain + 1) entry ≡ p.port
  Parts-port = rw p.joined (drop-append_past p.domain colon p.port)

  Parts-length : length entry ≡ length p.domain + length p.port + 1
  Parts-length = rw p.joined (omega (arith, length-append p.domain (colon ∷ p.port)))

cut_parts : (entry : Text) (i : ℕ) → CutAt colon entry i → Parts entry
cut_parts entry i (e, h, l) = record {
  domain = take i entry;
  port = drop (i + 1) entry;
  joined = e;
  no_colon = h;
}

pub nonempty_length : (s : Text) → (s ≢ []) ↔ (length s ≢ 0)
nonempty_length [] = (λ n e. n refl, λ n e. n refl)
nonempty_length (x ∷ s) = ground arith

record GoodParts (domain port : Text) : Type 0 where
  one_colon : contains_byte colon domain ≡ false
  no_spaces : (contains_byte space domain ≡ false) × (contains_byte space port ≡ false)
  good_domain : validate_domain_pattern domain ≡ ok tt
  good_port : (port ≡ star) ⊎ (all_digits port ≡ true)

validate_parts_iff :
    (entry domain port : Text) → (validate_parts entry domain port ≡ ok tt) ↔ GoodParts domain port
unfolding validate_parts
validate_parts_iff entry domain port = elim (Result-cases (validate_domain_pattern domain)) [
  | inl (e, bad) ↦ (ground (arith, bad), λ g. cc (g.good_domain, bad))
  | inr (u, good) ↦ (
    λ h. record {
      one_colon = ground (arith, h, good);
      no_spaces = (ground (arith, h, good), ground (arith, h, good));
      good_domain = good;
      good_port = ground (arith, h, good, text_eq_iff port star);
    },
    λ g. ground (arith, good, g.one_colon, g.no_spaces, g.good_port, text_eq_iff port star),
  )
]

validate→IsValidHttpEntry :
    (entry : Text) → validate_http_entry entry ≡ ok tt → IsValidHttpEntry entry
unfolding validate_http_entry cut_parts
validate→IsValidHttpEntry entry h = elim (Option-cases (last_index colon entry)) [
  | inl no_cut ↦ absurd (ground (arith, no_cut))
  | inr (i, cut) ↦
      let at = last_index-some colon entry i cut in
      let parts = cut_parts entry i at in
      let total = Parts-length parts in
      let same : some (length parts.domain) ≡ some i = sym (Parts-index parts) ∙ cut in
      let g = (validate_parts_iff entry (take i entry) (drop (i + 1) entry)).0 (ground arith) in
      record {
        parts = parts;
        some_domain = (nonempty_length parts.domain).1 (ground arith);
        some_port = (nonempty_length parts.port).1 (ground arith);
        one_colon = g.one_colon;
        no_spaces = g.no_spaces;
        good_domain = g.good_domain;
        good_port = g.good_port;
      }
]

IsValidHttpEntry→validate :
    (entry : Text) → IsValidHttpEntry entry → validate_http_entry entry ≡ ok tt
unfolding validate_http_entry is_empty
IsValidHttpEntry→validate [] v = unfold last_index in cc (Parts-index v.parts)
IsValidHttpEntry→validate (c ∷ s) v =
    let p = v.parts in
    let good = (validate_parts_iff (c ∷ s) p.domain p.port).1 (record {
      one_colon = v.one_colon;
      no_spaces = v.no_spaces;
      good_domain = v.good_domain;
      good_port = v.good_port;
    }) in
    ground (
      arith,
      Parts-index p,
      Parts-domain p,
      Parts-port p,
      Parts-length p,
      good,
      (nonempty_length p.domain).0 v.some_domain,
      (nonempty_length p.port).0 v.some_port,
    )

-- `ValidateHTTPEntry` accepts exactly the entries `domain:port` with one colon and no spaces, whose
-- domain passes validation and whose port is `*` or digits; both parts are not empty.
pub validate_http_entry_iff :
    (entry : Text) → (validate_http_entry entry ≡ ok tt) ↔ IsValidHttpEntry entry
validate_http_entry_iff entry = (validate→IsValidHttpEntry entry, IsValidHttpEntry→validate entry)
