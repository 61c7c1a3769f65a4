-- ===== src/Proxy/Cidr/Ranges.antt =====
-- A network is a range of addresses, and the blocker reads its lists as ranges.
use native.Mathlib.Nat.{one-le-pow, div-add-mod, mod-lt, mul-le-mul_left}
use native.Mathlib.Decide.{dec_lt}
use vibepit.Prelude.{
  ℕ, ◌+◌, ◌-◌, ◌/◌, ◌%◌, ◌^◌, ◌≤◌, ◌<◌, ◌≡◌, ◌↔◌, inl, inr, refl, true, Option, some, List, [], ◌∷◌,
  ◌++◌, Text, arith, Any, Bool-cases, Option-cases, ap, subst, ◌*◌, suc, ==_iff,
}
use vibepit.Proxy.Cidr.{
  Ip, v4, v6, IpNet, contains, same_prefix, default_blocked_cidrs, parse_cidrs, new_cidr_blocker,
  some_contains, is_allowed, is_blocked,
}

-- `b` lies in the block of `size` addresses that holds `a`.
abbrev InBlock : ℕ → ℕ → ℕ → Type 0
InBlock size a b = (a - a % size ≤ b) × (b < a - a % size + size)

abbrev pub InNet : IpNet → Ip → Type 0
InNet n ip = elim n.base [
  | v4 a ↦ elim ip [ v4 b ↦ InBlock (2 ^ (32 - n.prefix)) a b | v6 b ↦ ⊥ ]
  | v6 a ↦ elim ip [ v4 b ↦ ⊥ | v6 b ↦ InBlock (2 ^ (128 - n.prefix)) a b ]
]

block→range : (size a b : ℕ) → 0 < size → a / size ≡ b / size → InBlock size a b
block→range size a b h e =
    let same = ap (λ (q : ℕ). size * q) e in
    let fa = div-add-mod a size in
    let fb = div-add-mod b size in
    let mb = mod-lt b h in (omega (arith, same, fa, fb), omega (arith, same, fa, fb, mb))

-- Blocks of different numbers do not overlap.
blocks_apart : (size q r x : ℕ) → q < r → size * r ≤ x → x < size * q + size → ⊥
blocks_apart size q r x lt le x_lt =
    let step : size * suc q ≤ size * r = mul-le-mul_left size lt in omega (arith, step)

range→block : (size a b : ℕ) → 0 < size → InBlock size a b → a / size ≡ b / size
range→block size a b h (lo, hi) =
    let fa = div-add-mod a size in
    let fb = div-add-mod b size in
    let mb = mod-lt b h in
    elim (dec_lt (a / size) (b / size)) [
      | yes lt ↦
          absurd
            (blocks_apart size (a / size) (b / size) b lt (omega (arith, fb)) (omega (arith, fa)))
      | no ge ↦ elim (dec_lt (b / size) (a / size)) [
        | yes gt ↦ absurd (
            blocks_apart size (b / size) (a / size) b gt (omega (arith, fa))
              (omega (arith, fb, mb)))
        | no le ↦ omega arith
      ]
    ]

same_prefix_iff : (k a b : ℕ) → (same_prefix k a b ≡ true) ↔ InBlock (2 ^ k) a b
same_prefix_iff k a b =
    let pos : 0 < 2 ^ k = one-le-pow k 2 (omega arith) in
    let e = ==_iff (a / 2 ^ k) (b / 2 ^ k) in
    (λ h. block→range (2 ^ k) a b pos (e.0 h), λ r. e.1 (range→block (2 ^ k) a b pos r))

-- `IPNet.Contains` tells whether the address lies in the range of the network.
pub contains_iff : (n : IpNet) (ip : Ip) → (contains n ip ≡ true) ↔ InNet n ip
contains_iff n ip = net n.base n.prefix ip
  where
    net :
        (base : Ip) (k : ℕ) (x : Ip)
        → (contains (record { base = base; prefix = k }) x ≡ true)
          ↔ InNet (record { base = base; prefix = k }) x
    net (v4 a) k (v4 b) = unfold contains in same_prefix_iff (32 - k) a b
    net (v4 a) k (v6 b) = unfold contains in (λ e. cc, λ f. absurd f)
    net (v6 a) k (v4 b) = unfold contains in (λ e. cc, λ f. absurd f)
    net (v6 a) k (v6 b) = unfold contains in same_prefix_iff (128 - k) a b

some_contains_iff :
    (ns : List IpNet) (ip : Ip) → (some_contains ns ip ≡ true) ↔ Any (λ n. InNet n ip) ns
unfolding some_contains
some_contains_iff [] ip = (λ e. cc, λ f. absurd f)
some_contains_iff (n ∷ ns) ip =
    let here = contains_iff n ip in
    let there = some_contains_iff ns ip in
    elim (Bool-cases (contains n ip)) [
      | inl e ↦ rw e (λ _. inl (here.0 e), λ _. refl)
      | inr e ↦
          rw e (λ h. inr (there.0 h), λ f. elim f [ inl x ↦ cc (e, here.1 x) | inr y ↦ there.1 y ])
    ]

module _ (parse_cidr : Text → Option IpNet) where
  -- A CIDR text covers an address if it parses to a network that holds the address.
  pub record CoversIp (cidr : Text) (ip : Ip) : Type 0 where
    pub net : IpNet
    pub parsed : parse_cidr cidr ≡ some net
    pub inside : InNet net ip

  parse_cidrs_iff :
      (cs : List Text) (ip : Ip)
      → Any (λ n. InNet n ip) (parse_cidrs parse_cidr cs) ↔ Any (λ c. CoversIp c ip) cs
  unfolding parse_cidrs
  parse_cidrs_iff [] ip = (λ f. f, λ f. f)
  parse_cidrs_iff (c ∷ cs) ip =
      let rest = parse_cidrs_iff cs ip in
      elim (Option-cases (parse_cidr c)) [
        | inl bad ↦
            rw (bad, parse_cidrs)
              (λ h. inr (rest.0 h), λ f. elim f [ inl x ↦ cc (bad, x.parsed) | inr y ↦ rest.1 y ])
        | inr (n, good) ↦
            rw (good, parse_cidrs)
              (
                λ h. elim h [
                  | inl x ↦ inl (record { net = n; parsed = good; inside = x })
                  | inr y ↦ inr (rest.0 y)
                ],
                λ f. elim f [
                  | inl x ↦ inl (subst (λ m. InNet m ip) (cc (good, x.parsed)) x.inside)
                  | inr y ↦ inr (rest.1 y)
                ],
              )
      ]

  -- An address is blocked exactly if one of the default ranges or of the blocked ranges covers it
  -- and none of the allowed ranges does; a CIDR text that does not parse covers nothing.
  pub is_blocked_iff :
      (block allow : List Text) (ip : Ip)
      → (is_blocked (new_cidr_blocker parse_cidr block allow) ip ≡ true) ↔ (
          Any (λ c. CoversIp c ip) (default_blocked_cidrs ++ block)
          × ¬ Any (λ c. CoversIp c ip) allow)
  unfolding is_blocked is_allowed new_cidr_blocker
  is_blocked_iff block allow ip =
      let allow_nets = parse_cidrs parse_cidr allow in
      let block_nets = parse_cidrs parse_cidr (default_blocked_cidrs ++ block) in
      let ca = some_contains_iff allow_nets ip in
      let cb = some_contains_iff block_nets ip in
      let pa = parse_cidrs_iff allow ip in
      let pb = parse_cidrs_iff (default_blocked_cidrs ++ block) ip in
      elim (Bool-cases (some_contains allow_nets ip)) [
        | inl e ↦ rw e (λ h. cc, λ f. absurd (f.1 (pa.0 (ca.0 e))))
        | inr e ↦ rw e (λ h. (pb.0 (cb.0 h), λ f. cc (e, ca.1 (pa.1 f))), λ f. cb.1 (pb.1 f.0))
      ]
