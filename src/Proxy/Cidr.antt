-- ===== src/Proxy/Cidr.antt =====
-- proxy/cidr.go: the blocker of address ranges.
pub mod Ranges
use vibepit.Prelude.{
  ℕ, ◌-◌, ◌/◌, ◌^◌, ◌==◌, Bool, true, false, Option, none, some, List, [], ◌∷◌, ◌++◌, Text, codes,
  if◌then◌else◌,
}

-- `net.IP` in the form that `To4` gives it where it can: 32 bits, or 128 bits of no IPv4 address.
pub data Ip : Type 0 where
  v4 v6 : ℕ → Ip

-- `net.IPNet`: an address of the network, and the length of the prefix.
pub record IpNet : Type 0 where
  pub base : Ip
  pub prefix : ℕ

-- the addresses of one network agree in the prefix
abbrev pub same_prefix : ℕ → ℕ → ℕ → Bool
same_prefix host_bits a b = a / 2 ^ host_bits == b / 2 ^ host_bits

-- IPNet.Contains
unfoldable pub contains : IpNet → Ip → Bool
contains n ip = elim n.base [
  | v4 a ↦ elim ip [ v4 b ↦ same_prefix (32 - n.prefix) a b | v6 b ↦ false ]
  | v6 a ↦ elim ip [ v4 b ↦ false | v6 b ↦ same_prefix (128 - n.prefix) a b ]
]

abbrev pub default_blocked_cidrs : List Text
default_blocked_cidrs =
    codes "10.0.0.0/8"
    ∷ codes "172.16.0.0/12"
    ∷ codes "192.168.0.0/16"
    ∷ codes "127.0.0.0/8"
    ∷ codes "169.254.0.0/16"
    ∷ codes "::1/128"
    ∷ codes "fc00::/7"
    ∷ codes "fe80::/10"
    ∷ []

pub record CidrBlocker : Type 0 where
  pub block_nets : List IpNet
  pub allow_nets : List IpNet

-- `parse_cidr` stands for net.ParseCIDR, `none` for its error, which drops the text.
unfoldable pub parse_cidrs : (Text → Option IpNet) → List Text → List IpNet
parse_cidrs parse_cidr [] = []
parse_cidrs parse_cidr (c ∷ cs) =
    let rest = parse_cidrs parse_cidr cs in elim (parse_cidr c) [ none ↦ rest | some n ↦ n ∷ rest ]

unfoldable pub new_cidr_blocker : (Text → Option IpNet) → List Text → List Text → CidrBlocker
new_cidr_blocker parse_cidr block allow = record {
  block_nets = parse_cidrs parse_cidr (default_blocked_cidrs ++ block);
  allow_nets = parse_cidrs parse_cidr allow;
}

-- the loop over networks of `IsAllowed` and of `IsBlocked`
unfoldable pub some_contains : List IpNet → Ip → Bool
some_contains [] ip = false
some_contains (n ∷ ns) ip = if contains n ip then true else some_contains ns ip

unfoldable pub is_allowed : CidrBlocker → Ip → Bool
is_allowed b ip = some_contains b.allow_nets ip

unfoldable pub is_blocked : CidrBlocker → Ip → Bool
is_blocked b ip = if is_allowed b ip then false else some_contains b.block_nets ip
