-- ===== src/Proxy/Allowlist.antt =====
-- proxy/allowlist.go: the rules, their parsers, the validation of entries, and the allowlists.
pub mod Entries
pub mod Policy
pub mod Updates
use vibepit.Prelude.{
  ℕ, zero, suc, ◌+◌, ◌-◌, Bool, true, false, ◌||◌, ◌&&◌, Option, none, some, List, [], ◌∷◌, ◌++◌,
  map, Text, text_eq, is_empty, contains_byte, last_index, length, take, drop, leb, ◌==◌,
  if◌then◌else◌, Result, ok, err, ◌>>=◌, map_err,
}
use vibepit.Proxy.Pattern.{
  star, DomainPattern, parse_domain_pattern, matches, DomainError, validate_domain_pattern,
}

abbrev pub colon : ℕ
colon = b':'

abbrev pub space : ℕ
space = b' '

unfoldable pub port_matches : Text → Text → Bool
port_matches pattern port = if text_eq pattern star then true else text_eq pattern port

pub record HttpRule : Type 0 where
  pub domain : DomainPattern
  pub port : Text

pub record DnsRule : Type 0 where
  pub domain : DomainPattern

-- The errors of the validation; each names the entry, as its message does.
pub data EntryError : Type 0 where
  empty_entry : EntryError
  expected_domain_port colon_in_domain has_spaces bad_port ports_not_allowed : Text → EntryError
  bad_domain : Text → DomainError → EntryError

unfoldable pub parse_http_rule : Text → HttpRule
parse_http_rule entry = elim (last_index colon entry) [
  | some (suc i) ↦ record {
    domain = parse_domain_pattern (take (suc i) entry);
    port = drop (suc i + 1) entry;
  }
  | _ ↦ record { domain = parse_domain_pattern entry; port = [] }
]

unfoldable pub parse_dns_rule : Text → DnsRule
parse_dns_rule entry = record { domain = parse_domain_pattern entry }

-- the loop over the characters of a port
unfoldable pub all_digits : Text → Bool
all_digits [] = true
all_digits (c ∷ s) = leb b'0' c && leb c b'9' && all_digits s

-- the checks of `ValidateHTTPEntry` after the entry is cut at its last colon
unfoldable pub validate_parts : Text → Text → Text → Result EntryError (Unit {0})
validate_parts entry domain port =
    if contains_byte colon domain
    then err (colon_in_domain entry)
    else if contains_byte space domain || contains_byte space port
    then err (has_spaces entry)
    else (map_err (bad_domain entry) (validate_domain_pattern domain) >>= λ _.
        if text_eq port star || all_digits port then ok tt else err (bad_port entry))

unfoldable pub validate_http_entry : Text → Result EntryError (Unit {0})
validate_http_entry entry =
    if is_empty entry then err empty_entry else elim (last_index colon entry) [
      | none ↦ err (expected_domain_port entry)
      | some idx ↦
          if idx == 0 || idx == length entry - 1
          then err (expected_domain_port entry)
          else validate_parts entry (take idx entry) (drop (idx + 1) entry)
    ]

unfoldable pub validate_dns_entry : Text → Result EntryError (Unit {0})
validate_dns_entry entry =
    if is_empty entry
    then err empty_entry
    else if contains_byte colon entry
    then err (ports_not_allowed entry)
    else if contains_byte space entry
    then err (has_spaces entry)
    else map_err (bad_domain entry) (validate_domain_pattern entry)

-- `ValidateHTTPEntries` and `ValidateDNSEntries`: the first error
unfoldable pub validate_http_entries : List Text → Result EntryError (Unit {0})
validate_http_entries [] = ok tt
validate_http_entries (e ∷ es) =
    let rest = validate_http_entries es in validate_http_entry e >>= λ _. rest

unfoldable pub validate_dns_entries : List Text → Result EntryError (Unit {0})
validate_dns_entries [] = ok tt
validate_dns_entries (e ∷ es) =
    let rest = validate_dns_entries es in validate_dns_entry e >>= λ _. rest

pub record HttpAllowlist : Type 0 where
  pub rules : List HttpRule

pub record DnsAllowlist : Type 0 where
  pub rules : List DnsRule

unfoldable pub new_http_allowlist : List Text → Result EntryError HttpAllowlist
new_http_allowlist entries =
    validate_http_entries entries >>= λ _. ok (record { rules = map parse_http_rule entries })

unfoldable pub new_dns_allowlist : List Text → Result EntryError DnsAllowlist
new_dns_allowlist entries =
    validate_dns_entries entries >>= λ _. ok (record { rules = map parse_dns_rule entries })

-- `Add` run alone; `Updates` has the loop around its compare-and-swap.
unfoldable pub add_http : HttpAllowlist → List Text → Result EntryError HttpAllowlist
add_http al entries = validate_http_entries entries >>= λ _.
    ok (record { rules = al.rules ++ map parse_http_rule entries })

unfoldable pub add_dns : DnsAllowlist → List Text → Result EntryError DnsAllowlist
add_dns al entries = validate_dns_entries entries >>= λ _.
    ok (record { rules = al.rules ++ map parse_dns_rule entries })

-- a match, or what the rest of the loop returns
abbrev pub or_rest : Option Bool → Option Bool → Option Bool
or_rest none rest = none
or_rest (some true) rest = some true
or_rest (some false) rest = rest

unfoldable pub http_rules_allow : List HttpRule → Text → Text → Option Bool
http_rules_allow [] host port = some false
http_rules_allow (r ∷ rs) host port =
    let rest = http_rules_allow rs host port in
    if port_matches r.port port then or_rest (matches r.domain host) rest else rest

unfoldable pub allows_http : HttpAllowlist → Text → Text → Option Bool
allows_http al host port = if is_empty host then some false else http_rules_allow al.rules host port

unfoldable pub dns_rules_allow : List DnsRule → Text → Option Bool
dns_rules_allow [] host = some false
dns_rules_allow (r ∷ rs) host = or_rest (matches r.domain host) (dns_rules_allow rs host)

unfoldable pub allows_dns : DnsAllowlist → Text → Option Bool
allows_dns al host = if is_empty host then some false else dns_rules_allow al.rules host
