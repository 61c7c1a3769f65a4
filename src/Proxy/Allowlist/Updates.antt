-- ===== src/Proxy/Allowlist/Updates.antt =====
-- `Add` of the allowlists: its effect, and its compare-and-swap loop under any interleaving.
pub mod Cas
pub mod NoLostUpdate
use mathlib.Core.List.{map-append}
use vibepit.Prelude.{
  ◌≡◌, refl, List, [], ◌∷◌, ◌++◌, map, Text, Result, ok, err, ◌>>=◌, arith, ◌⊎◌, inl, inr,
  Result-cases, ◌↔◌, ap,
}
use vibepit.Proxy.Allowlist.{
  HttpAllowlist, DnsAllowlist, EntryError, parse_http_rule, parse_dns_rule, validate_http_entry,
  validate_dns_entry, validate_http_entries, validate_dns_entries, new_http_allowlist,
  new_dns_allowlist, add_http, add_dns,
}

validate_http-append :
    (xs ys : List Text)
    → validate_http_entries (xs ++ ys)
      ≡ (validate_http_entries xs >>= λ _. validate_http_entries ys)
unfolding validate_http_entries
validate_http-append [] ys = refl
validate_http-append (x ∷ xs) ys = ground (arith, validate_http-append xs ys)

validate_dns-append :
    (xs ys : List Text)
    → validate_dns_entries (xs ++ ys) ≡ (validate_dns_entries xs >>= λ _. validate_dns_entries ys)
unfolding validate_dns_entries
validate_dns-append [] ys = refl
validate_dns-append (x ∷ xs) ys = ground (arith, validate_dns-append xs ys)

-- Adding entries to an HTTP allowlist that was built from entries gives the result, or the error,
-- of building it from all of them at once.
pub add_http-new :
    (xs ys : List Text) (al : HttpAllowlist)
    → new_http_allowlist xs ≡ ok al
    → add_http al ys ≡ new_http_allowlist (xs ++ ys)
unfolding new_http_allowlist add_http
add_http-new xs ys al h = elim (Result-cases (validate_http_entries xs)) [
  | inl (e, bad) ↦ ground (arith, bad)
  | inr (u, good) ↦ rw (validate_http-append xs ys, good, map-append) (ground (arith, good))
]

-- The same for a DNS allowlist.
pub add_dns-new :
    (xs ys : List Text) (al : DnsAllowlist)
    → new_dns_allowlist xs ≡ ok al
    → add_dns al ys ≡ new_dns_allowlist (xs ++ ys)
unfolding new_dns_allowlist add_dns
add_dns-new xs ys al h = elim (Result-cases (validate_dns_entries xs)) [
  | inl (e, bad) ↦ ground (arith, bad)
  | inr (u, good) ↦ rw (validate_dns-append xs ys, good, map-append) (ground (arith, good))
]
