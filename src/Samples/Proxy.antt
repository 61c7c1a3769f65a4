-- ===== src/Samples/Proxy.antt =====
-- Runs of the proxy's allowlists and log (proxy/allowlist.go, proxy/log.go).
use vibepit.Prelude.{
  ℕ, ◌≡◌, ◌≢◌, refl, true, false, some, List, [], ◌∷◌, ◌++◌, Text, codes, Decides, ok, err, Any,
  arith, split, to_lower, text_eq, is_empty, contains_byte, last_index, count, ◌↔◌,
}
use vibepit.Proxy.Pattern.{
  dot, matches, parse_domain_pattern, validate_domain_pattern, many_double_stars, too_broad,
  check_labels, check_breadth, find_double_star, match_around, match_parts, match_all, match_labels,
  label_matches,
}
use vibepit.Proxy.Pattern.Covers.{Covers}
use vibepit.Proxy.Pattern.Decides.{matches-Decides}
use vibepit.Proxy.Allowlist.{
  HttpAllowlist, DnsAllowlist, parse_http_rule, parse_dns_rule, new_http_allowlist,
  new_dns_allowlist, allows_http, add_http, add_dns, validate_http_entry, validate_http_entries,
  validate_dns_entry, validate_dns_entries, validate_parts, all_digits, http_rules_allow,
  port_matches,
}
use vibepit.Proxy.Allowlist.Policy.{Grants, allows_http-Decides}
use vibepit.Proxy.Allowlist.Entries.{IsValidHttpEntry, validate_http_entry_iff}
use vibepit.Proxy.Allowlist.Updates.{add_http-new, add_dns-new}
use vibepit.Proxy.Allowlist.Updates.Cas.{run, committed, has_returned, act}
use vibepit.Proxy.Allowlist.Updates.NoLostUpdate.{before, run-committed}
use vibepit.Proxy.LogBuffer.{
  LogEntry, LogBuffer, Action, allow, block, proxy, new_log_buffer, add_all, add, added,
  count_entry, bump, entries_locked,
}
use vibepit.Proxy.LogBuffer.Ring.{stamp, add_all-last}
use vibepit.Proxy.LogBuffer.Rotation.{last}

abbrev wildcard : Text
wildcard = codes "**.Example.com"

abbrev host : Text
host = codes "a.b.EXAMPLE.com"

wildcard-valid : validate_domain_pattern wildcard ≡ ok tt
unfolding validate_domain_pattern check_labels check_breadth is_empty split text_eq contains_byte
wildcard-valid = refl

matches-Decides_example :
    Decides
      (Covers (split dot (to_lower wildcard)) (split dot (to_lower host)))
      (matches (parse_domain_pattern wildcard) host)
matches-Decides_example = matches-Decides wildcard host wildcard-valid (λ e. cc)

-- The pattern does cover the host: the decision reads true.
matches-wildcard : matches (parse_domain_pattern wildcard) host ≡ some true
unfolding matches parse_domain_pattern find_double_star match_around match_parts match_all
    match_labels label_matches is_empty split to_lower text_eq
matches-wildcard = refl

matches-apex : matches (parse_domain_pattern wildcard) (codes "example.com") ≡ some false
unfolding matches parse_domain_pattern find_double_star match_around match_parts match_all
    match_labels label_matches is_empty split to_lower text_eq
matches-apex = refl

two_runs : validate_domain_pattern (codes "**.a.**") ≡ err many_double_stars
unfolding validate_domain_pattern check_labels check_breadth is_empty split text_eq contains_byte
two_runs = refl

bare_star : validate_domain_pattern (codes "*") ≡ err (too_broad (codes "*"))
unfolding validate_domain_pattern check_labels check_breadth is_empty split text_eq contains_byte
bare_star = refl

abbrev http_entries : List Text
http_entries = codes "github.com:443" ∷ codes "*.example.com:*" ∷ []

abbrev http_list : HttpAllowlist
http_list = record {
  rules = parse_http_rule (codes "github.com:443") ∷ parse_http_rule (codes "*.example.com:*") ∷ [];
}

http_list-new : new_http_allowlist http_entries ≡ ok http_list
unfolding new_http_allowlist validate_http_entries validate_http_entry validate_parts all_digits
    last_index validate_domain_pattern check_labels check_breadth is_empty split text_eq
    contains_byte
http_list-new = refl

allows_http-Decides_example :
    Decides
      ((codes "x.example.com" ≢ [])
        × Any (λ e. Grants e (codes "x.example.com") (codes "80")) http_entries)
      (allows_http http_list (codes "x.example.com") (codes "80"))
allows_http-Decides_example =
    allows_http-Decides http_entries http_list (codes "x.example.com") (codes "80") http_list-new

allows_subdomain : allows_http http_list (codes "x.example.com") (codes "80") ≡ some true
unfolding allows_http http_rules_allow port_matches parse_http_rule last_index matches
    parse_domain_pattern find_double_star match_around match_parts match_all match_labels
    label_matches is_empty split to_lower text_eq
allows_subdomain = refl

blocks_port : allows_http http_list (codes "github.com") (codes "80") ≡ some false
unfolding allows_http http_rules_allow port_matches parse_http_rule last_index matches
    parse_domain_pattern find_double_star match_around match_parts match_all match_labels
    label_matches is_empty split to_lower text_eq
blocks_port = refl

abbrev dns_entries : List Text
dns_entries = codes "*.corp.example" ∷ []

abbrev dns_list : DnsAllowlist
dns_list = record { rules = parse_dns_rule (codes "*.corp.example") ∷ [] }

dns_list-new : new_dns_allowlist dns_entries ≡ ok dns_list
unfolding new_dns_allowlist validate_dns_entries validate_dns_entry validate_domain_pattern
    check_labels check_breadth is_empty split text_eq contains_byte
dns_list-new = refl

validate_http_entry_iff_example :
    (validate_http_entry (codes "a.b:99x") ≡ ok tt) ↔ IsValidHttpEntry (codes "a.b:99x")
validate_http_entry_iff_example = validate_http_entry_iff (codes "a.b:99x")

abbrev more_entries : List Text
more_entries = codes "api.test:8080" ∷ []

add_http-new_example :
    add_http http_list more_entries ≡ new_http_allowlist (http_entries ++ more_entries)
add_http-new_example = add_http-new http_entries more_entries http_list http_list-new

add_dns-new_example :
    add_dns dns_list more_entries ≡ new_dns_allowlist (dns_entries ++ more_entries)
add_dns-new_example = add_dns-new dns_entries more_entries dns_list dns_list-new

-- Two goroutines load the same pointer; the second to swap fails and goes round again.
abbrev racing : List ℕ
racing = 1 ∷ 2 ∷ 1 ∷ 2 ∷ 2 ∷ 2 ∷ []

abbrev batches : ℕ → List ℕ
batches t = t ∷ 10 ∷ []

run-committed_example :
    ((run batches racing (before batches (7 ∷ []))).rules
      ≡ (7 ∷ []) ++ committed batches (run batches racing (before batches (7 ∷ []))).log)
    × ((t : ℕ)
        → count t (run batches racing (before batches (7 ∷ []))).log
          ≡ has_returned ((run batches racing (before batches (7 ∷ []))).phase t))
run-committed_example = run-committed batches (7 ∷ []) racing

racing_rules : (run batches racing (before batches (7 ∷ []))).rules ≡ 7 ∷ 1 ∷ 10 ∷ 2 ∷ 10 ∷ []
unfolding run act
racing_rules = refl

abbrev entry_at : ℕ → Action → LogEntry
entry_at n a = record {
  id = 0;
  time = n;
  domain = codes "github.com";
  port = codes "443";
  action = a;
  source = proxy;
  reason = [];
}

abbrev traffic : List LogEntry
traffic = entry_at 1 allow ∷ entry_at 2 block ∷ entry_at 3 allow ∷ []

abbrev kept : LogBuffer
kept = record {
  entries = record (entry_at 3 allow) { id = 3 } ∷ record (entry_at 2 block) { id = 2 } ∷ [];
  cap = 2;
  pos = 1;
  full = true;
  next_id = 4;
  stats = (codes "github.com", record { allowed = 2; blocked = 1 }) ∷ [];
}

traffic-kept : add_all (new_log_buffer 2) traffic ≡ some kept
unfolding add_all new_log_buffer add added count_entry bump text_eq
traffic-kept = refl

add_all-last_example :
    (b : LogBuffer) × (add_all (new_log_buffer 2) traffic ≡ some b)
    × (entries_locked b ≡ last 2 (stamp 1 traffic))
add_all-last_example = add_all-last 2 traffic (omega arith) (omega arith)
