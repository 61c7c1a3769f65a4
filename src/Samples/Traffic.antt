-- ===== src/Samples/Traffic.antt =====
-- Runs of the filters and of the control API (proxy/cidr.go, http.go, dns.go, api.go).
use vibepit.Prelude.{
  ◌≡◌, ◌↔◌, refl, true, false, Option, none, some, List, [], ◌∷◌, ◌++◌, Text, codes, ok, arith,
  split, text_eq, is_empty, contains_byte, last_index, pos, Any, to_lower,
}
use vibepit.Proxy.Allowlist.{
  HttpAllowlist, DnsAllowlist, parse_http_rule, parse_dns_rule, new_http_allowlist,
  new_dns_allowlist, validate_http_entry, validate_http_entries, validate_dns_entry,
  validate_dns_entries, validate_parts, all_digits,
}
use vibepit.Proxy.Pattern.{validate_domain_pattern, check_labels, check_breadth}
use vibepit.Proxy.LogBuffer.{new_log_buffer, IsReady}
use vibepit.Proxy.Cidr.{
  Ip, IpNet, CidrBlocker, new_cidr_blocker, is_blocked, contains, default_blocked_cidrs,
}
use vibepit.Proxy.Cidr.Ranges.{is_blocked_iff, contains_iff, InNet, CoversIp}
use vibepit.Proxy.Http.{
  HttpProxy, Net, check_request, ConnectReply, RequestReply, handle_connect, handle_request,
  split_host_port, net_split_host_port, split_plain,
}
use vibepit.Proxy.Http.Authority.{Names, with_port}
use vibepit.Proxy.Http.Handlers.{Opens, Passes, handlers-Permits}
use vibepit.Proxy.Http.Filter.{Outcome, Permits, check_request-Outcome}
use vibepit.Proxy.Dns.{DnsServer, Query, Question, Msg, a_record, handle_query, domain_of}
use vibepit.Proxy.Dns.Filter.{DnsOutcome, Forwards, handle_query-DnsOutcome}
use vibepit.Proxy.ControlApi.{ControlApi, handle_allow_http}
use vibepit.Proxy.ControlApi.Allow.{AllowOutcome, handle_allow_http-AllowOutcome}

abbrev private_ten : IpNet
private_ten = record { base = Ip.v4 167772160; prefix = 8 }

-- a parser that knows one text
abbrev parse_ten : Text → Option IpNet
parse_ten t = elim (text_eq t (codes "10.0.0.0/8")) [ true ↦ some private_ten | false ↦ none ]

contains_iff_example :
    (contains private_ten (Ip.v4 167772165) ≡ true) ↔ InNet private_ten (Ip.v4 167772165)
contains_iff_example = contains_iff private_ten (Ip.v4 167772165)

is_blocked_iff_example :
    (is_blocked (new_cidr_blocker parse_ten [] []) (Ip.v4 167772165) ≡ true) ↔ (
      Any (λ c. CoversIp parse_ten c (Ip.v4 167772165)) (default_blocked_cidrs ++ [])
      × ¬ Any (λ c. CoversIp parse_ten c (Ip.v4 167772165)) [])
is_blocked_iff_example = is_blocked_iff parse_ten [] [] (Ip.v4 167772165)

abbrev http_entries : List Text
http_entries = codes "github.com:443" ∷ []

abbrev http_list : HttpAllowlist
http_list = record { rules = parse_http_rule (codes "github.com:443") ∷ [] }

http_list-new : new_http_allowlist http_entries ≡ ok http_list
unfolding new_http_allowlist validate_http_entries validate_http_entry validate_parts all_digits
    last_index validate_domain_pattern check_labels check_breadth is_empty split text_eq
    contains_byte
http_list-new = refl

abbrev blocker : CidrBlocker
blocker = record { block_nets = private_ten ∷ []; allow_nets = [] }

fresh_log : IsReady (new_log_buffer 2)
unfolding new_log_buffer
fresh_log = omega arith

abbrev proxy_now : HttpProxy
proxy_now = record {
  allowlist = http_list;
  cidr = blocker;
  log = new_log_buffer 2;
  host_gateway = codes "192.168.0.1";
  allow_host_ports = pos 8080 ∷ [];
}

-- Every name resolves to 10.0.0.5.
abbrev net_now : Net
net_now = record {
  parse_ip = λ t. none;
  lookup_ip = λ t. (Ip.v4 167772165 ∷ [], false);
  show_ip = λ ip. codes "10.0.0.5";
  now = 9;
}

check_request-Outcome_example :
    Outcome net_now proxy_now
      (codes "github.com")
      (codes "443")
      (Permits net_now proxy_now http_entries (codes "github.com") (codes "443"))
      (check_request net_now proxy_now (codes "github.com") (codes "443"))
check_request-Outcome_example =
    check_request-Outcome net_now proxy_now (codes "github.com") (codes "443") fresh_log
      http_entries http_list-new

abbrev dns_entries : List Text
dns_entries = codes "github.com" ∷ []

abbrev dns_list : DnsAllowlist
dns_list = record { rules = parse_dns_rule (codes "github.com") ∷ [] }

dns_list-new : new_dns_allowlist dns_entries ≡ ok dns_list
unfolding new_dns_allowlist validate_dns_entries validate_dns_entry validate_domain_pattern
    check_labels check_breadth is_empty split text_eq contains_byte
dns_list-new = refl

abbrev server : DnsServer
server = record { allowlist = dns_list; cidr = blocker; log = new_log_buffer 2; proxy_ip = none }

abbrev question : Question
question = record { name = codes "GitHub.com."; qtype = 1 }

abbrev exchange_now : Query → Option Msg
exchange_now r = some (record { answers = a_record (Ip.v4 2343437319) ∷ [] })

handle_query-DnsOutcome_example :
    DnsOutcome 9 server
      (domain_of question)
      (Forwards exchange_now server dns_entries (record { questions = question ∷ [] }) question)
      (handle_query exchange_now 9 server (record { questions = question ∷ [] }))
handle_query-DnsOutcome_example =
    handle_query-DnsOutcome exchange_now 9 server dns_entries question [] fresh_log dns_list-new

abbrev api : ControlApi
api = record { log = new_log_buffer 2; http_allowlist = http_list; dns_allowlist = dns_list }

handle_allow_http-AllowOutcome_example :
    AllowOutcome
      (λ ys. new_http_allowlist (http_entries ++ ys))
      (λ al. record api { http_allowlist = al })
      api
      (some (codes "a.b:1" ∷ []))
      (handle_allow_http api (some (codes "a.b:1" ∷ [])))
handle_allow_http-AllowOutcome_example =
    handle_allow_http-AllowOutcome api (some (codes "a.b:1" ∷ [])) http_entries http_list-new

abbrev target : Text
target = codes "GitHub.com:443"

target_named : Names target (codes "GitHub.com") (some (codes "443"))
unfolding contains_byte
target_named = with_port (codes "GitHub.com") (codes "443") (refl, refl, refl) (refl, refl, refl)

handlers-Permits_example :
    ((q : HttpProxy) × (r : ConnectReply) × (handle_connect net_now proxy_now target ≡ some (q, r))
      × (Opens proxy_now target (to_lower (codes "GitHub.com")) (codes "443") r
          ↔ Permits net_now proxy_now http_entries (to_lower (codes "GitHub.com")) (codes "443")))
    × ((q : HttpProxy) × (r : RequestReply) × (handle_request net_now proxy_now target
          ≡ some (q, r))
        × (Passes proxy_now target (to_lower (codes "GitHub.com")) (codes "443") r
            ↔ Permits net_now proxy_now http_entries (to_lower (codes "GitHub.com")) (codes "443")))
handlers-Permits_example =
    handlers-Permits net_now proxy_now target fresh_log http_entries http_list-new
      (codes "GitHub.com") (some (codes "443")) target_named

split_target : split_host_port target (codes "443") ≡ (codes "github.com", codes "443")
unfolding split_host_port net_split_host_port split_plain contains_byte last_index to_lower
split_target = refl
