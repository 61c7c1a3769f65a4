-- ===== src/Proxy/Dns.antt =====
-- proxy/dns.go: the handler of the filtering DNS server.
pub mod Filter
use vibepit.Prelude.{
  ℕ, zero, suc, Bool, true, false, not, ◌&&◌, Option, none, some, List, [], ◌∷◌, Text, codes,
  text_eq, to_lower, ◌==◌, if◌then◌else◌, and_then,
}
use vibepit.Proxy.Pattern.{dot}
use vibepit.Proxy.Allowlist.{DnsAllowlist, allows_dns}
use vibepit.Proxy.LogBuffer
use vibepit.Proxy.LogBuffer.{LogBuffer, LogEntry, Action, allow, block, dns}
use vibepit.Proxy.Cidr.{Ip, CidrBlocker, is_blocked}

pub record Question : Type 0 where
  pub name : Text
  pub qtype : ℕ

-- The records that the filter tells apart.
pub data Rr : Type 0 where
  a_record aaaa_record : Ip → Rr
  other_record : Rr

pub record Query : Type 0 where
  pub questions : List Question

pub record Msg : Type 0 where
  pub answers : List Rr

-- The message that is written: SERVFAIL, NXDOMAIN, the A record of host.vibepit with its name and
-- time to live, or the upstream's response.
pub data Reply : Type 0 where
  server_failure name_error : Reply
  synthetic : Text → ℕ → Ip → Reply
  forwarded : Msg → Reply

pub record DnsServer : Type 0 where
  pub allowlist : DnsAllowlist
  pub cidr : CidrBlocker
  pub log : LogBuffer
  pub proxy_ip : Option Ip

abbrev pub type_a : ℕ
type_a = 1

-- strings.TrimSuffix(s, ".")
unfoldable pub trim_dot : Text → Text
trim_dot [] = []
trim_dot (c ∷ []) = if c == dot then [] else c ∷ []
trim_dot (c ∷ d ∷ s) = c ∷ trim_dot (d ∷ s)

abbrev pub domain_of : Question → Text
domain_of q = trim_dot (to_lower q.name)

unfoldable pub rr_blocked : CidrBlocker → Rr → Bool
rr_blocked cidr (a_record ip) = is_blocked cidr ip
rr_blocked cidr (aaaa_record ip) = is_blocked cidr ip
rr_blocked cidr other_record = false

unfoldable pub has_blocked_ip : CidrBlocker → List Rr → Bool
has_blocked_ip cidr [] = false
has_blocked_ip cidr (rr ∷ rrs) = if rr_blocked cidr rr then true else has_blocked_ip cidr rrs

-- the condition of the synthetic response: its address, if it applies
unfoldable pub synthetic_ip : DnsServer → Question → Option Ip
synthetic_ip s q =
    if text_eq (domain_of q) (codes "host.vibepit") && q.qtype == type_a then s.proxy_ip else none

abbrev pub dns_entry : ℕ → Text → Action → Text → LogEntry
dns_entry now domain action reason = record {
  id = 0;
  time = now;
  domain = domain;
  port = [];
  action = action;
  source = dns;
  reason = reason;
}

-- log, and write the reply
unfoldable pub answer : ℕ → DnsServer → Text → Action → Text → Reply → Option (DnsServer × Reply)
answer now s domain action reason reply =
    and_then (LogBuffer.add s.log (dns_entry now domain action reason))
      λ log. some (record s { log = log }, reply)

-- the response of the upstream, if there is one
unfoldable pub check_response : ℕ → DnsServer → Text → Option Msg → Option (DnsServer × Reply)
check_response now s domain none = some (s, server_failure)
check_response now s domain (some m) =
    if has_blocked_ip s.cidr m.answers
    then answer now s domain block (codes "resolved IP in blocked CIDR range") name_error
    else answer now s domain allow [] (forwarded m)

-- The handler; `exchange` stands for the exchange with the upstream, `none` for its error.
unfoldable pub handle_query :
    (Query → Option Msg) → ℕ → DnsServer → Query → Option (DnsServer × Reply)
handle_query exchange now s r = elim r.questions [
  | [] ↦ some (s, server_failure)
  | q ∷ qs ↦ elim (synthetic_ip s q) [
    | some ip ↦ answer now s (domain_of q) allow [] (synthetic q.name 60 ip)
    | none ↦ and_then (allows_dns s.allowlist (domain_of q)) λ allowed.
        if allowed
        then check_response now s (domain_of q) (exchange r)
        else answer now s (domain_of q) block (codes "domain not in allowlist") name_error
  ]
]
