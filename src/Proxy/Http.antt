-- ===== src/Proxy/Http.antt =====
-- proxy/http.go: the decision about a request, and the two handlers that call it.
pub mod Authority
pub mod Filter
pub mod Handlers
use vibepit.Prelude.{
  ℕ, zero, suc, ◌+◌, Bool, true, false, not, ◌&&◌, ◌||◌, Option, none, some, List, [], ◌∷◌, ◌++◌,
  Text, codes, text_eq, is_empty, contains_byte, last_index, to_lower, length, take, drop, ◌==◌,
  if◌then◌else◌, and_then, ℤ, int_eq, atoi, first_index,
}
use vibepit.Proxy.Allowlist.{HttpAllowlist, allows_http, colon}
use vibepit.Proxy.LogBuffer
use vibepit.Proxy.LogBuffer.{LogBuffer, LogEntry, Action, allow, block, proxy}
use vibepit.Proxy.Cidr.{Ip, CidrBlocker, is_blocked}

-- The fields that the filter reads. `allow_host_ports` lists the keys of the map that are true; it
-- is empty before `SetHostVibepit`.
pub record HttpProxy : Type 0 where
  pub allowlist : HttpAllowlist
  pub cidr : CidrBlocker
  pub log : LogBuffer
  pub host_gateway : Text
  pub allow_host_ports : List ℤ

-- The reasons, as the code words them.
pub data Reason : Type 0 where
  no_reason not_in_allowlist resolution_failed host_vibepit_reason : Reason
  blocked_ip : Ip → Reason

-- `rewrite` is empty if the target stays.
pub record FilterResult : Type 0 where
  pub action : Action
  pub reason : Reason
  pub rewrite : Text

-- What the network gives: net.ParseIP, the answer of the resolver with its error (true), the
-- printed form of an address, and the clock.
pub record Net : Type 0 where
  pub parse_ip : Text → Option Ip
  pub lookup_ip : Text → List Ip × Bool
  pub show_ip : Ip → Text
  pub now : ℕ

abbrev pub host_vibepit : Text
host_vibepit = codes "host.vibepit"

abbrev pub reason_text : Net → Reason → Text
reason_text net no_reason = []
reason_text net not_in_allowlist = codes "domain not in allowlist"
reason_text net resolution_failed = codes "DNS resolution failed during CIDR check"
reason_text net host_vibepit_reason = codes "host.vibepit"
reason_text net (blocked_ip ip) =
    codes "resolved IP " ++ (net.show_ip ip ++ codes " is in blocked CIDR range")

unfoldable pub has_port : ℤ → List ℤ → Bool
has_port p [] = false
has_port p (q ∷ qs) = if int_eq q p then true else has_port p qs

unfoldable pub is_host_port_allowed : HttpProxy → Text → Bool
is_host_port_allowed p port = elim (atoi port) [
  | none ↦ false
  | some n ↦ has_port n p.allow_host_ports
]

-- net.JoinHostPort
unfoldable pub join_host_port : Text → Text → Text
join_host_port host port =
    if contains_byte colon host || contains_byte b'%' host
    then codes "[" ++ (host ++ (codes "]:" ++ port))
    else host ++ (colon ∷ port)

-- the first address that is blocked
unfoldable pub first_blocked : CidrBlocker → List Ip → Option Ip
first_blocked cidr [] = none
first_blocked cidr (ip ∷ ips) = if is_blocked cidr ip then some ip else first_blocked cidr ips

-- `resolveAndCheckCIDR` on a literal address, and on the answer of the resolver: `none` passes, and
-- a block comes with its address or with nil.
unfoldable pub check_literal : CidrBlocker → Ip → Option (Option Ip)
check_literal cidr ip = if is_blocked cidr ip then some (some ip) else none

unfoldable pub check_answer : CidrBlocker → List Ip → Bool → Option (Option Ip)
check_answer cidr addrs failed =
    if failed && is_empty addrs
    then some none
    else elim (first_blocked cidr addrs) [ none ↦ none | some ip ↦ some (some ip) ]

unfoldable pub resolve_and_check_cidr : Net → HttpProxy → Text → Option (Option Ip)
resolve_and_check_cidr net p hostname = elim (net.parse_ip hostname) [
  | some ip ↦ check_literal p.cidr ip
  | none ↦ let (addrs, failed) = net.lookup_ip hostname in check_answer p.cidr addrs failed
]

abbrev pub http_entry : Net → Text → Text → Action → Reason → LogEntry
http_entry net hostname port action reason = record {
  id = 0;
  time = net.now;
  domain = hostname;
  port = port;
  action = action;
  source = proxy;
  reason = reason_text net reason;
}

-- `logEntry`
unfoldable pub log_entry : Net → HttpProxy → Text → Text → Action → Reason → Option HttpProxy
log_entry net p hostname port action reason =
    and_then (LogBuffer.add p.log (http_entry net hostname port action reason))
      λ log. some (record p { log = log })

-- log, and return the result with the same reason
abbrev pub finish :
    Net
    → HttpProxy
    → Text
    → Text
    → Action
    → Reason
    → FilterResult
    → Option (HttpProxy × FilterResult)
finish net p hostname port action reason result =
    and_then (log_entry net p hostname port action reason) λ q. some (q, result)

abbrev pub refuse : Net → HttpProxy → Text → Text → Reason → Option (HttpProxy × FilterResult)
refuse net p hostname port reason =
    finish net p hostname port block reason
      (record { action = block; reason = reason; rewrite = [] })

-- the end of the branch for host.vibepit
abbrev pub pass_host : Net → HttpProxy → Text → Text → Option (HttpProxy × FilterResult)
pass_host net p hostname port =
    finish net p hostname port allow host_vibepit_reason
      (record { action = allow; reason = no_reason; rewrite = join_host_port p.host_gateway port })

-- the branch for host.vibepit
unfoldable pub check_host_vibepit :
    Net → HttpProxy → Text → Text → Option (HttpProxy × FilterResult)
check_host_vibepit net p hostname port =
    if is_host_port_allowed p port
    then pass_host net p hostname port
    else (and_then (allows_http p.allowlist hostname port) λ allowed.
        if allowed
        then pass_host net p hostname port
        else refuse net p hostname port not_in_allowlist)

unfoldable pub check_request : Net → HttpProxy → Text → Text → Option (HttpProxy × FilterResult)
check_request net p hostname port =
    if text_eq hostname host_vibepit && not (is_empty p.host_gateway)
    then check_host_vibepit net p hostname port
    else (and_then (allows_http p.allowlist hostname port) λ allowed.
        if not allowed
        then refuse net p hostname port not_in_allowlist
        else elim (resolve_and_check_cidr net p hostname) [
          | some (some ip) ↦ refuse net p hostname port (blocked_ip ip)
          | some none ↦ refuse net p hostname port resolution_failed
          | none ↦
              finish net p hostname port allow no_reason
                (record { action = allow; reason = no_reason; rewrite = [] })
        ])

-- net.SplitHostPort: the brackets of an IPv6 host, the last colon, and its errors as `none`
abbrev pub cut_port : Text → Text → Text → ℕ → Text → Option (Text × Text)
cut_port hostport from_j from_k i host =
    if contains_byte b'[' from_j || contains_byte b']' from_k
    then none
    else some (host, drop (i + 1) hostport)

unfoldable pub split_bracketed : Text → ℕ → Option (Text × Text)
split_bracketed hostport i = elim (first_index b']' hostport) [
  | none ↦ none
  | some end ↦
      if end + 1 == i
      then cut_port hostport (drop 1 hostport) (drop (end + 1) hostport) i
          (drop 1 (take end hostport))
      else none
]

unfoldable pub split_plain : Text → ℕ → Option (Text × Text)
split_plain hostport i =
    if contains_byte colon (take i hostport)
    then none
    else cut_port hostport hostport hostport i (take i hostport)

abbrev pub starts_bracket : Text → Bool
starts_bracket [] = false
starts_bracket (c ∷ s) = c == b'['

unfoldable pub net_split_host_port : Text → Option (Text × Text)
net_split_host_port hostport = elim (last_index colon hostport) [
  | none ↦ none
  | some i ↦ if starts_bracket hostport then split_bracketed hostport i else split_plain hostport i
]

unfoldable pub split_host_port : Text → Text → Text × Text
split_host_port hostport default_port = elim (net_split_host_port hostport) [
  | none ↦ (to_lower hostport, default_port)
  | some (host, port) ↦ (to_lower host, port)
]

-- `SetHostVibepit`
unfoldable pub set_host_vibepit : HttpProxy → Text → List ℤ → HttpProxy
set_host_vibepit p gateway allowed_ports = record p {
  host_gateway = elim (net_split_host_port gateway) [ none ↦ gateway | some (host, port) ↦ host ];
  allow_host_ports = allowed_ports;
}

-- What the CONNECT handler tells goproxy, with the target.
pub data ConnectReply : Type 0 where
  reject_connect ok_connect : Text → ConnectReply

unfoldable pub connect_reply : Text → FilterResult → ConnectReply
connect_reply host result = elim result.action [
  | block ↦ reject_connect host
  | allow ↦ if is_empty result.rewrite then ok_connect host else ok_connect result.rewrite
]

unfoldable pub handle_connect : Net → HttpProxy → Text → Option (HttpProxy × ConnectReply)
handle_connect net p host =
    let (hostname, port) = split_host_port host (codes "443") in
    and_then (check_request net p hostname port) λ (q, result). some (q, connect_reply host result)

-- What the handler of plain requests answers: forward to a host, or 403 with one of its messages.
pub data RequestReply : Type 0 where
  forward : Text → RequestReply
  forbidden_not_allowed forbidden_blocked_ip forbidden_unresolved : Text → RequestReply

unfoldable pub request_reply : Text → Text → FilterResult → RequestReply
request_reply host hostname result = elim result.action [
  | block ↦ elim result.reason [
    | blocked_ip ip ↦ forbidden_blocked_ip hostname
    | resolution_failed ↦ forbidden_unresolved hostname
    | _ ↦ forbidden_not_allowed hostname
  ]
  | allow ↦ if is_empty result.rewrite then forward host else forward result.rewrite
]

unfoldable pub handle_request : Net → HttpProxy → Text → Option (HttpProxy × RequestReply)
handle_request net p host =
    let (hostname, port) = split_host_port host (codes "80") in
    and_then (check_request net p hostname port)
      λ (q, result). some (q, request_reply host hostname result)
