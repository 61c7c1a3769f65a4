-- ===== src/Proxy/Allowlist/Policy.antt =====
-- What the allowlists permit: a host and a port exactly if some entry grants them.
use vibepit.Prelude.{
  ◌+◌, ◌≡◌, ◌≢◌, ◌↔◌, refl, sym, ap, subst, Bool, true, false, Option, none, some, List, [], ◌∷◌,
  map, Text, text_eq_iff, is_empty, length, take, drop, if◌then◌else◌, ok, arith, ◌⊎◌, inl, inr,
  ◌∙◌, Any, Decides, Decides-map, Bool-cases, Result-cases, split, to_lower,
}
use vibepit.Proxy.Pattern.{dot, star, parse_domain_pattern, matches, validate_domain_pattern}
use vibepit.Proxy.Pattern.Covers.{Covers}
use vibepit.Proxy.Pattern.Decides.{matches-Decides}
use vibepit.Proxy.Allowlist.{
  HttpRule, HttpAllowlist, DnsAllowlist, port_matches, parse_http_rule, parse_dns_rule,
  validate_http_entry, validate_dns_entry, validate_http_entries, validate_dns_entries,
  new_http_allowlist, new_dns_allowlist, or_rest, http_rules_allow, dns_rules_allow, allows_http,
  allows_dns,
}
use vibepit.Proxy.Allowlist.Entries.{
  Parts, Parts-index, Parts-domain, Parts-port, IsValidHttpEntry, validate_http_entry_iff,
  nonempty_length,
}

abbrev pub labels_of : Text → List Text
labels_of s = split dot (to_lower s)

-- An entry `domain:port` grants a host and a port: its port is `*` or the port, and its domain
-- covers the host, letter case aside.
pub record Grants (entry host port : Text) : Type 0 where
  pub parts : Parts entry
  pub port_granted : (parts.port ≡ star) ⊎ (parts.port ≡ port)
  pub host_granted : Covers (labels_of parts.domain) (labels_of host)

Parts-unique : {entry : Text} (p q : Parts entry) → (p.domain ≡ q.domain) × (p.port ≡ q.port)
Parts-unique {entry} p q =
    let same : some (length p.domain) ≡ some (length q.domain) =
      sym (Parts-index p) ∙ Parts-index q in
    let e : length p.domain ≡ length q.domain = ground arith in
    (
      sym (Parts-domain p) ∙ ap (λ k. take k entry) e ∙ Parts-domain q,
      sym (Parts-port p) ∙ ap (λ k. drop (k + 1) entry) e ∙ Parts-port q,
    )

parse_http_rule-valid :
    (entry : Text) (v : IsValidHttpEntry entry)
    → parse_http_rule entry
      ≡ record { domain = parse_domain_pattern v.parts.domain; port = v.parts.port }
unfolding parse_http_rule
parse_http_rule-valid entry v = ground (
  arith,
  Parts-index v.parts,
  Parts-domain v.parts,
  Parts-port v.parts,
  (nonempty_length v.parts.domain).0 v.some_domain,
)

or_rest-Decides :
    (F G H : Type 0) (r s : Option Bool)
    → (F → H)
    → (G → H)
    → (H → F ⊎ G)
    → Decides F r
    → Decides G s
    → Decides H (or_rest r s)
or_rest-Decides F G H none s f g h d e = d
or_rest-Decides F G H (some true) s f g h d e = f d
or_rest-Decides F G H (some false) none f g h d e = e
or_rest-Decides F G H (some false) (some true) f g h d e = g e
or_rest-Decides F G H (some false) (some false) f g h d e =
    λ x. elim (h x) [ inl y ↦ d y | inr y ↦ e y ]

-- The rule of one accepted entry, in the form that the loop uses it.
abbrev rule_allows : HttpRule → Text → Text → Option Bool
rule_allows r host port = if port_matches r.port port then matches r.domain host else some false

rule_allows-loop :
    (r : HttpRule) (rs : List HttpRule) (host port : Text)
    → http_rules_allow (r ∷ rs) host port
      ≡ or_rest (rule_allows r host port) (http_rules_allow rs host port)
unfolding http_rules_allow
rule_allows-loop r rs host port = elim (Bool-cases (port_matches r.port port)) [
  | inl e ↦ rw e
  | inr e ↦ rw e
]

port_matches_iff :
    (pattern port : Text)
    → (port_matches pattern port ≡ true) ↔ ((pattern ≡ star) ⊎ (pattern ≡ port))
unfolding port_matches
port_matches_iff pattern port = ground (arith, text_eq_iff pattern star, text_eq_iff pattern port)

module _ (host port : Text) (some_host : host ≢ []) where
  rule_allows-Decides :
      (entry : Text)
      → validate_http_entry entry ≡ ok tt
      → Decides (Grants entry host port) (rule_allows (parse_http_rule entry) host port)
  rule_allows-Decides entry h =
      let v = (validate_http_entry_iff entry).0 h in
      let hosts = matches-Decides v.parts.domain host v.good_domain some_host in
      rw (parse_http_rule-valid entry v) (elim (Bool-cases (port_matches v.parts.port port)) [
        | inl same ↦ rw same (
            Decides-map _ _ (matches (parse_domain_pattern v.parts.domain) host)
              (λ d. record {
                parts = v.parts;
                port_granted = (port_matches_iff v.parts.port port).0 same;
                host_granted = d;
              })
              (λ g.
                subst (λ t. Covers (labels_of t) (labels_of host)) (Parts-unique g.parts v.parts).0
                  g.host_granted)
              hosts)
        | inr other ↦ rw other (λ g. ground (
          arith,
          (port_matches_iff v.parts.port port).1,
          g.port_granted,
          (Parts-unique g.parts v.parts).1,
        ))
      ])

  http_rules_allow-Decides :
      (entries : List Text)
      → validate_http_entries entries ≡ ok tt
      → Decides
          (Any (λ e. Grants e host port) entries)
          (http_rules_allow (map parse_http_rule entries) host port)
  unfolding validate_http_entries
  http_rules_allow-Decides [] h = unfold http_rules_allow in λ g. g
  http_rules_allow-Decides (e ∷ es) h = elim (Result-cases (validate_http_entry e)) [
    | inl (x, bad) ↦ absurd (ground (arith, bad))
    | inr (u, good) ↦ rw (rule_allows-loop (parse_http_rule e) (map parse_http_rule es) host port) (
        or_rest-Decides _ _ _ (rule_allows (parse_http_rule e) host port)
          (http_rules_allow (map parse_http_rule es) host port) (λ g. inl g) (λ g. inr g) (λ g. g)
          (rule_allows-Decides e good) (http_rules_allow-Decides es (ground (arith, good))))
  ]

-- An allowlist built from entries permits a host and a port exactly if the host is not empty and
-- some entry grants them; the check never panics.
pub allows_http-Decides :
    (entries : List Text) (al : HttpAllowlist) (host port : Text)
    → new_http_allowlist entries ≡ ok al
    → Decides ((host ≢ []) × Any (λ e. Grants e host port) entries) (allows_http al host port)
unfolding new_http_allowlist allows_http is_empty
allows_http-Decides entries al [] port h = λ g. g.0 refl
allows_http-Decides entries al (c ∷ host) port h =
    elim (Result-cases (validate_http_entries entries)) [
      | inl (x, bad) ↦ absurd (ground (arith, bad))
      | inr (u, good) ↦
          let rules : al.rules ≡ map parse_http_rule entries = ground (arith, good) in
          let some_host : ◌≢◌ {A = Text} (c ∷ host) [] = λ e. ground arith in
          rw rules (
            Decides-map _ _ (http_rules_allow (map parse_http_rule entries) (c ∷ host) port)
              (λ g. (some_host, g)) (λ g. g.1)
              (http_rules_allow-Decides (c ∷ host) port some_host entries good))
    ]

-- The DNS allowlist: its entries are domains.
abbrev pub GrantsName : Text → Text → Type 0
GrantsName entry host = Covers (labels_of entry) (labels_of host)

validate_dns_entry-domain :
    (entry : Text) → validate_dns_entry entry ≡ ok tt → validate_domain_pattern entry ≡ ok tt
unfolding validate_dns_entry
validate_dns_entry-domain entry h = ground arith

dns_rules_allow-Decides :
    (host : Text)
    → host ≢ []
    → (entries : List Text) → validate_dns_entries entries ≡ ok tt
    → Decides
        (Any (λ e. GrantsName e host) entries)
        (dns_rules_allow (map parse_dns_rule entries) host)
unfolding validate_dns_entries dns_rules_allow parse_dns_rule
dns_rules_allow-Decides host n [] h = λ g. g
dns_rules_allow-Decides host n (e ∷ es) h = elim (Result-cases (validate_dns_entry e)) [
  | inl (x, bad) ↦ absurd (ground (arith, bad))
  | inr (u, good) ↦
      or_rest-Decides _ _ _ (matches (parse_domain_pattern e) host)
        (dns_rules_allow (map parse_dns_rule es) host) (λ g. inl g) (λ g. inr g) (λ g. g)
        (matches-Decides e host (validate_dns_entry-domain e good) n)
        (dns_rules_allow-Decides host n es (ground (arith, good)))
]

-- A DNS allowlist built from entries permits a name exactly if the name is not empty and some entry
-- covers it; the check never panics.
pub allows_dns-Decides :
    (entries : List Text) (al : DnsAllowlist) (host : Text)
    → new_dns_allowlist entries ≡ ok al
    → Decides ((host ≢ []) × Any (λ e. GrantsName e host) entries) (allows_dns al host)
unfolding new_dns_allowlist allows_dns is_empty
allows_dns-Decides entries al [] h = λ g. g.0 refl
allows_dns-Decides entries al (c ∷ host) h = elim (Result-cases (validate_dns_entries entries)) [
  | inl (x, bad) ↦ absurd (ground (arith, bad))
  | inr (u, good) ↦
      let rules : al.rules ≡ map parse_dns_rule entries = ground (arith, good) in
      let some_host : ◌≢◌ {A = Text} (c ∷ host) [] = λ e. ground arith in
      rw rules (
        Decides-map _ _ (dns_rules_allow (map parse_dns_rule entries) (c ∷ host))
          (λ g. (some_host, g)) (λ g. g.1)
          (dns_rules_allow-Decides (c ∷ host) some_host entries good))
]
