-- ===== src/Proxy/Http/Filter.antt =====
-- The filter allows exactly the requests that the policy permits, and logs each decision.
use vibepit.Prelude.{
  ◌≡◌, ◌≢◌, ◌↔◌, ◌⊎◌, ◌&&◌, inl, inr, refl, Bool, true, false, not, Option, none, some, List, [],
  ◌∷◌, Text, text_eq, text_eq_iff, is_empty, is_empty_iff, arith, All, Any, Decides-cases,
  Bool-cases, Option-cases, ok, lt→ltb, length,
}
use vibepit.Proxy.Allowlist.{new_http_allowlist, allows_http}
use vibepit.Proxy.Allowlist.Policy.{Grants, allows_http-Decides}
use vibepit.Proxy.LogBuffer
use vibepit.Proxy.LogBuffer.{LogBuffer, LogEntry, Action, allow, block, added, IsReady}
use vibepit.Proxy.Cidr.{Ip, CidrBlocker, is_blocked}
use vibepit.Proxy.Http.{
  HttpProxy, Reason, no_reason, not_in_allowlist, resolution_failed, host_vibepit_reason,
  blocked_ip, FilterResult, Net, host_vibepit, is_host_port_allowed, join_host_port, first_blocked,
  resolve_and_check_cidr, check_answer, check_literal, http_entry, log_entry, finish, refuse,
  check_host_vibepit, check_request,
}

-- An answer of the resolver passes: it is no failure without addresses, and none is blocked.
abbrev pub PassesAnswer : CidrBlocker → List Ip → Bool → Type 0
PassesAnswer cidr addrs failed =
    (¬ ((failed ≡ true) × (addrs ≡ []))) × All (λ ip. is_blocked cidr ip ≡ false) addrs

-- A literal address passes if it is not blocked; a name, if the answer of the resolver passes.
abbrev pub PassesCidr : Net → CidrBlocker → Text → Type 0
PassesCidr net cidr hostname = elim (net.parse_ip hostname) [
  | some ip ↦ is_blocked cidr ip ≡ false
  | none ↦ PassesAnswer cidr (net.lookup_ip hostname).0 (net.lookup_ip hostname).1
]

first_blocked-none :
    (cidr : CidrBlocker) (ips : List Ip)
    → (first_blocked cidr ips ≡ none) ↔ All (λ ip. is_blocked cidr ip ≡ false) ips
unfolding first_blocked
first_blocked-none cidr [] = (λ e. tt, λ a. refl)
first_blocked-none cidr (ip ∷ ips) =
    let rest = first_blocked-none cidr ips in
    elim (Bool-cases (is_blocked cidr ip)) [
      | inl e ↦ rw e (λ h. cc, λ a. cc (a.0))
      | inr e ↦ rw e (λ h. (refl, rest.0 h), λ a. rest.1 a.1)
    ]

check_answer_iff :
    (cidr : CidrBlocker) (addrs : List Ip) (failed : Bool)
    → (check_answer cidr addrs failed ≡ none) ↔ PassesAnswer cidr addrs failed
unfolding check_answer is_empty
check_answer_iff cidr [] true = (λ h. cc, λ q. absurd (q.0 (refl, refl)))
check_answer_iff cidr [] false = unfold first_blocked in (λ h. (λ q. cc (q.0), tt), λ q. refl)
check_answer_iff cidr (ip ∷ ips) failed =
    let all = first_blocked-none cidr (ip ∷ ips) in
    let no_failure : (failed && false) ≡ false = ground arith in
    rw no_failure (elim (Option-cases (first_blocked cidr (ip ∷ ips))) [
      | inl free ↦ rw free (λ h. (λ q. ground (arith, q.1), all.0 free), λ q. refl)
      | inr (bad, found) ↦ rw found (λ h. cc, λ q. cc (found, all.1 q.1))
    ])

check_literal_iff :
    (cidr : CidrBlocker) (ip : Ip) → (check_literal cidr ip ≡ none) ↔ (is_blocked cidr ip ≡ false)
unfolding check_literal
check_literal_iff cidr ip = ground arith

resolve_iff :
    (net : Net) (p : HttpProxy) (hostname : Text)
    → (resolve_and_check_cidr net p hostname ≡ none) ↔ PassesCidr net p.cidr hostname
resolve_iff net p hostname =
    unfold resolve_and_check_cidr in
    elim (Option-cases (net.parse_ip hostname)) [
      | inr (ip, literal) ↦
          rw (literal, resolve_and_check_cidr, PassesCidr) (check_literal_iff p.cidr ip)
      | inl name ↦
          rw (name, resolve_and_check_cidr, PassesCidr)
            (check_answer_iff p.cidr (net.lookup_ip hostname).0 (net.lookup_ip hostname).1)
    ]

-- The request is for host.vibepit, and a gateway is set.
abbrev pub ForHost : HttpProxy → Text → Type 0
ForHost p hostname = (hostname ≡ host_vibepit) × (p.host_gateway ≢ [])

-- The entries of the allowlist grant the request.
abbrev pub Granted : List Text → Text → Text → Type 0
Granted entries hostname port = (hostname ≢ []) × Any (λ e. Grants e hostname port) entries

-- The policy: host.vibepit needs a forwarded port or an entry; any other host needs an entry, and
-- addresses that are not blocked.
abbrev pub Permits : Net → HttpProxy → List Text → Text → Text → Type 0
Permits net p entries hostname port =
    (ForHost p hostname × ((is_host_port_allowed p port ≡ true) ⊎ Granted entries hostname port))
    ⊎ ((¬ ForHost p hostname) × Granted entries hostname port × PassesCidr net p.cidr hostname)

-- Where an allowed request goes: one for host.vibepit to the gateway, any other where it asks to.
abbrev pub IsRewrite : HttpProxy → Text → Text → Text → Type 0
IsRewrite p hostname port target =
    (ForHost p hostname × (target ≡ join_host_port p.host_gateway port))
    ⊎ ((¬ ForHost p hostname) × (target ≡ []))

-- A decision without a panic: it allows exactly if `G` holds, and all that has changed is the log,
-- by one entry for this request with the action taken.
pub record Outcome (net : Net) (p : HttpProxy) (hostname port : Text) (G : Type 0)
    (m : Option (HttpProxy × FilterResult)) : Type 0 where
  pub after : HttpProxy
  pub result : FilterResult
  pub decided : m ≡ some (after, result)
  pub allowed_iff : (result.action ≡ allow) ↔ G
  pub rewritten : result.action ≡ allow → IsRewrite p hostname port result.rewrite
  pub logged_reason : Reason
  pub logged :
      after
      ≡ record p { log = added p.log (http_entry net hostname port result.action logged_reason) }

ForHost-of_test :
    (p : HttpProxy) (hostname : Text)
    → (text_eq hostname host_vibepit && not (is_empty p.host_gateway)) ≡ true
    → ForHost p hostname
ForHost-of_test p hostname h =
    ground (arith, text_eq_iff hostname host_vibepit, is_empty_iff p.host_gateway)

ForHost-test :
    (p : HttpProxy) (hostname : Text)
    → ForHost p hostname
    → (text_eq hostname host_vibepit && not (is_empty p.host_gateway)) ≡ true
ForHost-test p hostname h =
    ground (arith, text_eq_iff hostname host_vibepit, is_empty_iff p.host_gateway)

not-ForHost :
    (p : HttpProxy) (hostname : Text)
    → ¬ ForHost p hostname
    → (text_eq hostname host_vibepit && not (is_empty p.host_gateway)) ≡ false
not-ForHost p hostname n =
    elim (Bool-cases (text_eq hostname host_vibepit && not (is_empty p.host_gateway))) [
      | inl h ↦ absurd (n (ForHost-of_test p hostname h))
      | inr h ↦ h
    ]

module _ (net : Net) (p : HttpProxy) (hostname port : Text) (ready : IsReady p.log) where
  finish-some :
      (a : Action) (x : Reason) (r : FilterResult)
      → finish net p hostname port a x r
        ≡ some (record p { log = added p.log (http_entry net hostname port a x) }, r)
  unfolding log_entry LogBuffer.add
  finish-some a x r = rw (lt→ltb p.log.pos (length p.log.entries) ready)

  Outcome-allow :
      (G : Type 0) (x y : Reason) (target : Text)
      → G
      → IsRewrite p hostname port target
      → Outcome net p hostname port G (
          finish net p hostname port allow x
            (record { action = allow; reason = y; rewrite = target }))
  Outcome-allow G x y target g w = record {
    after = record p { log = added p.log (http_entry net hostname port allow x) };
    result = record { action = allow; reason = y; rewrite = target };
    decided = finish-some allow x _;
    allowed_iff = (λ _. g, λ _. refl);
    rewritten = λ _. w;
    logged_reason = x;
    logged = refl;
  }

  Outcome-refuse :
      (G : Type 0) (x : Reason) → ¬ G → Outcome net p hostname port G (refuse net p hostname port x)
  Outcome-refuse G x n = record {
    after = record p { log = added p.log (http_entry net hostname port block x) };
    result = record { action = block; reason = x; rewrite = [] };
    decided = finish-some block x _;
    allowed_iff = (λ e. cc, λ g. absurd (n g));
    rewritten = λ e. absurd cc;
    logged_reason = x;
    logged = refl;
  }

  module _ (entries : List Text) (built : new_http_allowlist entries ≡ ok p.allowlist) where
    granted :
        ((allows_http p.allowlist hostname port ≡ some true) × Granted entries hostname port)
        ⊎ ((allows_http p.allowlist hostname port ≡ some false) × (¬ Granted entries hostname port))
    granted = Decides-cases _ _ (allows_http-Decides entries p.allowlist hostname port built)

    host_check-Outcome :
        (G : Type 0)
        → ForHost p hostname
        → (is_host_port_allowed p port ≡ true → G)
        → (Granted entries hostname port → G)
        → (is_host_port_allowed p port ≡ false → ¬ Granted entries hostname port → ¬ G)
        → Outcome net p hostname port G (check_host_vibepit net p hostname port)
    unfolding check_host_vibepit
    host_check-Outcome G h by_port by_entry neither =
        elim (Bool-cases (is_host_port_allowed p port)) [
          | inl open_port ↦ rw open_port (
              Outcome-allow G host_vibepit_reason no_reason (join_host_port p.host_gateway port)
                (by_port open_port) (inl (h, refl)))
          | inr shut_port ↦ elim granted [
            | inl (yes_entry, g) ↦
                rw (shut_port, yes_entry)
                  (Outcome-allow G host_vibepit_reason no_reason
                    (join_host_port p.host_gateway port) (by_entry g) (inl (h, refl)))
            | inr (no_entry, ng) ↦
                rw (shut_port, no_entry) (Outcome-refuse G not_in_allowlist (neither shut_port ng))
          ]
        ]

    host-Outcome :
        ForHost p hostname
        → Outcome net p hostname port
            (Permits net p entries hostname port)
            (check_host_vibepit net p hostname port)
    host-Outcome h =
        host_check-Outcome (Permits net p entries hostname port) h (λ o. inl (h, inl o))
          (λ g. inl (h, inr g))
          (λ shut ng f. elim f [
            | inl (_, inl o) ↦ cc (o, shut)
            | inl (_, inr g) ↦ ng g
            | inr (n, _, _) ↦ n h
          ])

    other-Outcome :
        ¬ ForHost p hostname
        → Outcome net p hostname port
            (Permits net p entries hostname port)
            (check_request net p hostname port)
    unfolding check_request
    other-Outcome n =
        let elsewhere : (text_eq hostname host_vibepit && not (is_empty p.host_gateway)) ≡ false =
          not-ForHost p hostname n in
        elim granted [
          | inr (no_entry, ng) ↦
              rw (elsewhere, no_entry)
                (Outcome-refuse _ not_in_allowlist
                  (λ f. elim f [ inl (h, _) ↦ n h | inr (_, g, _) ↦ ng g ]))
          | inl (yes_entry, g) ↦ elim (Option-cases (resolve_and_check_cidr net p hostname)) [
            | inl free ↦
                rw (elsewhere, yes_entry, free)
                  (Outcome-allow _ no_reason no_reason []
                    (inr (n, g, (resolve_iff net p hostname).0 free)) (inr (n, refl)))
            | inr (none, unresolved) ↦
                rw (elsewhere, yes_entry, unresolved)
                  (Outcome-refuse _ resolution_failed (λ f. elim f [
                    | inl (h, _) ↦ n h
                    | inr (_, _, q) ↦ cc (unresolved, (resolve_iff net p hostname).1 q)
                  ]))
            | inr (some ip, bad) ↦
                rw (elsewhere, yes_entry, bad)
                  (Outcome-refuse _ (blocked_ip ip) (λ f. elim f [
                    | inl (h, _) ↦ n h
                    | inr (_, _, q) ↦ cc (bad, (resolve_iff net p hostname).1 q)
                  ]))
          ]
        ]

    -- `checkRequest` does not panic; it allows a request exactly if the policy permits it, and its
    -- only other effect is one log entry with the host, the port and the action taken. Here the
    -- allowlist is built from entries and the log has room for a write.
    pub check_request-Outcome :
        Outcome net p hostname port
          (Permits net p entries hostname port)
          (check_request net p hostname port)
    check_request-Outcome =
        elim (Bool-cases (text_eq hostname host_vibepit && not (is_empty p.host_gateway))) [
          | inl h ↦ unfold check_request in rw h (host-Outcome (ForHost-of_test p hostname h))
          | inr n ↦ other-Outcome (λ f. cc (n, ForHost-test p hostname f))
        ]
