-- ===== src/Proxy/Http/Handlers.antt =====
-- Both handlers follow the decision of the filter (proxy/http.go).
use vibepit.Prelude.{
  ◌≡◌, ◌↔◌, ◌⊎◌, refl, ap, subst, ◌∙◌, some, Option, List, [], ◌∷◌, Text, codes, is_empty, and_then,
  ok, inl, inr, Bool-cases, false, to_lower, contains_byte, ◌||◌, if◌then◌else◌,
}
use vibepit.Proxy.Allowlist.{new_http_allowlist}
use vibepit.Proxy.LogBuffer.{Action, allow, block, IsReady}
use vibepit.Proxy.Http.{
  HttpProxy, Net, Reason, split_host_port, join_host_port, ConnectReply, ok_connect, connect_reply,
  handle_connect, RequestReply, forward, request_reply, handle_request,
}
use vibepit.Proxy.Http.Authority.{Names, port_or, split_host_port-Names}
use vibepit.Proxy.Http.Filter.{ForHost, IsRewrite, Permits, check_request-Outcome}

-- Where a request goes: one for host.vibepit to the gateway with its port, any other where it asks to.
abbrev pub IsTarget : HttpProxy → Text → Text → Text → Text → Type 0
IsTarget p hostport hostname port target =
    (ForHost p hostname × (target ≡ join_host_port p.host_gateway port))
    ⊎ ((¬ ForHost p hostname) × (target ≡ hostport))

-- The tunnel is opened; the request is passed on.
abbrev pub Opens : HttpProxy → Text → Text → Text → ConnectReply → Type 0
Opens p hostport hostname port r =
    (target : Text) × IsTarget p hostport hostname port target × (r ≡ ok_connect target)

abbrev pub Passes : HttpProxy → Text → Text → Text → RequestReply → Type 0
Passes p hostport hostname port r =
    (target : Text) × IsTarget p hostport hostname port target × (r ≡ forward target)

-- the target of a rewrite
picked : Text → Text → Text
picked hostport rewrite = if is_empty rewrite then hostport else rewrite

joined_seen : (host port : Text) → is_empty (join_host_port host port) ≡ false
unfolding join_host_port is_empty contains_byte
joined_seen [] port = refl
joined_seen (c ∷ host) port =
    elim (Bool-cases (contains_byte b':' (c ∷ host) || contains_byte b'%' (c ∷ host))) [
      | inl e ↦ rw e refl
      | inr e ↦ rw e refl
    ]

picked-IsTarget :
    (p : HttpProxy) (hostport hostname port rewrite : Text)
    → IsRewrite p hostname port rewrite
    → IsTarget p hostport hostname port (picked hostport rewrite)
unfolding picked is_empty
picked-IsTarget p hostport hostname port rewrite w = elim w [
  | inl (h, e) ↦ let seen = ap is_empty e ∙ joined_seen p.host_gateway port in inl (h, rw seen e)
  | inr (n, e) ↦ inr (n, rw e refl)
]

connect_reply_allow :
    (hostport : Text) (why : Reason) (rewrite : Text)
    → connect_reply hostport (record { action = allow; reason = why; rewrite = rewrite })
      ≡ ok_connect (picked hostport rewrite)
unfolding connect_reply picked
connect_reply_allow hostport why rewrite = elim (Bool-cases (is_empty rewrite)) [
  | inl e ↦ rw e refl
  | inr e ↦ rw e refl
]

request_reply_allow :
    (hostport hostname : Text) (why : Reason) (rewrite : Text)
    → request_reply hostport hostname (record { action = allow; reason = why; rewrite = rewrite })
      ≡ forward (picked hostport rewrite)
unfolding request_reply picked
request_reply_allow hostport hostname why rewrite = elim (Bool-cases (is_empty rewrite)) [
  | inl e ↦ rw e refl
  | inr e ↦ rw e refl
]

refused :
    (hostport hostname : Text) (why : Reason) (rewrite target : Text)
    → (request_reply hostport hostname (record { action = block; reason = why; rewrite = rewrite })
        ≡ forward target)
    → ⊥
unfolding request_reply
refused hostport hostname Reason.no_reason rewrite target h = cc
refused hostport hostname Reason.not_in_allowlist rewrite target h = cc
refused hostport hostname Reason.resolution_failed rewrite target h = cc
refused hostport hostname Reason.host_vibepit_reason rewrite target h = cc
refused hostport hostname (Reason.blocked_ip ip) rewrite target h = cc

module _ (p : HttpProxy) (hostport hostname port : Text) where
  connect-Opens :
      (a : Action) (why : Reason) (rewrite : Text)
      → (a ≡ allow → IsRewrite p hostname port rewrite)
      → Opens p hostport hostname port
          (connect_reply hostport (record { action = a; reason = why; rewrite = rewrite }))
        ↔ (a ≡ allow)
  connect-Opens allow why rewrite w = (
    λ h. refl,
    λ h. (
      picked hostport rewrite,
      picked-IsTarget p hostport hostname port rewrite (w refl),
      connect_reply_allow hostport why rewrite,
    ),
  )
  connect-Opens block why rewrite w = unfold connect_reply in (λ h. cc (h.2), λ h. absurd cc)

  request-Passes :
      (a : Action) (why : Reason) (rewrite : Text)
      → (a ≡ allow → IsRewrite p hostname port rewrite)
      → Passes p hostport hostname port
          (request_reply hostport hostname (record { action = a; reason = why; rewrite = rewrite }))
        ↔ (a ≡ allow)
  request-Passes allow why rewrite w = (
    λ h. refl,
    λ h. (
      picked hostport rewrite,
      picked-IsTarget p hostport hostname port rewrite (w refl),
      request_reply_allow hostport hostname why rewrite,
    ),
  )
  request-Passes block why rewrite w =
      (λ h. absurd (refused hostport hostname why rewrite h.0 h.2), λ h. absurd cc)

module _ (net : Net) (p : HttpProxy) (hostport : Text) (ready : IsReady p.log) (entries : List Text)
    (built : new_http_allowlist entries ≡ ok p.allowlist) where
  connects :
      let (hostname, port) = split_host_port hostport (codes "443") in
      (q : HttpProxy) × (r : ConnectReply) × (handle_connect net p hostport ≡ some (q, r))
      × (Opens p hostport hostname port r ↔ Permits net p entries hostname port)
  unfolding handle_connect
  connects =
      let (hostname, port) = split_host_port hostport (codes "443") in
      let o = check_request-Outcome net p hostname port ready entries built in
      let r = o.result in
      let opens = connect-Opens p hostport hostname port r.action r.reason r.rewrite o.rewritten in
      (
        o.after,
        connect_reply hostport r,
        ap (λ m. and_then m (λ x. some (x.0, connect_reply hostport x.1))) o.decided,
        (λ h. o.allowed_iff.0 (opens.0 h), λ h. opens.1 (o.allowed_iff.1 h)),
      )

  requests :
      let (hostname, port) = split_host_port hostport (codes "80") in
      (q : HttpProxy) × (r : RequestReply) × (handle_request net p hostport ≡ some (q, r))
      × (Passes p hostport hostname port r ↔ Permits net p entries hostname port)
  unfolding handle_request
  requests =
      let (hostname, port) = split_host_port hostport (codes "80") in
      let o = check_request-Outcome net p hostname port ready entries built in
      let r = o.result in
      let passes =
        request-Passes p hostport hostname port r.action r.reason r.rewrite o.rewritten in
      (
        o.after,
        request_reply hostport hostname r,
        ap (λ m. and_then m (λ x. some (x.0, request_reply hostport hostname x.1))) o.decided,
        (λ h. o.allowed_iff.0 (passes.0 h), λ h. passes.1 (o.allowed_iff.1 h)),
      )

  -- Neither handler panics. For a request that names a host, alone, with a port, as an address in
  -- brackets with a port or as one without brackets: the CONNECT handler opens a tunnel exactly if the
  -- policy permits the host in lower case with its port, or with 443 where it names none; the handler
  -- of plain requests passes one on exactly if the policy permits them, with 80 for a missing port. The
  -- tunnel and the request go where the request asks to, those for host.vibepit to the gateway with
  -- the port. Here the allowlist is built from entries and the log has room for a write.
  pub handlers-Permits :
      (host : Text) (port : Option Text)
      → Names hostport host port
      → ((q : HttpProxy) × (r : ConnectReply) × (handle_connect net p hostport ≡ some (q, r))
          × (Opens p hostport (to_lower host) (port_or (codes "443") port) r
              ↔ Permits net p entries (to_lower host) (port_or (codes "443") port)))
        × ((q : HttpProxy) × (r : RequestReply) × (handle_request net p hostport ≡ some (q, r))
            × (Passes p hostport (to_lower host) (port_or (codes "80") port) r
                ↔ Permits net p entries (to_lower host) (port_or (codes "80") port)))
  handlers-Permits host port n =
      let (q, r, e, d) = connects in
      let (q', r', e', d') = requests in
      (
        (
          q,
          r,
          e,
          subst (λ hp. Opens p hostport hp.0 hp.1 r ↔ Permits net p entries hp.0 hp.1)
              (split_host_port-Names (codes "443") n) d,
        ),
        (
          q',
          r',
          e',
          subst (λ hp. Passes p hostport hp.0 hp.1 r' ↔ Permits net p entries hp.0 hp.1)
              (split_host_port-Names (codes "80") n) d',
        ),
      )
