-- ===== src/Proxy/Dns/Filter.antt =====
-- The DNS handler forwards exactly the responses that the policy permits, and logs its decisions.
use vibepit.Prelude.{
  ℕ, ◌≡◌, ◌≢◌, ◌↔◌, inl, inr, refl, false, Option, none, some, List, [], ◌∷◌, Text, codes, arith,
  All, Any, Decides-cases, Bool-cases, Option-cases, ok, lt→ltb, length, subst, sym, ap,
}
use vibepit.Proxy.Allowlist.{new_dns_allowlist, allows_dns}
use vibepit.Proxy.Allowlist.Policy.{GrantsName, allows_dns-Decides}
use vibepit.Proxy.LogBuffer
use vibepit.Proxy.LogBuffer.{LogBuffer, Action, allow, block, added, IsReady}
use vibepit.Proxy.Cidr.{Ip, CidrBlocker, is_blocked}
use vibepit.Proxy.Dns.{
  Question, Rr, a_record, aaaa_record, other_record, Query, Msg, Reply, server_failure, name_error,
  synthetic, forwarded, DnsServer, domain_of, rr_blocked, has_blocked_ip, synthetic_ip, dns_entry,
  answer, check_response, handle_query,
}

-- An address record passes if its address is not blocked.
abbrev pub RrPasses : CidrBlocker → Rr → Type 0
RrPasses cidr (a_record ip) = is_blocked cidr ip ≡ false
RrPasses cidr (aaaa_record ip) = is_blocked cidr ip ≡ false
RrPasses cidr other_record = Unit

has_blocked_ip_iff :
    (cidr : CidrBlocker) (rrs : List Rr)
    → (has_blocked_ip cidr rrs ≡ false) ↔ All (RrPasses cidr) rrs
unfolding has_blocked_ip rr_blocked
has_blocked_ip_iff cidr [] = (λ _. tt, λ _. refl)
has_blocked_ip_iff cidr (a_record ip ∷ rrs) = ground (arith, has_blocked_ip_iff cidr rrs)
has_blocked_ip_iff cidr (aaaa_record ip ∷ rrs) = ground (arith, has_blocked_ip_iff cidr rrs)
has_blocked_ip_iff cidr (other_record ∷ rrs) = ground (arith, has_blocked_ip_iff cidr rrs)

-- What the log is after a reply.
abbrev pub Logged : ℕ → DnsServer → Text → Reply → LogBuffer → Type 0
Logged now s domain server_failure log = log ≡ s.log
Logged now s domain name_error log =
    (reason : Text) × (log ≡ added s.log (dns_entry now domain block reason))
Logged now s domain (synthetic n t ip) log = log ≡ added s.log (dns_entry now domain allow [])
Logged now s domain (forwarded m) log = log ≡ added s.log (dns_entry now domain allow [])

-- The handler ended with a reply; the log fits the reply, and nothing else has changed.
pub record DnsOutcome (now : ℕ) (s : DnsServer) (domain : Text) (G : Msg → Type 0)
    (m : Option (DnsServer × Reply)) : Type 0 where
  pub log : LogBuffer
  pub reply : Reply
  pub decided : m ≡ some (record s { log = log }, reply)
  pub logged : Logged now s domain reply log
  pub forwarded_iff : (r : Msg) → (reply ≡ forwarded r) ↔ G r

module _ (now : ℕ) (s : DnsServer) (domain : Text) (ready : IsReady s.log) where
  answer-some :
      (a : Action) (reason : Text) (reply : Reply)
      → answer now s domain a reason reply
        ≡ some (record s { log = added s.log (dns_entry now domain a reason) }, reply)
  unfolding answer LogBuffer.add
  answer-some a reason reply = rw (lt→ltb s.log.pos (length s.log.entries) ready)

  DnsOutcome-block :
      (G : Msg → Type 0) (reason : Text)
      → ((r : Msg) → ¬ G r)
      → DnsOutcome now s domain G (answer now s domain block reason name_error)
  DnsOutcome-block G reason n = record {
    log = added s.log (dns_entry now domain block reason);
    reply = name_error;
    decided = answer-some block reason name_error;
    logged = (reason, refl);
    forwarded_iff = λ r. (λ e. cc, λ g. absurd (n r g));
  }

  DnsOutcome-failure :
      (G : Msg → Type 0)
      → ((r : Msg) → ¬ G r)
      → DnsOutcome now s domain G (some (s, server_failure))
  DnsOutcome-failure G n = record {
    log = s.log;
    reply = server_failure;
    decided = refl;
    logged = refl;
    forwarded_iff = λ r. (λ e. cc, λ g. absurd (n r g));
  }

  DnsOutcome-synthetic :
      (G : Msg → Type 0) (name : Text) (ip : Ip)
      → ((r : Msg) → ¬ G r)
      → DnsOutcome now s domain G (answer now s domain allow [] (synthetic name 60 ip))
  DnsOutcome-synthetic G name ip n = record {
    log = added s.log (dns_entry now domain allow []);
    reply = synthetic name 60 ip;
    decided = answer-some allow [] (synthetic name 60 ip);
    logged = refl;
    forwarded_iff = λ r. (λ e. cc, λ g. absurd (n r g));
  }

  response-DnsOutcome :
      (G : Msg → Type 0) (response : Option Msg)
      → ((r : Msg) → G r ↔ ((response ≡ some r) × All (RrPasses s.cidr) r.answers))
      → DnsOutcome now s domain G (check_response now s domain response)
  unfolding check_response
  response-DnsOutcome G none e = DnsOutcome-failure G (λ r g. cc ((e r).0 g).0)
  response-DnsOutcome G (some m) e = elim (Bool-cases (has_blocked_ip s.cidr m.answers)) [
    | inl bad ↦ rw bad (
        DnsOutcome-block G (codes "resolved IP in blocked CIDR range") (λ r g.
          let (same, all) = (e r).0 g in
          let eq : m ≡ r = cc same in
          cc (
            bad,
            (has_blocked_ip_iff s.cidr m.answers).1
                (subst (λ x. All (RrPasses s.cidr) x.answers) (sym eq) all),
          )))
    | inr good ↦ rw good (record {
      log = added s.log (dns_entry now domain allow []);
      reply = forwarded m;
      decided = answer-some allow [] (forwarded m);
      logged = refl;
      forwarded_iff = λ r. (
        λ f.
            let eq : m ≡ r = cc f in
            (e r).1 (
              ap some eq,
              subst (λ x. All (RrPasses s.cidr) x.answers) eq
                  ((has_blocked_ip_iff s.cidr m.answers).0 good),
            ),
        λ g. let eq : m ≡ r = cc ((e r).0 g).0 in ap forwarded eq,
      );
    })
  ]

-- A response may be forwarded: the question is not answered by the proxy itself, some entry grants
-- its name, the response came from the upstream, and no address in it is blocked.
abbrev pub Forwards : (Query → Option Msg) → DnsServer → List Text → Query → Question → Msg → Type 0
Forwards exchange s entries r q m =
    (synthetic_ip s q ≡ none)
    × ((domain_of q ≢ []) × Any (λ e. GrantsName e (domain_of q)) entries)
    × (exchange r ≡ some m)
    × All (RrPasses s.cidr) m.answers

module _ (exchange : Query → Option Msg) (now : ℕ) (s : DnsServer) (entries : List Text)
    (q : Question) (qs : List Question) (ready : IsReady s.log)
    (built : new_dns_allowlist entries ≡ ok s.allowlist) where
  abbrev asked : Query
  asked = record { questions = q ∷ qs }

  abbrev GrantedName : Type 0
  GrantedName = (domain_of q ≢ []) × Any (λ e. GrantsName e (domain_of q)) entries

  own-DnsOutcome :
      (G : Msg → Type 0) (ip : Ip)
      → synthetic_ip s q ≡ some ip
      → ((m : Msg) → ¬ G m)
      → DnsOutcome now s (domain_of q) G (handle_query exchange now s asked)
  unfolding handle_query
  own-DnsOutcome G ip own n =
      rw (own, handle_query) (DnsOutcome-synthetic now s (domain_of q) ready G q.name ip n)

  asks-DnsOutcome :
      (G : Msg → Type 0)
      → synthetic_ip s q ≡ none
      → ((m : Msg)
          → G m ↔ (GrantedName × ((exchange asked ≡ some m) × All (RrPasses s.cidr) m.answers)))
      → DnsOutcome now s (domain_of q) G (handle_query exchange now s asked)
  unfolding handle_query
  asks-DnsOutcome G asks e =
      elim (Decides-cases GrantedName (allows_dns s.allowlist (domain_of q))
        (allows_dns-Decides entries s.allowlist (domain_of q) built)) [
          | inl (found, g) ↦
              rw (asks, found, handle_query)
                (response-DnsOutcome now s (domain_of q) ready G (exchange asked)
                  (λ m. (λ x. ((e m).0 x).1, λ x. (e m).1 (g, x))))
          | inr (missing, ng) ↦
              rw (asks, missing, handle_query)
                (DnsOutcome-block now s (domain_of q) ready G (codes "domain not in allowlist")
                  (λ m x. ng ((e m).0 x).0))
        ]

  -- The handler does not panic on a query with a question; it forwards a response exactly if the
  -- policy permits it, and it logs one entry, allowed or blocked as it replies, but none when it
  -- fails. Here the allowlist is built from entries and the log has room for a write.
  pub handle_query-DnsOutcome :
      DnsOutcome now s
        (domain_of q)
        (Forwards exchange s entries asked q)
        (handle_query exchange now s asked)
  handle_query-DnsOutcome = elim (Option-cases (synthetic_ip s q)) [
    | inr (ip, own) ↦ own-DnsOutcome _ ip own (λ m x. cc (own, x.0))
    | inl asks ↦
        asks-DnsOutcome _ asks (λ m. (λ x. (x.1, (x.2, x.3)), λ x. (asks, x.0, x.1.0, x.1.1)))
  ]
