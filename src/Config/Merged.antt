-- ===== src/Config/Merged.antt =====
-- What the merged configuration allows (config/config.go).
use vibepit.Prelude.{
  ◌≡◌, ◌⊎◌, ◌↔◌, inl, inr, refl, true, some, List, [], ◌++◌, Text, Result, ok, err, Result-cases,
  arith,
}
use vibepit.Proxy.Allowlist.{
  HttpAllowlist, DnsAllowlist, validate_http_entries, validate_dns_entries, new_http_allowlist,
  new_dns_allowlist,
}
use vibepit.Proxy.Presets.{Preset, has, add_domains}
use vibepit.Proxy.Presets.Domains.{IsDistinct, add_domains-Adds}
use vibepit.Proxy.Presets.Growth.{Source}
use vibepit.Proxy.Presets.Expansion.{IsIncluded, expand-IsIncluded}
use vibepit.Config.{
  Config, MergeError, MergedConfig, dedup_into, http_entries, dns_entries, merge_valid, merge,
}

add_domains_iff :
    (x : Text) (ds found : List Text)
    → (has x (add_domains ds found) ≡ true) ↔ ((has x found ≡ true) ⊎ (has x ds ≡ true))
add_domains_iff x ds found =
    let a = add_domains-Adds ds found in
    (a.only x, λ h. elim h [ inl old ↦ a.kept x old | inr new ↦ a.added x new ])

-- An entry of the HTTP allowlist: from the global or the project's configuration, from the command
-- line, or a domain of a preset.
abbrev pub IsEntry : Config → List Text → List Text → Text → Type 0
IsEntry c cli domains x =
    (has x c.global.allow_http ≡ true)
    ⊎ (has x c.project.allow_http ≡ true)
    ⊎ (has x cli ≡ true)
    ⊎ (has x domains ≡ true)

http_entries_iff :
    (c : Config) (cli domains : List Text) (x : Text)
    → (has x (http_entries c cli domains) ≡ true) ↔ IsEntry c cli domains x
unfolding http_entries dedup_into has
http_entries_iff c cli domains x =
    let g = add_domains c.global.allow_http [] in
    let p = add_domains c.project.allow_http g in
    let all = add_domains cli p in
    ground (
      arith,
      add_domains_iff x c.global.allow_http [],
      add_domains_iff x c.project.allow_http g,
      add_domains_iff x cli p,
      add_domains_iff x all [],
      add_domains_iff x domains (add_domains all []),
    )

http_entries-IsDistinct :
    (c : Config) (cli domains : List Text) → IsDistinct (http_entries c cli domains)
unfolding http_entries dedup_into
http_entries-IsDistinct c cli domains =
    let all =
      add_domains cli (add_domains c.project.allow_http (add_domains c.global.allow_http [])) in
    (add_domains-Adds domains (add_domains all [])).distinct ((add_domains-Adds all []).distinct tt)

dns_entries_iff :
    (c : Config) (x : Text)
    → (has x (dns_entries c) ≡ true)
      ↔ ((has x c.global.allow_dns ≡ true) ⊎ (has x c.project.allow_dns ≡ true))
unfolding dedup_into has
dns_entries_iff c x =
    let g = add_domains c.global.allow_dns [] in
    ground (arith, add_domains_iff x c.global.allow_dns [], add_domains_iff x c.project.allow_dns g)

dns_entries-IsDistinct : (c : Config) → IsDistinct (dns_entries c)
unfolding dedup_into
dns_entries-IsDistinct c =
    let g = add_domains c.global.allow_dns [] in
    (add_domains-Adds c.project.allow_dns g).distinct
      ((add_domains-Adds c.global.allow_dns []).distinct tt)

-- Both allowlists can be built of the merged entries.
abbrev pub Buildable : List Text → List Text → Type 0
Buildable http dns =
    (al : HttpAllowlist) × (dl : DnsAllowlist) × (new_http_allowlist http ≡ ok al)
    × (new_dns_allowlist dns ≡ ok dl)

-- The merge answers with the lists and the fields of the two configurations, or it refuses lists
-- that the proxy could not build.
abbrev pub Answers : Config → List Text → List Text → Result MergeError MergedConfig → Type 0
Answers c http dns (ok m) =
    (m.allow_http ≡ http)
    × (m.allow_dns ≡ dns)
    × (m.block_cidr ≡ c.global.block_cidr)
    × (m.allow_cidr ≡ c.global.allow_cidr)
    × (m.extra_hosts ≡ c.global.extra_hosts)
    × (m.upstream_dns ≡ c.global.upstream_dns)
    × (m.allow_host_ports ≡ c.project.allow_host_ports)
    × Buildable http dns
Answers c http dns (err e) = ¬ Buildable http dns

valid_result :
    (http dns : List Text) (u v : Unit)
    → validate_http_entries http ≡ ok u
    → validate_dns_entries dns ≡ ok v
    → Buildable http dns
unfolding new_http_allowlist new_dns_allowlist
valid_result http dns u v good fine = rw (good, fine) (_, _, refl, refl)

merge_valid-Answers :
    (c : Config) (http : List Text) → Answers c http (dns_entries c) (merge_valid c http)
unfolding merge_valid new_http_allowlist new_dns_allowlist
merge_valid-Answers c http = elim (Result-cases (validate_http_entries http)) [
  | inl (e, bad) ↦ rw (bad, Answers) (λ h. cc (h.2))
  | inr (u, good) ↦ elim (Result-cases (validate_dns_entries (dns_entries c))) [
    | inl (e, bad) ↦ rw (good, bad, Answers) (λ h. cc (h.3))
    | inr (v, fine) ↦
        rw (good, fine, Answers)
          (
            refl,
            refl,
            refl,
            refl,
            refl,
            refl,
            refl,
            valid_result http (dns_entries c) u v good fine,
          )
  ]
]

-- The merge ends. The HTTP entries are those of the two configurations, of the command line and of
-- the presets that are included, the DNS entries those of the two configurations, each once. If the
-- proxy can build both of its allowlists of the entries, the merge gives the configuration with
-- them, the CIDR ranges, hosts and DNS server of the global configuration and the ports of the
-- project's; if not, it gives an error.
pub merge-Builds :
    (registry : List Preset) (c : Config) (cli presets : List Text)
    → (http : List Text) × (dns : List Text) × (result : Result MergeError MergedConfig) × (merge
          registry c cli presets
        ≡ some result)
      × IsDistinct http
      × ((x : Text)
          → (has x http ≡ true) ↔ (
              (has x c.global.allow_http ≡ true)
              ⊎ (has x c.project.allow_http ≡ true)
              ⊎ (has x cli ≡ true)
              ⊎ Source registry (IsIncluded registry (c.project.presets ++ presets)) x))
      × IsDistinct dns
      × ((x : Text)
          → (has x dns ≡ true)
            ↔ ((has x c.global.allow_dns ≡ true) ⊎ (has x c.project.allow_dns ≡ true)))
      × Answers c http dns result
unfolding merge
merge-Builds registry c cli presets =
    let (found, e, d, s) = expand-IsIncluded registry (c.project.presets ++ presets) in
    let http = http_entries c cli found.domains in
    (
      http,
      dns_entries c,
      merge_valid c http,
      rw e refl,
      http_entries-IsDistinct c cli found.domains,
      λ x.
          let here = http_entries_iff c cli found.domains x in
          (
            λ h. elim (here.0 h) [
              | inl g ↦ inl g
              | inr (inl p) ↦ inr (inl p)
              | inr (inr (inl l)) ↦ inr (inr (inl l))
              | inr (inr (inr q)) ↦ inr (inr (inr ((s x).0 q)))
            ],
            λ h. elim h [
              | inl g ↦ here.1 (inl g)
              | inr (inl p) ↦ here.1 (inr (inl p))
              | inr (inr (inl l)) ↦ here.1 (inr (inr (inl l)))
              | inr (inr (inr q)) ↦ here.1 (inr (inr (inr ((s x).1 q))))
            ],
          ),
      dns_entries-IsDistinct c,
      λ x. dns_entries_iff c x,
      merge_valid-Answers c http,
    )
