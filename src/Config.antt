-- ===== src/Config.antt =====
-- config/config.go: the merge of the configurations into the one that the proxy gets.
pub mod Merged
pub mod Setup
use vibepit.Prelude.{
  ℕ, Option, none, some, List, [], ◌∷◌, ◌++◌, Text, ℤ, Result, ok, err, ◌>>=◌, map_err, and_then,
}
use vibepit.Proxy.Allowlist.{EntryError, validate_http_entries, validate_dns_entries}
use vibepit.Proxy.Presets.{Preset, Search, add_domains, expand}

pub record GlobalConfig : Type 0 where
  pub allow_http : List Text
  pub allow_dns : List Text
  pub block_cidr : List Text
  pub allow_cidr : List Text
  pub extra_hosts : List Text
  pub upstream_dns : Text

pub record ProjectConfig : Type 0 where
  pub presets : List Text
  pub allow_http : List Text
  pub allow_dns : List Text
  pub allow_host_ports : List ℤ

pub record Config : Type 0 where
  pub global : GlobalConfig
  pub project : ProjectConfig

-- The fields that `Merge` sets.
pub record MergedConfig : Type 0 where
  pub allow_http : List Text
  pub allow_dns : List Text
  pub block_cidr : List Text
  pub allow_cidr : List Text
  pub extra_hosts : List Text
  pub upstream_dns : Text
  pub allow_host_ports : List ℤ

pub data MergeError : Type 0 where
  http_error dns_error : EntryError → MergeError

-- the loops of `dedup`, from the entries that are kept so far; the inner one is that over the
-- domains of a preset
unfoldable pub dedup_into : List Text → List (List Text) → List Text
dedup_into kept [] = kept
dedup_into kept (s ∷ slices) = dedup_into (add_domains s kept) slices

abbrev pub dedup : List (List Text) → List Text
dedup slices = dedup_into [] slices

unfoldable pub http_entries : Config → List Text → List Text → List Text
http_entries c cli_allow preset_domains =
    dedup
      (dedup (c.global.allow_http ∷ c.project.allow_http ∷ cli_allow ∷ []) ∷ preset_domains ∷ [])

abbrev pub dns_entries : Config → List Text
dns_entries c = dedup (c.global.allow_dns ∷ c.project.allow_dns ∷ [])

-- `Merge` from its first validation on
unfoldable pub merge_valid : Config → List Text → Result MergeError MergedConfig
merge_valid c http = map_err http_error (validate_http_entries http) >>= λ _.
    map_err dns_error (validate_dns_entries (dns_entries c)) >>= λ _. ok (record {
      allow_http = http;
      allow_dns = dns_entries c;
      block_cidr = c.global.block_cidr;
      allow_cidr = c.global.allow_cidr;
      extra_hosts = c.global.extra_hosts;
      upstream_dns = c.global.upstream_dns;
      allow_host_ports = c.project.allow_host_ports;
    })

-- `Merge`; the outer `none` would be the end of the fuel of the expansion
unfoldable pub merge :
    List Preset → Config → List Text → List Text → Option (Result MergeError MergedConfig)
merge registry c cli_allow cli_presets =
    and_then (expand registry (c.project.presets ++ cli_presets))
      λ found. some (merge_valid c (http_entries c cli_allow found.domains))
