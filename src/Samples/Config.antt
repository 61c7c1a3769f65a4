-- ===== src/Samples/Config.antt =====
-- A run of the merge of configurations (config/config.go).
use vibepit.Prelude.{Result, ◌≡◌, ◌⊎◌, ◌↔◌, true, some, List, [], ◌∷◌, ◌++◌, Text, codes}
use vibepit.Proxy.Presets.{Preset, has}
use vibepit.Proxy.Presets.Domains.{IsDistinct}
use vibepit.Proxy.Presets.Growth.{Source}
use vibepit.Proxy.Presets.Expansion.{IsIncluded}
use vibepit.Config.{Config, MergeError, MergedConfig, merge}
use vibepit.Config.Merged.{Answers, merge-Builds}

abbrev registry : List Preset
registry = record { name = codes "go"; domains = codes "go.dev:443" ∷ []; includes = [] } ∷ []

abbrev config : Config
config = record {
  global = record {
    allow_http = codes "a.org:443" ∷ [];
    allow_dns = codes "a.org" ∷ [];
    block_cidr = [];
    allow_cidr = [];
    extra_hosts = [];
    upstream_dns = [];
  };
  project = record {
    presets = codes "go" ∷ [];
    allow_http = codes "a.org:443" ∷ [];
    allow_dns = [];
    allow_host_ports = [];
  };
}

abbrev on_command_line : List Text
on_command_line = codes "b.org:80" ∷ []

merge-Builds_example :
    (http : List Text) × (dns : List Text) × (result : Result MergeError MergedConfig) × (merge
        registry config on_command_line []
      ≡ some result)
    × IsDistinct http
    × ((x : Text)
        → (has x http ≡ true) ↔ (
            (has x config.global.allow_http ≡ true)
            ⊎ (has x config.project.allow_http ≡ true)
            ⊎ (has x on_command_line ≡ true)
            ⊎ Source registry (IsIncluded registry (config.project.presets ++ [])) x))
    × IsDistinct dns
    × ((x : Text)
        → (has x dns ≡ true)
          ↔ ((has x config.global.allow_dns ≡ true) ⊎ (has x config.project.allow_dns ≡ true)))
    × Answers config http dns result
merge-Builds_example = merge-Builds registry config on_command_line []
