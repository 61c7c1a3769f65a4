-- ===== src/Samples/Presets.antt =====
-- A run of the expansion of presets (proxy/presets.go).
use vibepit.Prelude.{◌≡◌, ◌↔◌, refl, true, some, List, [], ◌∷◌, Text, codes, text_eq}
use vibepit.Proxy.Presets.{
  Preset, Search, has, get, expand, expand_name, expand_new, each, add_domains,
}
use vibepit.Proxy.Presets.Domains.{IsDistinct}
use vibepit.Proxy.Presets.Growth.{Source}
use vibepit.Proxy.Presets.Expansion.{IsIncluded, expand-IsIncluded}

-- Two presets that include each other and share a domain.
abbrev cyclic : List Preset
cyclic =
    record {
      name = codes "a";
      domains = codes "x.org" ∷ codes "y.org" ∷ [];
      includes = codes "b" ∷ codes "missing" ∷ [];
    }
    ∷ record {
      name = codes "b";
      domains = codes "y.org" ∷ codes "z.org" ∷ [];
      includes = codes "a" ∷ [];
    }
    ∷ []

abbrev asked : List Text
asked = codes "a" ∷ []

expand-IsIncluded_example :
    (found : Search) × (expand cyclic asked ≡ some found)
    × IsDistinct found.domains
    × ((d : Text) → (has d found.domains ≡ true) ↔ Source cyclic (IsIncluded cyclic asked) d)
expand-IsIncluded_example = expand-IsIncluded cyclic asked

cyclic-expand :
    expand cyclic asked
    ≡ some (record {
      visited = codes "missing" ∷ codes "b" ∷ codes "a" ∷ [];
      domains = codes "y.org" ∷ codes "z.org" ∷ codes "x.org" ∷ [];
    })
unfolding expand expand_name expand_new each get has add_domains text_eq
cyclic-expand = refl
