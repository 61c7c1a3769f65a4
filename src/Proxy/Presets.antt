-- ===== src/Proxy/Presets.antt =====
-- proxy/presets.go: the registry of presets, and the expansion of preset names to domains.
pub mod Domains
pub mod Growth
pub mod Expansion
use vibepit.Prelude.{
  ℕ, zero, suc, Bool, true, false, Option, none, some, List, [], ◌∷◌, ◌++◌, Text, text_eq, length,
  if◌then◌else◌, and_then,
}

-- The fields that the expansion reads.
pub record Preset : Type 0 where
  pub name : Text
  pub domains : List Text
  pub includes : List Text

unfoldable pub has : Text → List Text → Bool
has x [] = false
has x (y ∷ ys) = if text_eq y x then true else has x ys

-- `Get`: the index keeps the last preset of a name
unfoldable pub get : List Preset → Text → Option Preset
get [] name = none
get (p ∷ ps) name = elim (get ps name) [
  | some q ↦ some q
  | none ↦ if text_eq p.name name then some p else none
]

-- The sets `visited` and `seen` with the list of domains: what is seen is what is in the list.
pub record Search : Type 0 where
  pub visited : List Text
  pub domains : List Text

abbrev pub visit : Text → Search → Search
visit name st = record st { visited = name ∷ st.visited }

-- the loop over the domains of a preset
unfoldable pub add_domains : List Text → List Text → List Text
add_domains [] found = found
add_domains (d ∷ ds) found = add_domains ds (if has d found then found else found ++ d ∷ [])

unfoldable pub each : (Text → Search → Option Search) → List Text → Search → Option Search
each f [] st = some st
each f (name ∷ names) st = and_then (f name st) (each f names)

-- the case of a name that is new, by its preset
unfoldable pub expand_new :
    (Text → Search → Option Search) → Option Preset → Text → Search → Option Search
expand_new f none name st = some (visit name st)
expand_new f (some p) name st =
    and_then (each f p.includes (visit name st))
      λ found. some (record found { domains = add_domains p.domains found.domains })

-- the recursive function `expand`; `none` means that the fuel is used up
unfoldable pub expand_name : List Preset → ℕ → Text → Search → Option Search
expand_name presets zero name st = none
expand_name presets (suc fuel) name st = elim (has name st.visited) [
  | true ↦ some st
  | false ↦ expand_new (expand_name presets fuel) (get presets name) name st
]

-- `Expand`; the fuel is one more than the number of presets
unfoldable pub expand : List Preset → List Text → Option Search
expand presets names =
    each (expand_name presets (suc (length presets))) names (record { visited = []; domains = [] })
