-- ===== src/Config/Setup/Template.antt =====
-- config/setup.go: the configuration file that the setup writes.
pub mod Rendered
pub mod Filled
use vibepit.Prelude.{ℕ, List, [], ◌∷◌, ◌++◌, map, Text, codes}
use vibepit.Prelude.Lines.{newline, concat}
use vibepit.Config.Setup.{format_value}

-- `writeConfigHeader`
unfoldable pub config_header : Text
config_header =
    codes "# Vibepit network config for this project.\n"
    ++ codes "# All internet access from the sandbox container is filtered through\n"
    ++ codes "# a proxy that only allows domains listed here.\n"
    ++ codes "#\n"
    ++ codes "# Docs: https://github.com/bernd/vibepit\n\n"

-- the lines of `items` after `prefix`
abbrev pub item_lines : Text → List Text → Text
item_lines prefix items = concat (map (λ d. prefix ++ d ++ newline ∷ []) items)

unfoldable pub presets_list : List Text → Text
presets_list [] = codes "# presets:\n" ++ codes "#   - default\n" ++ codes "#   - pkg-go\n"
presets_list (p ∷ ps) = codes "presets:\n" ++ item_lines (codes "  - ") (p ∷ ps)

-- `writePresetsSection`
unfoldable pub presets_section : List Text → Text
presets_section presets =
    codes "# Presets bundle common domains for a language ecosystem.\n"
    ++ codes "# Use 'vibepit --reconfigure' to change presets interactively.\n"
    ++ codes "# Available: default, anthropic, vcs-github, vcs-other, containers,\n"
    ++ codes "# cloud, pkg-node, pkg-python, pkg-ruby, pkg-rust, pkg-go, pkg-jvm,\n"
    ++ codes "# pkg-others, linux-distros, devtools, monitoring, cdn, schema, mcp\n"
    ++ presets_list presets

unfoldable pub http_comment : Text
http_comment = codes "# Additional domains to allow HTTP access for this project."

unfoldable pub dns_comment : Text
dns_comment = codes "# Domains that only need DNS resolution (no HTTP proxy)."

abbrev pub http_examples : List Text
http_examples = codes "api.openai.com:443" ∷ codes "api.anthropic.com:443" ∷ []

abbrev pub dns_examples : List Text
dns_examples = codes "internal.corp.example.com" ∷ []

module _ (quote : Text → Text) where
  unfoldable pub list_entries : Text → List Text → List Text → Text
  list_entries key [] examples =
      codes "# " ++ key ++ codes ":\n" ++ item_lines (codes "#   - ") examples
  list_entries key (d ∷ ds) examples =
      key ++ codes ":\n" ++ item_lines (codes "  - ") (map (format_value quote) (d ∷ ds))

  -- `writeYAMLListSection`
  unfoldable pub list_section : Text → Text → List Text → List Text → Text
  list_section comment key entries examples =
      newline ∷ (comment ++ newline ∷ []) ++ list_entries key entries examples

  -- the file of `writeReconfiguredProjectConfig`
  unfoldable pub project_config : List Text → List Text → List Text → Text
  project_config presets allow_http allow_dns =
      config_header
      ++ presets_section presets
      ++ list_section http_comment (codes "allow-http") allow_http http_examples
      ++ list_section dns_comment (codes "allow-dns") allow_dns dns_examples
