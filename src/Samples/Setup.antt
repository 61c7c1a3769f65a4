-- ===== src/Samples/Setup.antt =====
-- Runs of the edits of the configuration file (config/setup.go).
use vibepit.Prelude.{◌≡◌, refl, none, some, List, [], ◌∷◌, ◌++◌, Text, codes, ok, text_eq, is_empty}
use vibepit.Config.{ProjectConfig}
use vibepit.Config.Setup.{
  Node, node, no_nodes, cons_node, document_node, mapping_node, sequence_node, scalar_node,
  no_style, append_to_existing, append_after_item, last_node, is_plain_item, is_scalar, item,
  format_value, line_ending, with_newline,
}
use vibepit.Config.Setup.Append.{
  Yaml, append_missing, append_allow_entries, current_entries, write_added, new_entries,
  append_list_entries, parse_project_config, root_of, find_pair, append_to_value,
  append_to_sequence,
}
use vibepit.Prelude.Lines.{has_prefix, has_suffix, trim_left, trim_right, split_after, concat}
use vibepit.Proxy.Presets.{has}
use vibepit.Config.Setup.Template.{project_config}
use vibepit.Config.Setup.Template.Rendered.{known-IsLine, every}
use vibepit.Config.Setup.Template.Filled.{http, dns, append_missing-project_config}
use vibepit.Config.Setup.Entries.{Answers, append_allow_entries-Answers}

abbrev scalar : Text → Node
scalar v = node scalar_node no_style (codes "!!str") v 2 no_nodes

-- the nodes of a file with one list of one item on its second line
abbrev document : Node
document = node document_node no_style [] [] 1 (
    cons_node
      (node mapping_node no_style (codes "!!map") [] 1 (
        cons_node (scalar (codes "allow-http")) (
          cons_node
            (node sequence_node no_style (codes "!!seq") [] 2
              (cons_node (scalar (codes "a.org:443")) no_nodes))
            no_nodes)))
      no_nodes)

abbrev yaml : Yaml
yaml = record {
  unmarshal = λ t. some document;
  encode = λ d. none;
  string_scalar = scalar;
  quote = λ t. b'"' ∷ t ++ b'"' ∷ [];
}

abbrev file : Text
file = codes "allow-http:\n  - a.org:443 # the API\n\n# end\n"

abbrev edited : Text
edited = codes "allow-http:\n  - a.org:443 # the API\n  - b.org:443\n  - \"*.c.org:443\"\n\n# end\n"

abbrev loaded : ProjectConfig
loaded = record {
  presets = [];
  allow_http = codes "a.org:443" ∷ [];
  allow_dns = [];
  allow_host_ports = [];
}

abbrev entries : List Text
entries = codes "b.org:443" ∷ codes "a.org:443" ∷ codes "*.c.org:443" ∷ []

appended :
    append_allow_entries yaml (ok loaded) (some file) (codes "allow-http") entries
    ≡ ok (some edited)
unfolding append_allow_entries current_entries write_added new_entries has append_list_entries
    parse_project_config root_of find_pair append_to_value append_to_sequence append_to_existing
    append_after_item last_node is_plain_item is_scalar item format_value line_ending with_newline
    has_prefix has_suffix trim_left trim_right split_after concat text_eq is_empty
appended = refl

append_allow_entries-Answers_example :
    Answers yaml (some file) (codes "allow-http") loaded.allow_http entries (some edited)
append_allow_entries-Answers_example =
    append_allow_entries-Answers yaml loaded (some file) (codes "allow-http") loaded.allow_http
      entries (some edited) (unfold current_entries text_eq in refl) appended

abbrev chosen : List Text
chosen = codes "default" ∷ codes "pkg-go" ∷ []

abbrev web : List Text
web = codes "a.org:443" ∷ []

append_missing-project_config_example :
    (append_missing yaml.quote (project_config yaml.quote chosen web []) dns (codes "b.org" ∷ [])
      ≡ project_config yaml.quote chosen web (codes "b.org" ∷ []))
    × (append_missing yaml.quote (project_config yaml.quote chosen [] web) http (codes "b.org" ∷ [])
        ≡ project_config yaml.quote chosen (codes "b.org" ∷ []) web)
unfolding every format_value has_prefix text_eq
append_missing-project_config_example =
    append_missing-project_config yaml.quote chosen (codes "b.org") [] (known-IsLine chosen refl)
      web (known-IsLine web refl)
