-- ===== src/Config/Setup/Append.antt =====
-- config/setup.go: entries are appended to a list of the configuration file, in place where the list is
-- in block style, commented out or missing, and else by the encoder of the package yaml.v3.
use vibepit.Prelude.{
  ℕ, suc, ◌+◌, Bool, false, ◌&&◌, ◌||◌, Option, none, some, List, [], ◌∷◌, ◌++◌, map, Text, codes,
  Result, ok, err, ◌>>=◌, take, drop, ◌==◌, leb, if◌then◌else◌, split, text_eq, is_empty,
}
use vibepit.Config.{ProjectConfig}
use vibepit.Prelude.Lines.{
  newline, has_prefix, has_suffix, trim_left, trim_space, is_blank, concat, join,
}
use vibepit.Config.Setup.{
  Kind, Node, Nodes, SetupError, document_node, sequence_node, mapping_node, scalar_node,
  alias_node, node, no_nodes, cons_node, kind, tag, value, line, content, is_scalar, no_style,
  read_error, parse_error, encode_error, expected_mapping, unknown_section, expected_list, item,
  insert_after_key_line, append_to_existing,
}
use vibepit.Proxy.Presets.{has}

-- the text after `#` and its blanks, `none` where the line is no comment
unfoldable pub comment_text : Text → Option Text
comment_text l =
    let trimmed = trim_space l in
    if has_prefix trimmed (codes "#") then some (trim_left is_blank (drop 1 trimmed)) else none

-- `isCommentedYAMLSectionHeader`
unfoldable pub is_commented_header : Text → Text → Bool
is_commented_header key l = elim (comment_text l) [
  | none ↦ false
  | some rest ↦ text_eq rest (key ++ codes ":")
]

-- `isCommentedYAMLListEntry`
unfoldable pub is_commented_entry : Text → Bool
is_commented_entry l = elim (comment_text l) [
  | none ↦ false
  | some rest ↦ text_eq rest (codes "-") || has_prefix rest (codes "- ")
]

-- the search for the header, by its index
unfoldable pub find_header : Text → List Text → Option ℕ
find_header key [] = none
find_header key (l ∷ ls) =
    let rest : Option ℕ = elim (find_header key ls) [ none ↦ none | some i ↦ some (suc i) ] in
    if is_commented_header key l then some 0 else rest

-- the number of lines in the run of commented entries
unfoldable pub entry_run : List Text → ℕ
entry_run [] = 0
entry_run (l ∷ ls) = let rest = entry_run ls in if is_commented_entry l then suc rest else 0

-- `findYAMLMappingPair`
unfoldable pub find_pair : Text → Nodes → Option (Node × Node)
find_pair key no_nodes = none
find_pair key (cons_node k no_nodes) = none
find_pair key (cons_node k (cons_node v rest)) =
    let more = find_pair key rest in
    if is_scalar (kind k) && text_eq (value k) key then some (k, v) else more

-- the write through the pointer that `findYAMLMappingPair` gave
unfoldable pub put_value : Text → Node → Nodes → Nodes
put_value key w no_nodes = no_nodes
put_value key w (cons_node k no_nodes) = cons_node k no_nodes
put_value key w (cons_node k (cons_node v rest)) =
    let more = put_value key w rest in
    if is_scalar (kind k) && text_eq (value k) key
    then cons_node k (cons_node w rest)
    else cons_node k (cons_node v more)

abbrev pub with_content : Node → Nodes → Node
with_content (node k s t v l c) d = node k s t v l d

-- the document with another root
unfoldable pub with_root : Node → Nodes → Node → Node
with_root doc no_nodes root = with_content doc (cons_node root no_nodes)
with_root doc (cons_node old rest) root = with_content doc (cons_node root rest)

abbrev pub empty_map : Node
empty_map = node mapping_node no_style (codes "!!map") [] 0 no_nodes

unfoldable pub root_of : Node → Nodes → Result SetupError (Node × Node)
root_of doc no_nodes = ok (with_content doc (cons_node empty_map no_nodes), empty_map)
root_of doc (cons_node root rest) = elim (kind root) [
  | mapping_node ↦ ok (doc, root)
  | _ ↦ err expected_mapping
]

-- the newlines between the file and a new section
unfoldable pub gap : Text → Text
gap [] = []
gap (c ∷ s) =
    (if has_suffix (c ∷ s) (newline ∷ []) then [] else newline ∷ [])
    ++ (if has_suffix (c ∷ s) (newline ∷ newline ∷ []) then [] else newline ∷ [])

unfoldable pub new_entries : List Text → List Text → List Text
new_entries existing [] = []
new_entries existing (d ∷ ds) =
    let known = new_entries existing ds in
    let fresh = new_entries (d ∷ existing) ds in if has d existing then known else d ∷ fresh

unfoldable pub current_entries : Text → ProjectConfig → Result SetupError (List Text)
current_entries key cfg =
    if text_eq key (codes "allow-http")
    then ok cfg.allow_http
    else if text_eq key (codes "allow-dns")
    then ok cfg.allow_dns
    else err (unknown_section key)

module _ (quote : Text → Text) where
  -- `replaceCommentedYAMLListSection`, from the lines
  unfoldable pub replace_lines : List Text → Text → List Text → Option Text
  replace_lines lines key added = elim (find_header key lines) [
    | none ↦ none
    | some header ↦ some (
        join (newline ∷ []) (
          take header lines
          ++ ((key ++ codes ":") ∷ map (item quote (codes "  ")) added)
          ++ drop (suc header + entry_run (drop (suc header) lines)) lines))
  ]

  unfoldable pub replace_commented : Text → Text → List Text → Option Text
  replace_commented text key added = replace_lines (split newline text) key added

  unfoldable pub append_new_section : Text → Text → List Text → Text
  append_new_section text key added =
      text
      ++ gap text
      ++ (key ++ codes ":" ++ newline ∷ [])
      ++ concat (map (λ d. item quote (codes "  ") d ++ newline ∷ []) added)

  unfoldable pub append_missing : Text → Text → List Text → Text
  append_missing text key added = elim (replace_commented text key added) [
    | some out ↦ out
    | none ↦ append_new_section text key added
  ]

unfoldable pub append_nodes : (Text → Node) → Nodes → List Text → Nodes
append_nodes scalar no_nodes [] = no_nodes
append_nodes scalar no_nodes (d ∷ ds) = cons_node (scalar d) (append_nodes scalar no_nodes ds)
append_nodes scalar (cons_node n rest) ds = cons_node n (append_nodes scalar rest ds)

unfoldable pub is_implicit_null : Node → Node → Bool
is_implicit_null k v = is_empty (value v) && line v == line k && leb 1 (line k)

-- What the code calls of the package yaml.v3, and the verb %q: yaml.Unmarshal, an encoder with an indent
-- of 2, and `newYAMLStringScalar`.
pub record Yaml : Type 0 where
  pub unmarshal : Text → Option Node
  pub encode : Node → Option Text
  pub string_scalar : Text → Node
  pub quote : Text → Text

-- the value of the key as a list with more items: a sequence, or a null that becomes one
abbrev pub with_items : (Text → Node) → Node → List Text → Node
with_items scalar v added =
    node (kind v) no_style (tag v) (value v) (line v) (append_nodes scalar (content v) added)

abbrev pub as_list : (Text → Node) → Node → List Text → Node
as_list scalar v added =
    node sequence_node no_style (codes "!!seq") [] (line v) (append_nodes scalar (content v) added)

module _ (yaml : Yaml) where
  -- `parseProjectConfigYAML`
  unfoldable pub parse_project_config : Text → Result SetupError (Node × Node)
  parse_project_config text =
      if is_empty (trim_space text)
      then ok (node document_node no_style [] [] 0 (cons_node empty_map no_nodes), empty_map)
      else elim (yaml.unmarshal text) [
        | none ↦ err parse_error
        | some doc ↦ root_of doc (content doc)
      ]

  unfoldable pub encode_document : Node → Result SetupError Text
  encode_document doc = elim (yaml.encode doc) [ none ↦ err encode_error | some out ↦ ok out ]

  -- the document with `value` at `key` of its root, encoded
  abbrev pub encode_with : Node → Node → Text → Node → Result SetupError Text
  encode_with doc root key value =
      encode_document
        (with_root doc (content doc) (with_content root (put_value key value (content root))))

  -- the case of a sequence
  unfoldable pub append_to_sequence :
      Text → Node → Node → Text → Node → List Text → Result SetupError Text
  append_to_sequence text doc root key v added = elim (append_to_existing yaml.quote text v added) [
    | some out ↦ ok out
    | none ↦ encode_with doc root key (with_items yaml.string_scalar v added)
  ]

  -- the case of a null
  unfoldable pub append_to_null :
      Text → Node → Node → Text → Node → Node → List Text → Result SetupError Text
  append_to_null text doc root key k v added =
      let again = encode_with doc root key (as_list yaml.string_scalar v added) in
      if is_implicit_null k v
      then elim (insert_after_key_line yaml.quote text (line k) added) [
        | some out ↦ ok out
        | none ↦ again
      ]
      else again

  unfoldable pub append_to_value :
      Kind → Text → Node → Node → Text → Node → Node → List Text → Result SetupError Text
  append_to_value sequence_node text doc root key k v added =
      append_to_sequence text doc root key v added
  append_to_value scalar_node text doc root key k v added =
      if text_eq (tag v) (codes "!!null")
      then append_to_null text doc root key k v added
      else err (expected_list key)
  append_to_value document_node text doc root key k v added = err (expected_list key)
  append_to_value mapping_node text doc root key k v added = err (expected_list key)
  append_to_value alias_node text doc root key k v added = err (expected_list key)

  -- `appendYAMLListEntries`
  unfoldable pub append_list_entries : Text → Text → List Text → Result SetupError Text
  append_list_entries text key added = parse_project_config text >>= λ parsed.
      elim (find_pair key (content parsed.1)) [
        | none ↦ ok (append_missing yaml.quote text key added)
        | some (k, v) ↦ append_to_value (kind v) text parsed.0 parsed.1 key k v added
      ]

  -- `appendAllowEntries` from the test for new entries on; `none` for the file where there is none,
  -- and for the answer where nothing is written
  unfoldable pub write_added : Option Text → Text → List Text → Result SetupError (Option Text)
  write_added file key [] = ok none
  write_added none key (d ∷ ds) = err read_error
  write_added (some text) key (d ∷ ds) =
      append_list_entries text key (d ∷ ds) >>= λ out. ok (some out)

  -- `appendAllowEntries`, from the configuration that `loadFile` gives and the bytes of the file
  unfoldable pub append_allow_entries :
      Result SetupError ProjectConfig
      → Option Text
      → Text
      → List Text
      → Result SetupError (Option Text)
  append_allow_entries loaded file key entries = loaded >>= λ cfg.
      current_entries key cfg >>= λ current. write_added file key (new_entries current entries)
