-- ===== src/Config/Setup.antt =====
-- config/setup.go: the edits of the project's configuration file that keep its comments.
pub mod Append
pub mod Kept
pub mod Headers
pub mod Pairs
pub mod Places
pub mod Edits
pub mod Added
pub mod Entries
pub mod Template
use vibepit.Prelude.{
  ℕ, suc, ◌+◌, ◌-◌, Bool, true, false, not, ◌&&◌, ◌||◌, Option, none, some, List, [], ◌∷◌, ◌++◌,
  map, Text, codes, Result, ok, err, ◌>>=◌, map_err, length, get_elem?, set, take, drop, ◌==◌, leb,
  if◌then◌else◌, split, text_eq, is_empty,
}
use vibepit.Config.{ProjectConfig}
use vibepit.Prelude.Lines.{
  newline, has_prefix, has_suffix, trim_left, trim_space, is_blank, split_after, concat, join,
}
use vibepit.Proxy.Presets.{has}

-- What the code reads and writes of the package yaml.v3: `Node` with its kind and style.
pub data Kind : Type 0 where
  document_node sequence_node mapping_node scalar_node alias_node : Kind

pub record Style : Type 0 where
  pub flow : Bool
  pub literal : Bool
  pub folded : Bool
  -- the quotes and the tag, which the code does not read
  pub others : ℕ

mutual
  pub data Node : Type 0 where
    node : Kind → Style → Text → Text → ℕ → Nodes → Node

  pub data Nodes : Type 0 where
    no_nodes : Nodes
    cons_node : Node → Nodes → Nodes

abbrev pub kind : Node → Kind
kind (node k s t v l c) = k

abbrev pub style : Node → Style
style (node k s t v l c) = s

abbrev pub tag : Node → Text
tag (node k s t v l c) = t

abbrev pub value : Node → Text
value (node k s t v l c) = v

abbrev pub line : Node → ℕ
line (node k s t v l c) = l

abbrev pub content : Node → Nodes
content (node k s t v l c) = c

unfoldable pub is_scalar : Kind → Bool
is_scalar scalar_node = true
is_scalar _ = false

abbrev pub no_style : Style
no_style = record { flow = false; literal = false; folded = false; others = 0 }

pub data SetupError : Type 0 where
  load_error read_error parse_error encode_error expected_mapping : SetupError
  unknown_section expected_list : Text → SetupError

-- `formatYAMLListValue`; `quote` is the verb %q
unfoldable pub format_value : (Text → Text) → Text → Text
format_value quote v = if has_prefix v (codes "*") then quote v else v

-- `lineEnding`
unfoldable pub line_ending : Text → Text
line_ending l = if has_suffix l (13 ∷ newline ∷ []) then 13 ∷ newline ∷ [] else newline ∷ []

-- a line with the newline that the last line of a file may lack
unfoldable pub with_newline : Text → Text
with_newline l = if has_suffix l (newline ∷ []) then l else l ++ line_ending l

-- `section.Content[len(section.Content)-1]`
unfoldable pub last_node : Nodes → Option Node
last_node no_nodes = none
last_node (cons_node n rest) = elim (last_node rest) [ none ↦ some n | some m ↦ some m ]

-- whether the code can append lines after the last item
unfoldable pub is_plain_item : Node → Bool
is_plain_item last =
    is_scalar (kind last)
    && not ((style last).literal || (style last).folded)
    && not (line last == 0)

module _ (quote : Text → Text) where
  -- an item of a block list, without its newline
  unfoldable pub item : Text → Text → Text
  item indent d = indent ++ codes "- " ++ format_value quote d

  -- the lines with the new items after the line `l` at `index`
  abbrev pub insert_items : List Text → ℕ → Text → Text → List Text → Text
  insert_items lines index l indent added = concat (
      take (suc index) (set lines index (with_newline l))
      ++ map (λ d. item indent d ++ line_ending l) added
      ++ drop (suc index) lines)

  -- `insertAfterKeyLine`
  unfoldable pub insert_after_key_line : Text → ℕ → List Text → Option Text
  insert_after_key_line content key_line added =
      let lines = split_after newline content in
      if key_line == 0 then none else elim (get_elem? lines (key_line - 1)) [
        | none ↦ none
        | some l ↦ some (insert_items lines (key_line - 1) l (codes "  ") added)
      ]

  -- `appendToExistingBlockYAMLList` at the line of the last item
  unfoldable pub append_after_item : Text → ℕ → List Text → Option Text
  append_after_item content index added =
      let lines = split_after newline content in
      elim (get_elem? lines index) [
        | none ↦ none
        | some l ↦
            let trimmed = trim_left is_blank l in
            if has_prefix trimmed (codes "-")
            then some (insert_items lines index l (take (length l - length trimmed) l) added)
            else none
      ]

  unfoldable pub append_to_existing : Text → Node → List Text → Option Text
  append_to_existing text section added =
      if (style section).flow then none else elim (last_node (content section)) [
        | none ↦ none
        | some last ↦
            if is_plain_item last then append_after_item text (line last - 1) added else none
      ]
