-- ===== src/Config/Setup/Entries.antt =====
-- The entries that are appended to the configuration file, and what is written (config/setup.go).
use vibepit.Prelude.{
  ◌++◌, map, drop, All, sym, is_empty_iff, ◌≡◌, ◌⊎◌, inl, inr, refl, ap, ◌∙◌, subst, true, Option,
  none, some, List, [], ◌∷◌, Text, codes, ok, text_eq, text_eq_iff, Bool-cases, Option-cases,
  Result-cases, arith,
}
use vibepit.Config.{ProjectConfig}
use vibepit.Config.Setup.{
  Kind, Node, sequence_node, scalar_node, document_node, mapping_node, alias_node, kind, tag,
  content, append_to_existing, value, insert_after_key_line, line,
}
use vibepit.Config.Setup.Append.{
  Yaml, with_content, with_root, put_value, with_items, as_list, find_pair, append_missing,
  parse_project_config, encode_with, append_to_sequence, is_implicit_null, append_to_null,
  append_to_value, append_list_entries, new_entries, current_entries, write_added,
  append_allow_entries,
}
use vibepit.Config.Setup.Headers.{IsKey}
use vibepit.Config.Setup.Pairs.{
  nodes, pairs, IsKeyOf, HasPair, find_pair-none, find_pair-HasPair, nodes-append_nodes,
  nodes-last_node, with_root-nodes, with_content-content, encode_document_ok,
}
use vibepit.Config.Setup.Kept.{Keeps, IsAfter, IsMissing}
use vibepit.Config.Setup.Edits.{
  append_missing-Keeps, insert_after_key_line-Keeps, append_to_existing-Keeps,
}
use vibepit.Proxy.Presets.{has}
use vibepit.Config.Setup.Added.{IsNew, new_entries-IsNew}

implicit_null : (k v : Node) → is_implicit_null k v ≡ true → (value v ≡ []) × (line v ≡ line k)
unfolding is_implicit_null
implicit_null k v e = ((is_empty_iff (value v)).0 (ground (arith, e)), ground (arith, e))

section_IsKey :
    (key : Text) (cfg : ProjectConfig) (current : List Text)
    → current_entries key cfg ≡ ok current
    → IsKey key
unfolding current_entries
section_IsKey key cfg current h = elim (Bool-cases (text_eq key (codes "allow-http"))) [
  | inl e ↦ subst IsKey (sym ((text_eq_iff key (codes "allow-http")).0 e)) refl
  | inr e ↦ elim (Bool-cases (text_eq key (codes "allow-dns"))) [
    | inl f ↦ subst IsKey (sym ((text_eq_iff key (codes "allow-dns")).0 f)) refl
    | inr f ↦ absurd (ground (arith, e, f))
  ]
]

module _ (yaml : Yaml) where
  -- The document with another value at the key of its root, encoded: a list with the items after
  -- those that the old value had. The other pairs and the other roots stay.
  pub record Encodes (key : Text) (added : List Text) (doc root k v : Node) (out : Text)
      : Type 0 where
    pub new : Node
    pub new_root : Node
    pub new_doc : Node
    pub front : List (Node × Node)
    pub rest : List (Node × Node)
    pub old_pairs : pairs (content root) ≡ front ++ (k, v) ∷ rest
    pub new_pairs : pairs (content new_root) ≡ front ++ (k, new) ∷ rest
    pub list : kind new ≡ sequence_node
    pub items : nodes (content new) ≡ nodes (content v) ++ map yaml.string_scalar added
    pub roots : nodes (content new_doc) ≡ new_root ∷ drop 1 (nodes (content doc))
    pub written : yaml.encode new_doc ≡ some out

  -- What is written, by the value of the key: in the place of a key that is missing, after the line of
  -- the last item of a list, after the line of a key without a value, or encoded.
  pub data Edits (key : Text) (added : List Text) (text out : Text) : Type 0 where
    at_missing :
        (doc root : Node)
        → parse_project_config yaml text ≡ ok (doc, root)
        → All (λ p. ¬ IsKeyOf key p) (pairs (content root))
        → Keeps yaml.quote key added (IsMissing key text) text out
        → Edits key added text out
    after_item :
        (doc root k v last : Node) (front : List Node)
        → parse_project_config yaml text ≡ ok (doc, root)
        → HasPair key (content root) k v
        → kind v ≡ sequence_node
        → nodes (content v) ≡ front ++ last ∷ []
        → Keeps yaml.quote key added (IsAfter text (line last)) text out
        → Edits key added text out
    after_key :
        (doc root k v : Node)
        → parse_project_config yaml text ≡ ok (doc, root)
        → HasPair key (content root) k v
        → kind v ≡ scalar_node
        → tag v ≡ codes "!!null"
        → value v ≡ []
        → line v ≡ line k
        → Keeps yaml.quote key added (IsAfter text (line k)) text out
        → Edits key added text out
    encoded :
        (doc root k v : Node)
        → parse_project_config yaml text ≡ ok (doc, root)
        → HasPair key (content root) k v
        → (kind v ≡ sequence_node) ⊎ (kind v ≡ scalar_node) × (tag v ≡ codes "!!null")
        → Encodes key added doc root k v out
        → Edits key added text out

  module _ (key : Text) (is_key : IsKey key) (d : Text) (ds : List Text) (text : Text)
      (doc root k v : Node) (parsed : parse_project_config yaml text ≡ ok (doc, root))
      (pair : HasPair key (content root) k v) where
    encode_with-Encodes :
        (new : Node) (out : Text)
        → kind new ≡ sequence_node
        → nodes (content new) ≡ nodes (content v) ++ map yaml.string_scalar (d ∷ ds)
        → encode_with yaml doc root key new ≡ ok out
        → Encodes key (d ∷ ds) doc root k v out
    encode_with-Encodes new out list items h =
        let new_root = with_content root (put_value key new (content root)) in
        let new_doc = with_root doc (content doc) new_root in
        record {
          new = new;
          new_root = new_root;
          new_doc = new_doc;
          front = pair.front;
          rest = pair.rest;
          old_pairs = pair.whole;
          new_pairs =
              ap pairs (with_content-content root (put_value key new (content root)))
              ∙ pair.put new;
          list = list;
          items = items;
          roots = with_root-nodes doc new_root (content doc);
          written = encode_document_ok yaml new_doc out h;
        }

    append_to_sequence-Edits :
        (out : Text)
        → kind v ≡ sequence_node
        → append_to_sequence yaml text doc root key v (d ∷ ds) ≡ ok out
        → Edits key (d ∷ ds) text out
    unfolding append_to_sequence
    append_to_sequence-Edits out s h =
        elim (Option-cases (append_to_existing yaml.quote text v (d ∷ ds))) [
          | inl m ↦ encoded doc root k v parsed pair (inl s) (
              encode_with-Encodes (with_items yaml.string_scalar v (d ∷ ds)) out s
                (nodes-append_nodes yaml.string_scalar (content v) (d ∷ ds)) (ground (arith, m)))
          | inr (o, m) ↦
              let e : o ≡ out = ground (arith, m) in
              let (last, at, kept) =
                append_to_existing-Keeps yaml.quote key is_key d ds text v out (m ∙ ap some e) in
              let (front, whole) = nodes-last_node (content v) last at in
              after_item doc root k v last front parsed pair s whole kept
        ]

    append_to_null-Edits :
        (out : Text)
        → kind v ≡ scalar_node
        → tag v ≡ codes "!!null"
        → append_to_null yaml text doc root key k v (d ∷ ds) ≡ ok out
        → Edits key (d ∷ ds) text out
    unfolding append_to_null
    append_to_null-Edits out s n h =
        let again : encode_with yaml doc root key (as_list yaml.string_scalar v (d ∷ ds)) ≡ ok out
            → Edits key (d ∷ ds) text out =
          λ g. encoded doc root k v parsed pair (inr (s, n)) (
            encode_with-Encodes (as_list yaml.string_scalar v (d ∷ ds)) out refl
              (nodes-append_nodes yaml.string_scalar (content v) (d ∷ ds)) g) in
        elim (Bool-cases (is_implicit_null k v)) [
          | inl i ↦ elim (Option-cases (insert_after_key_line yaml.quote text (line k) (d ∷ ds))) [
            | inl m ↦ again (ground (arith, i, m))
            | inr (o, m) ↦
                let e : o ≡ out = ground (arith, i, m) in
                let (empty, same) = implicit_null k v i in
                after_key doc root k v parsed pair s n empty same (
                  insert_after_key_line-Keeps yaml.quote key is_key d ds text (line k) out
                    (m ∙ ap some e))
          ]
          | inr i ↦ again (ground (arith, i))
        ]

    append_to_value-Edits :
        (shape : Kind) (out : Text)
        → kind v ≡ shape
        → append_to_value yaml shape text doc root key k v (d ∷ ds) ≡ ok out
        → Edits key (d ∷ ds) text out
    unfolding append_to_value
    append_to_value-Edits sequence_node out s h = append_to_sequence-Edits out s h
    append_to_value-Edits scalar_node out s h =
        elim (Bool-cases (text_eq (tag v) (codes "!!null"))) [
          | inl n ↦
              append_to_null-Edits out s ((text_eq_iff (tag v) (codes "!!null")).0 n)
                (ground (arith, n))
          | inr n ↦ absurd (ground (arith, n))
        ]
    append_to_value-Edits document_node out s h = absurd cc
    append_to_value-Edits mapping_node out s h = absurd cc
    append_to_value-Edits alias_node out s h = absurd cc

  append_list_entries-Edits :
      (key : Text) (is_key : IsKey key) (d : Text) (ds : List Text) (text out : Text)
      → append_list_entries yaml text key (d ∷ ds) ≡ ok out
      → Edits key (d ∷ ds) text out
  unfolding append_list_entries
  append_list_entries-Edits key is_key d ds text out h =
      elim (Result-cases (parse_project_config yaml text)) [
        | inl (e, p) ↦ absurd (ground (arith, p))
        | inr ((doc, root), p) ↦ elim (Option-cases (find_pair key (content root))) [
          | inl f ↦
              let e : append_missing yaml.quote text key (d ∷ ds) ≡ out = ground (arith, p, f) in
              at_missing doc root p (find_pair-none key (content root) f) (
                subst (Keeps yaml.quote key (d ∷ ds) (IsMissing key text) text) e
                  (append_missing-Keeps yaml.quote key is_key d ds text))
          | inr ((k, v), f) ↦
              append_to_value-Edits key is_key d ds text doc root k v p
                (find_pair-HasPair key (content root) k v f) (kind v) out refl
                (ground (arith, p, f))
        ]
      ]

  -- What there is to be written: nothing if all entries are there, and else the file with those
  -- that are not.
  abbrev pub Answers : Option Text → Text → List Text → List Text → Option Text → Type 0
  Answers file key current entries none = (x : Text) → has x entries ≡ true → has x current ≡ true
  Answers file key current entries (some out) =
      (text d : Text) × (ds : List Text) × (file ≡ some text)
      × IsNew current entries (d ∷ ds)
      × Edits key (d ∷ ds) text out

  write_added-Answers :
      (file : Option Text) (key : Text) (is_key : IsKey key) (current entries added : List Text)
      (answer : Option Text)
      → IsNew current entries added
      → write_added yaml file key added ≡ ok answer
      → Answers file key current entries answer
  unfolding write_added has
  write_added-Answers file key is_key current entries [] none new h = λ x there.
      elim (Bool-cases (has x current)) [
        | inl e ↦ e
        | inr e ↦ absurd (let e' = (new.same x).1 (there, e) in cc)
      ]
  write_added-Answers file key is_key current entries [] (some out) new h = absurd cc
  write_added-Answers none key is_key current entries (d ∷ ds) answer new h = absurd cc
  write_added-Answers (some text) key is_key current entries (d ∷ ds) none new h =
      elim (Result-cases (append_list_entries yaml text key (d ∷ ds))) [
        | inl (e, m) ↦ absurd (ground (arith, m))
        | inr (o, m) ↦ absurd (ground (arith, m))
      ]
  write_added-Answers (some text) key is_key current entries (d ∷ ds) (some out) new h =
      elim (Result-cases (append_list_entries yaml text key (d ∷ ds))) [
        | inl (e, m) ↦ absurd (ground (arith, m))
        | inr (o, m) ↦
            let same : o ≡ out = ground (arith, m) in
            (
              text,
              d,
              ds,
              refl,
              new,
              append_list_entries-Edits key is_key d ds text out (m ∙ ap ok same),
            )
      ]

  -- From the configuration that is loaded: if the edit of the configuration file answers without an
  -- error, then either it writes nothing, and all entries are in the list already; or it writes the
  -- file with exactly the entries that are not in the list yet, each once, an item on a line of its
  -- own, and keeps all other bytes but commented lines that the section replaces. The items come, for
  -- a key that the document does not have, in place of its first commented header, or with the key at
  -- the end of the file if it has no such header; for a list, after the line of its last item; for a
  -- key without a value, after its line. Or, for a list or a null, the file is the encoded document
  -- where the key has the old items and then the new ones, and every other pair is as it was.
  pub append_allow_entries-Answers :
      (cfg : ProjectConfig) (file : Option Text) (key : Text) (current entries : List Text)
      (answer : Option Text)
      → current_entries key cfg ≡ ok current
      → append_allow_entries yaml (ok cfg) file key entries ≡ ok answer
      → Answers file key current entries answer
  unfolding append_allow_entries
  append_allow_entries-Answers cfg file key current entries answer c h =
      write_added-Answers file key (section_IsKey key cfg current c) current entries
        (new_entries current entries) answer (new_entries-IsNew current entries) (ground (arith, c))
