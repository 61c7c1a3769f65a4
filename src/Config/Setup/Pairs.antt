-- ===== src/Config/Setup/Pairs.antt =====
-- The pairs of a mapping and the items of a list, as the code reads and changes them
-- (config/setup.go).
use vibepit.Prelude.{
  ◌≡◌, refl, ap, sym, ◌∙◌, true, false, ◌&&◌, none, some, List, [], ◌∷◌, ◌++◌, map, Text, drop,
  text_eq, text_eq_iff, All, Bool-cases, Option-cases, inl, inr, arith, ok,
}
use vibepit.Config.Setup.{
  Kind, document_node, sequence_node, mapping_node, scalar_node, alias_node, Node, node, Nodes,
  no_nodes, cons_node, kind, value, content, is_scalar, last_node,
}
use vibepit.Config.Setup.Append.{
  find_pair, put_value, append_nodes, with_content, with_root, Yaml, encode_document,
}

abbrev pub nodes : Nodes → List Node
nodes no_nodes = []
nodes (cons_node n rest) = n ∷ nodes rest

-- The keys of a mapping with their values.
abbrev pub pairs : Nodes → List (Node × Node)
pairs no_nodes = []
pairs (cons_node k no_nodes) = []
pairs (cons_node k (cons_node v rest)) = (k, v) ∷ pairs rest

abbrev pub IsKeyOf : Text → Node × Node → Type 0
IsKeyOf key p = (kind p.0 ≡ scalar_node) × (value p.0 ≡ key)

-- The first pair with the key, among the others.
pub record HasPair (key : Text) (content : Nodes) (k v : Node) : Type 0 where
  pub front : List (Node × Node)
  pub rest : List (Node × Node)
  pub whole : pairs content ≡ front ++ (k, v) ∷ rest
  pub first : All (λ p. ¬ IsKeyOf key p) front
  pub here : IsKeyOf key (k, v)
  pub put : (w : Node) → pairs (put_value key w content) ≡ front ++ (k, w) ∷ rest

scalar_of : (k : Kind) → is_scalar k ≡ true → k ≡ scalar_node
unfolding is_scalar
scalar_of scalar_node e = refl
scalar_of document_node e = absurd cc
scalar_of sequence_node e = absurd cc
scalar_of mapping_node e = absurd cc
scalar_of alias_node e = absurd cc

key_of :
    (key : Text) (k v : Node)
    → (is_scalar (kind k) && text_eq (value k) key) ≡ true
    → IsKeyOf key (k, v)
key_of key k v e =
    (scalar_of (kind k) (ground (arith, e)), (text_eq_iff (value k) key).0 (ground (arith, e)))

not_key :
    (key : Text) (k v : Node)
    → (is_scalar (kind k) && text_eq (value k) key) ≡ false
    → ¬ IsKeyOf key (k, v)
unfolding is_scalar
not_key key k v e = λ h.
    let s : is_scalar (kind k) ≡ true = ap is_scalar h.0 in
    let t = (text_eq_iff (value k) key).1 h.1 in ground (arith, e, s, t)

pub find_pair-none :
    (key : Text) (c : Nodes) → find_pair key c ≡ none → All (λ p. ¬ IsKeyOf key p) (pairs c)
unfolding find_pair
find_pair-none key no_nodes h = tt
find_pair-none key (cons_node k no_nodes) h = tt
find_pair-none key (cons_node k (cons_node v rest)) h =
    elim (Bool-cases (is_scalar (kind k) && text_eq (value k) key)) [
      | inl e ↦ absurd (ground (arith, e))
      | inr e ↦ (not_key key k v e, find_pair-none key rest (ground (arith, e)))
    ]

pub find_pair-HasPair :
    (key : Text) (c : Nodes) (k v : Node) → find_pair key c ≡ some (k, v) → HasPair key c k v
unfolding find_pair put_value
find_pair-HasPair key no_nodes k v h = absurd cc
find_pair-HasPair key (cons_node x no_nodes) k v h = absurd cc
find_pair-HasPair key (cons_node x (cons_node y rest)) k v h =
    elim (Bool-cases (is_scalar (kind x) && text_eq (value x) key)) [
      | inl e ↦
          let same : (x, y) ≡ (k, v) = ground (arith, e) in
          let sx : x ≡ k = ap (λ p. p.0) same in
          record {
            front = [];
            rest = pairs rest;
            whole = ap (λ p. p ∷ pairs rest) same;
            first = tt;
            here =
                key_of key k v (ap (λ n. is_scalar (kind n) && text_eq (value n) key) (sym sx) ∙ e);
            put = λ w. rw e (ap (λ n. (n, w) ∷ pairs rest) sx);
          }
      | inr e ↦
          let f = find_pair-HasPair key rest k v (ground (arith, e)) in
          record {
            front = (x, y) ∷ f.front;
            rest = f.rest;
            whole = ap (λ u. (x, y) ∷ u) f.whole;
            first = (not_key key x y e, f.first);
            here = f.here;
            put = λ w. rw e (ap (λ u. (x, y) ∷ u) (f.put w));
          }
    ]

pub nodes-append_nodes :
    (scalar : Text → Node) (c : Nodes) (ds : List Text)
    → nodes (append_nodes scalar c ds) ≡ nodes c ++ map scalar ds
unfolding append_nodes
nodes-append_nodes scalar no_nodes [] = refl
nodes-append_nodes scalar no_nodes (d ∷ ds) =
    ap (λ u. scalar d ∷ u) (nodes-append_nodes scalar no_nodes ds)
nodes-append_nodes scalar (cons_node n rest) ds =
    ap (λ u. n ∷ u) (nodes-append_nodes scalar rest ds)

last_node-none : (c : Nodes) → last_node c ≡ none → nodes c ≡ []
unfolding last_node
last_node-none no_nodes h = refl
last_node-none (cons_node n rest) h = elim (Option-cases (last_node rest)) [
  | inl e ↦ absurd (ground (arith, e))
  | inr (x, e) ↦ absurd (ground (arith, e))
]

pub nodes-last_node :
    (c : Nodes) (last : Node)
    → last_node c ≡ some last
    → (front : List Node) × (nodes c ≡ front ++ last ∷ [])
unfolding last_node
nodes-last_node no_nodes last h = absurd cc
nodes-last_node (cons_node n rest) last h = elim (Option-cases (last_node rest)) [
  | inl e ↦
      let same : n ≡ last = ground (arith, e) in
      ([], ap (λ u. n ∷ u) (last_node-none rest e) ∙ ap (λ u. u ∷ []) same)
  | inr (x, e) ↦
      let same : x ≡ last = ground (arith, e) in
      let (front, w) = nodes-last_node rest last (e ∙ ap some same) in
      (n ∷ front, ap (λ u. n ∷ u) w)
]

pub with_root-nodes :
    (doc root : Node) (c : Nodes) → nodes (content (with_root doc c root)) ≡ root ∷ drop 1 (nodes c)
unfolding with_root
with_root-nodes (node k s t v l c) root no_nodes = refl
with_root-nodes (node k s t v l c) root (cons_node old rest) = refl

pub with_content-content : (n : Node) (c : Nodes) → content (with_content n c) ≡ c
with_content-content (node k s t v l d) c = refl

pub encode_document_ok :
    (yaml : Yaml) (doc : Node) (out : Text)
    → encode_document yaml doc ≡ ok out
    → yaml.encode doc ≡ some out
unfolding encode_document
encode_document_ok yaml doc out h = elim (Option-cases (yaml.encode doc)) [
  | inl e ↦ absurd (ground (arith, e))
  | inr (x, e) ↦ let s : x ≡ out = ground (arith, e) in e ∙ ap some s
]
