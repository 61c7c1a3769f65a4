-- ===== src/Config/Setup/Edits.antt =====
-- Each edit in place of the configuration file keeps the rest of it (config/setup.go).
use vibepit.Prelude.{
  suc, none, ◌⊎◌, inl, inr, length-append, ℕ, ◌-◌, ◌≡◌, refl, ap, sym, ◌∙◌, subst, inl, inr, some,
  List, [], ◌∷◌, ◌++◌, map, append-nil, append_assoc, Text, codes, length, get_elem?, take, drop,
  split, ◌==◌, Bool-cases, Option-cases, arith, take-append-drop, ap₂,
}
use vibepit.Prelude.Lines.{
  newline, has_prefix, trim_left, is_blank, split_after, concat, join, join_rest, ended,
  concat-split_after, join-split,
}
use vibepit.Config.Setup.{
  Node, style, line, content, item, line_ending, insert_items, insert_after_key_line,
  append_after_item, append_to_existing, last_node, is_plain_item,
}
use vibepit.Config.Setup.Append.{
  find_header, entry_run, replace_commented, replace_lines, gap, append_new_section, append_missing,
}
use vibepit.Config.Setup.Kept.{
  Keeps, IsAfter, IsMissing, IsBreak, find_header-none, find_header-Found, entry_run-comments,
  join_rest-OpensLine, concat_items,
}
use vibepit.Config.Setup.Headers.{IsKey, no_headers, is_commented_header-IsHeader}
use vibepit.Config.Setup.Places.{
  get_elem?-around, insert_items-concat, concat_around, join-around, join-cons, replaced,
  replaced-around, gap_newlines, line_ending-IsBreak, break-EndsLine, lacking, with_newline-lacking,
  lacking-EndsLine, lacking-leads,
}

concat_snoc : (ps : List Text) (l : Text) → concat (ps ++ l ∷ []) ≡ concat ps ++ l
unfolding concat
concat_snoc [] l = append-nil l
concat_snoc (p ∷ ps) l = ap (λ u. p ++ u) (concat_snoc ps l) ∙ sym (append_assoc p (concat ps) l)

take_snoc :
    (above : List Text) (l : Text) (below : List Text)
    → take (suc (length above)) (above ++ l ∷ below) ≡ above ++ l ∷ []
take_snoc [] l below = refl
take_snoc (x ∷ above) l below = ap (λ u. x ∷ u) (take_snoc above l below)

-- The place after the line at an index.
put_below :
    (text : Text) (index : ℕ) (above below : List Text) (l : Text)
    → split_after newline text ≡ above ++ l ∷ below
    → index ≡ length above
    → ((lacking l ≡ []) ⊎ (lacking l ≡ line_ending l))
    → IsAfter text (suc index) (concat above ++ l) [] (lacking l)
put_below text index above below l e p lead = (
  omega arith,
  (let n = ap length e ∙ length-append above (l ∷ below) in omega (arith, n, p)),
  sym (
      ap₂ (λ k ls. concat (take (suc k) ls)) p e
      ∙ ap concat (take_snoc above l below)
      ∙ concat_snoc above l),
  refl,
  elim lead [
    | inl none_left ↦ inl none_left
    | inr some_left ↦ inr (subst IsBreak (sym some_left) (line_ending-IsBreak l))
  ],
)

module _ (quote : Text → Text) (key : Text) (k : IsKey key) (d : Text) (ds : List Text) where
  insert_items-Keeps :
      (text : Text) (index : ℕ) (l indent : Text)
      → get_elem? (split_after newline text) index ≡ some l
      → Keeps quote key
          (d ∷ ds)
          (IsAfter text (suc index))
          text
          (insert_items quote (split_after newline text) index l indent (d ∷ ds))
  insert_items-Keeps text index l indent h =
      let (above, below, e, p) = get_elem?-around (split_after newline text) index l h in
      record {
        before = concat above ++ l;
        removed = [];
        lead = lacking l;
        indent = indent;
        nl = line_ending l;
        trail = line_ending l;
        after = concat below;
        whole = sym (concat-split_after newline text) ∙ ap concat e ∙ concat_around above l below;
        written =
            ap₂ (λ ls i. insert_items quote ls i l indent (d ∷ ds)) e p
            ∙ insert_items-concat quote l indent (d ∷ ds) above below
            ∙ simp (
              with_newline-lacking l,
              concat_items (item quote indent) (line_ending l) d ds,
              append_assoc,
            );
        comments = inl refl;
        starts = lacking-EndsLine (concat above) l;
        stops = inl (break-EndsLine [] (line_ending l) (line_ending-IsBreak l));
        breaks = line_ending-IsBreak l;
        place = put_below text index above below l e p (lacking-leads l);
        leads = elim (lacking-leads l) [ inl e ↦ inl e | inr e ↦ inr (inl e) ];
      }

  replace_commented-Keeps :
      (text out : Text)
      → replace_commented quote text key (d ∷ ds) ≡ some out
      → Keeps quote key (d ∷ ds) (IsMissing key text) text out
  unfolding replace_commented replace_lines
  replace_commented-Keeps text out h = elim (Option-cases (find_header key (split newline text))) [
    | inl m ↦ absurd (ground (arith, m))
    | inr (i, m) ↦
        let f = find_header-Found key (split newline text) i m in
        let n = entry_run f.below in
        let nl = newline ∷ [] in
        record {
          before = ended nl f.above;
          removed = join nl (f.header ∷ take n f.below);
          lead = key ++ codes ":" ++ nl;
          indent = codes "  ";
          nl = nl;
          trail = [];
          after = join_rest nl (drop n f.below);
          whole =
              sym (join-split newline text)
              ∙ ap (join nl) (
                  f.cut
                  ∙ ap (λ u. f.above ++ f.header ∷ u) (sym (take-append-drop n f.below))
                  ∙ sym (append_assoc f.above (f.header ∷ take n f.below) (drop n f.below)))
              ∙ join-around nl f.above f.header (take n f.below) (drop n f.below);
          written =
              let new = (key ++ codes ":") ∷ map (item quote (codes "  ")) (d ∷ ds) in
              let e : out ≡ join nl (replaced (split newline text) i new) = ground (arith, m) in
              e
              ∙ ap (join nl) (
                  ap₂ (λ ls k. replaced ls k new) f.cut (sym f.place)
                  ∙ replaced-around f.above f.header f.below new)
              ∙ join-around nl f.above (key ++ codes ":") (map (item quote (codes "  ")) (d ∷ ds))
                  (drop n f.below)
              ∙ simp (
                join-cons nl (key ++ codes ":") (item quote (codes "  ") d)
                    (map (item quote (codes "  ")) ds),
                append_assoc,
              );
          comments = inr (f.header ∷ take n f.below, refl, (f.comment, entry_run-comments f.below));
          starts = (ended nl f.above ++ (key ++ codes ":"), simp append_assoc);
          stops = inr (refl, join_rest-OpensLine (drop n f.below));
          breaks = inl refl;
          place = inl (
            f.above,
            f.header,
            take n f.below,
            refl,
            no_headers key f.above k f.first,
            is_commented_header-IsHeader key f.header f.tested,
            refl,
            refl,
          );
          leads = inr (inr ([], refl, tt));
        }
  ]

  unreplaced :
      (text : Text)
      → replace_commented quote text key (d ∷ ds) ≡ none
      → find_header key (split newline text) ≡ none
  unfolding replace_commented replace_lines
  unreplaced text m = elim (Option-cases (find_header key (split newline text))) [
    | inl e ↦ e
    | inr (i, e) ↦ absurd (ground (arith, e))
  ]

  append_new_section-Keeps :
      (text : Text)
      → replace_commented quote text key (d ∷ ds) ≡ none
      → Keeps quote key
          (d ∷ ds)
          (IsMissing key text)
          text
          (append_new_section quote text key (d ∷ ds))
  unfolding append_new_section replace_commented replace_lines
  append_new_section-Keeps text m = record {
    before = text;
    removed = [];
    lead = gap text ++ (key ++ codes ":" ++ newline ∷ []);
    indent = codes "  ";
    nl = newline ∷ [];
    trail = newline ∷ [];
    after = [];
    whole = simp append-nil;
    written =
        simp (concat_items (item quote (codes "  ")) (newline ∷ []) d ds, append_assoc, append-nil);
    comments = inl refl;
    starts = (text ++ gap text ++ key ++ codes ":", simp append_assoc);
    stops = inl ([], refl);
    breaks = inl refl;
    place = inr (
      gap text,
      no_headers key (split newline text) k
          (find_header-none key (split newline text) (unreplaced text m)),
      refl,
      refl,
      gap_newlines text,
      refl,
    );
    leads = inr (inr (gap text, refl, gap_newlines text));
  }

  pub append_missing-Keeps :
      (text : Text)
      → Keeps quote key (d ∷ ds) (IsMissing key text) text (append_missing quote text key (d ∷ ds))
  unfolding append_missing
  append_missing-Keeps text = elim (Option-cases (replace_commented quote text key (d ∷ ds))) [
    | inl m ↦ rw (m, append_missing) (append_new_section-Keeps text m)
    | inr (out, m) ↦ rw (m, append_missing) (replace_commented-Keeps text out m)
  ]

  pub insert_after_key_line-Keeps :
      (text : Text) (n : ℕ) (out : Text)
      → insert_after_key_line quote text n (d ∷ ds) ≡ some out
      → Keeps quote key (d ∷ ds) (IsAfter text n) text out
  unfolding insert_after_key_line
  insert_after_key_line-Keeps text n out h = elim (Bool-cases (n == 0)) [
    | inl z ↦ absurd (ground (arith, z))
    | inr z ↦ elim (Option-cases (get_elem? (split_after newline text) (n - 1))) [
      | inl m ↦ absurd (ground (arith, z, m))
      | inr (l, m) ↦
          let e : insert_items quote (split_after newline text) (n - 1) l (codes "  ") (d ∷ ds)
              ≡ out =
            ground (arith, z, m) in
          let same : suc (n - 1) ≡ n = ground (arith, z) in
          subst (λ j. Keeps quote key (d ∷ ds) (IsAfter text j) text out) same
            (subst (Keeps quote key (d ∷ ds) (IsAfter text (suc (n - 1))) text) e
              (insert_items-Keeps text (n - 1) l (codes "  ") m))
    ]
  ]

  append_after_item-Keeps :
      (text : Text) (index : ℕ) (out : Text)
      → append_after_item quote text index (d ∷ ds) ≡ some out
      → Keeps quote key (d ∷ ds) (IsAfter text (suc index)) text out
  unfolding append_after_item
  append_after_item-Keeps text index out h =
      elim (Option-cases (get_elem? (split_after newline text) index)) [
        | inl m ↦ absurd (ground (arith, m))
        | inr (l, m) ↦
            let trimmed = trim_left is_blank l in
            elim (Bool-cases (has_prefix trimmed (codes "-"))) [
              | inl p ↦
                  let indent = take (length l - length trimmed) l in
                  let e : insert_items quote (split_after newline text) index l indent (d ∷ ds)
                      ≡ out =
                    ground (arith, m, p) in
                  subst (Keeps quote key (d ∷ ds) (IsAfter text (suc index)) text) e
                    (insert_items-Keeps text index l indent m)
              | inr p ↦ absurd (ground (arith, m, p))
            ]
      ]

  pub append_to_existing-Keeps :
      (text : Text) (v : Node) (out : Text)
      → append_to_existing quote text v (d ∷ ds) ≡ some out
      → (last : Node) × (last_node (content v) ≡ some last)
        × Keeps quote key (d ∷ ds) (IsAfter text (line last)) text out
  unfolding append_to_existing is_plain_item
  append_to_existing-Keeps text v out h = elim (Bool-cases (style v).flow) [
    | inl f ↦ absurd (ground (arith, f))
    | inr f ↦ elim (Option-cases (last_node (content v))) [
      | inl m ↦ absurd (ground (arith, f, m))
      | inr (last, m) ↦ elim (Bool-cases (is_plain_item last)) [
        | inl p ↦
            let kept = append_after_item-Keeps text (line last - 1) out (ground (arith, f, m, p)) in
            let same : suc (line last - 1) ≡ line last = ground (arith, p) in
            (last, m, subst (λ j. Keeps quote key (d ∷ ds) (IsAfter text j) text out) same kept)
        | inr p ↦ absurd (ground (arith, f, m, p))
      ]
    ]
  ]
