-- ===== src/Config/Setup/Kept.antt =====
-- What an edit of the configuration file keeps and what it adds (config/setup.go).
use vibepit.Prelude.{
  false, ◌≤◌, split, ℕ, ◌-◌, ◌≡◌, refl, ap, sym, ◌∙◌, ◌⊎◌, inl, inr, Bool, true, Option, none, some,
  List, [], ◌∷◌, ◌++◌, map, append-nil, append_assoc, Text, codes, length, take, drop,
  if◌then◌else◌, text_eq, text_eq→eq, All, Bool-cases, Option-cases, &&_iff, ==_iff, arith,
  take-append-drop,
}
use vibepit.Prelude.Lines.{
  ended, split_after, is_blank, newline, has_prefix, has_suffix, trim_left, trim_right, trim_space,
  is_space, concat, join, join_rest,
}
use vibepit.Config.Setup.{item}
use vibepit.Config.Setup.Append.{
  comment_text, is_commented_header, is_commented_entry, find_header, entry_run,
}

-- The first byte that is no space.
abbrev pub first_seen : Text → Option ℕ
first_seen [] = none
first_seen (c ∷ s) = if is_space c then first_seen s else some c

abbrev pub IsComment : Text → Type 0
IsComment l = first_seen l ≡ some b'#'

-- The end of a line, or nothing; the newline before another line, or nothing.
abbrev pub EndsLine : Text → Type 0
EndsLine t = (s : Text) × (t ≡ s ++ newline ∷ [])

abbrev pub OpensLine : Text → Type 0
OpensLine t = (t ≡ []) ⊎ ((s : Text) × (t ≡ newline ∷ s))

abbrev pub IsBreak : Text → Type 0
IsBreak nl = (nl ≡ newline ∷ []) ⊎ (nl ≡ 13 ∷ newline ∷ [])

-- The place after the first lines of a text, where nothing goes and no key comes.
abbrev pub IsAfter : Text → ℕ → Text → Text → Text → Type 0
IsAfter text n before removed lead =
    (1 ≤ n)
    × (n ≤ length (split_after newline text))
    × (before ≡ concat (take n (split_after newline text)))
    × (removed ≡ [])
    × ((lead ≡ []) ⊎ IsBreak lead)

-- A line that is the commented header of the key: a number sign and the key with its colon, with
-- spaces around.
pub record IsHeader (key l : Text) : Type 0 where
  pub pre : Text
  pub mid : Text
  pub post : Text
  pub line : l ≡ pre ++ ((b'#' ∷ (mid ++ (key ++ codes ":"))) ++ post)
  pub left : All (λ c. is_space c ≡ true) pre
  pub inner : All (λ c. is_blank c ≡ true) mid
  pub right : All (λ c. is_space c ≡ true) post

-- The place of a key that the file does not have: that of its first commented header, which goes, with
-- commented entries under it; or, without such a header, the end of the text, where the key comes
-- after empty lines.
abbrev pub IsMissing : Text → Text → Text → Text → Text → Type 0
IsMissing key text before removed lead =
    ((above : List Text) × (header : Text) × (run : List Text) × (before
        ≡ ended (newline ∷ []) above)
      × All (λ l. ¬ IsHeader key l) above
      × IsHeader key header
      × (removed ≡ join (newline ∷ []) (header ∷ run))
      × (lead ≡ key ++ codes ":" ++ newline ∷ []))
    ⊎ ((g : Text) × All (λ l. ¬ IsHeader key l) (split newline text)
        × (before ≡ text)
        × (removed ≡ [])
        × All (λ c. c ≡ newline) g
        × (lead ≡ g ++ (key ++ codes ":" ++ newline ∷ [])))

-- The bytes of `text` stay as they are around one place, where at most commented lines go and the
-- items come, each on a line of its own, under the key if the place had none.
-- Which place it is, is said of the bytes before it, those that go and those before the items.
pub record Keeps (quote : Text → Text) (key : Text) (added : List Text)
    (At : Text → Text → Text → Type 0) (text out : Text) : Type 0 where
  pub before : Text
  pub removed : Text
  pub lead : Text
  pub indent : Text
  pub nl : Text
  pub trail : Text
  pub after : Text
  pub whole : text ≡ before ++ removed ++ after
  pub written : out ≡ before ++ lead ++ join nl (map (item quote indent) added) ++ trail ++ after
  pub comments :
      (removed ≡ []) ⊎ ((ls : List Text) × (removed ≡ join (newline ∷ []) ls) × All IsComment ls)
  pub starts : EndsLine (before ++ lead)
  pub stops : EndsLine trail ⊎ (trail ≡ []) × OpensLine after
  pub breaks : IsBreak nl
  pub place : At before removed lead
  pub leads :
      (lead ≡ [])
      ⊎ (lead ≡ nl)
      ⊎ ((g : Text) × (lead ≡ g ++ (key ++ codes ":" ++ newline ∷ [])) × All (λ c. c ≡ newline) g)

pub prefix_head : (c : ℕ) (s : Text) → has_prefix s (c ∷ []) ≡ true → (r : Text) × (s ≡ c ∷ r)
unfolding has_prefix text_eq
prefix_head c [] h = cc
prefix_head c (d ∷ s) h = (s, ap (λ k. k ∷ s) ((==_iff d c).0 (ground arith)))

trim_right_head :
    (cut : ℕ → Bool) (s : Text) (c : ℕ) (r : Text)
    → trim_right cut s ≡ c ∷ r
    → (t : Text) × (s ≡ c ∷ t)
unfolding trim_right
trim_right_head cut [] c r h = cc
trim_right_head cut (d ∷ s) c r h = let e : d ≡ c = ground arith in (s, ap (λ k. k ∷ s) e)

trim_left_head :
    (s : Text) (c : ℕ) (r : Text) → trim_left is_space s ≡ c ∷ r → first_seen s ≡ some c
unfolding trim_left
trim_left_head [] c r h = cc
trim_left_head (d ∷ s) c r h = ground (arith, trim_left_head s c r)

comment_text-IsComment : (l rest : Text) → comment_text l ≡ some rest → IsComment l
unfolding comment_text
comment_text-IsComment l rest h = elim (Bool-cases (has_prefix (trim_space l) (codes "#"))) [
  | inl e ↦
      let p = prefix_head b'#' (trim_space l) e in
      let q = trim_right_head is_space (trim_left is_space l) b'#' p.0 p.1 in
      trim_left_head l b'#' q.0 q.1
  | inr e ↦ ground (arith, e)
]

pub suffix_end : (s t : Text) → has_suffix s t ≡ true → (r : Text) × (s ≡ r ++ t)
unfolding has_suffix
suffix_end s t h =
    let n = length s - length t in
    (
      take n s,
      sym (take-append-drop n s)
          ∙ ap (λ u. take n s ++ u) (text_eq→eq (drop n s) t (((&&_iff _ _).0 h).1)),
    )

-- The header that the search finds, with the lines around it.
pub record Found (key : Text) (lines : List Text) (index : ℕ) : Type 0 where
  pub above : List Text
  pub header : Text
  pub below : List Text
  pub cut : lines ≡ above ++ header ∷ below
  pub place : length above ≡ index
  pub comment : IsComment header
  pub tested : is_commented_header key header ≡ true
  pub first : All (λ l. is_commented_header key l ≡ false) above

is_commented_header-IsComment : (key l : Text) → is_commented_header key l ≡ true → IsComment l
unfolding is_commented_header
is_commented_header-IsComment key l h = elim (Option-cases (comment_text l)) [
  | inl e ↦ ground (arith, e)
  | inr (r, e) ↦ comment_text-IsComment l r e
]

is_commented_entry-IsComment : (l : Text) → is_commented_entry l ≡ true → IsComment l
unfolding is_commented_entry
is_commented_entry-IsComment l h = elim (Option-cases (comment_text l)) [
  | inl e ↦ ground (arith, e)
  | inr (r, e) ↦ comment_text-IsComment l r e
]

pub find_header-Found :
    (key : Text) (lines : List Text) (index : ℕ)
    → find_header key lines ≡ some index
    → Found key lines index
unfolding find_header
find_header-Found key [] index h = cc
find_header-Found key (l ∷ ls) index h = elim (Bool-cases (is_commented_header key l)) [
  | inl e ↦ record {
    above = [];
    header = l;
    below = ls;
    cut = refl;
    place = ground (arith, e);
    comment = is_commented_header-IsComment key l e;
    tested = e;
    first = tt;
  }
  | inr e ↦ elim (Option-cases (find_header key ls)) [
    | inl m ↦ absurd (ground (arith, e, m))
    | inr (i, m) ↦
        let f = find_header-Found key ls i m in
        record {
          above = l ∷ f.above;
          header = f.header;
          below = f.below;
          cut = ap (λ u. l ∷ u) f.cut;
          place = let p = f.place in ground (arith, e, m, p);
          comment = f.comment;
          tested = f.tested;
          first = (e, f.first);
        }
  ]
]

pub find_header-none :
    (key : Text) (lines : List Text)
    → find_header key lines ≡ none
    → All (λ l. is_commented_header key l ≡ false) lines
unfolding find_header
find_header-none key [] h = tt
find_header-none key (l ∷ ls) h = elim (Bool-cases (is_commented_header key l)) [
  | inl e ↦ absurd (ground (arith, e))
  | inr e ↦ elim (Option-cases (find_header key ls)) [
    | inl m ↦ (e, find_header-none key ls m)
    | inr (i, m) ↦ absurd (ground (arith, e, m))
  ]
]

pub entry_run-comments : (ls : List Text) → All IsComment (take (entry_run ls) ls)
unfolding entry_run
entry_run-comments [] = tt
entry_run-comments (l ∷ ls) = elim (Bool-cases (is_commented_entry l)) [
  | inl e ↦ rw e (is_commented_entry-IsComment l e, entry_run-comments ls)
  | inr e ↦ rw e tt
]

pub join_rest-OpensLine : (ls : List Text) → OpensLine (join_rest (newline ∷ []) ls)
unfolding join_rest
join_rest-OpensLine [] = inl refl
join_rest-OpensLine (l ∷ ls) = inr (l ++ join_rest (newline ∷ []) ls, refl)

pub concat_items :
    (f : Text → Text) (nl d : Text) (ds : List Text)
    → concat (map (λ x. f x ++ nl) (d ∷ ds)) ≡ join nl (map f (d ∷ ds)) ++ nl
unfolding concat join join_rest
concat_items f nl d [] = simp (append_assoc, append-nil)
concat_items f nl d (x ∷ xs) = simp (concat_items f nl x xs, append_assoc)
