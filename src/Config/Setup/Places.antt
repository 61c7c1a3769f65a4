-- ===== src/Config/Setup/Places.antt =====
-- The texts of the lines around the place of an edit (config/setup.go).
use vibepit.Prelude.{
  ℕ, zero, suc, ◌+◌, ◌≡◌, refl, ap, sym, ◌∙◌, ◌⊎◌, inl, inr, Bool, true, false, some, List, [], ◌∷◌,
  ◌++◌, map, append-nil, append_assoc, Text, length, get_elem?, take, drop, if◌then◌else◌, All,
  Bool-cases, take-append_length, set-append_length, drop-drop, All-append,
}
use vibepit.Prelude.Lines.{
  newline, has_suffix, concat, join, join_rest, ended, concat-append, join-tail, join-front,
}
use vibepit.Config.Setup.{item, line_ending, with_newline, insert_items}
use vibepit.Config.Setup.Append.{entry_run, gap}
use vibepit.Config.Setup.Kept.{EndsLine, IsBreak, suffix_end}

pub get_elem?-around :
    (ls : List Text) (index : ℕ) (l : Text)
    → get_elem? ls index ≡ some l
    → (above below : List Text) × (ls ≡ above ++ l ∷ below) × (index ≡ length above)
get_elem?-around [] index l h = cc
get_elem?-around (x ∷ ls) zero l h = let e : x ≡ l = cc in ([], ls, ap (λ u. u ∷ ls) e, refl)
get_elem?-around (x ∷ ls) (suc i) l h =
    let (a, b, e, p) = get_elem?-around ls i l h in (x ∷ a, b, ap (λ u. x ∷ u) e, ap suc p)

take-append_past :
    (xs : List Text) (y : Text) (ys : List Text)
    → take (suc (length xs)) (xs ++ y ∷ ys) ≡ xs ++ y ∷ []
take-append_past [] y ys = refl
take-append_past (x ∷ xs) y ys = ap (λ l. x ∷ l) (take-append_past xs y ys)

drop-append_suc :
    (xs : List Text) (y : Text) (ys : List Text) → drop (suc (length xs)) (xs ++ y ∷ ys) ≡ ys
drop-append_suc [] y ys = refl
drop-append_suc (x ∷ xs) y ys = drop-append_suc xs y ys

pub insert_items-concat :
    (quote : Text → Text) (l indent : Text) (added above below : List Text)
    → insert_items quote (above ++ l ∷ below) (length above) l indent added
      ≡ concat above
        ++ with_newline l
        ++ concat (map (λ d. item quote indent d ++ line_ending l) added)
        ++ concat below
unfolding concat
insert_items-concat quote l indent added above below =
    let items = map (λ d. item quote indent d ++ line_ending l) added in
    rw
      (
        set-append_length above l (with_newline l) below,
        take-append_past above (with_newline l) below,
        drop-append_suc above l below,
      )
      (simp (concat-append, append_assoc))

break_or_none : (b : Bool) → All (λ k. k ≡ newline) (if b then [] else newline ∷ [])
break_or_none true = tt
break_or_none false = (refl, tt)

pub concat_around :
    (above : List Text) (l : Text) (below : List Text)
    → concat (above ++ l ∷ below) ≡ concat above ++ l ++ [] ++ concat below
unfolding concat
concat_around above l below = simp (concat-append, append_assoc)

pub join-around :
    (nl : Text) (above : List Text) (l : Text) (more rest : List Text)
    → join nl (above ++ (l ∷ more) ++ rest)
      ≡ ended nl above ++ join nl (l ∷ more) ++ join_rest nl rest
join-around nl above l more rest =
    ap (join nl) (append_assoc above (l ∷ more) rest)
    ∙ join-front nl above l (more ++ rest)
    ∙ ap (λ u. ended nl above ++ u) (join-tail nl l more rest)
    ∙ sym (append_assoc (ended nl above) (join nl (l ∷ more)) (join_rest nl rest))

pub join-cons :
    (nl l x : Text) (xs : List Text) → join nl (l ∷ x ∷ xs) ≡ l ++ nl ++ join nl (x ∷ xs)
unfolding join join_rest
join-cons nl l x xs = simp append_assoc

-- the lines with those of `new` in place of the header and of the commented entries under it
abbrev pub replaced : List Text → ℕ → List Text → List Text
replaced lines i new = take i lines ++ new ++ drop (suc i + entry_run (drop (suc i) lines)) lines

pub replaced-around :
    (above : List Text) (header : Text) (below new : List Text)
    → replaced (above ++ header ∷ below) (length above) new
      ≡ above ++ new ++ drop (entry_run below) below
replaced-around above header below new =
    let lines = above ++ header ∷ below in
    rw
      (
        take-append_length above (header ∷ below),
        drop-append_suc above header below,
        sym (drop-drop (entry_run below) (suc (length above)) lines),
        drop-append_suc above header below,
      )
      refl

pub gap_newlines : (s : Text) → All (λ c. c ≡ newline) (gap s)
unfolding gap
gap_newlines [] = tt
gap_newlines (c ∷ s) =
    All-append (λ k. k ≡ newline) (if has_suffix (c ∷ s) (newline ∷ []) then [] else newline ∷ []) _
      (break_or_none _) (break_or_none _)

pub line_ending-IsBreak : (l : Text) → IsBreak (line_ending l)
unfolding line_ending
line_ending-IsBreak l = elim (Bool-cases (has_suffix l (13 ∷ newline ∷ []))) [
  | inl e ↦ rw e (inr refl)
  | inr e ↦ rw e (inl refl)
]

pub break-EndsLine : (t nl : Text) → IsBreak nl → EndsLine (t ++ nl)
break-EndsLine t nl h = elim h [
  | inl e ↦ (t, ap (λ u. t ++ u) e)
  | inr e ↦ (t ++ 13 ∷ [], ap (λ u. t ++ u) e ∙ sym (append_assoc t (13 ∷ []) (newline ∷ [])))
]

-- what a line lacks of its newline
unfoldable pub lacking : Text → Text
lacking l = if has_suffix l (newline ∷ []) then [] else line_ending l

pub with_newline-lacking : (l : Text) → with_newline l ≡ l ++ lacking l
unfolding with_newline lacking
with_newline-lacking l = elim (Bool-cases (has_suffix l (newline ∷ []))) [
  | inl e ↦ rw e (sym (append-nil l))
  | inr e ↦ rw e refl
]

pub lacking-EndsLine : (front l : Text) → EndsLine (front ++ l ++ lacking l)
unfolding lacking
lacking-EndsLine front l = elim (Bool-cases (has_suffix l (newline ∷ []))) [
  | inl e ↦
      let r = suffix_end l (newline ∷ []) e in
      rw e (
        front ++ r.0,
        append-nil (front ++ l)
            ∙ ap (λ u. front ++ u) r.1
            ∙ sym (append_assoc front r.0 (newline ∷ [])),
      )
  | inr e ↦ rw e (break-EndsLine (front ++ l) (line_ending l) (line_ending-IsBreak l))
]

pub lacking-leads : (l : Text) → (lacking l ≡ []) ⊎ (lacking l ≡ line_ending l)
unfolding lacking
lacking-leads l = elim (Bool-cases (has_suffix l (newline ∷ []))) [
  | inl e ↦ rw e (inl refl)
  | inr e ↦ rw e (inr refl)
]
