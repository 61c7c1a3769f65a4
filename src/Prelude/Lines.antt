-- ===== src/Prelude/Lines.antt =====
-- What the program uses of the package strings, on lines of bytes, with the laws of cutting a text
-- into lines.
use vibepit.Prelude.{
  ℕ, ◌-◌, ◌≡◌, refl, ap, sym, ◌∙◌, Bool, false, ◌&&◌, ◌||◌, List, [], ◌∷◌, ◌++◌, append_assoc, Text,
  length, take, drop, ◌==◌, leb, if◌then◌else◌, push_first, split, text_eq, is_empty,
  is_empty-split, inl, inr, Bool-cases, ==_iff,
}

abbrev pub newline : ℕ
newline = 10

-- strings.HasPrefix and strings.HasSuffix
unfoldable pub has_prefix : Text → Text → Bool
has_prefix s t = leb (length t) (length s) && text_eq (take (length t) s) t

unfoldable pub has_suffix : Text → Text → Bool
has_suffix s t = leb (length t) (length s) && text_eq (drop (length s - length t) s) t

unfoldable pub trim_left : (ℕ → Bool) → Text → Text
trim_left cut [] = []
trim_left cut (c ∷ s) = let rest = trim_left cut s in if cut c then rest else c ∷ s

unfoldable pub trim_right : (ℕ → Bool) → Text → Text
trim_right cut [] = []
trim_right cut (c ∷ s) =
    let rest = trim_right cut s in if cut c && is_empty rest then [] else c ∷ rest

-- the cut set " \t", and the spaces of ASCII
abbrev pub is_blank : ℕ → Bool
is_blank c = c == b' ' || c == 9

abbrev pub is_space : ℕ → Bool
is_space c = c == b' ' || leb 9 c && leb c 13

-- strings.TrimSpace, on ASCII
abbrev pub trim_space : Text → Text
trim_space s = trim_right is_space (trim_left is_space s)

-- strings.SplitAfter for a separator of one byte, and strings.Join without a separator
unfoldable pub split_after : ℕ → Text → List Text
split_after sep [] = [] ∷ []
split_after sep (c ∷ s) =
    let rest = split_after sep s in if c == sep then (c ∷ []) ∷ rest else push_first c rest

unfoldable pub concat : List Text → Text
concat [] = []
concat (p ∷ ps) = p ++ concat ps

-- strings.Join for a separator `nl`: each line after the first follows a separator
unfoldable pub join_rest : Text → List Text → Text
join_rest nl [] = []
join_rest nl (p ∷ ps) = nl ++ p ++ join_rest nl ps

unfoldable pub join : Text → List Text → Text
join nl [] = []
join nl (p ∷ ps) = p ++ join_rest nl ps

-- each line with a separator after it
unfoldable pub ended : Text → List Text → Text
ended nl [] = []
ended nl (p ∷ ps) = p ++ nl ++ ended nl ps

pub concat-append : (ps qs : List Text) → concat (ps ++ qs) ≡ concat ps ++ concat qs
unfolding concat
concat-append [] qs = refl
concat-append (p ∷ ps) qs =
    ap (λ t. p ++ t) (concat-append ps qs) ∙ sym (append_assoc p (concat ps) (concat qs))

concat-push_first : (c : ℕ) (ps : List Text) → concat (push_first c ps) ≡ c ∷ concat ps
unfolding concat
concat-push_first c [] = refl
concat-push_first c (p ∷ ps) = refl

-- No byte is lost or added by cutting a text after its separators.
pub concat-split_after : (sep : ℕ) (s : Text) → concat (split_after sep s) ≡ s
unfolding split_after concat
concat-split_after sep [] = refl
concat-split_after sep (c ∷ s) = elim (Bool-cases (c == sep)) [
  | inl e ↦ rw e (ap (λ t. c ∷ t) (concat-split_after sep s))
  | inr e ↦
      rw e (concat-push_first c (split_after sep s) ∙ ap (λ t. c ∷ t) (concat-split_after sep s))
]

join-push_first : (nl : Text) (c : ℕ) (ps : List Text) → join nl (push_first c ps) ≡ c ∷ join nl ps
unfolding join join_rest
join-push_first nl c [] = refl
join-push_first nl c (p ∷ ps) = refl

join-end : (nl : Text) (ps : List Text) → is_empty ps ≡ false → join nl ([] ∷ ps) ≡ nl ++ join nl ps
unfolding join join_rest is_empty
join-end nl [] h = cc
join-end nl (p ∷ ps) h = simp append_assoc

pub join-split : (sep : ℕ) (s : Text) → join (sep ∷ []) (split sep s) ≡ s
unfolding split
join-split sep [] = unfold join join_rest in refl
join-split sep (c ∷ s) = elim (Bool-cases (c == sep)) [
  | inl e ↦ rw e (
      join-end (sep ∷ []) (split sep s) (is_empty-split sep s)
      ∙ ap (λ t. sep ∷ t) (join-split sep s)
      ∙ ap (λ k. k ∷ s) (sym ((==_iff c sep).0 e)))
  | inr e ↦ rw e (join-push_first (sep ∷ []) c (split sep s) ∙ ap (λ t. c ∷ t) (join-split sep s))
]

join_rest-append :
    (nl : Text) (ps qs : List Text) → join_rest nl (ps ++ qs) ≡ join_rest nl ps ++ join_rest nl qs
unfolding join_rest
join_rest-append nl [] qs = refl
join_rest-append nl (p ∷ ps) qs = simp (join_rest-append nl ps qs, append_assoc)

pub join-tail :
    (nl p : Text) (ps qs : List Text) → join nl (p ∷ ps ++ qs) ≡ join nl (p ∷ ps) ++ join_rest nl qs
unfolding join
join-tail nl p ps qs = simp (join_rest-append nl ps qs, append_assoc)

join_rest-front :
    (nl : Text) (ps : List Text) (q : Text) (qs : List Text)
    → join_rest nl (ps ++ q ∷ qs) ≡ nl ++ ended nl ps ++ join nl (q ∷ qs)
unfolding join join_rest ended
join_rest-front nl [] q qs = simp append_assoc
join_rest-front nl (p ∷ ps) q qs = simp (join_rest-front nl ps q qs, append_assoc)

pub join-front :
    (nl : Text) (ps : List Text) (q : Text) (qs : List Text)
    → join nl (ps ++ q ∷ qs) ≡ ended nl ps ++ join nl (q ∷ qs)
unfolding join join_rest ended
join-front nl [] q qs = refl
join-front nl (p ∷ ps) q qs = simp (join_rest-front nl ps q qs, append_assoc)
