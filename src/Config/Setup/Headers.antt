-- ===== src/Config/Setup/Headers.antt =====
-- What a commented header is (config/setup.go).
use vibepit.Prelude.{
  ℕ, ◌≡◌, refl, ap, sym, ◌∙◌, inl, inr, Bool, true, false, ◌&&◌, Option, none, some, List, [], ◌∷◌,
  ◌++◌, append_assoc, Text, codes, drop, text_eq, text_eq_iff, text_eq_self, is_empty, is_empty_iff,
  All, Bool-cases, arith, if◌then◌else◌,
}
use vibepit.Prelude.Lines.{has_prefix, trim_left, trim_right, trim_space, is_space, is_blank}
use vibepit.Config.Setup.Append.{comment_text, is_commented_header}
use vibepit.Config.Setup.Kept.{IsHeader, prefix_head}

trim_left_split :
    (cut : ℕ → Bool) (s : Text)
    → (p : Text) × (s ≡ p ++ trim_left cut s) × All (λ c. cut c ≡ true) p
unfolding trim_left
trim_left_split cut [] = ([], refl, tt)
trim_left_split cut (c ∷ s) = elim (Bool-cases (cut c)) [
  | inl e ↦ let (p, w, a) = trim_left_split cut s in rw e (c ∷ p, ap (λ u. c ∷ u) w, (e, a))
  | inr e ↦ rw e ([], refl, tt)
]

trim_right_split :
    (cut : ℕ → Bool) (s : Text)
    → (p : Text) × (s ≡ trim_right cut s ++ p) × All (λ c. cut c ≡ true) p
unfolding trim_right
trim_right_split cut [] = ([], refl, tt)
trim_right_split cut (c ∷ s) =
    let (p, w, a) = trim_right_split cut s in
    elim (Bool-cases (cut c && is_empty (trim_right cut s))) [
      | inl e ↦
          let none_left : trim_right cut s ≡ [] = (is_empty_iff _).0 (ground (arith, e)) in
          let all : s ≡ p = w ∙ ap (λ u. u ++ p) none_left in
          rw e (c ∷ p, ap (λ u. c ∷ u) all, (ground (arith, e), a))
      | inr e ↦ rw e (p, ap (λ u. c ∷ u) w, a)
    ]

trim_left_past :
    (cut : ℕ → Bool) (p : Text) (c : ℕ) (s : Text)
    → All (λ x. cut x ≡ true) p
    → cut c ≡ false
    → trim_left cut (p ++ c ∷ s) ≡ c ∷ s
unfolding trim_left
trim_left_past cut [] c s a h = rw h refl
trim_left_past cut (x ∷ p) c s a h = rw (a.0, trim_left_past cut p c s a.1 h) refl

trim_right_all : (cut : ℕ → Bool) (p : Text) → All (λ x. cut x ≡ true) p → trim_right cut p ≡ []
unfolding trim_right is_empty
trim_right_all cut [] a = refl
trim_right_all cut (x ∷ p) a = rw (trim_right_all cut p a.1, a.0) refl

snoc_seen : (s : Text) (c : ℕ) → is_empty (s ++ c ∷ []) ≡ false
unfolding is_empty
snoc_seen [] c = refl
snoc_seen (x ∷ s) c = refl

trim_right_past :
    (cut : ℕ → Bool) (s : Text) (c : ℕ) (p : Text)
    → cut c ≡ false
    → All (λ x. cut x ≡ true) p
    → trim_right cut (s ++ c ∷ p) ≡ s ++ c ∷ []
unfolding trim_right is_empty
trim_right_past cut [] c p h a = rw (h, trim_right_all cut p a) refl
trim_right_past cut (x ∷ s) c p h a =
    let r = trim_right_past cut s c p h a in
    let some_left : is_empty (s ++ c ∷ []) ≡ false = snoc_seen s c in
    rw (r, some_left) (elim (Bool-cases (cut x)) [ inl e ↦ rw e refl | inr e ↦ rw e refl ])

pub is_commented_header-IsHeader :
    (key l : Text) → is_commented_header key l ≡ true → IsHeader key l
unfolding is_commented_header comment_text
is_commented_header-IsHeader key l h = elim (Bool-cases (has_prefix (trim_space l) (codes "#"))) [
  | inr e ↦ absurd (ground (arith, e))
  | inl e ↦
      let (r, head) = prefix_head b'#' (trim_space l) e in
      let (pre, w1, a1) = trim_left_split is_space l in
      let (post, w2, a2) = trim_right_split is_space (trim_left is_space l) in
      let (mid, w3, a3) = trim_left_split is_blank r in
      let t : text_eq (trim_left is_blank (drop 1 (trim_space l))) (key ++ codes ":") ≡ true =
        ground (arith, e) in
      let body : trim_left is_blank r ≡ key ++ codes ":" =
        ap (λ u. trim_left is_blank (drop 1 u)) (sym head)
        ∙ (text_eq_iff (trim_left is_blank (drop 1 (trim_space l))) (key ++ codes ":")).0 t in
      let inside : trim_space l ≡ b'#' ∷ (mid ++ (key ++ codes ":")) =
        head ∙ ap (λ u. b'#' ∷ u) (w3 ∙ ap (λ u. mid ++ u) body) in
      record {
        pre = pre;
        mid = mid;
        post = post;
        line = w1 ∙ ap (λ u. pre ++ u) (w2 ∙ ap (λ u. u ++ post) inside);
        left = a1;
        inner = a3;
        right = a2;
      }
]

-- The key begins with a byte that is no blank.
abbrev pub IsKey : Text → Type 0
IsKey [] = ⊥
IsKey (c ∷ s) = is_blank c ≡ false

header_body :
    (key mid : Text)
    → IsKey key
    → All (λ c. is_blank c ≡ true) mid
    → trim_left is_blank (mid ++ (key ++ codes ":")) ≡ key ++ codes ":"
header_body [] mid k a = absurd k
header_body (c ∷ key) mid k a = trim_left_past is_blank mid c (key ++ codes ":") a k

starts_hash : (t : Text) → has_prefix (b'#' ∷ t) (codes "#") ≡ true
unfolding has_prefix text_eq
starts_hash t = ground arith

comment_text_of :
    (l t : Text) → trim_space l ≡ b'#' ∷ t → comment_text l ≡ some (trim_left is_blank t)
unfolding comment_text
comment_text_of l t e =
    ap (λ u. if has_prefix u (codes "#") then some (trim_left is_blank (drop 1 u)) else none) e
    ∙ rw (starts_hash t) refl

header_of :
    (key l : Text) (o : Option Text)
    → comment_text l ≡ o
    → o ≡ some (key ++ codes ":")
    → is_commented_header key l ≡ true
unfolding is_commented_header
header_of key l o e h =
    let F : Option Text → Bool =
      λ u. elim u [ none ↦ false | some rest ↦ text_eq rest (key ++ codes ":") ] in
    ap F (e ∙ h) ∙ text_eq_self (key ++ codes ":")

pub IsHeader-header : (key l : Text) → IsKey key → IsHeader key l → is_commented_header key l ≡ true
IsHeader-header key l k h =
    let body = b'#' ∷ (h.mid ++ (key ++ codes ":")) in
    let left = ap (trim_left is_space) h.line ∙ trim_left_past is_space h.pre b'#' _ h.left refl in
    let front : body ++ h.post ≡ (b'#' ∷ (h.mid ++ key)) ++ b':' ∷ h.post =
      simp append_assoc refl in
    let back : (b'#' ∷ (h.mid ++ key)) ++ b':' ∷ [] ≡ body = simp append_assoc refl in
    let right =
      ap (trim_right is_space) front
      ∙ trim_right_past is_space (b'#' ∷ (h.mid ++ key)) b':' h.post refl h.right
      ∙ back in
    let whole : trim_space l ≡ body = ap (trim_right is_space) left ∙ right in
    header_of key l _ (comment_text_of l (h.mid ++ (key ++ codes ":")) whole)
      (ap some (header_body key h.mid k h.inner))

pub no_headers :
    (key : Text) (ls : List Text)
    → IsKey key
    → All (λ l. is_commented_header key l ≡ false) ls
    → All (λ l. ¬ IsHeader key l) ls
no_headers key [] k a = tt
no_headers key (l ∷ ls) k a =
    (λ h. let t = IsHeader-header key l k h in let f = a.0 in cc, no_headers key ls k a.1)
