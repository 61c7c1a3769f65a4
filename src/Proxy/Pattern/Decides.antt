-- ===== src/Proxy/Pattern/Decides.antt =====
-- `domainPattern.matches` decides whether a pattern covers a host, and never indexes out of range.

use vibepit.Prelude.{
  ℕ, suc, ◌+◌, ◌-◌, ◌≤◌, ◌≡◌, ◌≢◌, ◌↔◌, refl, sym, ap, subst, Bool, true, false, List, [], ◌∷◌,
  ◌++◌, Text, length, take, drop, length-drop, take_all, arith, inl, inr, text_eq, text_eq_iff,
  text_eq→eq, is_empty, split, to_lower, map, ltb, ◌==◌, Option, some, none, Decides, ok,
  Bool-cases, take-append_length, drop-append_past, lower_byte, push_first, is_empty-split,
  Option-cases, lt→ltb, length-append, Decides-map,
}
use vibepit.Proxy.Pattern.{
  dot, star, double_star, find_double_star, parse_domain_pattern, label_matches, match_labels,
  match_around, match_parts, both, match_all, matches, validate_domain_pattern,
}
use vibepit.Proxy.Pattern.Covers.{
  Covers, CoversLabel, Plain, end, one, Covers-length, Covers-head, Covers-tail, Covers→around,
  around→Covers,
}
use vibepit.Proxy.Pattern.Validation.{count_double_stars, validate_domain_pattern_iff}

label_matches_iff : (p h : Text) → (label_matches p h ≡ true) ↔ CoversLabel p h
unfolding label_matches
label_matches_iff p h = ground (arith, text_eq_iff p star, text_eq_iff p h)

match_labels-Decides :
    (ps hs : List Text)
    → Plain ps
    → length ps ≤ length hs
    → Decides (Covers ps (take (length ps) hs)) (match_labels ps hs)
unfolding match_labels
match_labels-Decides [] hs q h = end
match_labels-Decides (p ∷ ps) [] q h = absurd (omega arith)
match_labels-Decides (p ∷ ps) (h ∷ hs) q le = elim (Bool-cases (label_matches p h)) [
  | inl same ↦ rw same (
      Decides-map _ _ (match_labels ps hs) (one q.0 ((label_matches_iff p h).0 same))
        (λ d. Covers-tail d q.0) (match_labels-Decides ps hs q.1 (omega arith)))
  | inr other ↦ rw other (λ d. cc (other, (label_matches_iff p h).1 (Covers-head d q.0)))
]

match_all-Decides : (ps hs : List Text) → Plain ps → Decides (Covers ps hs) (match_all ps hs)
unfolding match_all
match_all-Decides ps hs q = elim (Bool-cases (length ps == length hs)) [
  | inl same ↦
      let e : length ps ≡ length hs = ground arith in
      let full : take (length ps) hs ≡ hs = take_all (length ps) hs (omega arith) in
      rw same (rw full at (match_labels-Decides ps hs q (omega arith)))
  | inr other ↦ rw other (λ d. ground (arith, Covers-length d q))
]

-- What the loop that finds the `**` has passed over, and where it stopped.
record FoundAt (i : ℕ) (ls : List Text) (j : ℕ) : Type 0 where
  before : List Text
  after : List Text
  place : j ≡ i + length before
  labels : ls ≡ before ++ double_star ∷ after
  plain : Plain before

find_double_star-none : (i : ℕ) (ls : List Text) → find_double_star i ls ≡ none → Plain ls
unfolding find_double_star
find_double_star-none i [] h = tt
find_double_star-none i (l ∷ ls) h =
    (ground (arith, text_eq_iff l double_star), find_double_star-none (suc i) ls (ground arith))

find_double_star-some :
    (i : ℕ) (ls : List Text) {j : ℕ} → find_double_star i ls ≡ some j → FoundAt i ls j
unfolding find_double_star
find_double_star-some i [] h = cc
find_double_star-some i (l ∷ ls) {j} h = elim (Bool-cases (text_eq l double_star)) [
  | inl stars ↦ record {
    before = [];
    after = ls;
    place = ground arith;
    labels = ap (λ m. m ∷ ls) (text_eq→eq l double_star stars);
    plain = tt;
  }
  | inr other ↦
      let r = find_double_star-some (suc i) ls {j = j} (ground arith) in
      record {
        before = l ∷ r.before;
        after = r.after;
        place = omega (arith, r.place);
        labels = ap (λ m. l ∷ m) r.labels;
        plain = (ground (arith, text_eq_iff l double_star), r.plain);
      }
]

both-Decides :
    (F G H : Type 0) (r s : Option Bool)
    → (F → G → H)
    → (H → F × G)
    → Decides F r
    → Decides G s
    → Decides H (both r s)
both-Decides F G H none s f g d e = d
both-Decides F G H (some false) s f g d e = λ h. d (g h).0
both-Decides F G H (some true) none f g d e = e
both-Decides F G H (some true) (some true) f g d e = f d e
both-Decides F G H (some true) (some false) f g d e = λ h. e (g h).1

match_parts-Decides :
    (before after hs : List Text)
    → Plain before
    → Plain after
    → Decides (Covers (before ++ double_star ∷ after) hs) (match_parts before after hs)
unfolding match_parts
match_parts-Decides before after hs b a =
    let there = Covers→around double_star after refl before hs b a in
    elim (Bool-cases (ltb (length hs) (length before + length after + 1))) [
      | inl short ↦ rw short (λ d. absurd (ground (arith, (there d).0)))
      | inr enough ↦
          let room : length before + length after + 1 ≤ length hs = ground arith in
          let tail_length : length (drop (length hs - length after) hs) ≡ length after =
            omega (arith, length-drop (length hs - length after) hs) in
          let whole : take (length after) (drop (length hs - length after) hs)
              ≡ drop (length hs - length after) hs =
            take_all (length after) (drop (length hs - length after) hs) (omega arith) in
          rw enough (
            both-Decides (Covers before (take (length before) hs))
              (Covers after (drop (length hs - length after) hs)) _ (match_labels before hs)
              (match_labels after (drop (length hs - length after) hs))
              (λ front rest. around→Covers double_star after refl before hs b (room, front, rest))
              (λ d. ((there d).1, (there d).2)) (match_labels-Decides before hs b (omega arith))
              (rw whole at
                (match_labels-Decides after (drop (length hs - length after) hs) a (omega arith))))
    ]

match_around-Decides :
    (before after hs : List Text)
    → Plain before
    → Plain after
    → Decides
        (Covers (before ++ double_star ∷ after) hs)
        (match_around (before ++ double_star ∷ after) (length before) hs)
unfolding match_around
match_around-Decides before after hs b a =
    let inside : ltb (length before) (length (before ++ double_star ∷ after)) ≡ true =
      lt→ltb _ _ (omega (arith, length-append before (double_star ∷ after))) in
    rw
      (
        inside,
        take-append_length before (double_star ∷ after),
        drop-append_past before double_star after,
      )
      (match_parts-Decides before after hs b a)

-- A second `**` would be compared as an ordinary label, so there must be at most one.
count-append :
    (xs ys : List Text)
    → count_double_stars (xs ++ ys) ≡ count_double_stars xs + count_double_stars ys
unfolding count_double_stars
count-append [] ys = omega arith
count-append (x ∷ xs) ys = ground (arith, count-append xs ys)

Plain-of_count : (ls : List Text) → count_double_stars ls ≡ 0 → Plain ls
unfolding count_double_stars
Plain-of_count [] h = tt
Plain-of_count (l ∷ ls) h =
    (ground (arith, text_eq_iff l double_star), Plain-of_count ls (ground arith))

count_after :
    (before after : List Text)
    → count_double_stars (before ++ double_star ∷ after) ≤ 1
    → count_double_stars after ≡ 0
unfolding count_double_stars text_eq
count_after before after h = omega (arith, count-append before (double_star ∷ after))

match_found-Decides :
    (ls hs : List Text) (idx : ℕ)
    → count_double_stars ls ≤ 1
    → FoundAt 0 ls idx
    → Decides (Covers ls hs) (match_around ls idx hs)
match_found-Decides ls hs idx h r =
    let few = subst (λ l. count_double_stars l ≤ 1) r.labels h in
    let e : idx ≡ length r.before = omega (arith, r.place) in
    let around =
      match_around-Decides r.before r.after hs r.plain
        (Plain-of_count r.after (count_after r.before r.after few)) in
    subst (λ l. Decides (Covers l hs) (match_around l idx hs)) (sym r.labels)
      (subst
        (λ k.
          Decides (Covers (r.before ++ double_star ∷ r.after) hs)
            (match_around (r.before ++ double_star ∷ r.after) k hs))
        (sym e) around)

match_parsed-Decides :
    (ls hs : List Text)
    → count_double_stars ls ≤ 1
    → Decides (Covers ls hs) (elim (find_double_star 0 ls) [
      | some idx ↦ match_around ls idx hs
      | none ↦ match_all ls hs
    ])
match_parsed-Decides ls hs h = elim (Option-cases (find_double_star 0 ls)) [
  | inl absent ↦ rw absent (match_all-Decides ls hs (find_double_star-none 0 ls absent))
  | inr (idx, found) ↦
      let r = find_double_star-some 0 ls found in rw found (match_found-Decides ls hs idx h r)
]

-- Lowering changes no dot and no star.
lower_byte-dot : (c : ℕ) → (lower_byte c == dot) ≡ (c == dot)
lower_byte-dot c = ground arith

map-push_first :
    (c : ℕ) (ps : List Text)
    → map to_lower (push_first c ps) ≡ push_first (lower_byte c) (map to_lower ps)
unfolding to_lower
map-push_first c [] = refl
map-push_first c (p ∷ ps) = refl

split-to_lower : (s : Text) → split dot (to_lower s) ≡ map to_lower (split dot s)
unfolding split to_lower
split-to_lower [] = refl
split-to_lower (c ∷ s) = elim (Bool-cases (c == dot)) [
  | inl e ↦ rw (lower_byte-dot c, e) (ap (λ ps. [] ∷ ps) (split-to_lower s))
  | inr e ↦ rw (lower_byte-dot c, e) (rw (split-to_lower s) (sym (map-push_first c (split dot s))))
]

double_star-to_lower : (l : Text) → text_eq (to_lower l) double_star ≡ text_eq l double_star
unfolding to_lower text_eq
double_star-to_lower [] = refl
double_star-to_lower (a ∷ []) = ground arith
double_star-to_lower (a ∷ b ∷ []) = ground arith
double_star-to_lower (a ∷ b ∷ c ∷ l) = ground arith

count-map-to_lower : (ls : List Text) → count_double_stars (map to_lower ls) ≡ count_double_stars ls
unfolding count_double_stars
count-map-to_lower [] = refl
count-map-to_lower (l ∷ ls) = rw (double_star-to_lower l, count-map-to_lower ls)

lowered_few :
    (pattern : Text)
    → validate_domain_pattern pattern ≡ ok tt
    → count_double_stars (split dot (to_lower pattern)) ≤ 1
lowered_few pattern h =
    rw (split-to_lower pattern, count-map-to_lower (split dot pattern))
      (((validate_domain_pattern_iff pattern).0 h).one_run)

-- For a domain that passes validation, `parseDomainPattern` and `matches` decide whether the
-- lowercase pattern covers the lowercase host, and no index or slice is out of range.
pub matches-Decides :
    (pattern host : Text)
    → validate_domain_pattern pattern ≡ ok tt
    → host ≢ []
    → Decides
        (Covers (split dot (to_lower pattern)) (split dot (to_lower host)))
        (matches (parse_domain_pattern pattern) host)
unfolding matches parse_domain_pattern is_empty
matches-Decides [] host h n = unfold validate_domain_pattern in cc
matches-Decides (c ∷ s) [] h n = absurd (n refl)
matches-Decides (c ∷ s) (d ∷ t) h n =
    rw (is_empty-split dot (to_lower (c ∷ s)), matches)
      (match_parsed-Decides (split dot (to_lower (c ∷ s))) (split dot (to_lower (d ∷ t)))
        (lowered_few (c ∷ s) h))
