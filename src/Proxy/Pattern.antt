-- ===== src/Proxy/Pattern.antt =====
-- proxy/allowlist.go: `domainPattern`, its parser, its matcher and its validation.
pub mod Covers
pub mod Decides
pub mod Validation
use vibepit.Prelude.{
  ℕ, zero, suc, ◌+◌, ◌-◌, Bool, true, false, ◌||◌, not, Option, none, some, List, [], ◌∷◌, Text,
  codes, text_eq, is_empty, contains_byte, to_lower, split, length, take, drop, ltb, ◌==◌,
  if◌then◌else◌, Result, ok, err, ◌>>=◌,
}

abbrev pub dot : ℕ
dot = b'.'

abbrev pub star : Text
star = codes "*"

abbrev pub double_star : Text
double_star = codes "**"

-- `double_star_idx` is `none` for -1.
pub record DomainPattern : Type 0 where
  pub labels : List Text
  pub double_star_idx : Option ℕ

-- the loop that looks for the first `**` label, from index `i` on
unfoldable pub find_double_star : ℕ → List Text → Option ℕ
find_double_star i [] = none
find_double_star i (l ∷ ls) = if text_eq l double_star then some i else find_double_star (suc i) ls

unfoldable pub parse_domain_pattern : Text → DomainPattern
parse_domain_pattern pattern =
    if is_empty pattern then record { labels = []; double_star_idx = none } else record {
      labels = split dot (to_lower pattern);
      double_star_idx = find_double_star 0 (split dot (to_lower pattern));
    }

unfoldable pub label_matches : Text → Text → Bool
label_matches pattern label = if text_eq pattern star then true else text_eq pattern label

-- A loop over pattern labels, with the host labels from the same index on. A host label that is
-- not there is an index out of range.
unfoldable pub match_labels : List Text → List Text → Option Bool
match_labels [] hs = some true
match_labels (p ∷ ps) [] = none
match_labels (p ∷ ps) (h ∷ hs) =
    let rest = match_labels ps hs in if label_matches p h then rest else some false

-- `a`, then `b` unless `a` has returned false
abbrev pub both : Option Bool → Option Bool → Option Bool
both none b = none
both (some false) b = some false
both (some true) b = b

-- the branch of `matches` for a pattern with `**`: its labels before and after
unfoldable pub match_parts : List Text → List Text → List Text → Option Bool
match_parts before after hs =
    if ltb (length hs) (length before + length after + 1)
    then some false
    else both (match_labels before hs) (match_labels after (drop (length hs - length after) hs))

-- its slices `labels[:idx]` and `labels[idx+1:]`
unfoldable pub match_around : List Text → ℕ → List Text → Option Bool
match_around labels idx hs =
    if ltb idx (length labels)
    then match_parts (take idx labels) (drop (idx + 1) labels) hs
    else none

-- the branch for a pattern with no `**`
unfoldable pub match_all : List Text → List Text → Option Bool
match_all labels hs = if length labels == length hs then match_labels labels hs else some false

unfoldable pub matches : DomainPattern → Text → Option Bool
matches p host = if is_empty p.labels || is_empty host then some false else elim p.double_star_idx [
  | some idx ↦ match_around p.labels idx (split dot (to_lower host))
  | none ↦ match_all p.labels (split dot (to_lower host))
]

-- The errors of `validateDomainPattern`.
pub data DomainError : Type 0 where
  empty_domain empty_label many_double_stars : DomainError
  mixed_star : Text → DomainError
  too_broad : Text → DomainError

-- the loop over the labels: the number of `**`, or the first error
unfoldable pub check_labels : ℕ → List Text → Result DomainError ℕ
check_labels n [] = ok n
check_labels n (l ∷ ls) =
    let counted = check_labels (n + 1) ls in
    let rest = check_labels n ls in
    if is_empty l
    then err empty_label
    else if text_eq l double_star
    then counted
    else if text_eq l star
    then rest
    else if contains_byte b'*' l
    then err (mixed_star l)
    else rest

-- the last test: a domain of one wildcard label
unfoldable pub check_breadth : List Text → Result DomainError (Unit {0})
check_breadth (l ∷ []) =
    if text_eq l star || text_eq l double_star then err (too_broad l) else ok tt
check_breadth ls = ok tt

unfoldable pub validate_domain_pattern : Text → Result DomainError (Unit {0})
validate_domain_pattern domain = if is_empty domain then err empty_domain else (do
  n ← check_labels 0 (split dot domain)
  if ltb 1 n then err many_double_stars else check_breadth (split dot domain))
