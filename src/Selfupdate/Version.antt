-- ===== src/Selfupdate/Version.antt =====
-- selfupdate/version.go: which versions are releases, and which are newer.
use vibepit.Prelude.{
  ℕ, zero, suc, Bool, true, false, not, ◌&&◌, ◌||◌, [], ◌∷◌, Text, leb, ◌==◌, text_eq, is_empty,
  if◌then◌else◌, ℤ, pos, negsuc,
}

-- the package golang.org/x/mod/semver
pub record Semver : Type 0 where
  pub is_valid : Text → Bool
  pub canonical : Text → Text
  pub prerelease : Text → Text
  pub compare : Text → Text → ℤ

abbrev is_digit : ℕ → Bool
is_digit c = leb b'0' c && leb c b'9'

abbrev is_hex : ℕ → Bool
is_hex c = is_digit c || leb b'a' c && leb c b'f'

unfoldable pub all_hex : Text → Bool
all_hex [] = true
all_hex (c ∷ s) = is_hex c && all_hex s

unfoldable pub hash_part : Text → Bool
hash_part (g ∷ c ∷ s) = g == b'g' && is_hex c && all_hex s
hash_part [] = false
hash_part (g ∷ []) = false

unfoldable pub after_digits : Text → Bool
after_digits [] = false
after_digits (c ∷ s) =
    let rest = after_digits s in if is_digit c then rest else c == b'-' && hash_part s

unfoldable pub suffix_here : Text → Bool
suffix_here (c ∷ d ∷ s) = c == b'-' && is_digit d && after_digits s
suffix_here [] = false
suffix_here (c ∷ []) = false

-- gitDescribeSuffix.MatchString: a dash, digits, "-g" and hexadecimal digits up to the end
unfoldable pub git_describe_suffix : Text → Bool
git_describe_suffix [] = false
git_describe_suffix (c ∷ s) = suffix_here (c ∷ s) || git_describe_suffix s

abbrev pub add_v : Text → Text
add_v version = b'v' ∷ version

module _ (semver : Semver) where
  unfoldable pub is_dev_build : Text → Bool
  is_dev_build version =
      let v = add_v version in
      if not (semver.is_valid v)
      then true
      else if not (text_eq v (semver.canonical v))
      then true
      else git_describe_suffix version

  unfoldable pub is_prerelease : Text → Bool
  is_prerelease version =
      let v = add_v version in semver.is_valid v && not (is_empty (semver.prerelease v))

  unfoldable pub is_before : Text → Text → Bool
  is_before a b = elim (semver.compare (add_v a) (add_v b)) [ pos n ↦ false | negsuc n ↦ true ]

  unfoldable pub is_after : Text → Text → Bool
  is_after a b = elim (semver.compare (add_v a) (add_v b)) [
    | pos zero ↦ false
    | pos (suc n) ↦ true
    | negsuc n ↦ false
  ]

  unfoldable pub should_update : Text → Text → Bool → Bool
  should_update current latest cross_channel =
      if is_dev_build current || cross_channel then true else is_before current latest
