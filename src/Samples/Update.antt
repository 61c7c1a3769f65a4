-- ===== src/Samples/Update.antt =====
-- Runs of the choice of releases and of the merge of their notes (selfupdate, cmd/update.go).
use vibepit.Prelude.{
  zero, suc, ◌≡◌, refl, Bool, true, false, none, some, [], ◌∷◌, Text, codes, text_eq, ◌==◌, ltb,
  if◌then◌else◌, arith, ℤ, pos, negsuc, map, ok,
}
use vibepit.Selfupdate.Version.{
  Semver, is_after, git_describe_suffix, suffix_here, after_digits, hash_part, all_hex,
}
use vibepit.Selfupdate.Releases.{
  ReleaseEntry, ChannelIndex, ChangelogEntry, VersionMetadata, Client, answered, releases_between,
  channel_stable, fetch_channel_index, index_response, other_channel,
}
use vibepit.Selfupdate.Changelog.{merge_changes}
use vibepit.Selfupdate.Changelog.Merged.{notes, merge_changes-notes}
use vibepit.Cmd.Update.{enumeration_index}
use vibepit.Cmd.Update.Spans.{Spans, enumeration_index-Spans}

-- versions with numbers of one digit, in the order of their bytes
text_order : Text → Text → ℤ
text_order [] [] = pos 0
text_order [] (d ∷ t) = negsuc 0
text_order (c ∷ s) [] = pos 1
text_order (c ∷ s) (d ∷ t) =
    let rest = text_order s t in if c == d then rest else if ltb c d then negsuc 0 else pos 1

abbrev by_bytes : Semver
by_bytes = record {
  is_valid = λ v. true;
  canonical = λ v. v;
  prerelease = λ v. [];
  compare = text_order;
}

is_positive : ℤ → Bool
is_positive (pos zero) = false
is_positive (pos (suc n)) = true
is_positive (negsuc n) = false

text_order_asym :
    (s t : Text) → is_positive (text_order s t) ≡ true → is_positive (text_order t s) ≡ false
unfolding text_order is_positive
text_order_asym [] [] h = refl
text_order_asym [] (d ∷ t) h = cc
text_order_asym (c ∷ s) [] h = refl
text_order_asym (c ∷ s) (d ∷ t) h = let rest = text_order_asym s t in ground arith

is_after_asym : (a b : Text) → is_after by_bytes a b ≡ true → is_after by_bytes b a ≡ false
unfolding is_after text_order is_positive
is_after_asym a b h = text_order_asym a b h

abbrev release : Text → ReleaseEntry
release v = record { version = v; timestamp = [] }

abbrev stable_index : ChannelIndex
stable_index = record {
  latest = codes "0.4.0";
  releases = map release (codes "0.4.0" ∷ codes "0.2.0" ∷ []);
}

abbrev other_index : ChannelIndex
other_index = record {
  latest = codes "0.3.0";
  releases = map release (codes "0.1.0" ∷ codes "0.3.0" ∷ codes "0.2.0" ∷ []);
}

abbrev offline : Client
offline = record {
  base_url = [];
  get = λ url. answered 200 (some []);
  index_of_json = λ body. some other_index;
  metadata_of_json = λ body. none;
}

other_fetched : fetch_channel_index offline (other_channel channel_stable) ≡ ok (some other_index)
unfolding index_response
other_fetched = refl

enumeration_index-Spans_example :
    (whole : ChannelIndex) × (enumeration_index offline stable_index channel_stable true
      ≡ some whole)
    × Spans by_bytes
        (codes "0.1.0")
        (codes "0.4.0")
        stable_index.releases
        other_index.releases
        (releases_between by_bytes whole (codes "0.1.0") (codes "0.4.0"))
enumeration_index-Spans_example =
    enumeration_index-Spans by_bytes is_after_asym offline stable_index other_index channel_stable
      (codes "0.1.0") (codes "0.4.0") other_fetched

abbrev note : Text → ChangelogEntry
note text = record { msg = text; pr = []; issue = [] }

-- two releases, whose categories are visited in different orders
abbrev newer : VersionMetadata
newer = record {
  version = codes "0.4.0";
  timestamp = [];
  changelog = [];
  changes = some (
      (codes "fixed", note (codes "a") ∷ [])
      ∷ (codes "added", note (codes "b") ∷ note (codes "c") ∷ [])
      ∷ []);
  assets = [];
}

abbrev older : VersionMetadata
older = record {
  version = codes "0.3.0";
  timestamp = [];
  changelog = [];
  changes = some ((codes "added", note (codes "d") ∷ []) ∷ (codes "fixed", []) ∷ []);
  assets = [];
}

merge_changes-notes_example :
    merge_changes (newer ∷ older ∷ []) (codes "added") ≡ notes (codes "added") (newer ∷ older ∷ [])
unfolding text_eq
merge_changes-notes_example =
    merge_changes-notes (codes "added") (newer ∷ older ∷ [])
      ((refl, (refl, tt)), ((refl, (refl, tt)), tt))

described :
    map git_describe_suffix
      (codes "0.1.0-alpha.7-3-gabcdef" ∷ codes "0.1.0-alpha.7" ∷ codes "0.1.0-3-g" ∷ [])
    ≡ true ∷ false ∷ false ∷ []
unfolding git_describe_suffix suffix_here after_digits hash_part all_hex
described = refl
