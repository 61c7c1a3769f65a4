-- ===== src/Selfupdate/Releases.antt =====
-- selfupdate/releases.go: the indexes of the channels and the releases that an update spans.
pub mod Listed
use vibepit.Prelude.{
  ℕ, Bool, true, false, not, ◌&&◌, ◌||◌, Option, none, some, List, [], ◌∷◌, ◌++◌, ◌^◌, take, Text,
  codes, ◌==◌, text_eq, if◌then◌else◌, Result, ok, err, ◌>>=◌, ℤ, pos, negsuc,
}
use vibepit.Selfupdate.Version.{Semver, add_v, is_before, is_after}

pub record ReleaseEntry : Type 0 where
  pub version : Text
  pub timestamp : Text

pub record ChannelIndex : Type 0 where
  pub latest : Text
  pub releases : List ReleaseEntry

pub record ChangelogEntry : Type 0 where
  pub msg : Text
  pub pr : Text
  pub issue : Text

pub record Asset : Type 0 where
  pub os : Text
  pub arch : Text
  pub url : Text
  pub sha256 : Text
  pub cosign_bundle_url : Text

-- The changes stand in the order in which `range` visits them; `none` is the nil map.
pub record VersionMetadata : Type 0 where
  pub version : Text
  pub timestamp : Text
  pub changelog : Text
  pub changes : Option (List (Text × List ChangelogEntry))
  pub assets : List Asset

unfoldable pub find_asset : List Asset → Text → Text → Option Asset
find_asset [] os arch = none
find_asset (a ∷ more) os arch =
    let rest = find_asset more os arch in
    if text_eq a.os os && text_eq a.arch arch then some a else rest

module _ (semver : Semver) where
  -- current < version <= target
  unfoldable pub in_range : Text → Text → ReleaseEntry → Bool
  in_range current target r =
      is_before semver current r.version && not (is_after semver r.version target)

  unfoldable pub filter_range : Text → Text → List ReleaseEntry → List ReleaseEntry
  filter_range current target [] = []
  filter_range current target (r ∷ more) =
      let rest = filter_range current target more in
      if in_range current target r then r ∷ rest else rest

  unfoldable pub insert_newest : ReleaseEntry → List ReleaseEntry → List ReleaseEntry
  insert_newest r [] = r ∷ []
  insert_newest r (x ∷ xs) =
      let rest = insert_newest r xs in
      if is_after semver r.version x.version then r ∷ x ∷ xs else x ∷ rest

  -- `sort.Slice`, which promises no order for versions that compare as equal
  unfoldable pub sort_newest : List ReleaseEntry → List ReleaseEntry
  sort_newest [] = []
  sort_newest (r ∷ more) = insert_newest r (sort_newest more)

  -- `ReleasesBetween`
  abbrev pub releases_between : ChannelIndex → Text → Text → List ReleaseEntry
  releases_between idx current target = sort_newest (filter_range current target idx.releases)

abbrev pub channel_stable : Text
channel_stable = codes "stable"

abbrev pub channel_prerelease : Text
channel_prerelease = codes "prerelease"

unfoldable pub other_channel : Text → Text
other_channel channel =
    if text_eq channel channel_prerelease then channel_stable else channel_prerelease

unfoldable pub seen : Text → List ReleaseEntry → Bool
seen version [] = false
seen version (r ∷ more) = text_eq r.version version || seen version more

-- the inner loop; the versions that were seen are those of `out`
unfoldable pub add_releases : List ReleaseEntry → List ReleaseEntry → List ReleaseEntry
add_releases out [] = out
add_releases out (r ∷ more) =
    let same = add_releases out more in
    let longer = add_releases (out ++ r ∷ []) more in if seen r.version out then same else longer

abbrev pub releases_of : Option ChannelIndex → List ReleaseEntry
releases_of none = []
releases_of (some idx) = idx.releases

-- `CombineReleases`, where a nil index is `none`
abbrev pub combine_releases : Option ChannelIndex → Option ChannelIndex → List ReleaseEntry
combine_releases a b = add_releases (add_releases [] (releases_of a)) (releases_of b)

pub data FetchError : Type 0 where
  get_failed read_failed parse_failed : FetchError
  http_status : ℕ → FetchError
  version_not_found : Text → FetchError
  no_prereleases no_releases : FetchError

-- What a GET of a URL gives: the status and the body, `none` when the body cannot be read.
pub data Response : Type 0 where
  failed : Response
  answered : ℕ → Option Text → Response

-- The client, with the decoders of the package encoding/json.
pub record Client : Type 0 where
  pub base_url : Text
  pub get : Text → Response
  pub index_of_json : Text → Option ChannelIndex
  pub metadata_of_json : Text → Option VersionMetadata

abbrev pub parse_with : {A : Type 0} → (Text → Option A) → Option Text → Result FetchError A
parse_with parse none = err read_failed
parse_with parse (some body) = elim (parse (take (2 ^ 20) body)) [
  | none ↦ err parse_failed
  | some a ↦ ok a
]

abbrev pub url_of : Client → Text → Text
url_of c name = c.base_url ++ codes "/" ++ name ++ codes ".json"

unfoldable pub index_response : Client → Response → Result FetchError (Option ChannelIndex)
index_response c failed = err get_failed
index_response c (answered status body) =
    if status == 404
    then ok none
    else if not (status == 200)
    then err (http_status status)
    else parse_with c.index_of_json body >>= (λ idx. ok (some idx))

-- `FetchChannelIndex`: `none` is an index that was not found
abbrev pub fetch_channel_index : Client → Text → Result FetchError (Option ChannelIndex)
fetch_channel_index c channel = index_response c (c.get (url_of c channel))

unfoldable pub metadata_response : Client → Text → Response → Result FetchError VersionMetadata
metadata_response c version failed = err get_failed
metadata_response c version (answered status body) =
    if status == 404
    then err (version_not_found version)
    else if not (status == 200)
    then err (http_status status)
    else parse_with c.metadata_of_json body

abbrev pub fetch_version_metadata : Client → Text → Result FetchError VersionMetadata
fetch_version_metadata c version = metadata_response c version (c.get (url_of c version))

abbrev pub found_in :
    FetchError → Text → Option ChannelIndex → Result FetchError (ChannelIndex × Text)
found_in missing channel none = err missing
found_in missing channel (some idx) = ok (idx, channel)

unfoldable pub resolve_channel : Client → Bool → Result FetchError (ChannelIndex × Text)
resolve_channel c true =
    fetch_channel_index c channel_prerelease >>= found_in no_prereleases channel_prerelease
resolve_channel c false = fetch_channel_index c channel_stable >>= (λ stable. elim stable [
  | some idx ↦ ok (idx, channel_stable)
  | none ↦ fetch_channel_index c channel_prerelease >>= found_in no_releases channel_prerelease
])
