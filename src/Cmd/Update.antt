-- ===== src/Cmd/Update.antt =====
-- cmd/update.go: which releases an update spans, and the notes that it shows for them.
pub mod Spans
pub mod Run
use vibepit.Prelude.{
  ℕ, Bool, true, false, not, ◌&&◌, ◌||◌, Option, none, some, List, [], ◌∷◌, ◌++◌, Text, codes, leb,
  length, text_eq, is_empty, if◌then◌else◌, Result, ok, err, ◌>>=◌, map_err,
}
use vibepit.Selfupdate.Version.{Semver, is_dev_build, is_prerelease, should_update}
use vibepit.Selfupdate.Releases.{
  ReleaseEntry, ChannelIndex, VersionMetadata, releases_between, combine_releases, other_channel,
  channel_prerelease, FetchError, Client, fetch_channel_index, fetch_version_metadata,
  resolve_channel,
}
use vibepit.Selfupdate.Changelog.{merge_changes, render_merged}

pub record Flags : Type 0 where
  pub use_version : Text
  pub list : Bool
  pub check : Bool
  pub images : Bool
  pub bin : Bool

pub data FlagError : Type 0 where
  bin_images use_images list_check list_use check_use : FlagError

unfoldable pub validate_update_flags : Flags → Option FlagError
validate_update_flags f =
    if f.bin && f.images
    then some bin_images
    else if not (is_empty f.use_version) && f.images
    then some use_images
    else if f.list && f.check
    then some list_check
    else if f.list && not (is_empty f.use_version)
    then some list_use
    else if f.check && not (is_empty f.use_version)
    then some check_use
    else none

-- one turn of the loop; `none` falls back to the notes of the target
unfoldable pub metadata_for : Client → VersionMetadata → ReleaseEntry → Option VersionMetadata
metadata_for client meta r =
    let vm : Option VersionMetadata =
      if text_eq r.version meta.version
      then some meta
      else elim (fetch_version_metadata client r.version) [ ok m ↦ some m | err e ↦ none ] in
    elim vm [ none ↦ none | some m ↦ elim m.changes [ none ↦ none | some changes ↦ some m ] ]

unfoldable pub fetch_metas :
    Client → VersionMetadata → List ReleaseEntry → Option (List VersionMetadata)
fetch_metas client meta [] = some []
fetch_metas client meta (r ∷ more) =
    let rest = fetch_metas client meta more in
    elim (metadata_for client meta r) [
      | none ↦ none
      | some m ↦ elim rest [ none ↦ none | some ms ↦ some (m ∷ ms) ]
    ]

module _ (semver : Semver) where
  unfoldable pub is_cross_channel : Text → Text → Bool
  is_cross_channel current target_channel =
      let pre = is_prerelease semver current in
      let target_pre = text_eq target_channel channel_prerelease in
      if is_dev_build semver current then false else if pre then not target_pre else target_pre

  -- `updateChangelog`: the text, and whether it merges several releases
  unfoldable pub update_changelog :
      Client → Option ChannelIndex → Text → VersionMetadata → Text × Bool
  update_changelog client none current meta = (meta.changelog, false)
  update_changelog client (some idx) current meta =
      let range = releases_between semver idx current meta.version in
      let merged : Text × Bool = elim (fetch_metas client meta range) [
        | none ↦ (meta.changelog, false)
        | some metas ↦ (render_merged (merge_changes metas), true)
      ] in
      if is_dev_build semver current || leb (length range) 1
      then (meta.changelog, false)
      else merged

abbrev pub widened : ChannelIndex → Result FetchError (Option ChannelIndex) → Option ChannelIndex
widened idx (err e) = none
widened idx (ok none) = none
widened idx (ok (some other)) =
    some (record { latest = idx.latest; releases = combine_releases (some idx) (some other) })

-- `enumerationIndex`
unfoldable pub enumeration_index : Client → ChannelIndex → Text → Bool → Option ChannelIndex
enumeration_index client idx channel false = some idx
enumeration_index client idx channel true =
    widened idx (fetch_channel_index client (other_channel channel))
