-- ===== src/Cmd/Update/Run.antt =====
-- cmd/update.go: the update of the program itself, up to the replacement of its file. What is
-- printed is left out, and with it the notes.
pub mod Installed
use vibepit.Prelude.{
  ℕ, Bool, true, false, not, ◌&&◌, ◌||◌, Option, none, some, List, [], ◌∷◌, Text, codes, text_eq,
  is_empty, to_lower, if◌then◌else◌, Result, ok, err, ◌>>=◌, map_err,
}
use vibepit.Selfupdate.Version.{Semver, should_update}
use vibepit.Selfupdate.Releases.{
  ChannelIndex, Asset, VersionMetadata, find_asset, FetchError, Client, fetch_version_metadata,
  resolve_channel,
}
use vibepit.Selfupdate.Install.{
  InstallError, max_archive_size, Download, download_archive, Bundle, Tools, verify_sha256,
  verify_cosign_bundle, extract_binary, replace_binary, detect_package_manager,
}
use vibepit.Cmd.Update.{is_cross_channel}

pub data UpdateError : Type 0 where
  fetch_error : FetchError → UpdateError
  install_error : InstallError → UpdateError
  managed_by : Text → UpdateError
  no_asset no_binary_path not_writable no_bundle_url : UpdateError

pub data Outcome : Type 0 where
  up_to_date cancelled : Outcome
  updated : Text → Text → Outcome

-- The machine: its platform, the installed version, the path of the binary before and after the
-- links are resolved, what the downloads meet, the answer that is typed, and what the system allows.
pub record Machine : Type 0 where
  pub os : Text
  pub arch : Text
  pub version : Text
  pub binary_path : Option (Text × Text)
  pub writable : Bool
  pub archive_of : Text → Download
  pub bundle_of : Text → Bundle
  pub answer : Text
  pub temp_file : Bool
  pub stat : Bool
  pub chmod : Bool
  pub rename : Bool

-- the target, `none` when the binary is up to date
unfoldable pub choose_target :
    Semver → Client → Text → Text → Bool → Result UpdateError (Option VersionMetadata)
choose_target semver client version use_version pre =
    if not (is_empty use_version)
    then map_err fetch_error (fetch_version_metadata client use_version)
      >>= (λ meta. ok (some meta))
    else map_err fetch_error (resolve_channel client pre) >>= (λ r.
      let cross_channel = is_cross_channel semver version r.1 in
      if not (should_update semver version r.0.latest cross_channel)
      then ok none
      else map_err fetch_error (fetch_version_metadata client r.0.latest)
        >>= (λ meta. ok (some meta)))

-- the typed word, which has no space to trim
abbrev pub confirms : Text → Bool
confirms answer = text_eq (to_lower answer) (codes "y") || text_eq (to_lower answer) (codes "yes")

abbrev pub no_manager : Option Text → Result UpdateError Unit
no_manager none = ok tt
no_manager (some manager) = err (managed_by manager)

abbrev pub unmanaged : Text → Result UpdateError Unit
unmanaged path = no_manager (detect_package_manager path)

abbrev pub check_path : Bool → Option (Text × Text) → Result UpdateError Text
check_path writable none = err no_binary_path
check_path writable (some p) =
    unmanaged p.0 >>= (λ _. unmanaged p.1 >>= (λ _. if writable then ok p.1 else err not_writable))

unfoldable pub verify_bundle : Tools → Machine → Asset → Text → Result UpdateError Unit
verify_bundle t m asset archive =
    if is_empty asset.cosign_bundle_url
    then err no_bundle_url
    else map_err install_error
        (verify_cosign_bundle t archive (m.bundle_of asset.cosign_bundle_url))

unfoldable pub install : Tools → Machine → Asset → Text → Result UpdateError Outcome
install t m asset path =
    map_err install_error (download_archive max_archive_size (m.archive_of asset.url))
    >>= (λ archive. map_err install_error (verify_sha256 t archive asset.sha256) >>= (λ _.
        verify_bundle t m asset archive >>= (λ _.
          map_err install_error (extract_binary t archive m.temp_file (codes "vibepit"))
          >>= (λ binary.
              map_err install_error (replace_binary m.stat m.chmod m.rename)
              >>= (λ _. ok (updated path binary))))))

abbrev pub asset_found : Option Asset → Result UpdateError Asset
asset_found none = err no_asset
asset_found (some asset) = ok asset

unfoldable pub update_to : Tools → Machine → Bool → VersionMetadata → Result UpdateError Outcome
update_to t m agreed meta = asset_found (find_asset meta.assets m.os m.arch) >>= (λ asset.
    if not agreed && not (confirms m.answer)
    then ok cancelled
    else check_path m.writable m.binary_path >>= (λ path. install t m asset path))

abbrev pub with_target :
    Tools → Machine → Bool → Option VersionMetadata → Result UpdateError Outcome
with_target t m agreed none = ok up_to_date
with_target t m agreed (some meta) = update_to t m agreed meta

-- `runBinaryUpdate`, whose flag yes is `agreed`
abbrev pub run_binary_update :
    Semver → Client → Tools → Machine → Text → Bool → Bool → Result UpdateError Outcome
run_binary_update semver client t m use_version pre agreed =
    choose_target semver client m.version use_version pre >>= with_target t m agreed
