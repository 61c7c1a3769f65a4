-- ===== src/Cmd/Update/Run/Installed.antt =====
-- A binary is put in place only after every check (cmd/update.go).
use vibepit.Prelude.{
  bind_ok, ok_inj, map_err_ok, if_ok, if_not_ok, length, ◌≡◌, ◌≤◌, refl, ap, sym, ◌∙◌, subst, Bool,
  true, false, not, ◌&&◌, ◌||◌, Option, none, some, Text, codes, text_eq, text_eq_iff, is_empty,
  if◌then◌else◌, Result, ok, map_err,
}
use vibepit.Selfupdate.Version.{Semver}
use vibepit.Selfupdate.Releases.{Asset, VersionMetadata, find_asset, Client}
use vibepit.Selfupdate.Install.{
  max_archive_size, download_archive, Tools, verify_sha256, download_bundle, verify_cosign_bundle,
  extract_binary, replace_binary, detect_package_manager,
}
use vibepit.Selfupdate.Install.Sizes.{download_archive-fits}
use vibepit.Cmd.Update.Run.{
  UpdateError, install_error, Outcome, cancelled, updated, Machine, choose_target, confirms,
  no_manager, unmanaged, check_path, verify_bundle, install, asset_found, update_to, with_target,
  run_binary_update,
}

no_manager_unit : (o : Option Text) (u : Unit) → no_manager o ≡ ok u → o ≡ none
no_manager_unit none u h = refl
no_manager_unit (some x) u h = cc

asset_found_ok : (o : Option Asset) (a : Asset) → asset_found o ≡ ok a → o ≡ some a
asset_found_ok none a h = cc
asset_found_ok (some x) a h = cc

check_path_ok :
    (writable : Bool) (o : Option (Text × Text)) (path : Text)
    → check_path writable o ≡ ok path
    → (link : Text) × (o ≡ some (link, path))
      × (detect_package_manager link ≡ none)
      × (detect_package_manager path ≡ none)
check_path_ok writable none path h = cc
check_path_ok writable (some p) path h =
    let a = bind_ok (unmanaged p.0) _ path h in
    let b = bind_ok (unmanaged p.1) _ path a.2 in
    let c = if_ok writable _ _ path b.2 in
    let e : p.1 ≡ path = ok_inj p.1 path c.1 in
    let first = no_manager_unit (detect_package_manager p.0) a.0 a.1 in
    let second = no_manager_unit (detect_package_manager p.1) b.0 b.1 in
    (p.0, ap (λ q. some (p.0, q)) e, first, subst (λ q. detect_package_manager q ≡ none) e second)

-- What an archive that is installed passed.
pub record Verified (t : Tools) (m : Machine) (asset : Asset) (binary : Text) : Type 0 where
  pub archive : Text
  pub bundle : Text
  pub downloaded : download_archive max_archive_size (m.archive_of asset.url) ≡ ok archive
  pub size : length archive ≤ max_archive_size
  pub checksum : t.sha256_hex archive ≡ asset.sha256
  pub signed : is_empty asset.cosign_bundle_url ≡ false
  pub fetched : download_bundle (m.bundle_of asset.cosign_bundle_url) ≡ ok bundle
  pub signature : t.verify_blob archive bundle ≡ true
  pub unpacked : extract_binary t archive m.temp_file (codes "vibepit") ≡ ok binary

verify_bundle_ok :
    (t : Tools) (m : Machine) (asset : Asset) (archive : Text) (u : Unit)
    → verify_bundle t m asset archive ≡ ok u
    → (bundle : Text) × (is_empty asset.cosign_bundle_url ≡ false)
      × (download_bundle (m.bundle_of asset.cosign_bundle_url) ≡ ok bundle)
      × (t.verify_blob archive bundle ≡ true)
unfolding verify_bundle verify_cosign_bundle
verify_bundle_ok t m asset archive u h =
    let a = if_not_ok (is_empty asset.cosign_bundle_url) _ _ u h in
    let b = map_err_ok _ _ u a.1 in
    let c = bind_ok (download_bundle (m.bundle_of asset.cosign_bundle_url)) _ u b in
    let d = if_ok (t.verify_blob archive c.0) _ _ u c.2 in (c.0, a.0, c.1, d.0)

verify_sha256_ok :
    (t : Tools) (archive expected : Text) (u : Unit)
    → verify_sha256 t archive expected ≡ ok u
    → t.sha256_hex archive ≡ expected
unfolding verify_sha256
verify_sha256_ok t archive expected u h =
    (text_eq_iff (t.sha256_hex archive) expected).0
      (if_ok (text_eq (t.sha256_hex archive) expected) _ _ u h).0

install_ok :
    (t : Tools) (m : Machine) (asset : Asset) (path : Text) (out : Outcome)
    → install t m asset path ≡ ok out
    → (binary : Text) × Verified t m asset binary × (updated path binary ≡ out)
unfolding install
install_ok t m asset path out h =
    let a =
      bind_ok (map_err install_error (download_archive max_archive_size (m.archive_of asset.url))) _
        out h in
    let b = bind_ok (map_err install_error (verify_sha256 t a.0 asset.sha256)) _ out a.2 in
    let c = bind_ok (verify_bundle t m asset a.0) _ out b.2 in
    let d =
      bind_ok (map_err install_error (extract_binary t a.0 m.temp_file (codes "vibepit"))) _ out
        c.2 in
    let e = bind_ok (map_err install_error (replace_binary m.stat m.chmod m.rename)) _ out d.2 in
    let v = verify_bundle_ok t m asset a.0 c.0 c.1 in
    (
      d.0,
      record {
        archive = a.0;
        bundle = v.0;
        downloaded = map_err_ok _ _ a.0 a.1;
        size =
            download_archive-fits max_archive_size (m.archive_of asset.url) a.0
              (map_err_ok _ _ a.0 a.1);
        checksum = verify_sha256_ok t a.0 asset.sha256 b.0 (map_err_ok _ _ b.0 b.1);
        signed = v.1;
        fetched = v.2;
        signature = v.3;
        unpacked = map_err_ok _ _ d.0 d.1;
      },
      ok_inj (updated path d.0) out e.2,
    )

-- What led to a binary in its place: a target with an asset of the platform, the consent, a path
-- that no package manager owns, and an archive that passed its checks.
pub record Installed (t : Tools) (m : Machine) (agreed : Bool) (meta : VersionMetadata)
    (path binary : Text) : Type 0 where
  pub asset : Asset
  pub link : Text
  pub platform : find_asset meta.assets m.os m.arch ≡ some asset
  pub consent : (agreed || confirms m.answer) ≡ true
  pub place : m.binary_path ≡ some (link, path)
  pub link_unmanaged : detect_package_manager link ≡ none
  pub path_unmanaged : detect_package_manager path ≡ none
  pub verified : Verified t m asset binary

updated_path : (p q a b : Text) → updated p a ≡ updated q b → (p ≡ q) × (a ≡ b)
updated_path p q a b h = (cc, cc)

not_cancelled :
    (b : Bool) (r : Result UpdateError Outcome) (p q : Text)
    → (if b then ok cancelled else r) ≡ ok (updated p q)
    → (b ≡ false) × (r ≡ ok (updated p q))
not_cancelled true r p q h = cc
not_cancelled false r p q h = (refl, h)

consents : (a b : Bool) → (not a && not b) ≡ false → (a || b) ≡ true
consents true b h = refl
consents false true h = refl
consents false false h = sym h

update_to-Installed :
    (t : Tools) (m : Machine) (agreed : Bool) (meta : VersionMetadata) (path binary : Text)
    → update_to t m agreed meta ≡ ok (updated path binary)
    → Installed t m agreed meta path binary
unfolding update_to
update_to-Installed t m agreed meta path binary h =
    let out = updated path binary in
    let a = bind_ok (asset_found (find_asset meta.assets m.os m.arch)) _ out h in
    let b = not_cancelled (not agreed && not (confirms m.answer)) _ path binary a.2 in
    let c = bind_ok (check_path m.writable m.binary_path) _ out b.1 in
    let d = install_ok t m a.0 c.0 out c.2 in
    let e = updated_path c.0 path d.0 binary d.2 in
    let p = check_path_ok m.writable m.binary_path path (c.1 ∙ ap ok e.0) in
    record {
      asset = a.0;
      link = p.0;
      platform = asset_found_ok (find_asset meta.assets m.os m.arch) a.0 a.1;
      consent = consents agreed (confirms m.answer) b.0;
      place = p.1;
      link_unmanaged = p.2;
      path_unmanaged = p.3;
      verified = subst (Verified t m a.0) e.1 d.1;
    }

target_Installed :
    (semver : Semver) (client : Client) (t : Tools) (m : Machine) (use_version : Text)
    (pre agreed : Bool) (path binary : Text) (target : Option VersionMetadata)
    → choose_target semver client m.version use_version pre ≡ ok target
    → with_target t m agreed target ≡ ok (updated path binary)
    → (meta : VersionMetadata) × (choose_target semver client m.version use_version pre
        ≡ ok (some meta))
      × Installed t m agreed meta path binary
target_Installed semver client t m use_version pre agreed path binary none e h = cc
target_Installed semver client t m use_version pre agreed path binary (some meta) e h =
    (meta, e, update_to-Installed t m agreed meta path binary h)

-- When the update puts a binary in its place, a target was chosen that has an asset for the
-- platform, the user agreed, no package manager owns the path before or after links are resolved,
-- and the binary is unpacked from the archive that was downloaded, whose checksum is that of the
-- asset and whose bundle was fetched and verified.
pub run_binary_update-Installed :
    (semver : Semver) (client : Client) (t : Tools) (m : Machine) (use_version : Text)
    (pre agreed : Bool) (path binary : Text)
    → run_binary_update semver client t m use_version pre agreed ≡ ok (updated path binary)
    → (meta : VersionMetadata) × (choose_target semver client m.version use_version pre
        ≡ ok (some meta))
      × Installed t m agreed meta path binary
run_binary_update-Installed semver client t m use_version pre agreed path binary h =
    let a = bind_ok (choose_target semver client m.version use_version pre) _ _ h in
    target_Installed semver client t m use_version pre agreed path binary a.0 a.1 a.2
