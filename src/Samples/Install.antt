-- ===== src/Samples/Install.antt =====
-- A run of the update of the program itself (cmd/update.go).
use vibepit.Prelude.{
  ◌≡◌, refl, true, false, none, some, [], ◌∷◌, ◌++◌, codes, text_eq, is_empty, to_lower, pos,
  negsuc, ok,
}
use vibepit.Prelude.Lines.{has_prefix}
use vibepit.Selfupdate.Version.{
  Semver, is_dev_build, is_prerelease, is_before, should_update, git_describe_suffix, suffix_here,
  after_digits, hash_part, all_hex,
}
use vibepit.Selfupdate.Releases.{
  VersionMetadata, find_asset, Client, answered, resolve_channel, index_response, metadata_response,
}
use vibepit.Selfupdate.Install.{
  Tools, tar_file, download_loop, download_response, download_bundle, verify_sha256,
  verify_cosign_bundle, has_dots, last_element, base, extract_loop, extract_binary, replace_binary,
  manager_in,
}
use vibepit.Cmd.Update.{is_cross_channel}
use vibepit.Cmd.Update.Run.{
  Machine, updated, choose_target, verify_bundle, install, update_to, run_binary_update,
}
use vibepit.Cmd.Update.Run.Installed.{Installed, run_binary_update-Installed}

-- a version is newer than every other
abbrev always_newer : Semver
always_newer = record {
  is_valid = λ v. true;
  canonical = λ v. v;
  prerelease = λ v. [];
  compare = λ a b. negsuc 0;
}

abbrev target : VersionMetadata
target = record {
  version = codes "2";
  timestamp = [];
  changelog = [];
  changes = none;
  assets =
      record {
        os = codes "linux";
        arch = codes "arm";
        url = codes "u";
        sha256 = codes "!ab";
        cosign_bundle_url = codes "b";
      }
      ∷ [];
}

abbrev server : Client
server = record {
  base_url = [];
  get = λ url. answered 200 (some []);
  index_of_json = λ body. some (record { latest = codes "2"; releases = [] });
  metadata_of_json = λ body. some target;
}

abbrev tools : Tools
tools = record {
  sha256_hex = λ s. codes "!" ++ s;
  untar = λ s. some (tar_file (codes "LICENSE") none ∷ tar_file (codes "v/vibepit") (some s) ∷ []);
  verify_blob = λ archive bundle. text_eq archive bundle;
}

-- the archive comes in two reads
abbrev laptop : Machine
laptop = record {
  os = codes "linux";
  arch = codes "arm";
  version = codes "1";
  binary_path = some (codes "/a", codes "/b");
  writable = true;
  archive_of = λ url. record {
    status = some 200;
    total_size = pos 2;
    temp_file = true;
    reads = (codes "a", true) ∷ (codes "b", true) ∷ [];
    complete = true;
  };
  bundle_of = λ url. record { status = some 200; temp_file = true; body = some (codes "ab") };
  answer = codes "Yes";
  temp_file = true;
  stat = true;
  chmod = true;
  rename = true;
}

updated_run :
    run_binary_update always_newer server tools laptop [] false false
    ≡ ok (updated (codes "/b") (codes "ab"))
unfolding choose_target is_empty resolve_channel index_response is_cross_channel is_dev_build
    text_eq git_describe_suffix suffix_here after_digits hash_part all_hex is_prerelease
    should_update is_before metadata_response update_to find_asset to_lower manager_in has_prefix
    install download_response download_loop verify_sha256 verify_bundle verify_cosign_bundle
    download_bundle extract_binary extract_loop has_dots base last_element replace_binary
updated_run = refl

run_binary_update-Installed_example :
    (meta : VersionMetadata) × (choose_target always_newer server laptop.version [] false
      ≡ ok (some meta))
    × Installed tools laptop false meta (codes "/b") (codes "ab")
run_binary_update-Installed_example =
    run_binary_update-Installed always_newer server tools laptop [] false false (codes "/b")
      (codes "ab") updated_run
