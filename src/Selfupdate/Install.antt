-- ===== src/Selfupdate/Install.antt =====
-- selfupdate/download.go, verify.go, cosign.go, replace.go and packagemanager.go: an archive is
-- downloaded, checked, unpacked and put in place. A file is taken as its content.
pub mod Sizes
use vibepit.Prelude.{
  ℕ, suc, ◌-◌, ◌*◌, Bool, true, false, not, ◌&&◌, ◌||◌, Option, none, some, List, [], ◌∷◌, ◌++◌,
  take, length, Text, codes, leb, ltb, ◌==◌, text_eq, is_empty, if◌then◌else◌, Result, ok, err,
  ◌>>=◌, ℤ, pos, negsuc,
}
use vibepit.Prelude.Lines.{has_prefix}

pub data InstallError : Type 0 where
  request_failed size_exceeded temp_failed write_failed read_failed : InstallError
  http_status : ℕ → InstallError
  checksum_mismatch bundle_failed cosign_failed : InstallError
  not_gzip bad_tar path_traversal binary_not_found extract_failed : InstallError
  stat_failed chmod_failed rename_failed : InstallError

abbrev pub max_archive_size : ℕ
max_archive_size = 256 * 1024 * 1024

-- What a download meets: the status, `none` when the request fails; the Content-Length as it is
-- parsed, 0 without one; whether the file can be made; what each Read gives and whether it can be
-- written; whether the body ends without an error.
pub record Download : Type 0 where
  pub status : Option ℕ
  pub total_size : ℤ
  pub temp_file : Bool
  pub reads : List (Text × Bool)
  pub complete : Bool

abbrev pub exceeds : ℤ → ℕ → Bool
exceeds (pos n) limit = ltb limit n
exceeds (negsuc n) limit = false

-- the loop of `DownloadArchive`, with what is written so far
unfoldable pub download_loop : ℕ → Text → List (Text × Bool) → Bool → Result InstallError Text
download_loop limit written [] true = ok written
download_loop limit written [] false = err read_failed
download_loop limit written (r ∷ reads) complete =
    let chunk = take (suc limit - length written) r.0 in
    let rest = download_loop limit (written ++ chunk) reads complete in
    if is_empty chunk
    then rest
    else if not r.1
    then err write_failed
    else if ltb limit (length (written ++ chunk))
    then err size_exceeded
    else rest

unfoldable pub download_response : ℕ → Download → Option ℕ → Result InstallError Text
download_response limit d none = err request_failed
download_response limit d (some status) =
    if not (status == 200)
    then err (http_status status)
    else if exceeds d.total_size limit
    then err size_exceeded
    else if not d.temp_file
    then err temp_failed
    else download_loop limit [] d.reads d.complete

-- `DownloadArchive`
abbrev pub download_archive : ℕ → Download → Result InstallError Text
download_archive limit d = download_response limit d d.status

-- What the download of a bundle meets, the body `none` when it cannot be read or written.
pub record Bundle : Type 0 where
  pub status : Option ℕ
  pub temp_file : Bool
  pub body : Option Text

unfoldable pub download_bundle : Bundle → Result InstallError Text
download_bundle b = elim b.status [
  | none ↦ err bundle_failed
  | some status ↦
      if not (status == 200)
      then err (http_status status)
      else if not b.temp_file
      then err temp_failed
      else elim b.body [ none ↦ err bundle_failed | some s ↦ ok (take (10 * 1024 * 1024) s) ]
]

-- A header of the archive with its file, `none` when that cannot be copied; an error of Next.
pub data TarItem : Type 0 where
  tar_file : Text → Option Text → TarItem
  tar_error : TarItem

-- The packages crypto/sha256, compress/gzip and archive/tar, and the check of a bundle by sigstore.
pub record Tools : Type 0 where
  pub sha256_hex : Text → Text
  pub untar : Text → Option (List TarItem)
  pub verify_blob : Text → Text → Bool

unfoldable pub verify_sha256 : Tools → Text → Text → Result InstallError Unit
verify_sha256 t archive expected =
    if text_eq (t.sha256_hex archive) expected then ok tt else err checksum_mismatch

unfoldable pub verify_cosign_bundle : Tools → Text → Bundle → Result InstallError Unit
verify_cosign_bundle t archive b =
    download_bundle b
    >>= (λ bundle. if t.verify_blob archive bundle then ok tt else err cosign_failed)

-- strings.Contains(s, "..")
unfoldable pub has_dots : Text → Bool
has_dots [] = false
has_dots (c ∷ []) = false
has_dots (c ∷ d ∷ s) = c == b'.' && d == b'.' || has_dots (d ∷ s)

abbrev is_slash : ℕ → Bool
is_slash c = c == b'/'

-- the last element of a path, with whether only slashes come after it
unfoldable pub last_element : Text → Text → Bool → Text
last_element [] elem ended = elem
last_element (c ∷ s) elem ended =
    let slash = last_element s elem true in
    let fresh = last_element s (c ∷ []) false in
    let longer = last_element s (elem ++ c ∷ []) false in
    if is_slash c then slash else if ended then fresh else longer

-- filepath.Base
unfoldable pub base : Text → Text
base [] = codes "."
base (c ∷ s) = let elem = last_element (c ∷ s) [] true in if is_empty elem then codes "/" else elem

unfoldable pub extract_loop : Text → Bool → List TarItem → Result InstallError Text
extract_loop name temp_file [] = err binary_not_found
extract_loop name temp_file (tar_error ∷ items) = err bad_tar
extract_loop name temp_file (tar_file path content ∷ items) =
    let rest = extract_loop name temp_file items in
    if has_dots path
    then err path_traversal
    else if not (text_eq (base path) name)
    then rest
    else if not temp_file
    then err temp_failed
    else elim content [ none ↦ err extract_failed | some s ↦ ok (take max_archive_size s) ]

unfoldable pub extract_binary : Tools → Text → Bool → Text → Result InstallError Text
extract_binary t archive temp_file name = elim (t.untar archive) [
  | none ↦ err not_gzip
  | some items ↦ extract_loop name temp_file items
]

-- `ReplaceBinary`, by what os.Stat, os.Chmod and os.Rename answer
unfoldable pub replace_binary : Bool → Bool → Bool → Result InstallError Unit
replace_binary stat chmod rename =
    if not stat
    then err stat_failed
    else if not chmod
    then err chmod_failed
    else if not rename
    then err rename_failed
    else ok tt

abbrev pub package_manager_prefixes : List (Text × Text)
package_manager_prefixes =
    (codes "/opt/homebrew/", codes "Homebrew")
    ∷ (codes "/usr/local/Cellar/", codes "Homebrew")
    ∷ (codes "/home/linuxbrew/.linuxbrew/", codes "Homebrew")
    ∷ (codes "/usr/bin/", codes "system package manager")
    ∷ (codes "/usr/sbin/", codes "system package manager")
    ∷ (codes "/nix/store/", codes "Nix")
    ∷ (codes "/snap/", codes "Snap")
    ∷ []

unfoldable pub manager_in : List (Text × Text) → Text → Option Text
manager_in [] path = none
manager_in (p ∷ more) path =
    let rest = manager_in more path in if has_prefix path p.0 then some p.1 else rest

abbrev pub detect_package_manager : Text → Option Text
detect_package_manager = manager_in package_manager_prefixes
