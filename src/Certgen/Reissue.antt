-- ===== src/Certgen/Reissue.antt =====
-- internal/certgen/reissue.go: the certificate on disk and its reissue. What the package calls is a
-- parameter: the external program mkcert with its flags, `x509` with `pem`, `filepath.Dir`,
-- `os.MkdirAll`, and the injected `Rename`. `os.Remove` of a temporary file is taken to remove it.
pub mod Branches
pub mod Laws
pub mod Partial
pub mod Names
use dockerdynomesh.Prelude.{
  ℕ, ◌+◌, ◌*◌, ◌≡◌, Bool, true, false, not, ◌&&◌, List, [], ◌∷◌, ◌++◌, Option, none, some, ltb,
  if◌then◌else◌,
}
use dockerdynomesh.Prelude.Sort.{sort}
use dockerdynomesh.Text.{Text, codes, ◌==◌, is_empty}
use dockerdynomesh.Text.Order.{text_order}
use dockerdynomesh.Files.{Files, tmp_of, remove, rename}

-- `certInfo`, with times in nanoseconds.
pub record CertInfo : Type 0 where
  pub sans : List Text
  pub not_after : ℕ

pub record Reissuer : Type 0 where
  pub cert_path : Text
  pub key_path : Text
  pub mkcert_bin : Text
  pub ca_root_dir : Text

-- What lies outside of the package. `mkcert` takes the program's name, CAROOT ("" where it is not
-- set), the arguments and the files, and returns its success with the files it leaves. `parse` is the
-- DNS names and the expiry of a certificate file, `none` where it holds no certificate.
-- `rename_works` is what the injected `Rename` answers before it renames.
pub record Tools (A : Type 0) : Type 0 where
  pub mkcert : Text → Text → List Text → Files A → Bool × Files A
  pub parse : A → Option CertInfo
  pub dir : Text → Text
  pub mkdir_works : Text → Bool
  pub rename_works : Text → Text → Bool

-- The errors of `Reissue`, by the step that fails.
pub data ReissueError : Type 0 where
  mkdir_cert mkdir_key mkcert_failed rename_key rename_cert : ReissueError

pub data Reissued : Type 0 where
  reissued : Bool → Reissued
  failed : ReissueError → Reissued

-- `sansEqual`
unfoldable pub sans_equal : List Text → List Text → Bool
sans_equal [] [] = true
sans_equal [] (b ∷ bs) = false
sans_equal (a ∷ as_) [] = false
sans_equal (a ∷ as_) (b ∷ bs) = a == b && sans_equal as_ bs

-- 30*24*time.Hour
abbrev pub thirty_days : ℕ
thirty_days = 30 * 24 * 3600 * 1_000_000_000

module _ {A : Type 0} (tools : Tools A) where
  sorted_info : Option CertInfo → Option CertInfo
  sorted_info none = none
  sorted_info (some cert) = some (record { sans = sort cert.sans; not_after = cert.not_after })

  parse_file : Option A → Option CertInfo
  unfolding sorted_info
  parse_file none = none
  parse_file (some content) = sorted_info (tools.parse content)

  -- `currentSANs`: `none` is an error.
  unfoldable pub current_sans : Reissuer → Files A → Option CertInfo
  unfolding parse_file
  current_sans r fs = parse_file (fs r.cert_path)

  pub up_to_date : ℕ → List Text → Option CertInfo → Bool
  up_to_date now sans none = false
  up_to_date now sans (some cur) = sans_equal cur.sans sans && ltb (now + thirty_days) cur.not_after

  -- `Rename`, by default os.Rename
  unfoldable pub commit : Files A → Text → Text → Option (Files A)
  commit fs old new = if tools.rename_works old new then rename fs old new else none

  -- the two deferred calls of os.Remove
  abbrev pub cleanup : Reissuer → Files A → Files A
  cleanup r fs = remove (remove fs (tmp_of r.key_path)) (tmp_of r.cert_path)

  abbrev pub arguments : Reissuer → List Text → List Text
  arguments r sans =
      codes "-cert-file" ∷ tmp_of r.cert_path ∷ codes "-key-file" ∷ tmp_of r.key_path ∷ sans

  abbrev pub binary : Reissuer → Text
  binary r = if is_empty r.mkcert_bin then codes "mkcert" else r.mkcert_bin

  unfoldable pub rename_second : Reissuer → Files A → Option (Files A) → Reissued × Files A
  rename_second r fs none = (failed rename_cert, fs)
  rename_second r fs (some gs) = (reissued true, gs)

  -- the key is renamed before the certificate
  unfoldable pub rename_first : Reissuer → Files A → Option (Files A) → Reissued × Files A
  unfolding rename_second
  rename_first r fs none = (failed rename_key, fs)
  rename_first r fs (some gs) = rename_second r gs (commit gs (tmp_of r.cert_path) r.cert_path)

  unfoldable pub rename_both : Reissuer → Bool × Files A → Reissued × Files A
  unfolding rename_first
  rename_both r (false, fs) = (failed mkcert_failed, fs)
  rename_both r (true, fs) = rename_first r fs (commit fs (tmp_of r.key_path) r.key_path)

  -- mkcert and the two renames
  unfoldable pub issue : Reissuer → List Text → Files A → Reissued × Files A
  unfolding rename_both
  issue r sans fs = rename_both r (tools.mkcert (binary r) r.ca_root_dir (arguments r sans) fs)

  abbrev pub clean : Reissuer → Reissued × Files A → Reissued × Files A
  clean r (result, fs) = (result, cleanup r fs)

  -- `Reissue`, at the time `now`.
  unfoldable pub reissue : ℕ → Reissuer → List Text → Files A → Reissued × Files A
  unfolding up_to_date issue
  reissue now r sans fs =
      if up_to_date now sans (current_sans r fs)
      then (reissued false, fs)
      else if not (tools.mkdir_works (tools.dir r.cert_path))
      then (failed mkdir_cert, fs)
      else if not (tools.mkdir_works (tools.dir r.key_path))
      then (failed mkdir_key, fs)
      else clean r (issue r sans fs)
