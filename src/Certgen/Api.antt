-- ===== src/Certgen/Api.antt =====
-- internal/certgen/api.go: the HTTP handlers. `decode` stands for encoding/json on a body of at most
-- the given number of bytes. The mutex makes each handler one step on the files.
pub mod Validation
pub mod Arguments
use dockerdynomesh.Prelude.{
  ℕ, ◌*◌, Bool, true, false, not, ◌&&◌, ◌||◌, List, [], ◌∷◌, Option, none, some, if◌then◌else◌,
}
use dockerdynomesh.Prelude.Result.{Result, ok, err, require, ◌>>=◌, ◌>>◌}
use dockerdynomesh.Text.{Text, codes, ◌==◌, is_empty}
use dockerdynomesh.Files.{Files}
use dockerdynomesh.Certgen.San.{validate_label, sans}
use dockerdynomesh.Certgen.Reissue.{
  CertInfo, Reissuer, Tools, ReissueError, Reissued, reissued, failed, current_sans, reissue,
}

pub record ReissueRequest : Type 0 where
  pub suffixes : List Text
  pub machine_name : Text
  pub tailnet_domain : Text
  pub projects : List Text

pub record ReissueResponse : Type 0 where
  pub reissued : Bool
  pub sans : List Text

-- `StatusResponse`; the expiry is kept as a time, which the code formats by RFC 3339.
pub record StatusResponse : Type 0 where
  pub sans : List Text
  pub not_after : ℕ

-- The messages of `http.Error`.
pub data Message : Type 0 where
  method_not_allowed bad_json suffixes_required : Message
  invalid_suffix invalid_project : Text → Message
  invalid_machine_name invalid_tailnet_domain no_certificate not_found : Message
  reissue_failed : ReissueError → Message

pub data Payload : Type 0 where
  empty : Payload
  message : Message → Payload
  reissue_json : ReissueResponse → Payload
  status_json : StatusResponse → Payload

pub record Response : Type 0 where
  pub status : ℕ
  pub payload : Payload

abbrev pub http_error : ℕ → Message → Response
http_error status m = record { status = status; payload = message m }

pub check_labels : (Text → Message) → List Text → Result Message (Unit {0})
check_labels invalid [] = ok tt
check_labels invalid (s ∷ rest) = do
  require (validate_label s) (invalid s)
  check_labels invalid rest

abbrev pub given_label : Text → Bool
given_label s = is_empty s || validate_label s

abbrev pub is_none : List Text → Bool
is_none [] = true
is_none (_ ∷ _) = false

-- The checks of `handleReissue` on the decoded body.
unfoldable pub validate : ReissueRequest → Result Message (Unit {0})
unfolding check_labels
validate body = do
  require (not (is_none body.suffixes)) suffixes_required
  check_labels invalid_suffix body.suffixes
  require (given_label body.machine_name) invalid_machine_name
  require (given_label body.tailnet_domain) invalid_tailnet_domain
  check_labels invalid_project body.projects

abbrev pub requested_sans : ReissueRequest → List Text
requested_sans body = sans body.suffixes body.machine_name body.tailnet_domain body.projects

-- The answer to a reissue.
abbrev pub answer : List Text → Reissued → Response
answer names (failed e) = http_error 500 (reissue_failed e)
answer names (reissued false) = record { status = 204; payload = empty }
answer names (reissued true) = record {
  status = 200;
  payload = reissue_json (record { reissued = true; sans = names });
}

abbrev pub max_body : ℕ
max_body = 64 * 1024

module _ {A Wire : Type 0} (tools : Tools A) (decode : ℕ → Wire → Option ReissueRequest)
    (r : Reissuer) where
  -- `handleReissue` behind the checks
  pub run_reissue : ℕ → ReissueRequest → Files A → Response × Files A
  run_reissue now body fs =
      let (result, gs) = reissue tools now r (requested_sans body) fs in
      (answer (requested_sans body) result, gs)

  unfoldable pub validated :
      ℕ → ReissueRequest → Result Message (Unit {0}) → Files A → Response × Files A
  unfolding run_reissue
  validated now body (err m) fs = (http_error 400 m, fs)
  validated now body (ok _) fs = run_reissue now body fs

  unfoldable pub decoded : ℕ → Option ReissueRequest → Files A → Response × Files A
  unfolding validated
  decoded now none fs = (http_error 400 bad_json, fs)
  decoded now (some body) fs = validated now body (validate body) fs

  -- `handleReissue`
  unfoldable pub handle_reissue : ℕ → Text → Wire → Files A → Response × Files A
  unfolding decoded
  handle_reissue now method body fs =
      if not (method == codes "POST")
      then (http_error 405 method_not_allowed, fs)
      else decoded now (decode max_body body) fs

  pub status_of : Option CertInfo → Response
  status_of none = http_error 503 no_certificate
  status_of (some info) = record {
    status = 200;
    payload = status_json (record { sans = info.sans; not_after = info.not_after });
  }

  -- `handleStatus`
  unfoldable pub handle_status : Text → Files A → Response
  unfolding status_of
  handle_status method fs =
      if not (method == codes "GET")
      then http_error 405 method_not_allowed
      else status_of (current_sans tools r fs)

  -- `Routes`
  unfoldable pub serve : ℕ → Text → Text → Wire → Files A → Response × Files A
  serve now path method body fs =
      if path == codes "/reissue"
      then handle_reissue now method body fs
      else if path == codes "/status"
      then (handle_status method fs, fs)
      else (http_error 404 not_found, fs)
