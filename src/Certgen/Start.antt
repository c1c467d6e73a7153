-- ===== src/Certgen/Start.antt =====
-- cmd/certgen/main.go and internal/certgen/install.go. `works` says how a call to the operating
-- system ends after the calls that were made before it; `dir` is filepath.Dir. Serving ends with a
-- signal or with an error of the server.
pub mod Sequence
use dockerdynomesh.Prelude.{
  Bool, true, false, List, [], ◌∷◌, ◌++◌, Option, none, some, if◌then◌else◌,
}
use dockerdynomesh.Prelude.Result.{Result, ok, err, ◌>>=◌}
use dockerdynomesh.Text.{Text, codes, is_empty}
use dockerdynomesh.Certgen.Reissue.{Reissuer}

-- The values of the flags, which all have a default.
pub record Flags : Type 0 where
  pub cert : Text
  pub key : Text
  pub socket : Text
  pub mkcert : Text
  pub ca_root : Text

-- The calls of the process; `run` has the program, its arguments and the CAROOT it is given.
pub data Call : Type 0 where
  mkdir_all remove listen chmod_666 : Text → Call
  run : Text → List Text → Option Text → Call
  serve : Reissuer → Call
  shutdown : Call

-- The messages of `log.Fatalf`.
pub data StartError : Type 0 where
  mkdir_ca_root install_ca_failed mkdir_socket_dir listen_failed chmod_failed serve_failed :
      StartError

-- What `select` receives first.
pub data Ended : Type 0 where
  signalled serve_error : Ended

pub data Outcome : Type 0 where
  fatal : StartError → List Call → Outcome
  exited : List Call → Outcome

abbrev pub installation : Text → Text → Call
installation bin ca_root =
    run (if is_empty bin then codes "mkcert" else bin) (codes "-install" ∷ [])
      (if is_empty ca_root then none else some ca_root)

abbrev pub server_of : Flags → Reissuer
server_of f = record {
  cert_path = f.cert;
  key_path = f.key;
  mkcert_bin = f.mkcert;
  ca_root_dir = f.ca_root;
}

-- The server, and what follows the `select`; an error of Shutdown is only logged.
abbrev pub served : Reissuer → Ended → Result (StartError × List Call) (List Call) → Outcome
served r ended (err (e, done)) = fatal e done
served r signalled (ok done) = exited (done ++ (serve r ∷ shutdown ∷ []))
served r serve_error (ok done) = fatal serve_failed (done ++ (serve r ∷ []))

module _ (works : List Call → Call → Bool) where
  -- A call whose error ends the process; `done` is what was called before.
  unfoldable pub call : Call → StartError → List Call → Result (StartError × List Call) (List Call)
  call c e done = if works done c then ok (done ++ (c ∷ [])) else err (e, done ++ (c ∷ []))

  -- `InstallCA`
  unfoldable pub install_ca : Text → Text → List Call → Result (StartError × List Call) (List Call)
  install_ca bin ca_root = call (installation bin ca_root) install_ca_failed

  module _ (dir : Text → Text) where
    -- `main` up to the server; what os.Remove returns is dropped.
    unfoldable pub prepare : Flags → Result (StartError × List Call) (List Call)
    prepare f = do
      a ← call (mkdir_all f.ca_root) mkdir_ca_root []
      b ← install_ca f.mkcert f.ca_root a
      c ← call (mkdir_all (dir f.socket)) mkdir_socket_dir b
      d ← call (listen f.socket) listen_failed (c ++ (remove f.socket ∷ []))
      call (chmod_666 f.socket) chmod_failed d

    -- `main`
    unfoldable pub start : Flags → Ended → Outcome
    start f ended = served (server_of f) ended (prepare f)
