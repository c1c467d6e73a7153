-- ===== src/Welcome.antt =====
-- internal/welcome/handlers.go and cmd/welcome/main.go: the pages by which a machine of the tailnet
-- gets the root certificate. `index_page` stands for html/template on the embedded index. `listen`
-- stands for `net.Listen`, which binds an address or not according to the addresses that the process
-- has bound before. `clean_path` and `moved` stand for `http.ServeMux`: how it cleans a path, and the
-- page by which it redirects to a cleaned one.
pub mod Script
pub mod Install
pub mod Config
pub mod Pages
pub mod Serving
use dockerdynomesh.Prelude.{
  ℕ, Bool, true, false, not, ◌&&◌, ◌||◌, List, [], ◌∷◌, ◌++◌, Option, none, some, if◌then◌else◌,
}
use dockerdynomesh.Prelude.Result.{Result, ok, err, require, ◌>>=◌, ◌>>◌}
use dockerdynomesh.Text.{Text, codes, ◌==◌, is_empty, split_commas, trim_space}
use dockerdynomesh.Files.{Files}
use dockerdynomesh.Certgen.San.{validate_label, dotted}
use dockerdynomesh.Welcome.Script.{
  before_machine, before_setup, before_tls, before_file, after_file,
}
use dockerdynomesh.Certgen.Api.{given_label}
use dockerdynomesh.Discoverer.Start.{env_or, flag_or}

-- The fields of `Server` but the parsed templates.
pub record Server : Type 0 where
  pub machine_name : Text
  pub suffix : Text
  pub tailnet_host : Text
  pub setup_host : Text
  pub root_cert_path : Text

pub data StartError : Type 0 where
  invalid_machine invalid_tailnet invalid_suffix : Text → StartError
  listen_failed : Text → StartError
  no_addresses : StartError

-- `validateConfig`
unfoldable pub validate_config : Text → Text → Text → Result StartError (Unit {0})
validate_config machine tailnet suffix = do
  require (given_label machine) (invalid_machine machine)
  require (given_label tailnet) (invalid_tailnet tailnet)
  require (validate_label suffix) (invalid_suffix suffix)

-- The two hosts, which are empty unless machine and tailnet are both set.
abbrev pub both_given : Text → Text → Bool
both_given machine tailnet = not (is_empty machine) && not (is_empty tailnet)

abbrev pub tailnet_host_of : Text → Text → Text
tailnet_host_of machine tailnet = if both_given machine tailnet then dotted machine tailnet else []

abbrev pub setup_host_of : Text → Text → Text
setup_host_of machine tailnet =
    if both_given machine tailnet then codes "setup." ++ dotted machine tailnet else []

-- `New`; the embedded templates parse.
abbrev pub new_server : Text → Text → Text → Text → Text → Server
new_server machine suffix tailnet_host setup_host root = record {
  machine_name = machine;
  suffix = suffix;
  tailnet_host = tailnet_host;
  setup_host = setup_host;
  root_cert_path = root;
}

-- The loop over the addresses, behind those that are bound: the first that cannot be is fatal.
pub listen_all : (List Text → Text → Bool) → List Text → List Text → Result StartError (List Text)
listen_all listen listeners [] = ok listeners
listen_all listen listeners (raw ∷ parts) =
    let addr = trim_space raw in
    let skipped = listen_all listen listeners parts in
    let rest = listen_all listen (listeners ++ (addr ∷ [])) parts in
    if is_empty addr then skipped else require (listen listeners addr) (listen_failed addr) >> rest

abbrev pub some_address : List Text → Result StartError (List Text)
some_address [] = err no_addresses
some_address (a ∷ listeners) = ok (a ∷ listeners)

-- The values of the flags.
pub record Flags : Type 0 where
  pub listen : Text
  pub machine : Text
  pub suffix : Text
  pub tailnet : Text
  pub root : Text

-- The flags on the command line; `none` where one is not given.
pub record Given : Type 0 where
  pub listen : Option Text
  pub machine : Option Text
  pub suffix : Option Text
  pub tailnet : Option Text
  pub root : Option Text

-- The flags with their defaults; `env` is `os.Getenv`.
unfoldable pub flags_of : (Text → Text) → Given → Flags
flags_of env g = record {
  listen = flag_or g.listen (codes "127.0.0.1:80");
  machine = flag_or g.machine (env (codes "MACHINE_NAME"));
  suffix = flag_or g.suffix (env_or env (codes "SUFFIX") (codes "docker.localhost"));
  tailnet = flag_or g.tailnet (env (codes "TAILNET_DOMAIN"));
  root = flag_or g.root (codes "/shared/ca/rootCA.pem");
}

-- `main` up to where it serves: the server, and the addresses that it listens on.
unfoldable pub start : (List Text → Text → Bool) → Flags → Result StartError (Server × List Text)
unfolding listen_all
start listen f = do
  validate_config f.machine f.tailnet f.suffix
  let srv =
      new_server f.machine f.suffix (tailnet_host_of f.machine f.tailnet)
        (setup_host_of f.machine f.tailnet) f.root
  bound ← listen_all listen [] (split_commas f.listen)
  listeners ← some_address bound
  ok (srv, listeners)

-- What a handler writes.
pub record Page : Type 0 where
  pub status : ℕ
  pub content_type : Text
  pub disposition : Option Text
  pub body : Text

abbrev pub plain_text : Text
plain_text = codes "text/plain; charset=utf-8"

abbrev pub http_error : ℕ → Text → Page
http_error status text = record {
  status = status;
  content_type = plain_text;
  disposition = none;
  body = text ++ codes "\n";
}

-- The template templates/install.sh.tmpl, executed: text/template inserts the fields as they are.
unfoldable pub install_script : Server → Text
install_script s =
    before_machine
    ++ (s.machine_name
        ++ (before_setup
            ++ (s.setup_host
                ++ (b'"'
                    ∷ (before_tls
                        ++ (s.tailnet_host
                            ++ (b'"' ∷ (before_file ++ (s.machine_name ++ after_file)))))))))

-- `handleIndex`
unfoldable pub handle_index : (Server → Text) → Server → Text → Page
handle_index index_page s path =
    if not (path == codes "/") then http_error 404 (codes "404 page not found") else record {
      status = 200;
      content_type = codes "text/html; charset=utf-8";
      disposition = none;
      body = index_page s;
    }

-- `handleRootCert`
abbrev pub root_page : Option Text → Page
root_page none = http_error 503 (codes "root cert not yet available")
root_page (some cert) = record {
  status = 200;
  content_type = codes "application/x-x509-ca-cert";
  disposition = some (codes "attachment; filename=\"root.crt\"");
  body = cert;
}

unfoldable pub handle_root_cert : Server → Files Text → Page
handle_root_cert s fs = root_page (fs s.root_cert_path)

-- `handleInstall`
unfoldable pub handle_install : Server → Page
handle_install s = record {
  status = 200;
  content_type = codes "text/x-shellscript; charset=utf-8";
  disposition = none;
  body = install_script s;
}

-- `Routes`: the multiplexer redirects a path that is not clean; of the others the pattern "/" takes
-- every one that the other two do not.
unfoldable pub serve :
    (Text → Text) → (Text → Page) → (Server → Text) → Server → Files Text → Text → Page
serve clean_path moved index_page s fs path =
    if not (clean_path path == path)
    then moved (clean_path path)
    else if path == codes "/root.crt"
    then handle_root_cert s fs
    else if path == codes "/install.sh"
    then handle_install s
    else handle_index index_page s path
