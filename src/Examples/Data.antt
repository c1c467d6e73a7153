-- ===== src/Examples/Data.antt =====
-- The inputs that the examples share.
use dockerdynomesh.Prelude.{
  ℕ, ◌≡◌, refl, ◌∙◌, true, not, List, [], ◌∷◌, Option, none, some, eqb, if◌then◌else◌,
}
use dockerdynomesh.Prelude.Result.{ok}
use dockerdynomesh.Text.{Text, codes, ◌==◌, has_double, ends_in}
use dockerdynomesh.Text.Order.{ne_of_test}
use dockerdynomesh.Files.{Files, put, put_ne}
use dockerdynomesh.Inspect.{
  Config, NetworkSettings, InspectResponse, default_network_name, project_label, service_label,
}
use dockerdynomesh.Certgen.San.{validate_label}
use dockerdynomesh.Text.Label.{matches_label}
use dockerdynomesh.Certgen.Api.{ReissueRequest, ReissueResponse, Payload, validate}
use dockerdynomesh.Certgen.Api.Validation.{IsValid, validate_iff}
use dockerdynomesh.Certgen.Reissue.{CertInfo, Reissuer, Tools}
use dockerdynomesh.Certgen.Reissue.Branches.{HasDistinctPaths, WritesOnlyTemporaries}

-- The part of "80/tcp" in front of the slash.
abbrev pub port_of : Text → Text
port_of [] = []
port_of (c ∷ s) = let p = port_of s in if eqb c b'/' then [] else c ∷ p

abbrev pub lower : ℕ → ℕ
lower c = c

abbrev pub suffixes : List Text
suffixes = codes "test" ∷ []

abbrev pub web_config : Config
web_config = record {
  labels = (project_label, codes "shop") ∷ (service_label, codes "web") ∷ [];
  exposed_ports = codes "80/tcp" ∷ [];
}

abbrev pub endpoints : NetworkSettings
endpoints = record {
  networks = (default_network_name, some (record { ip_address = codes "10.0.0.2" })) ∷ [];
}

-- A compose container.
abbrev pub web : InspectResponse
web = record {
  id = codes "0123456789abcdef";
  name = codes "/shop-web-1";
  config = some web_config;
  network_settings = some endpoints;
}

abbrev pub tool_config : Config
tool_config = record { labels = []; exposed_ports = codes "8080/tcp" ∷ codes "9000/tcp" ∷ [] }

-- A container outside of compose.
abbrev pub tool : InspectResponse
tool = record {
  id = codes "fedcba9876543210";
  name = codes "/tool";
  config = some tool_config;
  network_settings = some endpoints;
}

abbrev pub traefik_config : Config
traefik_config = record { labels = (codes "traefik.enable", codes "true") ∷ []; exposed_ports = [] }

-- A container with Traefik's labels that is attached to no network.
abbrev pub alone : InspectResponse
alone = record {
  id = codes "a";
  name = codes "/alone";
  config = some traefik_config;
  network_settings = some (record { networks = [] });
}

-- The same on another network.
abbrev pub elsewhere : InspectResponse
elsewhere = record {
  id = codes "b";
  name = codes "/elsewhere";
  config = some traefik_config;
  network_settings = some (record { networks = (codes "bridge", none) ∷ [] });
}

abbrev pub request : ReissueRequest
request = record {
  suffixes = suffixes;
  machine_name = codes "box";
  tailnet_domain = codes "tail.net";
  projects = codes "shop" ∷ [];
}

abbrev pub reissuer : Reissuer
reissuer = record { cert_path = codes "c"; key_path = codes "k"; mkcert_bin = []; ca_root_dir = [] }

-- A pair of files holds the names and the expiry that it was made with.
abbrev pub run_mkcert : ℕ → List Text → Files CertInfo → Files CertInfo
run_mkcert not_after (_ ∷ cert ∷ _ ∷ key ∷ sans) fs =
    let info : CertInfo = record { sans = sans; not_after = not_after } in
    put (put fs cert (some info)) key (some info)
run_mkcert not_after _ fs = fs

-- Certificates that are good for ever, and a rename that fails for the path `refused`.
abbrev pub tools : Text → Tools CertInfo
tools refused = record {
  mkcert = λ _ _ args fs. (true, run_mkcert 3_000_000_000_000_000 args fs);
  parse = some;
  dir = λ p. p;
  mkdir_works = λ _. true;
  rename_works = λ old new. not (new == refused);
}

-- The wire of the certificate service carries the request itself.
abbrev pub decode : ℕ → ReissueRequest → Option ReissueRequest
decode limit body = some body

abbrev pub encode : ReissueRequest → Option ReissueRequest
encode body = some body

abbrev pub decode_response : Payload → Option ReissueResponse
decode_response (Payload.reissue_json r) = some r
decode_response _ = none

pub reissuer-HasDistinctPaths : HasDistinctPaths reissuer
unfolding ◌==◌
reissuer-HasDistinctPaths = record {
  cert_key = ne_of_test (codes "c") (codes "k") refl;
  cert_tmp = ne_of_test (codes "c") (codes "c.tmp") refl;
  cert_tmp_key = ne_of_test (codes "c") (codes "k.tmp") refl;
  key_tmp = ne_of_test (codes "k") (codes "k.tmp") refl;
  key_tmp_cert = ne_of_test (codes "k") (codes "c.tmp") refl;
  tmp_tmp = ne_of_test (codes "c.tmp") (codes "k.tmp") refl;
}

pub tools-WritesOnlyTemporaries : (refused : Text) → WritesOnlyTemporaries (tools refused) reissuer
tools-WritesOnlyTemporaries refused = record {
  keeps = λ sans fs p n m.
      put_ne (put fs (codes "c.tmp") _) (codes "k.tmp") p _ m ∙ put_ne fs (codes "c.tmp") p _ n;
}

-- The checks of the service pass for the request.
passes : validate request ≡ ok tt
unfolding validate validate_label matches_label has_double ends_in
passes = refl

pub request-IsValid : IsValid request
request-IsValid = (validate_iff request).0 passes
