-- ===== src/Examples/Systems.antt =====
-- The parts together.
use mathlib.Core.List.Permᴰ
use mathlib.Core.Option.{some-injective}
use dockerdynomesh.Prelude.{
  false, ◌≡◌, refl, sym, ◌∙◌, true, List, [], ◌∷◌, none, some, if◌then◌else◌,
}
use dockerdynomesh.Text.{codes, ◌==◌}
use dockerdynomesh.Files.{put}
use dockerdynomesh.Inspect.{projects_of}
use dockerdynomesh.Certgen.Reissue.{CertInfo}
use dockerdynomesh.Certgen.Reissue.Names.{MakesCertificate}
use dockerdynomesh.Certgen.Api.{ReissueRequest}
use dockerdynomesh.Discoverer.AtomicWrite.{Calls}
use dockerdynomesh.Discoverer.Reconcile.{State, reconcile, reconcile_with}
use dockerdynomesh.Discoverer.System.{World, Platform, services}
use dockerdynomesh.Discoverer.System.Deployed.{IsSound, Deployed}
use dockerdynomesh.Certclient.{answering}
use dockerdynomesh.Render.{routers}
use dockerdynomesh.Discoverer.System.Unrenewed.{unrenewed}
use dockerdynomesh.Examples.Data.{
  suffixes, port_of, lower, web, tool, reissuer, tools, reissuer-HasDistinctPaths,
  tools-WritesOnlyTemporaries, decode, encode, decode_response,
}

abbrev pub platform : Platform CertInfo ReissueRequest
platform = record {
  tools = tools [];
  reissuer = reissuer;
  decode = decode;
  encode = encode;
  decode_response = decode_response;
  socket = codes "/s";
  sort_slice = λ routers. routers;
  port_of = port_of;
  lower = lower;
}

tools-MakesCertificate : MakesCertificate (tools []) reissuer
unfolding put ◌==◌
tools-MakesCertificate = record { makes = λ sans fs h. (_, _, refl, refl, Permᴰ.refl sans) }

pub platform-IsSound : IsSound platform
platform-IsSound = record {
  paths = reissuer-HasDistinctPaths;
  only = tools-WritesOnlyTemporaries [];
  makes = tools-MakesCertificate;
  faithful = record {
    request = λ sent read body e f. sym (some-injective _ _ (e ∙ f));
    response = λ r. refl;
  };
}

abbrev all_works : Calls
all_works = record {
  mkdir = true;
  open_file = true;
  write_all = true;
  sync = true;
  close = true;
  rename_works = true;
  partial = [];
}

abbrev pub world : World CertInfo
world = record {
  certs = λ path. none;
  configs = λ path. none;
  now = 0;
  faults = all_works;
  link = answering;
  in_doubt = false;
  listing = some (web.id ∷ []);
  containers = λ id. some web;
}

abbrev first : State (World CertInfo)
first = record {
  reconciler = record {
    out = codes "d.yml";
    suffixes = suffixes;
    machine = [];
    tailnet = [];
    network = [];
    last_projects = none;
    logged_misconfig = [];
  };
  world = world;
  trace = [];
}

abbrev after : World CertInfo
after = (reconcile (services platform) first).1.world

-- Another container has started, and a year has passed.
abbrev later : World CertInfo
later = record after {
  now = 31_536_000_000_000_000;
  listing = some (web.id ∷ tool.id ∷ []);
  containers = λ id. some (if id == tool.id then tool else web);
}

abbrev second : State (World CertInfo)
second = record (reconcile (services platform) first).1 { world = later }

-- The remembered projects are those of `web`, and a certificate stands on disk that has expired.
abbrev settled : State (World CertInfo)
settled = record {
  reconciler = record first.reconciler { last_projects = some (projects_of (web ∷ [])) };
  world = record later { certs = λ path. some (record { sans = []; not_after = 0 }) };
  trace = [];
}

unrenewed_example :
    (reconcile_with (services platform) (web ∷ []) settled).1.world.certs ≡ settled.world.certs
unrenewed_example = unrenewed platform (web ∷ []) settled refl
