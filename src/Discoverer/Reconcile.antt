-- ===== src/Discoverer/Reconcile.antt =====
-- `reconcileWith` and `reconcile` of cmd/discoverer/reconcile.go. The certificate client, the docker
-- client and `writeOut` are parameters that act on a state of type `W`; a trace records what they were
-- asked to do and how it ended.
pub mod Phases
pub mod Order
pub mod Stale
pub mod Blocked
pub mod Worlds
pub mod Listing
pub mod Issued
pub mod Settings
pub mod Summary
use dockerdynomesh.Prelude.{
  ℕ, Bool, true, false, not, List, [], ◌∷◌, ◌++◌, Option, none, some, if◌then◌else◌,
}
use dockerdynomesh.Prelude.Result.{Result, ok, err}
use dockerdynomesh.Text.{Text, is_empty}
use dockerdynomesh.Inspect.{
  InspectResponse, Routing, skip, route, no_name, from_container, projects_of, default_network_name,
}
use dockerdynomesh.Render.{RenderError}
use dockerdynomesh.Render
use dockerdynomesh.Certgen.Api.{ReissueRequest}
use dockerdynomesh.Certgen.Reissue.{sans_equal}
use dockerdynomesh.Discoverer.Misconfig.{Logged, log_misconfig}

-- The fields of `reconciler` that a reconcile reads or writes. `last_projects` is nil at first, which
-- `reflect.DeepEqual` tells from an empty list.
pub record Reconciler : Type 0 where
  pub out : Text
  pub suffixes : List Text
  pub machine : Text
  pub tailnet : Text
  pub network : Text
  pub last_projects : Option (List Text)
  pub logged_misconfig : Logged

-- What the reconciler asked for; the flag says whether it succeeded.
pub data Effect : Type 0 where
  reissue : ReissueRequest → Bool → Effect
  write : Text → Text → Bool → Effect
  warn : Text → Effect

-- The functions that the reconciler is given. `list` and `inspect` are the docker client's.
pub record Services (W : Type 0) : Type 0 where
  pub certgen : ReissueRequest → W → Bool × W
  pub write_out : Text → Text → W → Bool × W
  pub render : Render.Config → Result RenderError Text
  pub list : W → Option (List Text) × W
  pub inspect : Text → W → Option InspectResponse × W
  pub port_of : Text → Text
  pub lower : ℕ → ℕ

pub data ReconcileError : Type 0 where
  list_failed reissue_failed write_failed : ReconcileError
  render_failed : RenderError → ReconcileError

pub record State (W : Type 0) : Type 0 where
  pub reconciler : Reconciler
  pub world : W
  pub trace : List Effect

-- reflect.DeepEqual(projects, r.lastProjects)
abbrev pub same_projects : List Text → Option (List Text) → Bool
same_projects projects none = false
same_projects projects (some last) = sans_equal projects last

-- The network that the reconciler looks at.
abbrev pub network_of : Reconciler → Text
network_of r = if is_empty r.network then default_network_name else r.network

abbrev pub request_of : Reconciler → List Text → ReissueRequest
request_of r projects = record {
  suffixes = r.suffixes;
  machine_name = r.machine;
  tailnet_domain = r.tailnet;
  projects = projects;
}

abbrev pub render_container : Text → Text → Render.Container
render_container host addr = record {
  project = [];
  service = [];
  name = [];
  hostname = host;
  address = addr;
}

abbrev pub config_of : Reconciler → List Render.Container → Render.Config
config_of r containers = record {
  suffixes = r.suffixes;
  machine_name = r.machine;
  tailnet_domain = r.tailnet;
  containers = containers;
}

-- The containers of the configuration: those with a route.
abbrev pub add_route : Routing → List Render.Container → List Render.Container
add_route (route host addr) rest = render_container host addr ∷ rest
add_route _ rest = rest

module _ {W : Type 0} (services : Services W) where
  pub routes : Text → List InspectResponse → List Render.Container
  routes network [] = []
  routes network (c ∷ cs) =
      add_route (from_container services.port_of services.lower c network) (routes network cs)

  abbrev warning : Text → Bool → List Effect
  warning id true = warn id ∷ []
  warning id false = []

  -- The calls of `logMisconfigIfNeeded` in the loop over the containers.
  pub warnings : Text → List InspectResponse → Logged → Logged × List Effect
  warnings network [] logged = (logged, [])
  warnings network (c ∷ cs) logged =
      let (next, warned) = log_misconfig c network logged in
      let (last, effects) = warnings network cs next in (last, warning c.id warned ++ effects)

  call_certgen : ReissueRequest → State W → Bool × State W
  call_certgen request s =
      let (works, world) = services.certgen request s.world in
      (works, record s { world = world; trace = s.trace ++ (reissue request works ∷ []) })

  -- The first part: a reissue unless the projects are those of the last success.
  pub ensure_certificate : List Text → State W → Bool × State W
  unfolding call_certgen
  ensure_certificate projects s =
      if same_projects projects s.reconciler.last_projects
      then (true, s)
      else call_certgen (request_of s.reconciler projects) s

  -- The loop: warnings are logged and remembered.
  pub log_warnings : List InspectResponse → State W → State W
  unfolding warnings
  log_warnings cs s =
      let (logged, effects) = warnings (network_of s.reconciler) cs s.reconciler.logged_misconfig in
      record s {
        reconciler = record s.reconciler { logged_misconfig = logged };
        trace = s.trace ++ effects;
      }

  promote : List Text → Bool × State W → Result ReconcileError (Unit {0}) × State W
  promote projects (true, s) =
      (ok tt, record s { reconciler = record s.reconciler { last_projects = some projects } })
  promote projects (false, s) = (err write_failed, s)

  write_config : Text → State W → Bool × State W
  write_config yaml s =
      let (works, world) = services.write_out s.reconciler.out yaml s.world in
      (
        works,
        record s { world = world; trace = s.trace ++ (write s.reconciler.out yaml works ∷ []) },
      )

  -- The last part: render, write, and remember the projects.
  pub publish :
      List Text → Result RenderError Text → State W → Result ReconcileError (Unit {0}) × State W
  unfolding promote write_config
  publish projects (err e) s = (err (render_failed e), s)
  publish projects (ok yaml) s = promote projects (write_config yaml s)

  pub finish : List InspectResponse → Bool × State W → Result ReconcileError (Unit {0}) × State W
  unfolding publish log_warnings routes
  finish cs (false, s) = (err reissue_failed, s)
  finish cs (true, s) =
      publish (projects_of cs)
        (services.render (config_of s.reconciler (routes (network_of s.reconciler) cs)))
        (log_warnings cs s)

  -- `reconcileWith`
  unfoldable pub reconcile_with :
      List InspectResponse → State W → Result ReconcileError (Unit {0}) × State W
  unfolding ensure_certificate finish
  reconcile_with cs s = finish cs (ensure_certificate (projects_of cs) s)

  -- `listEligible`: a container whose inspection fails is left out.
  abbrev keep : Option InspectResponse → List InspectResponse → List InspectResponse
  keep none cs = cs
  keep (some c) cs = c ∷ cs

  inspect_all : List Text → W → List InspectResponse × W
  inspect_all [] w = ([], w)
  inspect_all (id ∷ ids) w =
      let (c, w') = services.inspect id w in let (cs, w'') = inspect_all ids w' in (keep c cs, w'')

  abbrev listed : Option (List Text) × W → Option (List InspectResponse) × W
  listed (none, w) = (none, w)
  listed (some ids, w) = let (cs, w') = inspect_all ids w in (some cs, w')

  unfoldable pub list_eligible : W → Option (List InspectResponse) × W
  unfolding inspect_all
  list_eligible w = listed (services.list w)

  with_list :
      State W → Option (List InspectResponse) × W → Result ReconcileError (Unit {0}) × State W
  with_list s (none, w) = (err list_failed, record s { world = w })
  with_list s (some cs, w) = reconcile_with cs (record s { world = w })

  -- `reconcile`
  unfoldable pub reconcile : State W → Result ReconcileError (Unit {0}) × State W
  unfolding list_eligible with_list reconcile_with
  reconcile s = with_list s (list_eligible s.world)
