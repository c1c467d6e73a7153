-- ===== src/Render.antt =====
-- internal/render/render.go: Traefik's dynamic configuration. `sort_slice` stands for `sort.Slice`
-- by router name, which does not promise an order for equal names.
pub mod Success
pub mod Hosts
pub mod Stable
pub mod Collide
use mathlib.Core.List.{flatten}
use dockerdynomesh.Prelude.{
  ℕ, Bool, true, false, not, ◌&&◌, ◌||◌, List, [], ◌∷◌, ◌++◌, map, if◌then◌else◌,
}
use dockerdynomesh.Prelude.Result.{Result, ok, err, require, ◌>>=◌, ◌>>◌}
use dockerdynomesh.Prelude.Sort.{sort}
use dockerdynomesh.Text.{Text, codes, is_empty, join, dots_to_hyphens}
use dockerdynomesh.Text.Order.{text_order}
use dockerdynomesh.Text.Label.{matches_label}
use dockerdynomesh.Certgen.San.{dotted}

pub record Container : Type 0 where
  pub project : Text
  pub service : Text
  pub name : Text
  pub hostname : Text
  pub address : Text

pub record Config : Type 0 where
  pub suffixes : List Text
  pub machine_name : Text
  pub tailnet_domain : Text
  pub containers : List Container

pub record RenderRouter : Type 0 where
  pub name : Text
  pub rule : Text
  pub address : Text

-- The errors of `Render`, with what they name.
pub data RenderError : Type 0 where
  suffixes_required : RenderError
  unsafe_suffix unsafe_machine_name unsafe_tailnet_domain unsafe_hostname : Text → RenderError
  missing_field : Container → RenderError

-- `hostnameRE.MatchString`
abbrev pub hostname_re : Text → Bool
hostname_re = matches_label

pub check_suffixes : List Text → Result RenderError (Unit {0})
check_suffixes [] = ok tt
check_suffixes (s ∷ suffixes) = do
  require (hostname_re s) (unsafe_suffix s)
  check_suffixes suffixes

-- The host names of a container: one below each suffix, and the remote one.
unfoldable pub host_names : List Text → Text → Text → Text → List Text
host_names suffixes machine tailnet hostname =
    map (dotted hostname) suffixes
    ++ (if not (is_empty machine) && not (is_empty tailnet)
        then dotted hostname (dotted machine tailnet) ∷ []
        else [])

-- fmt.Sprintf("Host(`%s`)", host)
abbrev pub host_matcher : Text → Text
host_matcher host = codes "Host(`" ++ (host ++ codes "`)")

unfoldable pub rule_of : List Text → Text
rule_of hosts = join (codes " || ") (map host_matcher hosts)

abbrev pub router_of : List Text → Text → Text → Container → RenderRouter
router_of suffixes machine tailnet c = record {
  name = dots_to_hyphens c.hostname;
  rule = rule_of (host_names suffixes machine tailnet c.hostname);
  address = c.address;
}

-- The body of the loop over the containers.
pub router : List Text → Text → Text → Container → Result RenderError RenderRouter
router suffixes machine tailnet c = do
  require (not (is_empty c.hostname || is_empty c.address)) (missing_field c)
  require (hostname_re c.hostname) (unsafe_hostname c.hostname)
  ok (router_of suffixes machine tailnet c)

unfoldable pub routers :
    List Text → Text → Text → List Container → Result RenderError (List RenderRouter)
unfolding router
routers suffixes machine tailnet [] = ok []
routers suffixes machine tailnet (c ∷ cs) = do
  r ← router suffixes machine tailnet c
  rs ← routers suffixes machine tailnet cs
  ok (r ∷ rs)

-- The template `tmpl`: two ranges over the routers.
abbrev router_lines : RenderRouter → List Text
router_lines r =
    codes "\n    "
    ∷ r.name
    ∷ codes ":\n      entryPoints:\n        - websecure\n      rule: "
    ∷ r.rule
    ∷ codes "\n      service: "
    ∷ r.name
    ∷ codes "\n      tls: {}\n    "
    ∷ r.name
    ∷ codes "-http:\n      entryPoints:\n        - web\n      rule: "
    ∷ r.rule
    ∷ codes "\n      service: "
    ∷ r.name
    ∷ codes "\n      middlewares:\n        - redirect-to-https"
    ∷ []

abbrev service_lines : RenderRouter → List Text
service_lines r =
    codes "\n    "
    ∷ r.name
    ∷ codes ":\n      loadBalancer:\n        servers:\n          - url: http://"
    ∷ r.address
    ∷ []

unfoldable pub template : List RenderRouter → Text
template rs = flatten (
    codes "http:\n  routers:"
    ∷ flatten (map (λ r. flatten (router_lines r)) rs)
    ∷ codes "\n  services:"
    ∷ flatten (map (λ r. flatten (service_lines r)) rs)
    ∷ codes "\n"
    ∷ [])

-- The checks in front of the loop, with the sorted suffixes.
pub check_config : Config → Result RenderError (Unit {0})
unfolding check_suffixes
check_config cfg = do
  check_suffixes (sort cfg.suffixes)
  require (is_empty cfg.machine_name || hostname_re cfg.machine_name)
      (unsafe_machine_name cfg.machine_name)
  require (is_empty cfg.tailnet_domain || hostname_re cfg.tailnet_domain)
      (unsafe_tailnet_domain cfg.tailnet_domain)

abbrev pub is_none : List Text → Bool
is_none [] = true
is_none (_ ∷ _) = false

-- `Render`
unfoldable pub render : (List RenderRouter → List RenderRouter) → Config → Result RenderError Text
unfolding check_config
render sort_slice cfg = do
  require (not (is_none cfg.suffixes)) suffixes_required
  check_config cfg
  rs ← routers (sort cfg.suffixes) cfg.machine_name cfg.tailnet_domain cfg.containers
  ok (template (sort_slice rs))
