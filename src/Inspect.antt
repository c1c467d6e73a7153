-- ===== src/Inspect.antt =====
-- internal/inspect/inspect.go: routing data of a container. A Go map is an association list with
-- distinct keys; the order of the list stands for the order in which `range` visits the map.
-- `port_of` is the method `Port` of go-connections' `nat.Port`, and `lower` is the Unicode table of
-- `strings.ToLower` beyond ASCII.
pub mod Ports
pub mod Routes
pub mod Networks
pub mod Projects
pub mod Order
use dockerdynomesh.Prelude.{
  ℕ, Bool, true, false, not, ◌&&◌, ◌||◌, List, [], ◌∷◌, ◌++◌, map, any, take, Option, none, some,
  ltb, if◌then◌else◌,
}
use dockerdynomesh.Prelude.Int.{ℤ, pos, negsuc, int_eq, int_order}
use dockerdynomesh.Prelude.Sort.{sort}
use dockerdynomesh.Text.{Text, codes, ◌==◌, is_empty, has_prefix, trim_prefix, to_lower}
use dockerdynomesh.Text.Order.{text_order}
use dockerdynomesh.Text.Number.{atoi, format_int}
use dockerdynomesh.Certgen.San.{dotted}

-- `container.Config`, as far as the program reads it.
pub record Config : Type 0 where
  pub labels : List (Text × Text)
  pub exposed_ports : List Text

-- `network.EndpointSettings`
pub record Endpoint : Type 0 where
  pub ip_address : Text

-- `container.NetworkSettings`; an endpoint may be a nil pointer.
pub record NetworkSettings : Type 0 where
  pub networks : List (Text × Option Endpoint)

-- `container.InspectResponse`; `none` is a nil pointer.
pub record InspectResponse : Type 0 where
  pub id : Text
  pub name : Text
  pub config : Option Config
  pub network_settings : Option NetworkSettings

-- `DefaultNetworkName`, `PortLabel` and the labels that are read.
abbrev pub default_network_name : Text
default_network_name = codes "dynomesh-net"

abbrev pub port_label : Text
port_label = codes "dynomesh.port"

abbrev pub project_label : Text
project_label = codes "com.docker.compose.project"

abbrev pub service_label : Text
service_label = codes "com.docker.compose.service"

abbrev pub traefik_prefix : Text
traefik_prefix = codes "traefik."

abbrev pub traefik_network_label : Text
traefik_network_label = codes "traefik.docker.network"

-- m[k], with ok = false for a missing key
unfoldable pub lookup {ℓ} : {V : Type ℓ} → Text → List (Text × V) → Option V
lookup k [] = none
lookup k ((j, v) ∷ m) = if j == k then some v else lookup k m

-- m[k] of a map of strings: the zero value for a missing key
abbrev pub or_zero : Option Text → Text
or_zero none = []
or_zero (some v) = v

abbrev pub label : Text → List (Text × Text) → Text
label k m = or_zero (lookup k m)

-- the loop over the labels
abbrev pub has_traefik_label : List (Text × Text) → Bool
has_traefik_label = any (λ l. has_prefix l.0 traefik_prefix)

-- id[:12], where it is longer
abbrev pub short_id : Text → Text
short_id = take 12

-- `networkIP`
abbrev ip_of : Option (Option Endpoint) → Text
ip_of (some (some ep)) = ep.ip_address
ip_of _ = []

pub ip_in : Text → Option NetworkSettings → Text
ip_in network none = []
ip_in network (some s) = ip_of (lookup network s.networks)

unfoldable pub network_ip : InspectResponse → Text → Text
unfolding ip_in
network_ip c network = ip_in network c.network_settings

-- the label's port, if it is a number from 1 to 65535
unfoldable pub in_range : ℤ → Option ℤ
in_range (pos p) = if ltb 0 p && ltb p 65536 then some (pos p) else none
in_range (negsuc p) = none

abbrev pub port_in_range : Option ℤ → Option ℤ
port_in_range none = none
port_in_range (some p) = in_range p

unfoldable pub labelled_port : Text → Option ℤ
unfolding in_range
labelled_port v = if is_empty v then none else port_in_range (atoi v)

-- the loop over the exposed ports, and the two loops over the favourites
abbrev collect : Option ℤ → List ℤ → List ℤ
collect none ns = ns
collect (some n) ns = n ∷ ns

unfoldable pub port_numbers : (Text → Text) → List Text → List ℤ
port_numbers port_of [] = []
port_numbers port_of (p ∷ ports) = collect (atoi (port_of p)) (port_numbers port_of ports)

unfoldable pub first_favourite : List ℕ → List ℤ → Option ℤ
first_favourite [] exposed = none
first_favourite (fav ∷ favs) exposed =
    if any (int_eq (pos fav)) exposed then some (pos fav) else first_favourite favs exposed

abbrev pub favourites : List ℕ
favourites = 80 ∷ 8080 ∷ 8000 ∷ []

unfoldable pub choose_exposed : List ℤ → Option ℤ
choose_exposed (p ∷ []) = some p
choose_exposed exposed = first_favourite favourites exposed

-- `selectPort`
unfoldable pub select_port : (Text → Text) → Config → Option ℤ
unfolding labelled_port
select_port port_of config = elim (labelled_port (label port_label config.labels)) [
  | some p ↦ some p
  | none ↦ choose_exposed (sort (port_numbers port_of config.exposed_ports))
]

-- `inferHostname`
unfoldable pub infer_hostname : (ℕ → ℕ) → Text → Config → Text
infer_hostname lower name config =
    let project = label project_label config.labels in
    let service = label service_label config.labels in
    to_lower lower (
      if not (is_empty project) && not (is_empty service)
      then dotted service project
      else trim_prefix name (codes "/"))

-- The three outcomes of `FromContainer`: ok = false, a route, an error.
pub data Routing : Type 0 where
  skip : Routing
  route : Text → Text → Routing
  no_name : Text → Routing

-- fmt.Sprintf("%s:%d", ip, port)
abbrev pub address : Text → ℤ → Text
address ip port = ip ++ (b':' ∷ format_int port)

-- `FromContainer` behind the choice of a port
pub named_route : Text → Text → Text → Option ℤ → Routing
named_route id hostname ip none = skip
named_route id hostname ip (some port) =
    if is_empty hostname then no_name (short_id id) else route hostname (address ip port)

-- `FromContainer` behind the test of `c.Config`, at the address `ip`
pub from_config : (Text → Text) → (ℕ → ℕ) → InspectResponse → Text → Option Config → Routing
unfolding named_route
from_config port_of lower c ip none = skip
from_config port_of lower c ip (some config) =
    if has_traefik_label config.labels
    then skip
    else if is_empty ip
    then skip
    else named_route c.id (infer_hostname lower c.name config) ip (select_port port_of config)

-- `FromContainer`
unfoldable pub from_container : (Text → Text) → (ℕ → ℕ) → InspectResponse → Text → Routing
unfolding from_config
from_container port_of lower c network = from_config port_of lower c (network_ip c network) c.config

-- The networks that the container is attached to, sorted.
unfoldable pub attached : NetworkSettings → List Text
attached s = sort (map (λ n. n.0) s.networks)

-- The network that Traefik would use.
unfoldable pub target_network : Config → Text → Text
target_network config network =
    let override = label traefik_network_label config.labels in
    if not (is_empty override) then override else network

-- `LabeledMissingNetwork`: `some` holds the networks of a misconfigured container.
pub missing_network : Text → Option Config → Option NetworkSettings → Option (List Text)
missing_network network (some config) (some settings) =
    if not (has_traefik_label config.labels)
    then none
    else if any (λ n. n == target_network config network) (attached settings)
    then none
    else some (attached settings)
missing_network network _ _ = none

unfoldable pub labeled_missing_network : InspectResponse → Text → Option (List Text)
unfolding missing_network
labeled_missing_network c network = missing_network network c.config c.network_settings

-- The project label of a container, "" where there is none.
abbrev pub project_in : Option Config → Text
project_in none = []
project_in (some config) = label project_label config.labels

abbrev pub project_of : InspectResponse → Text
project_of c = project_in c.config

-- A map whose values are empty structs, by its keys.
add_key : Text → List Text → List Text
add_key p seen = if any (◌==◌ p) seen then seen else seen ++ (p ∷ [])

seen_projects : List Text → List InspectResponse → List Text
unfolding add_key
seen_projects seen [] = seen
seen_projects seen (c ∷ cs) =
    seen_projects (if is_empty (project_of c) then seen else add_key (project_of c) seen) cs

-- `ProjectsOf`
unfoldable pub projects_of : List InspectResponse → List Text
unfolding seen_projects
projects_of cs = sort (seen_projects [] cs)
