-- ===== src/Examples/Routing.antt =====
-- Containers, ports, networks and the rendered configuration.
use mathlib.Core.List.{Memᴰ}
use dockerdynomesh.Prelude.{◌≡◌, refl, ◌↔◌, false, [], ◌∷◌, some, IsDistinct}
use dockerdynomesh.Prelude.Sort.{IsSorted, sort}
use dockerdynomesh.Text.{Text, codes, ◌==◌, has_prefix}
use dockerdynomesh.Text.Order.{text_order, ne_of_test}
use dockerdynomesh.Inspect.{
  or_zero, lookup, select_port, attached, from_container, labeled_missing_network, projects_of,
  default_network_name,
}
use dockerdynomesh.Inspect.Projects.{HasProject, projects_of_lem}
use dockerdynomesh.Inspect.Ports.{Selected, select_port-Selected}
use dockerdynomesh.Inspect.Routes.{Outcome, from_container-Outcome}
use dockerdynomesh.Inspect.Networks.{Misconfigured, labeled_missing_network_iff}
use dockerdynomesh.Discoverer.Misconfig.{log_misconfig, log_misconfig_unattached}
use dockerdynomesh.Examples.Data.{port_of, lower, web, tool_config, tool, alone}

abbrev network : Text
network = default_network_name

select_port-Selected_example :
    Selected port_of
      (or_zero (lookup (codes "dynomesh.port") tool_config.labels))
      tool_config.exposed_ports
      (select_port port_of tool_config)
select_port-Selected_example = select_port-Selected port_of tool_config

projects_of_lem_example :
    IsSorted (projects_of (web ∷ tool ∷ []))
    × IsDistinct (projects_of (web ∷ tool ∷ []))
    × ((p : Text) → Memᴰ p (projects_of (web ∷ tool ∷ [])) ↔ HasProject (web ∷ tool ∷ []) p)
projects_of_lem_example = projects_of_lem (web ∷ tool ∷ [])

from_container-Outcome_example :
    Outcome port_of lower web network (from_container port_of lower web network)
from_container-Outcome_example = from_container-Outcome port_of lower web network

labeled_missing_network_iff_example :
    (labeled_missing_network alone network ≡ some []) ↔ Misconfigured alone network []
labeled_missing_network_iff_example = labeled_missing_network_iff alone network []

alone_missing : labeled_missing_network alone network ≡ some []
unfolding labeled_missing_network has_prefix attached sort
alone_missing = refl

log_misconfig_unattached_example : log_misconfig alone network [] ≡ ([], false)
unfolding lookup
log_misconfig_unattached_example = log_misconfig_unattached alone network [] alone_missing refl

x_fresh : ¬ Memᴰ (codes "x") (codes "y" ∷ [])
unfolding ◌==◌
x_fresh (Memᴰ.head e) = ne_of_test (codes "x") (codes "y") refl e
x_fresh (Memᴰ.tail m) = elim m [ ]
