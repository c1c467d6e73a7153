-- ===== src/Discoverer/Subscription.antt =====
-- The two subscriptions of `run` in cmd/discoverer/reconcile.go. `matches` stands for docker's test of
-- an event against a filter.
pub mod Delivery
use dockerdynomesh.Prelude.{Bool, true, false, List, [], ◌∷◌, ◌++◌, if◌then◌else◌}
use dockerdynomesh.Text.{Text, codes}
use dockerdynomesh.Discoverer.EventLoop.{Move, container_event, network_event}

-- The fields of an event that the filters look at: its type, and its action.
pub record DockerEvent : Type 0 where
  pub kind : Text
  pub action : Text

-- `filters.Args` as the pairs that were added
abbrev pub Filter : Type 0
Filter = List (Text × Text)

unfoldable pub actions_filter : List Text → Text → Filter
actions_filter [] kind = (codes "type", kind) ∷ []
actions_filter (a ∷ actions) kind = (codes "event", a) ∷ actions_filter actions kind

abbrev pub container_actions : List Text
container_actions = codes "start" ∷ codes "stop" ∷ codes "die" ∷ []

abbrev pub network_actions : List Text
network_actions = codes "connect" ∷ codes "disconnect" ∷ []

module _ (matches : Filter → DockerEvent → Bool) where
  abbrev pub from_containers : DockerEvent → List Move
  from_containers e =
      if matches (actions_filter container_actions (codes "container")) e
      then container_event ∷ []
      else []

  abbrev pub from_networks : DockerEvent → List Move
  from_networks e =
      if matches (actions_filter network_actions (codes "network")) e
      then network_event ∷ []
      else []

  -- What the select can receive for an event of docker.
  abbrev pub received : DockerEvent → List Move
  received e = from_containers e ++ from_networks e
