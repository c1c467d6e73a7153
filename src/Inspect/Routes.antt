-- ===== src/Inspect/Routes.antt =====
-- When `FromContainer` makes a route, and what it excludes.
use mathlib.Core.Option.{some-injective}
use dockerdynomesh.Prelude.{
  ℕ, ◌≡◌, refl, ◌∙◌, ap, sym, true, false, Bool-cases, inl, inr, Option, none, some,
}
use dockerdynomesh.Prelude.Int.{ℤ}
use dockerdynomesh.Text.{Text, is_empty}
use dockerdynomesh.Inspect.{
  Config, NetworkSettings, InspectResponse, Routing, skip, route, no_name, has_traefik_label,
  network_ip, select_port, infer_hostname, address, short_id, from_config, from_container,
  named_route, labeled_missing_network, missing_network,
}

module _ (port_of : Text → Text) (lower : ℕ → ℕ) (c : InspectResponse) (network : Text) where
  -- What a route needs.
  pub record Routable (config : Config) (port : ℤ) : Type 0 where
    pub configured : c.config ≡ some config
    pub unlabeled : has_traefik_label config.labels ≡ false
    pub connected : is_empty (network_ip c network) ≡ false
    pub selected : select_port port_of config ≡ some port

  -- The three outcomes with their conditions.
  pub data Outcome : Routing → Type 0 where
    routed :
        (config : Config) (port : ℤ)
        → Routable config port
        → is_empty (infer_hostname lower c.name config) ≡ false
        → Outcome (route (infer_hostname lower c.name config) (address (network_ip c network) port))
    nameless :
        (config : Config) (port : ℤ)
        → Routable config port
        → is_empty (infer_hostname lower c.name config) ≡ true
        → Outcome (no_name (short_id c.id))
    skipped : ((config : Config) (port : ℤ) → ¬ Routable config port) → Outcome skip

  Outcome-of_port :
      (config : Config) (p : Option ℤ)
      → c.config ≡ some config
      → has_traefik_label config.labels ≡ false
      → is_empty (network_ip c network) ≡ false
      → select_port port_of config ≡ p
      → Outcome (named_route c.id (infer_hostname lower c.name config) (network_ip c network) p)
  unfolding named_route
  Outcome-of_port config none e t i s =
      Outcome.skipped λ other port r. cc (s, r.selected, r.configured, e)
  Outcome-of_port config (some port) e t i s =
      let r : Routable config port = record {
        configured = e;
        unlabeled = t;
        connected = i;
        selected = s;
      } in
      elim (Bool-cases (is_empty (infer_hostname lower c.name config))) [
        | inl h ↦ rw h (Outcome.nameless config port r h)
        | inr h ↦ rw h (Outcome.routed config port r h)
      ]

  labelled :
      (config other : Config) {port : ℤ}
      → has_traefik_label config.labels ≡ true
      → c.config ≡ some config
      → ¬ Routable other port
  labelled config other t e r =
      let same : config ≡ other = some-injective config other (sym e ∙ r.configured) in
      cc (t, ap (λ (x : Config). has_traefik_label x.labels) same, r.unlabeled)

  Outcome-of_config :
      (x : Option Config)
      → c.config ≡ x
      → Outcome (from_config port_of lower c (network_ip c network) x)
  unfolding from_config
  Outcome-of_config none e = Outcome.skipped λ config port r. cc (r.configured, e)
  Outcome-of_config (some config) e = elim (Bool-cases (has_traefik_label config.labels)) [
    | inl t ↦ rw t (Outcome.skipped λ other port r. labelled config other t e r)
    | inr t ↦ elim (Bool-cases (is_empty (network_ip c network))) [
      | inl i ↦ rw (t, i) (Outcome.skipped λ other port r. cc (i, r.connected))
      | inr i ↦ rw (t, i) (Outcome-of_port config (select_port port_of config) e t i refl)
    ]
  ]

  -- A container gets a route exactly when it has a configuration without `traefik.` labels, an
  -- address on the network, a port and a name; it is an error if only the name is missing, and it is
  -- skipped in all other cases.
  pub from_container-Outcome : Outcome (from_container port_of lower c network)
  unfolding from_container
  from_container-Outcome = Outcome-of_config c.config refl

  Routable-of_route :
      {r : Routing} (host addr : Text)
      → Outcome r
      → r ≡ route host addr
      → (config : Config) × (port : ℤ) × Routable config port
  Routable-of_route host addr (Outcome.routed config port r n) e = (config, port, r)
  Routable-of_route host addr (Outcome.nameless config port r n) e = cc
  Routable-of_route host addr (Outcome.skipped n) e = cc

  pub route_inv :
      (host addr : Text)
      → from_container port_of lower c network ≡ route host addr
      → (config : Config) × (port : ℤ) × Routable config port
  route_inv host addr e = Routable-of_route host addr from_container-Outcome e

missing_network_unlabeled :
    (network : Text) (config : Config) (s : Option NetworkSettings)
    → has_traefik_label config.labels ≡ false
    → missing_network network (some config) s ≡ none
unfolding missing_network
missing_network_unlabeled network config none h = refl
missing_network_unlabeled network config (some s) h = rw h

module _ (port_of : Text → Text) (lower : ℕ → ℕ) (c : InspectResponse) (network : Text) where
  -- A container that is routed is not reported as misconfigured: the first has no `traefik.` label,
  -- the second has one.
  pub route-excludes-warning :
      (host addr : Text)
      → from_container port_of lower c network ≡ route host addr
      → labeled_missing_network c network ≡ none
  unfolding labeled_missing_network
  route-excludes-warning host addr h =
      let (config, port, r) = route_inv port_of lower c network host addr h in
      rw r.configured (missing_network_unlabeled network config c.network_settings r.unlabeled)
