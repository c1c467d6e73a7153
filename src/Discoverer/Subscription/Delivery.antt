-- ===== src/Discoverer/Subscription/Delivery.antt =====
-- Which events of docker the loop receives.
use mathlib.Core.List.{Memᴰ}
use dockerdynomesh.Prelude.{
  ◌≡◌, ap, subst, ◌⊎◌, refl, sym, ◌∙◌, ◌≢◌, ◌↔◌, Bool, true, false, Bool-cases, inl, inr, List, [],
  ◌∷◌,
}
use dockerdynomesh.Text.{Text, codes, ◌==◌}
use dockerdynomesh.Text.Order.{ne_of_test}
use dockerdynomesh.Discoverer.EventLoop.{Move, container_event, network_event}
use dockerdynomesh.Discoverer.Subscription.{
  DockerEvent, Filter, actions_filter, container_actions, network_actions, received,
}

-- The keys that docker's API gives a filter of events, with the value that an event has at each.
abbrev pub Has : DockerEvent → Text → Text → Type 0
Has e k u = ((k ≡ codes "type") × (u ≡ e.kind)) ⊎ ((k ≡ codes "event") × (u ≡ e.action))

-- Docker's rule for any filter: the values of one key are alternatives, and all keys have to match.
abbrev pub IsMatch : (Filter → DockerEvent → Bool) → Type 0
IsMatch matches =
    (filter : Filter) (e : DockerEvent)
    → (matches filter e ≡ true)
      ↔ ((k v : Text) → Memᴰ (k, v) filter → (u : Text) × Memᴰ (k, u) filter × Has e k u)

-- The actions of a container, and of a network, that routes depend on.
abbrev pub lifecycle : List Text
lifecycle = codes "start" ∷ codes "stop" ∷ codes "die" ∷ []

abbrev pub attachment : List Text
attachment = codes "connect" ∷ codes "disconnect" ∷ []

pub data Delivered (e : DockerEvent) : List Move → Type 0 where
  of_container :
      e.kind ≡ codes "container" → Memᴰ e.action lifecycle → Delivered e (container_event ∷ [])
  of_network :
      e.kind ≡ codes "network" → Memᴰ e.action attachment → Delivered e (network_event ∷ [])
  unheard :
      ¬ ((e.kind ≡ codes "container") × Memᴰ e.action lifecycle)
      → ¬ ((e.kind ≡ codes "network") × Memᴰ e.action attachment)
      → Delivered e []

other_kind : codes "container" ≢ codes "network"
unfolding ◌==◌
other_kind = ne_of_test (codes "container") (codes "network") refl

false_ne : {b : Bool} → b ≡ false → b ≢ true
false_ne h e = cc

mem-actions_filter :
    {k v : Text} (actions : List Text) (kind : Text)
    → Memᴰ (k, v) (actions_filter actions kind)
    → ((k ≡ codes "event") × Memᴰ v actions) ⊎ ((k ≡ codes "type") × (v ≡ kind))
unfolding actions_filter
mem-actions_filter [] kind (Memᴰ.head e) = inr (ap (λ x. x.0) e, ap (λ x. x.1) e)
mem-actions_filter [] kind (Memᴰ.tail m) = elim m [ ]
mem-actions_filter (a ∷ actions) kind (Memᴰ.head e) =
    inl (ap (λ x. x.0) e, Memᴰ.head (ap (λ x. x.1) e))
mem-actions_filter (a ∷ actions) kind (Memᴰ.tail m) = elim (mem-actions_filter actions kind m) [
  | inl (e, k) ↦ inl (e, Memᴰ.tail k)
  | inr t ↦ inr t
]

action-mem :
    {a : Text} (actions : List Text) (kind : Text)
    → Memᴰ a actions
    → Memᴰ (codes "event", a) (actions_filter actions kind)
unfolding actions_filter
action-mem [] kind m = elim m [ ]
action-mem (b ∷ actions) kind (Memᴰ.head e) = Memᴰ.head (ap (λ t. (codes "event", t)) e)
action-mem (b ∷ actions) kind (Memᴰ.tail m) = Memᴰ.tail (action-mem actions kind m)

kind-mem :
    (actions : List Text) (kind : Text) → Memᴰ (codes "type", kind) (actions_filter actions kind)
unfolding actions_filter
kind-mem [] kind = Memᴰ.head refl
kind-mem (a ∷ actions) kind = Memᴰ.tail (kind-mem actions kind)

type_event : codes "type" ≢ codes "event"
unfolding ◌==◌
type_event = ne_of_test (codes "type") (codes "event") refl

kind_of_match :
    (actions : List Text) (kind : Text) (e : DockerEvent)
    → (u : Text) × Memᴰ (codes "type", u) (actions_filter actions kind) × Has e (codes "type") u
    → e.kind ≡ kind
kind_of_match actions kind e (u, m, inr (h, _)) = absurd (type_event h)
kind_of_match actions kind e (u, m, inl (_, h)) = elim (mem-actions_filter actions kind m) [
  | inl (t, _) ↦ absurd (type_event t)
  | inr (_, k) ↦ sym h ∙ k
]

action_of_match :
    (actions : List Text) (kind : Text) (e : DockerEvent)
    → (u : Text) × Memᴰ (codes "event", u) (actions_filter actions kind) × Has e (codes "event") u
    → Memᴰ e.action actions
action_of_match actions kind e (u, m, inl (h, _)) = absurd (type_event (sym h))
action_of_match actions kind e (u, m, inr (_, h)) = elim (mem-actions_filter actions kind m) [
  | inl (_, k) ↦ subst (λ t. Memᴰ t actions) h k
  | inr (t, _) ↦ absurd (type_event (sym t))
]

-- What the filter of a subscription lets through.
actions_filter_iff :
    (matches : Filter → DockerEvent → Bool) (a : Text) (actions : List Text) (kind : Text)
    (e : DockerEvent)
    → IsMatch matches
    → (matches (actions_filter (a ∷ actions) kind) e ≡ true)
      ↔ ((e.kind ≡ kind) × Memᴰ e.action (a ∷ actions))
actions_filter_iff matches a actions kind e rule =
    let whole = a ∷ actions in
    let filter = actions_filter whole kind in
    (
      (λ h.
          let all_keys = (rule filter e).0 h in
          (
            kind_of_match whole kind e (all_keys (codes "type") kind (kind-mem whole kind)),
            action_of_match whole kind e
                (all_keys (codes "event") a (action-mem whole kind (Memᴰ.head refl))),
          )),
      λ (same, m). (rule filter e).1 (λ k v n. elim (mem-actions_filter whole kind n) [
        | inl (h, _) ↦ (
          e.action,
          subst (λ t. Memᴰ (t, e.action) filter) (sym h) (action-mem whole kind m),
          inr (h, refl),
        )
        | inr (h, _) ↦ (
          kind,
          subst (λ t. Memᴰ (t, kind) filter) (sym h) (kind-mem whole kind),
          inl (h, sym same),
        )
      ]),
    )

-- Where docker matches an event as its API says, the loop receives the start, the stop and the end of a container, and the connection and
-- disconnection of a network, each once, and nothing else.
pub received-Delivered :
    (matches : Filter → DockerEvent → Bool) (e : DockerEvent)
    → IsMatch matches
    → Delivered e (received matches e)
received-Delivered matches e rule =
    let containers =
      actions_filter_iff matches (codes "start") (codes "stop" ∷ codes "die" ∷ [])
        (codes "container") e rule in
    let networks =
      actions_filter_iff matches (codes "connect") (codes "disconnect" ∷ []) (codes "network") e
        rule in
    elim (Bool-cases (matches (actions_filter container_actions (codes "container")) e)) [
      | inl c ↦ elim (Bool-cases (matches (actions_filter network_actions (codes "network")) e)) [
        | inl n ↦ absurd (other_kind (sym (containers.0 c).0 ∙ (networks.0 n).0))
        | inr n ↦ let (k, m) = containers.0 c in rw (c, n) (Delivered.of_container k m)
      ]
      | inr c ↦ elim (Bool-cases (matches (actions_filter network_actions (codes "network")) e)) [
        | inl n ↦ let (k, m) = networks.0 n in rw (c, n) (Delivered.of_network k m)
        | inr n ↦
            rw (c, n)
              (Delivered.unheard (λ h. false_ne c (containers.1 h))
                (λ h. false_ne n (networks.1 h)))
      ]
    ]
