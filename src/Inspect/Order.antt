-- ===== src/Inspect/Order.antt =====
-- Go visits a map in any order. The results do not depend on it.
use mathlib.Core.List.{Memᴰ, Permᴰ}
use mathlib.Core.List.Permᴰ
use dockerdynomesh.Prelude.{
  ℕ, ◌≡◌, refl, ◌∙◌, ap, ap₂, sym, List, [], ◌∷◌, any_perm, Bool-cases, inl, inr, Option, none,
  some, map, mem-map, IsDistinct, IsDistinct-perm, mem_of_perm, Option-cases,
}
use mathlib.Core.Option.{some-injective}
use dockerdynomesh.Prelude.Sort.{sort_of_perm}
use dockerdynomesh.Prelude.Int.{int_order}
use dockerdynomesh.Text.{Text, ◌==◌, has_prefix}
use dockerdynomesh.Text.Order.{text_order, ==_iff}
use dockerdynomesh.Inspect.{
  Config, NetworkSettings, InspectResponse, lookup, label, or_zero, traefik_prefix, network_ip,
  ip_in, from_config, missing_network, select_port, port_label, choose_exposed, labelled_port,
  infer_hostname, from_container, attached, target_network, labeled_missing_network,
  traefik_network_label, project_label, service_label,
}
use dockerdynomesh.Inspect.Ports.{port_numbers-perm}

abbrev pub keys {ℓ} : {V : Type ℓ} → List (Text × V) → List Text
keys = map (λ l. l.0)

-- Two orders of one map: the same entries, with distinct keys.
pub record SameMap {ℓ} {V : Type ℓ} (m n : List (Text × V)) : Type ℓ where
  pub perm : Permᴰ m n
  pub distinct : IsDistinct (keys m)

module _ {ℓ} {V : Type ℓ} where
  lookup-mem :
      (k : Text) {v : V} (m : List (Text × V))
      → IsDistinct (keys m)
      → Memᴰ (k, v) m
      → lookup k m ≡ some v
  unfolding lookup
  lookup-mem k [] d x = elim x [ ]
  lookup-mem k ((j, w) ∷ m) d (Memᴰ.head e) =
      rw ((==_iff j k).1 (sym (ap (λ p. p.0) e))) (ap (λ p. some p.1) (sym e))
  lookup-mem k ((j, w) ∷ m) (n, d) (Memᴰ.tail x) = elim (Bool-cases (j == k)) [
    | inl e ↦ absurd (n (rw ((==_iff j k).0 e) (mem-map (λ l. l.0) x)))
    | inr e ↦ rw e (lookup-mem k m d x)
  ]

  mem-lookup : (k : Text) {v : V} (m : List (Text × V)) → lookup k m ≡ some v → Memᴰ (k, v) m
  unfolding lookup
  mem-lookup k [] e = cc
  mem-lookup k ((j, w) ∷ m) e = elim (Bool-cases (j == k)) [
    | inl h ↦
        Memᴰ.head
          (ap₂ (λ a b. (a, b)) (sym ((==_iff j k).0 h)) (sym (some-injective w _ (rw h at e))))
    | inr h ↦ Memᴰ.tail (mem-lookup k m (rw h at e))
  ]

  SameMap-symm : {m n : List (Text × V)} → SameMap m n → SameMap n m
  SameMap-symm s = record {
    perm = Permᴰ.symm s.perm;
    distinct = IsDistinct-perm (Permᴰ.map (λ l. l.0) s.perm) s.distinct;
  }

  lookup_keeps :
      (k : Text) {v : V} {m n : List (Text × V)}
      → SameMap m n
      → lookup k m ≡ some v
      → lookup k n ≡ some v
  lookup_keeps k {m = m} {n = n} s e =
      lookup-mem k n (SameMap-symm s).distinct (mem_of_perm s.perm (mem-lookup k m e))

  -- A lookup does not depend on the order of the entries.
  pub lookup-SameMap : (k : Text) {m n : List (Text × V)} → SameMap m n → lookup k m ≡ lookup k n
  lookup-SameMap k {m} {n} s = elim (Option-cases (lookup k m)) [
    | inr (v, e) ↦ e ∙ sym (lookup_keeps k s e)
    | inl e ↦ elim (Option-cases (lookup k n)) [
      | inl f ↦ e ∙ sym f
      | inr (v, f) ↦ lookup_keeps k (SameMap-symm s) f ∙ sym f
    ]
  ]

pub record SameConfig (c d : Config) : Type 0 where
  pub labels : SameMap c.labels d.labels
  pub exposed_ports : Permᴰ c.exposed_ports d.exposed_ports

-- Both pointers are nil, or what they point at is related.
abbrev pub Both : {A : Type 0} → (A → A → Type 0) → Option A → Option A → Type 0
Both R none none = Unit
Both R (some a) (some b) = R a b
Both R _ _ = ⊥

abbrev pub SameSettings : NetworkSettings → NetworkSettings → Type 0
SameSettings s t = SameMap s.networks t.networks

-- One container, whose maps are visited in two orders.
pub record SameContainer (c d : InspectResponse) : Type 0 where
  pub id : c.id ≡ d.id
  pub name : c.name ≡ d.name
  pub config : Both SameConfig c.config d.config
  pub networks : Both SameSettings c.network_settings d.network_settings

label-SameMap : (k : Text) {m n : List (Text × Text)} → SameMap m n → label k m ≡ label k n
label-SameMap k s = ap or_zero (lookup-SameMap k s)

module _ (port_of : Text → Text) (lower : ℕ → ℕ) where
  select_port-SameConfig :
      (c d : Config) → SameConfig c d → select_port port_of c ≡ select_port port_of d
  unfolding select_port
  select_port-SameConfig c d s =
      ap₂ (λ v ns. elim (labelled_port v) [ some p ↦ some p | none ↦ choose_exposed ns ])
        (label-SameMap port_label s.labels)
        (sort_of_perm (port_numbers-perm port_of s.exposed_ports))

  infer_hostname-SameConfig :
      (name : Text) (c d : Config)
      → SameConfig c d
      → infer_hostname lower name c ≡ infer_hostname lower name d
  unfolding infer_hostname
  infer_hostname-SameConfig name c d s =
      rw (label-SameMap project_label s.labels, label-SameMap service_label s.labels)

  ip_in-Both :
      (network : Text) (s t : Option NetworkSettings)
      → Both SameSettings s t
      → ip_in network s ≡ ip_in network t
  unfolding ip_in
  ip_in-Both network none none r = refl
  ip_in-Both network none (some t) r = absurd r
  ip_in-Both network (some s) none r = absurd r
  ip_in-Both network (some s) (some t) r = rw (lookup-SameMap network r)

  from_config-Both :
      (c d : InspectResponse) (ip : Text) (x y : Option Config)
      → c.id ≡ d.id
      → c.name ≡ d.name
      → Both SameConfig x y
      → from_config port_of lower c ip x ≡ from_config port_of lower d ip y
  unfolding from_config
  from_config-Both c d ip none none i n r = refl
  from_config-Both c d ip none (some y) i n r = absurd r
  from_config-Both c d ip (some x) none i n r = absurd r
  from_config-Both c d ip (some x) (some y) i n r = rw (
    any_perm (λ l. has_prefix l.0 traefik_prefix) r.labels.perm,
    select_port-SameConfig x y r,
    i,
    n,
    infer_hostname-SameConfig d.name x y r,
  )

  -- The route of a container does not depend on the order in which its maps are visited.
  pub from_container-SameContainer :
      (c d : InspectResponse) (network : Text)
      → SameContainer c d
      → from_container port_of lower c network ≡ from_container port_of lower d network
  unfolding from_container network_ip
  from_container-SameContainer c d network s =
      rw (ip_in-Both network c.network_settings d.network_settings s.networks) (
        from_config-Both c d (ip_in network d.network_settings) c.config d.config s.id s.name
          s.config)

attached-SameSettings : (s t : NetworkSettings) → SameSettings s t → attached s ≡ attached t
unfolding attached
attached-SameSettings s t r = sort_of_perm (Permᴰ.map (λ n. n.0) r.perm)

missing_network-Both :
    (network : Text) (x y : Option Config) (s t : Option NetworkSettings)
    → Both SameConfig x y
    → Both SameSettings s t
    → missing_network network x s ≡ missing_network network y t
unfolding missing_network target_network
missing_network-Both network none none s t r q = refl
missing_network-Both network none (some y) s t r q = absurd r
missing_network-Both network (some x) none s t r q = absurd r
missing_network-Both network (some x) (some y) none none r q = refl
missing_network-Both network (some x) (some y) none (some t) r q = absurd q
missing_network-Both network (some x) (some y) (some s) none r q = absurd q
missing_network-Both network (some x) (some y) (some s) (some t) r q = rw (
  any_perm (λ l. has_prefix l.0 traefik_prefix) r.labels.perm,
  label-SameMap traefik_network_label r.labels,
  attached-SameSettings s t q,
)

-- Whether a container is reported as misconfigured, and with which networks, does not depend on
-- the order in which its maps are visited.
pub labeled_missing_network-SameContainer :
    (c d : InspectResponse) (network : Text)
    → SameContainer c d
    → labeled_missing_network c network ≡ labeled_missing_network d network
unfolding labeled_missing_network
labeled_missing_network-SameContainer c d network s =
    missing_network-Both network c.config d.config c.network_settings d.network_settings s.config
      s.networks
