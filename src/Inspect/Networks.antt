-- ===== src/Inspect/Networks.antt =====
-- `LabeledMissingNetwork`: when it reports, and what it returns.
use mathlib.Core.List.{Memᴰ, Permᴰ}
use dockerdynomesh.Prelude.{
  ◌≡◌, refl, sym, ◌∙◌, subst, ◌↔◌, not, if◌then◌else◌, true, false, List, any, any_iff, Bool-cases,
  inl, inr, Option, none, some, arith,
}
use dockerdynomesh.Prelude.Sort.{IsSorted, sort-perm, sort-IsSorted, sort_unique}
use mathlib.Core.Option.{none-ne-some, some-injective}
use dockerdynomesh.Text.{Text, codes, ◌==◌, is_empty, has_prefix}
use dockerdynomesh.Text.Order.{text_order, ==_iff, ==_refl}
use dockerdynomesh.Inspect.{
  lookup, or_zero, Config, NetworkSettings, InspectResponse, has_traefik_label, attached,
  target_network, missing_network, labeled_missing_network,
}
use dockerdynomesh.Inspect.Order.{keys}

-- The network that Traefik uses for a container: that of its label `traefik.docker.network`, where it
-- has one that is not empty, else the given one.
pub data IsTarget (config : Config) (network : Text) : Text → Type 0 where
  by_label :
      (n : Text)
      → lookup (codes "traefik.docker.network") config.labels ≡ some n
      → is_empty n ≡ false
      → IsTarget config network n
  by_default :
      ((n : Text)
        → lookup (codes "traefik.docker.network") config.labels ≡ some n
        → is_empty n ≡ true)
      → IsTarget config network network

-- The container has a label whose key begins with `traefik.`, and is not attached to the network that
-- Traefik uses for it.
pub record Misconfigured (c : InspectResponse) (network : Text) (ns : List Text) : Type 0 where
  pub config : Config
  pub settings : NetworkSettings
  pub configured : c.config ≡ some config
  pub connected : c.network_settings ≡ some settings
  pub key : Text
  pub value : Text
  pub labeled : Memᴰ (key, value) config.labels
  pub prefixed : has_prefix key (codes "traefik.") ≡ true
  pub target : Text
  pub targeted : IsTarget config network target
  pub missing : ¬ Memᴰ target ns
  pub listed : Permᴰ ns (keys settings.networks)
  pub sorted : IsSorted ns

mem_of_test : (t : Text) (ns : List Text) → any (λ n. n == t) ns ≡ true → Memᴰ t ns
mem_of_test t ns h = let (m, k, e) = (any_iff (λ n. n == t) ns).0 h in rw (← (==_iff m t).0 e) k

test_of_mem : (t : Text) (ns : List Text) → Memᴰ t ns → any (λ n. n == t) ns ≡ true
test_of_mem t ns m = (any_iff (λ n. n == t) ns).1 (t, m, ==_refl t)

not-mem_of_test : (t : Text) (ns : List Text) → any (λ n. n == t) ns ≡ false → ¬ Memᴰ t ns
not-mem_of_test t ns h m = cc (h, test_of_mem t ns m)

reported :
    (network : Text) (x : Option Config) (y : Option NetworkSettings) {ns : List Text}
    → missing_network network x y ≡ some ns
    → (config : Config) × (settings : NetworkSettings) × (x ≡ some config)
      × (y ≡ some settings)
      × (has_traefik_label config.labels ≡ true)
      × (any (λ n. n == target_network config network) (attached settings) ≡ false)
      × (ns ≡ attached settings)
unfolding missing_network
reported network none none h = cc
reported network none (some s) h = cc
reported network (some config) none h = cc
reported network (some config) (some s) h =
    (config, s, refl, refl, ground arith, ground arith, ground arith)

false_of_not-mem : (t : Text) (ns : List Text) → ¬ Memᴰ t ns → any (λ n. n == t) ns ≡ false
false_of_not-mem t ns n = elim (Bool-cases (any (λ n. n == t) ns)) [
  | inl e ↦ absurd (n (mem_of_test t ns e))
  | inr e ↦ e
]

IsTarget-target_network :
    (config : Config) (network : Text) → IsTarget config network (target_network config network)
unfolding target_network
IsTarget-target_network config network =
    by_lookup (lookup (codes "traefik.docker.network") config.labels) refl
  where
    by_lookup :
        (o : Option Text)
        → lookup (codes "traefik.docker.network") config.labels ≡ o
        → IsTarget config network (if not (is_empty (or_zero o)) then or_zero o else network)
    by_lookup none e = IsTarget.by_default (λ n h. absurd (none-ne-some _ (sym e ∙ h)))
    by_lookup (some n) e = elim (Bool-cases (is_empty n)) [
      | inl f ↦ rw f (IsTarget.by_default (λ m h. rw (some-injective _ _ (sym h ∙ e)) f))
      | inr f ↦ rw f (IsTarget.by_label n e f)
    ]

-- There is one such network.
IsTarget-unique :
    (config : Config) (network a b : Text)
    → IsTarget config network a
    → IsTarget config network b
    → a ≡ b
IsTarget-unique config network _ _ (IsTarget.by_label a e f) (IsTarget.by_label b g h) =
    some-injective _ _ (sym e ∙ g)
IsTarget-unique config network _ _ (IsTarget.by_label a e f) (IsTarget.by_default n) = cc (f, n a e)
IsTarget-unique config network _ _ (IsTarget.by_default n) (IsTarget.by_label b g h) = cc (h, n b g)
IsTarget-unique config network _ _ (IsTarget.by_default n) (IsTarget.by_default m) = refl

module _ (c : InspectResponse) (network : Text) (ns : List Text) where
  Misconfigured-of : labeled_missing_network c network ≡ some ns → Misconfigured c network ns
  unfolding labeled_missing_network attached
  Misconfigured-of h =
      let (config, s, e, f, t, a, q) = reported network c.config c.network_settings h in
      let (l, m, x) = (any_iff (λ l. has_prefix l.0 (codes "traefik.")) config.labels).0 t in
      record {
        config = config;
        settings = s;
        configured = e;
        connected = f;
        key = l.0;
        value = l.1;
        labeled = m;
        prefixed = x;
        target = target_network config network;
        targeted = IsTarget-target_network config network;
        missing = rw q (not-mem_of_test (target_network config network) (attached s) a);
        listed = rw q (sort-perm (keys s.networks));
        sorted = rw q (sort-IsSorted (keys s.networks));
      }

  reported_of : Misconfigured c network ns → labeled_missing_network c network ≡ some ns
  unfolding labeled_missing_network missing_network attached
  reported_of m =
      let same : ns ≡ attached m.settings = sort_unique m.listed m.sorted in
      let labeled : has_traefik_label m.config.labels ≡ true =
        (any_iff (λ l. has_prefix l.0 (codes "traefik.")) m.config.labels).1
          ((m.key, m.value), m.labeled, m.prefixed) in
      let used =
        IsTarget-unique m.config network m.target (target_network m.config network) m.targeted
          (IsTarget-target_network m.config network) in
      let absent =
        false_of_not-mem (target_network m.config network) ns
          (subst (λ t. ¬ Memᴰ t ns) used m.missing) in
      rw (m.configured, m.connected, labeled, ← same, absent)

  -- A container is reported, with its networks in ascending order, exactly when it has a
  -- label that begins with `traefik.` and is not attached to the network of its label
  -- `traefik.docker.network`, or of the given one where that is missing or empty.
  pub labeled_missing_network_iff :
      (labeled_missing_network c network ≡ some ns) ↔ Misconfigured c network ns
  labeled_missing_network_iff = (Misconfigured-of, reported_of)
