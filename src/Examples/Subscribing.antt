-- ===== src/Examples/Subscribing.antt =====
-- An event of docker against the filters.
use mathlib.Core.List.{Memᴰ}
use dockerdynomesh.Prelude.{
  ◌≡◌, refl, subst, Bool, true, ◌&&◌, ◌||◌, any, any_iff, all, all_iff, &&_iff, ||_iff, inl, inr,
  ◌↔◌,
}
use dockerdynomesh.Text.{Text, codes, ◌==◌}
use dockerdynomesh.Text.Order.{==_iff}
use dockerdynomesh.Discoverer.Subscription.{DockerEvent, Filter, received}
use dockerdynomesh.Discoverer.Subscription.Delivery.{Has, IsMatch, Delivered, received-Delivered}

abbrev has : DockerEvent → Text × Text → Bool
has e (k, u) = (k == codes "type" && u == e.kind) || (k == codes "event" && u == e.action)

abbrev serves : DockerEvent → Text × Text → Text × Text → Bool
serves e (k, v) (j, u) = j == k && has e (j, u)

abbrev all_keys : Filter → DockerEvent → Bool
all_keys filter e = all (λ kv. any (serves e kv) filter) filter

has_iff : (e : DockerEvent) (k u : Text) → (has e (k, u) ≡ true) ↔ Has e k u
has_iff e k u =
    let kind = &&_iff (k == codes "type") (u == e.kind) in
    let action = &&_iff (k == codes "event") (u == e.action) in
    let either = ||_iff (k == codes "type" && u == e.kind) (k == codes "event" && u == e.action) in
    (
      (λ h. elim (either.0 h) [
        | inl t ↦ inl ((==_iff k (codes "type")).0 (kind.0 t).0, (==_iff u e.kind).0 (kind.0 t).1)
        | inr t ↦
            inr ((==_iff k (codes "event")).0 (action.0 t).0, (==_iff u e.action).0 (action.0 t).1)
      ]),
      λ h. either.1 (elim h [
        | inl (f, g) ↦ inl (kind.1 ((==_iff k (codes "type")).1 f, (==_iff u e.kind).1 g))
        | inr (f, g) ↦ inr (action.1 ((==_iff k (codes "event")).1 f, (==_iff u e.action).1 g))
      ]),
    )

all_keys-IsMatch : IsMatch all_keys
all_keys-IsMatch filter e = (
  (λ h k v m.
      let ((j, u), n, t) =
        (any_iff (serves e (k, v)) filter).0
          ((all_iff (λ kv. any (serves e kv) filter) filter).0 h (k, v) m) in
      let (same, w) = (&&_iff (j == k) (has e (j, u))).0 t in
      let key = (==_iff j k).0 same in
      (
        u,
        subst (λ x. Memᴰ (x, u) filter) key n,
        (has_iff e k u).0 (subst (λ x. has e (x, u) ≡ true) key w),
      )),
  λ h. (all_iff (λ kv. any (serves e kv) filter) filter).1 (λ (k, v) m.
      let (u, n, w) = h k v m in
      (any_iff (serves e (k, v)) filter).1
        ((k, u), n, (&&_iff (k == k) (has e (k, u))).1 ((==_iff k k).1 refl, (has_iff e k u).1 w))),
)

abbrev dies : DockerEvent
dies = record { kind = codes "container"; action = codes "die" }

received-Delivered_example : Delivered dies (received all_keys dies)
received-Delivered_example = received-Delivered all_keys dies all_keys-IsMatch
