-- ===== src/Discoverer/Misconfig.antt =====
-- `logMisconfigIfNeeded` of cmd/discoverer/reconcile.go: one warning for each set of networks.
use dockerdynomesh.Prelude.{
  ◌≡◌, refl, sym, ◌≢◌, Bool, true, false, List, [], ◌∷◌, Option, none, some, arith, if◌then◌else◌,
  Bool-cases, inl, inr,
}
use dockerdynomesh.Text.{Text, codes, ◌==◌, is_empty, join}
use dockerdynomesh.Text.Order.{==_iff, ==_refl}
use dockerdynomesh.Inspect.{InspectResponse, lookup, or_zero, labeled_missing_network}

-- A map of strings by its entries, at most one to a key.
abbrev pub Logged : Type 0
Logged = List (Text × Text)

-- delete(m, k)
unfoldable pub delete : Text → Logged → Logged
delete k [] = []
delete k ((j, v) ∷ m) = let rest = delete k m in if j == k then rest else (j, v) ∷ rest

-- m[k] = v
abbrev pub assign : Text → Text → Logged → Logged
assign k v m = (k, v) ∷ delete k m

-- What a call returns: the new map, and whether it has logged the warning.
abbrev pub Warned : Type 0
Warned = Logged × Bool

-- m[k]: the zero value for a missing key
abbrev pub logged_at : Text → Logged → Text
logged_at id logged = or_zero (lookup id logged)

pub warn_for : Text → Option (List Text) → Logged → Warned
warn_for id none logged = (delete id logged, false)
warn_for id (some attached) logged =
    let fingerprint = join (codes ",") attached in
    if logged_at id logged == fingerprint
    then (logged, false)
    else (assign id fingerprint logged, true)

-- `logMisconfigIfNeeded`
unfoldable pub log_misconfig : InspectResponse → Text → Logged → Warned
unfolding warn_for
log_misconfig c network logged = warn_for c.id (labeled_missing_network c network) logged

lookup-delete_self : (k : Text) (m : Logged) → lookup k (delete k m) ≡ none
unfolding lookup delete
lookup-delete_self k [] = refl
lookup-delete_self k ((j, v) ∷ m) = ground (arith, lookup-delete_self k m)

pub lookup-delete_ne : (k j : Text) (m : Logged) → j ≢ k → lookup j (delete k m) ≡ lookup j m
unfolding lookup delete
lookup-delete_ne k j [] n = refl
lookup-delete_ne k j ((i, v) ∷ m) n =
    ground (arith, lookup-delete_ne k j m n, ==_iff i k, ==_iff i j)

delete-delete : (k : Text) (m : Logged) → delete k (delete k m) ≡ delete k m
unfolding delete
delete-delete k [] = refl
delete-delete k ((j, v) ∷ m) = ground (arith, delete-delete k m)

lookup_assigned : (id v : Text) (logged : Logged) → (logged_at id (assign id v logged) == v) ≡ true
unfolding lookup
lookup_assigned id v logged = rw (==_refl id) (==_refl v)

warn_for_twice :
    (id : Text) (o : Option (List Text)) (logged : Logged)
    → warn_for id o (warn_for id o logged).0 ≡ ((warn_for id o logged).0, false)
unfolding warn_for
warn_for_twice id none logged = rw (delete-delete id logged)
warn_for_twice id (some attached) logged =
    let fingerprint = join (codes ",") attached in
    elim (Bool-cases (logged_at id logged == fingerprint)) [
      | inl e ↦ rw (e, e)
      | inr e ↦ rw (e, lookup_assigned id fingerprint logged)
    ]

-- A second call for the same container, with the same networks, logs nothing and keeps the map.
pub log_misconfig_twice :
    (c : InspectResponse) (network : Text) (logged : Logged)
    → log_misconfig c network (log_misconfig c network logged).0
      ≡ ((log_misconfig c network logged).0, false)
unfolding log_misconfig
log_misconfig_twice c network logged =
    warn_for_twice c.id (labeled_missing_network c network) logged

lookup_assigned_ne :
    (id j v : Text) (logged : Logged) → j ≢ id → lookup j (assign id v logged) ≡ lookup j logged
lookup_assigned_ne id j v logged n = elim (Bool-cases (id == j)) [
  | inl e ↦ absurd (n (sym ((==_iff id j).0 e)))
  | inr e ↦ unfold lookup in rw e (lookup-delete_ne id j logged n)
]

warn_for_other :
    (id j : Text) (o : Option (List Text)) (logged : Logged)
    → j ≢ id
    → lookup j (warn_for id o logged).0 ≡ lookup j logged
unfolding warn_for
warn_for_other id j none logged n = lookup-delete_ne id j logged n
warn_for_other id j (some attached) logged n =
    elim (Bool-cases (logged_at id logged == join (codes ",") attached)) [
      | inl e ↦ rw e
      | inr e ↦ rw e (lookup_assigned_ne id j _ logged n)
    ]

-- A call leaves what is remembered of every other container as it is.
pub log_misconfig_other :
    (c : InspectResponse) (network j : Text) (logged : Logged)
    → j ≢ c.id
    → lookup j (log_misconfig c network logged).0 ≡ lookup j logged
unfolding log_misconfig
log_misconfig_other c network j logged n =
    warn_for_other c.id j (labeled_missing_network c network) logged n

join_nonempty :
    (n : Text) (ns : List Text) → is_empty n ≡ false → is_empty (join (codes ",") (n ∷ ns)) ≡ false
unfolding join
join_nonempty [] ns h = cc
join_nonempty (c ∷ n) [] h = refl
join_nonempty (c ∷ n) (m ∷ ns) h = refl

differs_from_empty : (t : Text) → is_empty t ≡ false → ([] == t) ≡ false
unfolding ◌==◌
differs_from_empty [] h = cc
differs_from_empty (c ∷ t) h = refl

-- A misconfigured container of which nothing is remembered is warned about, if the first of its
-- networks has a name.
pub log_misconfig_first :
    (c : InspectResponse) (network n : Text) (ns : List Text) (logged : Logged)
    → labeled_missing_network c network ≡ some (n ∷ ns)
    → is_empty n ≡ false
    → lookup c.id logged ≡ none
    → (log_misconfig c network logged).1 ≡ true
unfolding log_misconfig warn_for
log_misconfig_first c network n ns logged h f k =
    let text = join_nonempty n ns f in
    rw (h, k, differs_from_empty (join (codes ",") (n ∷ ns)) text)

-- A misconfigured container that is attached to no network, and of which nothing is remembered,
-- is not warned about, and nothing is remembered of it: its fingerprint is the empty text, which
-- is also what the map returns for a container that it does not hold.
pub log_misconfig_unattached :
    (c : InspectResponse) (network : Text) (logged : Logged)
    → labeled_missing_network c network ≡ some []
    → lookup c.id logged ≡ none
    → log_misconfig c network logged ≡ (logged, false)
unfolding log_misconfig warn_for join ◌==◌
log_misconfig_unattached c network logged h k = rw (h, k)
