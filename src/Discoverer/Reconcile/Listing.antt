-- ===== src/Discoverer/Reconcile/Listing.antt =====
-- `listEligible` in front of a reconcile.
use dockerdynomesh.Prelude.{◌≡◌, refl, List, [], ◌∷◌, Option, none, some}
use dockerdynomesh.Prelude.Result.{Result, err}
use dockerdynomesh.Text.{Text}
use dockerdynomesh.Inspect.{InspectResponse}
use dockerdynomesh.Discoverer.Reconcile.{
  Services, ReconcileError, list_failed, State, reconcile_with, inspect_all, listed, list_eligible,
  with_list, reconcile,
}

module _ {W : Type 0} (services : Services W) where
  -- What docker's calls keep, `listEligible` keeps.
  module _ (P : W → Type 0) (lists : (w : W) → P w → P (services.list w).1)
      (inspects : (id : Text) (w : W) → P w → P (services.inspect id w).1) where
    keeps-inspect_all : (ids : List Text) (w : W) → P w → P (inspect_all services ids w).1
    unfolding inspect_all
    keeps-inspect_all [] w h = h
    keeps-inspect_all (id ∷ ids) w h =
        keeps-inspect_all ids (services.inspect id w).1 (inspects id w h)

    keeps-listed : (o : Option (List Text)) (w : W) → P w → P (listed services (o, w)).1
    keeps-listed none w h = h
    keeps-listed (some ids) w h = keeps-inspect_all ids w h

    pub keeps-list_eligible : (w : W) → P w → P (list_eligible services w).1
    unfolding list_eligible
    keeps-list_eligible w h = keeps-listed (services.list w).0 (services.list w).1 (lists w h)

  -- The two ways of a reconcile: no list, which is an error and asks for nothing, or a reconcile with
  -- the containers of the list.
  pub data Listed (s : State W) (e : Result ReconcileError (Unit {0}) × State W) : Type 0 where
    unlisted :
        e ≡ (err list_failed, record s { world = (list_eligible services s.world).1 }) → Listed s e
    with_containers :
        (cs : List InspectResponse)
        → (list_eligible services s.world).0 ≡ some cs
        → e ≡ reconcile_with services cs (record s { world = (list_eligible services s.world).1 })
        → Listed s e

  Listed-with_list :
      (s : State W) (o : Option (List InspectResponse))
      → (list_eligible services s.world).0 ≡ o
      → Listed s (with_list services s (o, (list_eligible services s.world).1))
  unfolding with_list
  Listed-with_list s none h = Listed.unlisted refl
  Listed-with_list s (some cs) h = Listed.with_containers cs h refl

  pub reconcile-Listed : (s : State W) → Listed s (reconcile services s)
  unfolding reconcile
  reconcile-Listed s = Listed-with_list s (list_eligible services s.world).0 refl
