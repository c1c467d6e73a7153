-- ===== src/Discoverer/Reconcile/Settings.antt =====
-- What a reconcile leaves of the reconciler's settings.
use dockerdynomesh.Prelude.{
  ◌≡◌, refl, sym, subst, ◌∙◌, Bool, true, false, List, Bool-cases, inl, inr,
}
use dockerdynomesh.Prelude.Result.{Result, ok, err}
use dockerdynomesh.Text.{Text}
use dockerdynomesh.Inspect.{InspectResponse, projects_of}
use dockerdynomesh.Render.{RenderError}
use dockerdynomesh.Discoverer.Reconcile.{
  Reconciler, Services, ReconcileError, State, same_projects, call_certgen, ensure_certificate,
  log_warnings, promote, write_config, publish, finish, reconcile_with, reconcile,
}
use dockerdynomesh.Discoverer.Reconcile.Listing.{Listed, reconcile-Listed}

-- The fields that `main` sets agree.
pub record SameSettings (r s : Reconciler) : Type 0 where
  pub out : s.out ≡ r.out
  pub suffixes : s.suffixes ≡ r.suffixes
  pub machine : s.machine ≡ r.machine
  pub tailnet : s.tailnet ≡ r.tailnet
  pub network : s.network ≡ r.network

pub SameSettings-refl : {r : Reconciler} → SameSettings r r
SameSettings-refl = record {
  out = refl;
  suffixes = refl;
  machine = refl;
  tailnet = refl;
  network = refl;
}

pub SameSettings-trans :
    {r s t : Reconciler} → SameSettings r s → SameSettings s t → SameSettings r t
SameSettings-trans h k = record {
  out = k.out ∙ h.out;
  suffixes = k.suffixes ∙ h.suffixes;
  machine = k.machine ∙ h.machine;
  tailnet = k.tailnet ∙ h.tailnet;
  network = k.network ∙ h.network;
}

module _ {W : Type 0} (services : Services W) where
  SameSettings-certified :
      (projects : List Text) (s : State W)
      → SameSettings s.reconciler (ensure_certificate services projects s).1.reconciler
  unfolding ensure_certificate call_certgen
  SameSettings-certified projects s =
      elim (Bool-cases (same_projects projects s.reconciler.last_projects)) [
        | inl e ↦ rw e SameSettings-refl
        | inr e ↦ rw e SameSettings-refl
      ]

  SameSettings-published :
      (projects : List Text) (rendered : Result RenderError Text) (s : State W)
      → SameSettings s.reconciler (publish services projects rendered s).1.reconciler
  unfolding publish promote write_config
  SameSettings-published projects (err e) s = SameSettings-refl
  SameSettings-published projects (ok yaml) s =
      elim (Bool-cases (services.write_out s.reconciler.out yaml s.world).0) [
        | inl e ↦
            rw e (record {
              out = refl;
              suffixes = refl;
              machine = refl;
              tailnet = refl;
              network = refl;
            })
        | inr e ↦ rw e SameSettings-refl
      ]

  SameSettings-finish :
      (cs : List InspectResponse) (works : Bool) (s : State W)
      → SameSettings s.reconciler (finish services cs (works, s)).1.reconciler
  unfolding finish log_warnings
  SameSettings-finish cs false s = SameSettings-refl
  SameSettings-finish cs true s =
      let k = SameSettings-published (projects_of cs) _ (log_warnings services cs s) in
      record {
        out = k.out;
        suffixes = k.suffixes;
        machine = k.machine;
        tailnet = k.tailnet;
        network = k.network;
      }

  SameSettings-reconcile_with :
      (cs : List InspectResponse) (s : State W)
      → SameSettings s.reconciler (reconcile_with services cs s).1.reconciler
  unfolding reconcile_with
  SameSettings-reconcile_with cs s =
      SameSettings-trans (SameSettings-certified (projects_of cs) s)
        (SameSettings-finish cs _ (ensure_certificate services (projects_of cs) s).1)

  SameSettings-Listed :
      (s : State W) {e : Result ReconcileError (Unit {0}) × State W}
      → Listed services s e
      → SameSettings s.reconciler e.1.reconciler
  SameSettings-Listed s (Listed.unlisted p) =
      subst (λ x. SameSettings s.reconciler x.1.reconciler) (sym p) SameSettings-refl
  SameSettings-Listed s (Listed.with_containers cs l p) =
      subst (λ x. SameSettings s.reconciler x.1.reconciler) (sym p)
        (SameSettings-reconcile_with cs _)

  -- Neither a reconcile that succeeds nor one that fails changes a setting.
  pub reconcile-SameSettings :
      (s : State W) → SameSettings s.reconciler (reconcile services s).1.reconciler
  reconcile-SameSettings s = SameSettings-Listed s (reconcile-Listed services s)
