-- ===== src/Discoverer/Reconcile/Blocked.antt =====
-- One container with an unusable project label stops every reconcile.
use mathlib.Core.List.{Memᴰ}
use dockerdynomesh.Prelude.{◌≡◌, refl, sym, ◌∙◌, ◌≢◌, true, false, List, some, inl, inr, Bool-cases}
use dockerdynomesh.Text.{is_empty}
use dockerdynomesh.Inspect.{InspectResponse, project_of, projects_of}
use dockerdynomesh.Inspect.Projects.{projects_of_lem}
use dockerdynomesh.Certgen.San.{validate_label}
use dockerdynomesh.Certgen.Api.{ReissueRequest}
use dockerdynomesh.Certgen.Api.Validation.{IsValid}
use dockerdynomesh.Discoverer.Reconcile.{
  Services, State, same_projects, request_of, call_certgen, reconcile_with,
}
use dockerdynomesh.Discoverer.Reconcile.Phases.{Refused, same_projects-true}

-- The certificate service refuses every request that is not valid.
pub record RefusesInvalid {W : Type 0} (services : Services W) : Type 0 where
  pub refuses :
      (request : ReissueRequest) (w : W)
      → ¬ IsValid request
      → (services.certgen request w).0 ≡ false

true_ne_false : ¬ (true ≡ false)
true_ne_false h = cc

module _ {W : Type 0} (services : Services W) (cs : List InspectResponse) (s : State W) where
  Refused-of :
      s.reconciler.last_projects ≢ some (projects_of cs)
      → same_projects (projects_of cs) s.reconciler.last_projects ≡ false
      → (services.certgen (request_of s.reconciler (projects_of cs)) s.world).0 ≡ false
      → Refused services cs s (reconcile_with services cs s)
  unfolding reconcile_with call_certgen
  Refused-of n e f = rw (e, f) (record { differs = n; result = refl; effects = refl; last = refl })

  differs_false :
      s.reconciler.last_projects ≢ some (projects_of cs)
      → same_projects (projects_of cs) s.reconciler.last_projects ≡ false
  differs_false n = elim (Bool-cases (same_projects (projects_of cs) s.reconciler.last_projects)) [
    | inl e ↦ absurd (n (same_projects-true (projects_of cs) s.reconciler.last_projects e))
    | inr e ↦ e
  ]

  -- Where the certificate service refuses invalid requests, some container, routed or not, has a
  -- project label that is no valid label, and the projects are not those of the last success, the
  -- reconcile ends with the refused certificate: no configuration is rendered or written for any
  -- container.
  pub reconcile_blocked :
      RefusesInvalid services
      → (c : InspectResponse) → Memᴰ c cs
      → is_empty (project_of c) ≡ false
      → validate_label (project_of c) ≡ false
      → s.reconciler.last_projects ≢ some (projects_of cs)
      → Refused services cs s (reconcile_with services cs s)
  reconcile_blocked service c m given bad n =
      let listed = ((projects_of_lem cs).2 (project_of c)).1 (c, m, refl, given) in
      Refused-of n (differs_false n) (
        service.refuses (request_of s.reconciler (projects_of cs)) s.world
          (λ v. true_ne_false (sym (v.projects (project_of c) listed) ∙ bad)))
