-- ===== src/Discoverer/Reconcile/Issued.antt =====
-- The certificate behind the reconciler, however the reconciles end.
use dockerdynomesh.Prelude.{
  ◌≡◌, sym, subst, ◌∙◌, Bool, true, false, List, [], ◌∷◌, ◌++◌, none, some, Bool-cases, inl, inr,
}
use dockerdynomesh.Prelude.Result.{Result, ok, err}
use mathlib.Core.Option.{some-injective}
use dockerdynomesh.Text.{Text}
use dockerdynomesh.Inspect.{InspectResponse, projects_of}
use dockerdynomesh.Render.{RenderError}
use dockerdynomesh.Certgen.Api.{ReissueRequest}
use dockerdynomesh.Discoverer.Reconcile.{
  Effect, Services, ReconcileError, State, same_projects, network_of, request_of, call_certgen,
  ensure_certificate, warnings, log_warnings, promote, write_config, publish, finish,
  reconcile_with, list_eligible, reconcile,
}
use dockerdynomesh.Discoverer.Reconcile.Order.{
  InStep, last_reissued, last_reissued-append, last_reissued-warnings,
}
use dockerdynomesh.Discoverer.Reconcile.Phases.{warnings-IsWarning}
use dockerdynomesh.Discoverer.Reconcile.Listing.{Listed, keeps-list_eligible, reconcile-Listed}
use dockerdynomesh.Discoverer.Certified.{KeepsCertificate, IsServed}

module _ {W : Type 0} (services : Services W) (Moves : W → W → Type 0)
    (Cert : ReissueRequest → W → Type 0) where
  -- The certificate is for the projects of the last reissue that succeeded, if there was one.
  abbrev pub IsIssued : State W → Type 0
  IsIssued s =
      (ps : List Text)
      → last_reissued none s.trace ≡ some ps
      → Cert (request_of s.reconciler ps) s.world

  -- If these are the projects that the reconciler remembers, it is served.
  pub IsServed-of_InStep : (s : State W) → IsIssued s → InStep s → IsServed services Moves Cert s
  IsServed-of_InStep s h in_step ps last = h ps (in_step ∙ last)

  module _ (keeps : KeepsCertificate services Moves Cert) where
    IsIssued-call_certgen :
        (projects : List Text) (s : State W)
        → IsIssued s
        → IsIssued (call_certgen services (request_of s.reconciler projects) s).1
    unfolding call_certgen last_reissued
    IsIssued-call_certgen projects s h ps last =
        let request = request_of s.reconciler projects in
        elim (Bool-cases (services.certgen request s.world).0) [
          | inl e ↦
              let same : projects ≡ ps =
                some-injective _ _ (sym (last_reissued-append none s.trace _) ∙ (rw e at last)) in
              subst (λ qs. Cert (request_of s.reconciler qs) (services.certgen request s.world).1)
                same (keeps.issues request s.world e)
          | inr e ↦
              keeps.refuses request (request_of s.reconciler ps) s.world e
                (h ps (sym (last_reissued-append none s.trace _) ∙ (rw e at last)))
        ]

    IsIssued-ensure_certificate :
        (projects : List Text) (s : State W)
        → IsIssued s
        → IsIssued (ensure_certificate services projects s).1
    unfolding ensure_certificate
    IsIssued-ensure_certificate projects s h =
        elim (Bool-cases (same_projects projects s.reconciler.last_projects)) [
          | inl e ↦ rw e h
          | inr e ↦ rw e (IsIssued-call_certgen projects s h)
        ]

    IsIssued-log_warnings :
        (cs : List InspectResponse) (s : State W)
        → IsIssued s
        → IsIssued (log_warnings services cs s)
    unfolding log_warnings
    IsIssued-log_warnings cs s h ps last =
        let es = (warnings services (network_of s.reconciler) cs s.reconciler.logged_misconfig).1 in
        let quiet =
          last_reissued-append none s.trace es
          ∙ last_reissued-warnings _ es (
              warnings-IsWarning services cs s (network_of s.reconciler) cs
                s.reconciler.logged_misconfig) in
        h ps (sym quiet ∙ last)

    IsIssued-publish :
        (projects : List Text) (rendered : Result RenderError Text) (s : State W)
        → IsIssued s
        → IsIssued (publish services projects rendered s).1
    unfolding publish promote write_config last_reissued
    IsIssued-publish projects (err e) s h = h
    IsIssued-publish projects (ok yaml) s h =
        elim (Bool-cases (services.write_out s.reconciler.out yaml s.world).0) [
          | inl e ↦ rw e (written true)
          | inr e ↦ rw e (written false)
        ]
      where
        written :
            (works : Bool) (ps : List Text)
            → last_reissued none (s.trace ++ (Effect.write s.reconciler.out yaml works ∷ []))
              ≡ some ps
            → Cert (request_of s.reconciler ps) (services.write_out s.reconciler.out yaml s.world).1
        written works ps last =
            keeps.writes (request_of s.reconciler ps) s.reconciler.out yaml s.world
              (h ps (sym (last_reissued-append none s.trace _) ∙ last))

    IsIssued-finish :
        (cs : List InspectResponse) (works : Bool) (s : State W)
        → IsIssued s
        → IsIssued (finish services cs (works, s)).1
    unfolding finish
    IsIssued-finish cs false s h = h
    IsIssued-finish cs true s h =
        IsIssued-publish (projects_of cs) _ (log_warnings services cs s)
          (IsIssued-log_warnings cs s h)

    IsIssued-reconcile_with :
        (cs : List InspectResponse) (s : State W)
        → IsIssued s
        → IsIssued (reconcile_with services cs s).1
    unfolding reconcile_with
    IsIssued-reconcile_with cs s h =
        IsIssued-finish cs _ (ensure_certificate services (projects_of cs) s).1
          (IsIssued-ensure_certificate (projects_of cs) s h)

    IsIssued-list_eligible :
        (s : State W)
        → IsIssued s
        → IsIssued (record s { world = (list_eligible services s.world).1 })
    IsIssued-list_eligible s h ps last =
        keeps-list_eligible services (Cert (request_of s.reconciler ps))
          (keeps.lists (request_of s.reconciler ps)) (keeps.inspects (request_of s.reconciler ps))
          s.world (h ps last)

    IsIssued-Listed :
        (s : State W) {e : Result ReconcileError (Unit {0}) × State W}
        → Listed services s e
        → IsIssued s
        → IsIssued e.1
    IsIssued-Listed s (Listed.unlisted p) h =
        subst (λ x. IsIssued x.1) (sym p) (IsIssued-list_eligible s h)
    IsIssued-Listed s (Listed.with_containers cs l p) h =
        subst (λ x. IsIssued x.1) (sym p)
          (IsIssued-reconcile_with cs (record s { world = (list_eligible services s.world).1 })
            (IsIssued-list_eligible s h))

    -- A reconcile keeps this, whether it succeeds or fails, and wherever it fails.
    pub IsIssued-reconcile : (s : State W) → IsIssued s → IsIssued (reconcile services s).1
    IsIssued-reconcile s h = IsIssued-Listed s (reconcile-Listed services s) h

    pub IsIssued-moved :
        (s : State W) {w : W} → Moves s.world w → IsIssued s → IsIssued (record s { world = w })
    IsIssued-moved s m h ps last = keeps.moves (request_of s.reconciler ps) m (h ps last)
