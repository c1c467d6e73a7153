-- ===== src/Discoverer/Reconcile/Stale.antt =====
-- A certificate for other projects than those of the configuration.
use dockerdynomesh.Prelude.{◌≡◌, refl, sym, ◌∙◌, ◌≢◌, List, Option, none, some, inl, inr, ◌⊎◌}
use mathlib.Core.Option.{some-injective}
use dockerdynomesh.Prelude.Result.{Result, ok, err}
use dockerdynomesh.Text.{Text}
use dockerdynomesh.Inspect.{InspectResponse, projects_of}
use dockerdynomesh.Render.{RenderError}
use dockerdynomesh.Discoverer.Reconcile.{
  Effect, Services, ReconcileError, reissue_failed, write_failed, render_failed, State,
  reconcile_with,
}
use dockerdynomesh.Discoverer.Reconcile.Phases.{Certified, Published, reconcile_with_lem}
use dockerdynomesh.Discoverer.Reconcile.Order.{last_reissued, last_reissued-Ran}

-- The reconcile failed behind the certificate: at the template or at the file.
abbrev pub FailsLate : Result ReconcileError (Unit {0}) → Type 0
FailsLate r = (r ≡ err write_failed) ⊎ ((e : RenderError) × (r ≡ err (render_failed e)))

not-FailsLate : FailsLate (ok tt) → ⊥
not-FailsLate (inl e) = cc
not-FailsLate (inr (x, e)) = cc

refused-not-FailsLate :
    {r : Result ReconcileError (Unit {0})} → r ≡ err reissue_failed → ¬ FailsLate r
refused-not-FailsLate h (inl e) = cc
refused-not-FailsLate h (inr (x, e)) = cc

module _ {W : Type 0} (services : Services W) (s : State W) where
  last_of_late :
      (ds : List InspectResponse) {r : Result ReconcileError (Unit {0})} {last : Option (List Text)}
      {es : List Effect}
      → Published services ds s r last es
      → FailsLate r
      → last ≡ s.reconciler.last_projects
  last_of_late ds (Published.unrendered e d) h = refl
  last_of_late ds (Published.unwritten yaml d) h = refl
  last_of_late ds (Published.written yaml d) h = absurd (not-FailsLate h)

  reissued_anew :
      (cs ds : List InspectResponse) {es : List Effect}
      → s.reconciler.last_projects ≡ some (projects_of cs)
      → projects_of ds ≢ projects_of cs
      → Certified services ds s es
      → last_reissued (last_reissued none s.trace) es ≡ some (projects_of ds)
  unfolding last_reissued
  reissued_anew cs ds h n (Certified.unchanged e) = absurd (n (some-injective _ _ (sym e ∙ h)))
  reissued_anew cs ds h n (Certified.issued m) = refl

  -- After a success with the containers `cs`, a reconcile with the containers `ds` of other projects
  -- that gets its certificate and then fails to render or to write leaves `cs` remembered beside a
  -- certificate for the projects of `ds`.
  pub late_failure :
      (cs ds : List InspectResponse)
      → s.reconciler.last_projects ≡ some (projects_of cs)
      → projects_of ds ≢ projects_of cs
      → FailsLate (reconcile_with services ds s).0
      → (last_reissued none (reconcile_with services ds s).1.trace ≡ some (projects_of ds))
        × ((reconcile_with services ds s).1.reconciler.last_projects ≡ some (projects_of cs))
  late_failure cs ds h n late = elim (reconcile_with_lem services ds s) [
    | inl r ↦ absurd (refused-not-FailsLate r.result late)
    | inr r ↦ (
      last_reissued-Ran services ds s r ∙ reissued_anew cs ds h n r.certified,
      last_of_late ds r.published late ∙ h,
    )
  ]

  not_anew :
      (cs : List InspectResponse) {es : List Effect}
      → s.reconciler.last_projects ≡ some (projects_of cs)
      → Certified services cs s es
      → last_reissued (last_reissued none s.trace) es ≡ last_reissued none s.trace
  unfolding last_reissued
  not_anew cs h (Certified.unchanged e) = refl
  not_anew cs h (Certified.issued n) = absurd (n h)

  -- A reconcile for the remembered projects asks for no certificate.
  no_reissue :
      (cs : List InspectResponse)
      → s.reconciler.last_projects ≡ some (projects_of cs)
      → last_reissued none (reconcile_with services cs s).1.trace ≡ last_reissued none s.trace
  no_reissue cs h = elim (reconcile_with_lem services cs s) [
    | inl r ↦ absurd (r.differs h)
    | inr r ↦ last_reissued-Ran services cs s r ∙ not_anew cs h r.certified
  ]

  last_of_Published :
      (cs : List InspectResponse) {r : Result ReconcileError (Unit {0})} {last : Option (List Text)}
      {es : List Effect}
      → Published services cs s r last es
      → s.reconciler.last_projects ≡ some (projects_of cs)
      → last ≡ some (projects_of cs)
  last_of_Published cs (Published.unrendered e d) h = h
  last_of_Published cs (Published.unwritten yaml d) h = h
  last_of_Published cs (Published.written yaml d) h = refl

  -- It also keeps them remembered.
  last_kept :
      (cs : List InspectResponse)
      → s.reconciler.last_projects ≡ some (projects_of cs)
      → (reconcile_with services cs s).1.reconciler.last_projects ≡ some (projects_of cs)
  last_kept cs h = elim (reconcile_with_lem services cs s) [
    | inl r ↦ r.last ∙ h
    | inr r ↦ last_of_Published cs r.published h
  ]

-- Once the projects of `cs` are remembered, a reconcile with containers `ds` of other projects
-- that gets past the certificate and fails to render or to write, and a next one with `cs` again,
-- end with the projects of `cs` remembered and a last certificate that is for those of `ds`.
pub stale_certificate :
    {W : Type 0} (services : Services W) (s : State W) (cs ds : List InspectResponse)
    → s.reconciler.last_projects ≡ some (projects_of cs)
    → projects_of ds ≢ projects_of cs
    → FailsLate (reconcile_with services ds s).0
    → let u = (reconcile_with services cs (reconcile_with services ds s).1).1 in
      (last_reissued none u.trace ≡ some (projects_of ds))
      × (u.reconciler.last_projects ≡ some (projects_of cs))
stale_certificate services s cs ds h n late =
    let (a, b) = late_failure services s cs ds h n late in
    let t = (reconcile_with services ds s).1 in
    (no_reissue services t cs b ∙ a, last_kept services t cs b)
