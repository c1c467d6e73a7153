-- ===== src/Discoverer/Reconcile/Worlds.antt =====
-- What a reconcile does to the world, by its result.
use dockerdynomesh.Prelude.{
  ◌≡◌, ◌≢◌, refl, sym, ap, ◌∙◌, Bool, true, false, List, some, Bool-cases, inl, inr,
}
use dockerdynomesh.Prelude.Result.{Result, ok, err, ok_ne_err, err_inj}
use dockerdynomesh.Text.{Text}
use dockerdynomesh.Inspect.{InspectResponse, projects_of}
use dockerdynomesh.Render.{RenderError}
use dockerdynomesh.Certgen.Api.{ReissueRequest}
use dockerdynomesh.Discoverer.Reconcile.{
  Reconciler, Services, ReconcileError, reissue_failed, write_failed, render_failed, State,
  same_projects, network_of, request_of, config_of, routes, call_certgen, ensure_certificate,
  log_warnings, promote, write_config, publish, finish, reconcile_with,
}
use dockerdynomesh.Discoverer.Reconcile.Phases.{same_projects-true, same_projects-false}

not_render_failed : (e : RenderError) → render_failed e ≢ reissue_failed
not_render_failed e h = cc

not_write_failed : write_failed ≢ reissue_failed
not_write_failed h = cc

module _ {W : Type 0} (services : Services W) where
  -- The write that ends a reconcile which succeeds.
  pub record Wrote (t : State W) (projects : List Text) (rendered : Result RenderError Text)
      (e : Result ReconcileError (Unit {0}) × State W) : Type 0 where
    pub yaml : Text
    pub text : rendered ≡ ok yaml
    pub works : (services.write_out t.reconciler.out yaml t.world).0 ≡ true
    pub world : e.1.world ≡ (services.write_out t.reconciler.out yaml t.world).1
    pub last : e.1.reconciler.last_projects ≡ some projects
    pub request : (ps : List Text) → request_of e.1.reconciler ps ≡ request_of t.reconciler ps

  publish_ok :
      (t : State W) (projects : List Text) (rendered : Result RenderError Text)
      → (publish services projects rendered t).0 ≡ ok tt
      → Wrote t projects rendered (publish services projects rendered t)
  unfolding publish promote write_config
  publish_ok t projects (err e) h = absurd (ok_ne_err (sym h))
  publish_ok t projects (ok yaml) h =
      elim (Bool-cases (services.write_out t.reconciler.out yaml t.world).0) [
        | inl e ↦ rw e (record {
          yaml = yaml;
          text = refl;
          works = e;
          world = refl;
          last = refl;
          request = λ ps. refl;
        })
        | inr e ↦ absurd (ok_ne_err (sym (rw e at h)))
      ]

  -- A failure to publish is no refused certificate.
  not_refused_publish :
      (t : State W) (projects : List Text) (rendered : Result RenderError Text)
      → (publish services projects rendered t).0 ≢ err reissue_failed
  unfolding publish promote write_config
  not_refused_publish t projects (err e) h = not_render_failed e (err_inj h)
  not_refused_publish t projects (ok yaml) h =
      elim (Bool-cases (services.write_out t.reconciler.out yaml t.world).0) [
        | inl e ↦ absurd (ok_ne_err (rw e at h))
        | inr e ↦ not_write_failed (err_inj (rw e at h))
      ]

  -- What a write keeps, a reconcile for the remembered projects keeps.
  module _ {κ} (K : W → Type κ)
      (keeps : (path yaml : Text) (w : W) → K w → K (services.write_out path yaml w).1) where
    keeps-publish :
        (t : State W) (projects : List Text) (rendered : Result RenderError Text)
        → K t.world
        → K (publish services projects rendered t).1.world
    unfolding publish promote write_config
    keeps-publish t projects (err e) k = k
    keeps-publish t projects (ok yaml) k =
        let kept = keeps t.reconciler.out yaml t.world k in
        elim (Bool-cases (services.write_out t.reconciler.out yaml t.world).0) [
          | inl e ↦ rw e kept
          | inr e ↦ rw e kept
        ]

    pub keeps-remembered :
        (cs : List InspectResponse) (s : State W)
        → s.reconciler.last_projects ≡ some (projects_of cs)
        → K s.world
        → K (reconcile_with services cs s).1.world
    unfolding reconcile_with ensure_certificate finish log_warnings
    keeps-remembered cs s h k =
        elim (Bool-cases (same_projects (projects_of cs) s.reconciler.last_projects)) [
          | inl e ↦ rw e (keeps-publish (log_warnings services cs s) (projects_of cs) _ k)
          | inr e ↦ absurd (same_projects-false (projects_of cs) s.reconciler.last_projects e h)
        ]

  module _ (cs : List InspectResponse) (s : State W) where
    abbrev wanted : ReissueRequest
    wanted = request_of s.reconciler (projects_of cs)

    -- The world behind the certificate: as before for the remembered projects, else as the service
    -- left it when it succeeded.
    pub data CertifiedIn : W → Type 0 where
      remembered : s.reconciler.last_projects ≡ some (projects_of cs) → CertifiedIn s.world
      issued :
          (services.certgen wanted s.world).0 ≡ true
          → CertifiedIn (services.certgen wanted s.world).1

    -- A reconcile that succeeded, with the world between certificate and write.
    pub record Success (e : Result ReconcileError (Unit {0}) × State W) : Type 0 where
      pub between : W
      pub certified : CertifiedIn between
      pub yaml : Text
      pub text :
          services.render (config_of s.reconciler (routes services (network_of s.reconciler) cs))
          ≡ ok yaml
      pub works : (services.write_out s.reconciler.out yaml between).0 ≡ true
      pub world : e.1.world ≡ (services.write_out s.reconciler.out yaml between).1
      pub last : e.1.reconciler.last_projects ≡ some (projects_of cs)
      pub request : (ps : List Text) → request_of e.1.reconciler ps ≡ request_of s.reconciler ps

    -- A reconcile whose certificate was refused.
    pub record Refusal (e : Result ReconcileError (Unit {0}) × State W) : Type 0 where
      pub refused : (services.certgen wanted s.world).0 ≡ false
      pub world : e.1.world ≡ (services.certgen wanted s.world).1
      pub reconciler : e.1.reconciler ≡ s.reconciler

    Success-of_Wrote :
        (t : State W)
        → t.reconciler ≡ s.reconciler
        → CertifiedIn t.world
        → (finish services cs (true, t)).0 ≡ ok tt
        → Success (finish services cs (true, t))
    unfolding finish log_warnings
    Success-of_Wrote t same c h =
        let w = publish_ok (log_warnings services cs t) (projects_of cs) _ h in
        record {
          between = t.world;
          certified = c;
          yaml = w.yaml;
          text =
              ap (λ r. services.render (config_of r (routes services (network_of r) cs))) (sym same)
              ∙ w.text;
          works =
              ap (λ (r : Reconciler). (services.write_out r.out w.yaml t.world).0) (sym same)
              ∙ w.works;
          world =
              w.world ∙ ap (λ (r : Reconciler). (services.write_out r.out w.yaml t.world).1) same;
          last = w.last;
          request = λ ps. w.request ps ∙ ap (λ r. request_of r ps) same;
        }

    Success-of_call :
        (b : Bool)
        → (services.certgen wanted s.world).0 ≡ b
        → (finish services cs (b, (call_certgen services wanted s).1)).0 ≡ ok tt
        → Success (finish services cs (b, (call_certgen services wanted s).1))
    unfolding finish call_certgen
    Success-of_call false e h = absurd (ok_ne_err (sym h))
    Success-of_call true e h =
        Success-of_Wrote (call_certgen services wanted s).1 refl (CertifiedIn.issued e) h

    pub reconcile_with-Success :
        (reconcile_with services cs s).0 ≡ ok tt → Success (reconcile_with services cs s)
    unfolding reconcile_with call_certgen
    reconcile_with-Success h =
        elim (Bool-cases (same_projects (projects_of cs) s.reconciler.last_projects)) [
          | inl e ↦ rw e (
              Success-of_Wrote s refl
                (CertifiedIn.remembered
                  (same_projects-true (projects_of cs) s.reconciler.last_projects e))
                (rw e at h))
          | inr e ↦ rw e (Success-of_call (services.certgen wanted s.world).0 refl (rw e at h))
        ]

    not_refused : (t : State W) → (finish services cs (true, t)).0 ≢ err reissue_failed
    unfolding finish publish promote write_config
    not_refused t h =
        not_refused_publish (log_warnings services cs t) (projects_of cs)
          (services.render (config_of t.reconciler (routes services (network_of t.reconciler) cs)))
          h

    Refusal-of_call :
        (b : Bool)
        → (services.certgen wanted s.world).0 ≡ b
        → (finish services cs (b, (call_certgen services wanted s).1)).0 ≡ err reissue_failed
        → Refusal (finish services cs (b, (call_certgen services wanted s).1))
    unfolding finish call_certgen
    Refusal-of_call false e h = record { refused = e; world = refl; reconciler = refl }
    Refusal-of_call true e h = absurd (not_refused (call_certgen services wanted s).1 h)

    pub reconcile_with-Refusal :
        (reconcile_with services cs s).0 ≡ err reissue_failed
        → Refusal (reconcile_with services cs s)
    unfolding reconcile_with call_certgen
    reconcile_with-Refusal h =
        elim (Bool-cases (same_projects (projects_of cs) s.reconciler.last_projects)) [
          | inl e ↦ absurd (not_refused s (rw e at h))
          | inr e ↦ rw e (Refusal-of_call (services.certgen wanted s.world).0 refl (rw e at h))
        ]
