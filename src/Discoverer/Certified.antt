-- ===== src/Discoverer/Certified.antt =====
-- The certificate behind the reconciler, as an interface: what the services must keep for the
-- certificate in the world to be the one that the reconciler remembers.
use dockerdynomesh.Prelude.{◌≡◌, sym, ap, subst, ◌∙◌, true, false, List, some, inl, inr, ◌⊎◌}
use dockerdynomesh.Prelude.Result.{Result, ok, err}
use mathlib.Core.Option.{some-injective}
use dockerdynomesh.Text.{Text}
use dockerdynomesh.Inspect.{InspectResponse, projects_of}
use dockerdynomesh.Certgen.Api.{ReissueRequest}
use dockerdynomesh.Discoverer.Reconcile.{
  Services, ReconcileError, list_failed, reissue_failed, State, request_of, reconcile_with,
  list_eligible, reconcile,
}
use dockerdynomesh.Discoverer.Reconcile.Phases.{reconcile_with_listed}
use dockerdynomesh.Discoverer.Reconcile.Listing.{Listed, keeps-list_eligible, reconcile-Listed}
use dockerdynomesh.Discoverer.Reconcile.Worlds.{
  CertifiedIn, reconcile_with-Success, reconcile_with-Refusal,
}

-- `Cert request w` says that the certificate of the world `w` is for the request. A reissue that
-- succeeds makes it so, and nothing else ends it: no reissue that fails, no write of a configuration,
-- no call of docker, and no move of the environment.
pub record KeepsCertificate {W : Type 0} (services : Services W) (Moves : W → W → Type 0)
    (Cert : ReissueRequest → W → Type 0) : Type 0 where
  pub issues :
      (request : ReissueRequest) (w : W)
      → (services.certgen request w).0 ≡ true
      → Cert request (services.certgen request w).1
  pub refuses :
      (request old : ReissueRequest) (w : W)
      → (services.certgen request w).0 ≡ false
      → Cert old w
      → Cert old (services.certgen request w).1
  pub writes :
      (old : ReissueRequest) (path yaml : Text) (w : W)
      → Cert old w
      → Cert old (services.write_out path yaml w).1
  pub lists : (old : ReissueRequest) (w : W) → Cert old w → Cert old (services.list w).1
  pub inspects :
      (old : ReissueRequest) (id : Text) (w : W) → Cert old w → Cert old (services.inspect id w).1
  pub moves : (old : ReissueRequest) {w v : W} → Moves w v → Cert old w → Cert old v

module _ {W : Type 0} (services : Services W) (Moves : W → W → Type 0)
    (Cert : ReissueRequest → W → Type 0) where
  -- The certificate is for the projects that the reconciler remembers, if it remembers any.
  abbrev pub IsServed : State W → Type 0
  IsServed s =
      (ps : List Text)
      → s.reconciler.last_projects ≡ some ps
      → Cert (request_of s.reconciler ps) s.world

  -- The end of a reconcile that succeeded, or that had its certificate refused, or that got no list.
  abbrev pub IsEarly : Result ReconcileError (Unit {0}) → Type 0
  IsEarly r = (r ≡ ok tt) ⊎ ((r ≡ err reissue_failed) ⊎ (r ≡ err list_failed))

  module _ (keeps : KeepsCertificate services Moves Cert) where
    Cert-certified :
        (cs : List InspectResponse) (s : State W) {w : W}
        → IsServed s
        → CertifiedIn services cs s w
        → Cert (request_of s.reconciler (projects_of cs)) w
    Cert-certified cs s h (CertifiedIn.remembered e) = h (projects_of cs) e
    Cert-certified cs s h (CertifiedIn.issued e) =
        keeps.issues (request_of s.reconciler (projects_of cs)) s.world e

    -- A reconcile that succeeds leaves a certificate for its containers.
    pub reconcile_with-Cert :
        (cs : List InspectResponse) (s : State W)
        → IsServed s
        → (reconcile_with services cs s).0 ≡ ok tt
        → Cert (request_of s.reconciler (projects_of cs)) (reconcile_with services cs s).1.world
    reconcile_with-Cert cs s h e =
        let c = reconcile_with-Success services cs s e in
        rw c.world (
          keeps.writes (request_of s.reconciler (projects_of cs)) s.reconciler.out c.yaml c.between
            (Cert-certified cs s h c.certified))

    IsServed-ok :
        (cs : List InspectResponse) (s : State W)
        → IsServed s
        → (reconcile_with services cs s).0 ≡ ok tt
        → IsServed (reconcile_with services cs s).1
    IsServed-ok cs s h e ps last =
        let c = reconcile_with-Success services cs s e in
        let same : projects_of cs ≡ ps = some-injective _ _ (sym c.last ∙ last) in
        subst (λ q. Cert q (reconcile_with services cs s).1.world)
          (ap (request_of s.reconciler) same ∙ sym (c.request ps)) (reconcile_with-Cert cs s h e)

    IsServed-refused :
        (cs : List InspectResponse) (s : State W)
        → IsServed s
        → (reconcile_with services cs s).0 ≡ err reissue_failed
        → IsServed (reconcile_with services cs s).1
    IsServed-refused cs s h e ps last =
        let c = reconcile_with-Refusal services cs s e in
        rw (c.world, c.reconciler)
          (keeps.refuses (request_of s.reconciler (projects_of cs)) (request_of s.reconciler ps)
            s.world c.refused (h ps (sym (ap (λ r. r.last_projects) c.reconciler) ∙ last)))

    Cert-list_eligible :
        (old : ReissueRequest) (w : W) → Cert old w → Cert old (list_eligible services w).1
    Cert-list_eligible old =
        keeps-list_eligible services (Cert old) (keeps.lists old) (keeps.inspects old)

    pub IsServed-list_eligible :
        (s : State W)
        → IsServed s
        → IsServed (record s { world = (list_eligible services s.world).1 })
    IsServed-list_eligible s h ps last =
        Cert-list_eligible (request_of s.reconciler ps) s.world (h ps last)

    IsServed-early :
        (cs : List InspectResponse) (s : State W)
        → IsServed s
        → IsEarly (reconcile_with services cs s).0
        → IsServed (reconcile_with services cs s).1
    IsServed-early cs s h (inl e) = IsServed-ok cs s h e
    IsServed-early cs s h (inr (inl e)) = IsServed-refused cs s h e
    IsServed-early cs s h (inr (inr e)) = absurd (reconcile_with_listed services cs s e)

    IsServed-Listed :
        (s : State W) {e : Result ReconcileError (Unit {0}) × State W}
        → Listed services s e
        → IsServed s
        → IsEarly e.0
        → IsServed e.1
    IsServed-Listed s (Listed.unlisted p) h early =
        subst (λ x. IsServed x.1) (sym p) (IsServed-list_eligible s h)
    IsServed-Listed s (Listed.with_containers cs l p) h early =
        subst (λ x. IsServed x.1) (sym p)
          (IsServed-early cs (record s { world = (list_eligible services s.world).1 })
            (IsServed-list_eligible s h) (subst (λ x. IsEarly x.0) p early))

    IsServed-moved :
        (s : State W) {w : W} → Moves s.world w → IsServed s → IsServed (record s { world = w })
    IsServed-moved s m h ps last = keeps.moves (request_of s.reconciler ps) m (h ps last)

    -- The states behind any number of reconciles that end early or succeed, between which the
    -- environment moves.
    pub data Run (s : State W) : State W → Type 0 where
      here : Run s s
      moved : {t : State W} {w : W} → Run s t → Moves t.world w → Run s (record t { world = w })
      reconciled :
          {t : State W}
          → Run s t
          → IsEarly (reconcile services t).0
          → Run s (reconcile services t).1

    pub IsServed-Run : {s t : State W} → IsServed s → Run s t → IsServed t
    IsServed-Run h Run.here = h
    IsServed-Run h (Run.moved {t = t} r m) = IsServed-moved t m (IsServed-Run h r)
    IsServed-Run h (Run.reconciled {t = t} r e) =
        IsServed-Listed t (reconcile-Listed services t) (IsServed-Run h r) e
