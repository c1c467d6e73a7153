-- ===== src/Discoverer/System/Unrenewed.antt =====
-- When the certificate is not renewed.
use dockerdynomesh.Prelude.{◌≡◌, refl, List, some}
use dockerdynomesh.Inspect.{InspectResponse, projects_of}
use dockerdynomesh.Discoverer.Reconcile.{State, reconcile_with}
use dockerdynomesh.Discoverer.Reconcile.Worlds.{keeps-remembered}
use dockerdynomesh.Discoverer.System.{World, Platform, services}

-- As long as the projects are those of the last success, a reconcile leaves the certificate's files as
-- they are, at whatever time and however close the certificate is to its expiry: the service, which
-- would renew it within thirty days of that, is not asked.
pub unrenewed :
    {A Wire : Type 0} (p : Platform A Wire) (cs : List InspectResponse) (s : State (World A))
    → s.reconciler.last_projects ≡ some (projects_of cs)
    → (reconcile_with (services p) cs s).1.world.certs ≡ s.world.certs
unrenewed {A} p cs s h =
    keeps-remembered (services p) (λ (w : World A). w.certs ≡ s.world.certs) (λ path yaml w k. k) cs
      s h refl
