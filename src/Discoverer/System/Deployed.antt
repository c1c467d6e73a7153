-- ===== src/Discoverer/System/Deployed.antt =====
-- What the program as a whole leaves on disk.
use mathlib.Core.List.{Memᴰ}
use dockerdynomesh.Discoverer.Reconcile.Listing.{Listed}
use dockerdynomesh.Prelude.{◌≡◌, ◌≢◌, Bool, refl, sym, ap, subst, ◌∙◌, true, false, List, some}
use dockerdynomesh.Prelude.Result.{Result, ok, ok_ne_err}
use dockerdynomesh.Prelude.Sort.{sort, mem-sort}
use dockerdynomesh.Text.{Text, is_empty, to_lower}
use dockerdynomesh.Text.Order.{text_order}
use dockerdynomesh.Files.{Files}
use dockerdynomesh.Inspect.{
  Config, InspectResponse, label, project_label, service_label, projects_of,
}
use dockerdynomesh.Certgen.San.Members.{sans-IsSorted}
use dockerdynomesh.Certgen.Reissue.Branches.{HasDistinctPaths, WritesOnlyTemporaries}
use dockerdynomesh.Certgen.Reissue.Names.{
  MakesCertificate, HasNames, HasNames-of_same, cert_path-failed, reissued-HasNames,
}
use dockerdynomesh.Certgen.Api.{ReissueRequest, requested_sans}
use dockerdynomesh.Certclient.{Link, answering, unreachable, losing, succeeded}
use dockerdynomesh.Certclient.Success.{IsFaithful, Failed, call-Worked, call-Failed}
use dockerdynomesh.Discoverer.AtomicWrite.{
  WriteResult, done, mkdir_failed, open_failed, write_failed, sync_failed, close_failed,
  rename_failed, Wrote, atomic_write-Wrote,
}
use dockerdynomesh.Discoverer.Reconcile.{
  Reconciler, ReconcileError, State, network_of, request_of, config_of, routes, reconcile_with,
  list_eligible,
}
use dockerdynomesh.Discoverer.Reconcile.Worlds.{Success, reconcile_with-Success}
use dockerdynomesh.Discoverer.Certified.{
  KeepsCertificate, IsServed, reconcile_with-Cert, IsServed-list_eligible,
}
use dockerdynomesh.Discoverer.Coverage.{
  IsOneLabel, IsCovered, hosts_of_container, compose-IsCovered,
}
use dockerdynomesh.Render.{render}
use dockerdynomesh.Discoverer.System.{
  World, Platform, ask, answered, doubt, is_done, services, Moves, Cert,
}

-- What is assumed of the platform: mkcert, the paths, and the codecs.
pub record IsSound {A Wire : Type 0} (p : Platform A Wire) : Type 0 where
  pub paths : HasDistinctPaths p.reissuer
  pub only : WritesOnlyTemporaries p.tools p.reissuer
  pub makes : MakesCertificate p.tools p.reissuer
  pub faithful : IsFaithful p.encode p.decode p.decode_response

module _ {A Wire : Type 0} (p : Platform A Wire) (sound : IsSound p) where
  Cert-Worked :
      (request : ReissueRequest) (w : World A)
      → succeeded (ask p request w).0 ≡ true
      → HasNames p.tools p.reissuer (requested_sans request) (ask p request w).1
  Cert-Worked request w h =
      let k =
        call-Worked p.tools p.decode p.reissuer w.now p.encode p.decode_response p.socket
          sound.faithful w.link request w.certs h in
      rw k.files (
        reissued-HasNames p.tools p.reissuer sound.paths sound.only sound.makes w.now
          (requested_sans request) w.certs k.wrote
          (sans-IsSorted request.suffixes request.machine_name request.tailnet_domain
            request.projects)
          k.result)

  HasNames-Failed :
      (request old : ReissueRequest) (w : World A) {gs : Files A}
      → Failed p.tools p.decode p.reissuer w.now p.encode p.decode_response request w.certs gs
      → HasNames p.tools p.reissuer (requested_sans old) w.certs
      → HasNames p.tools p.reissuer (requested_sans old) gs
  HasNames-Failed request old w Failed.untouched h = h
  HasNames-Failed request old w (Failed.reissue_failed e f) h =
      HasNames-of_same p.tools p.reissuer (requested_sans old) w.certs _
        (cert_path-failed p.tools p.reissuer sound.paths sound.only w.now (requested_sans request)
          w.certs e f)
        h

  HasNames-moved :
      (old : ReissueRequest) (w v : World A) → Moves p w v → Cert p old w → Cert p old v
  HasNames-moved old w v (m, n) h d =
      HasNames-of_same p.tools p.reissuer (requested_sans old) w.certs v.certs
        (ap (λ (fs : Files A). fs p.reissuer.cert_path) m) (h (sym n ∙ d))

  no_doubt :
      (link : Link) (before : Bool)
      → doubt false link before ≡ false
      → (link ≢ losing) × (before ≡ false)
  no_doubt answering before h = ((λ e. cc), h)
  no_doubt unreachable before h = ((λ e. cc), h)
  no_doubt losing before h = cc

  -- Where an answer may be lost, the certificate is in doubt.
  Cert-Failed :
      (request old : ReissueRequest) (w : World A)
      → succeeded (ask p request w).0 ≡ false
      → Cert p old w
      → Cert p old (answered p w (ask p request w)).1
  Cert-Failed request old w h c d =
      let (kept, before) = no_doubt w.link w.in_doubt (rw h at d) in
      HasNames-Failed request old w
        (call-Failed p.tools p.decode p.reissuer w.now p.encode p.decode_response p.socket
          sound.faithful w.link request w.certs kept h)
        (c before)

  -- The parts keep the certificate as the reconciler needs it.
  pub services-KeepsCertificate : KeepsCertificate (services p) (Moves p) (Cert p)
  services-KeepsCertificate = record {
    issues = λ request w h d. Cert-Worked request w h;
    refuses = Cert-Failed;
    writes = λ old path yaml w c. c;
    lists = λ old w c. c;
    inspects = λ old id w c. c;
    moves = λ old {w} {v} m c. HasNames-moved old w v m c;
  }

  done_of_test : (e : WriteResult) → is_done e ≡ true → e ≡ done
  done_of_test done h = refl
  done_of_test mkdir_failed h = cc
  done_of_test open_failed h = cc
  done_of_test write_failed h = cc
  done_of_test sync_failed h = cc
  done_of_test close_failed h = cc
  done_of_test rename_failed h = cc

  on_disk_of_Wrote :
      {path content : Text} {fs : Files Text} {e : WriteResult × Files Text}
      → Wrote path content fs e
      → is_done e.0 ≡ true
      → e.1 path ≡ some content
  on_disk_of_Wrote (Wrote.complete gs x y) h = x
  on_disk_of_Wrote (Wrote.untouched e gs n x) h = absurd (n (done_of_test e h))

  -- What stands on the two volumes: the configuration with a router for each of the routed
  -- containers, and a certificate that covers the host names of the compose containers, as far as
  -- their project is in lower case and their service is one label.
  pub record Deployed (cs : List InspectResponse) (r : Reconciler) (w : World A) : Type 0 where
    pub yaml : Text
    pub rendered :
        render p.sort_slice (config_of r (routes (services p) (network_of r) cs)) ≡ ok yaml
    pub configured : w.configs r.out ≡ some yaml
    pub certificate :
        HasNames p.tools p.reissuer (requested_sans (request_of r (projects_of cs))) w.certs
    pub covered :
        (c : InspectResponse) (config : Config) (host : Text)
        → Memᴰ c cs
        → c.config ≡ some config
        → is_empty (label project_label config.labels) ≡ false
        → is_empty (label service_label config.labels) ≡ false
        → to_lower p.lower (label project_label config.labels) ≡ label project_label config.labels
        → IsOneLabel (to_lower p.lower (label service_label config.labels))
        → Memᴰ host (hosts_of_container p.lower r.suffixes r.machine r.tailnet cs c config host)
        → IsCovered certificate.info.sans host

  IsCovered-sort :
      (names : List Text) (host : Text) → IsCovered (sort names) host → IsCovered names host
  IsCovered-sort names host (n, m, c) = (n, (mem-sort names).0 m, c)

  Deployed-of_Success :
      (cs : List InspectResponse) (t : State (World A))
      → Success (services p) cs t (reconcile_with (services p) cs t)
      → HasNames p.tools p.reissuer
          (requested_sans (request_of t.reconciler (projects_of cs)))
          (reconcile_with (services p) cs t).1.world.certs
      → Deployed cs t.reconciler (reconcile_with (services p) cs t).1.world
  Deployed-of_Success cs t c names = record {
    yaml = c.yaml;
    rendered = c.text;
    configured =
        ap (λ (w : World A). w.configs t.reconciler.out) c.world
        ∙ on_disk_of_Wrote
            (atomic_write-Wrote t.reconciler.out c.yaml c.between.configs c.between.faults) c.works;
    certificate = names;
    covered = λ d config host m e f g low one h. IsCovered-sort names.info.sans host (
        subst (λ ns. IsCovered ns host) (sym names.same_names)
          (compose-IsCovered p.lower t.reconciler.suffixes t.reconciler.machine t.reconciler.tailnet
            cs d config host m e f g low one h));
  }

  reconcile_with-Deployed :
      (cs : List InspectResponse) (t : State (World A))
      → IsServed (services p) (Moves p) (Cert p) t
      → (reconcile_with (services p) cs t).0 ≡ ok tt
      → (reconcile_with (services p) cs t).1.world.in_doubt ≡ false
      → Deployed cs t.reconciler (reconcile_with (services p) cs t).1.world
  reconcile_with-Deployed cs t h e d =
      Deployed-of_Success cs t (reconcile_with-Success (services p) cs t e)
        (reconcile_with-Cert (services p) (Moves p) (Cert p) services-KeepsCertificate cs t h e d)

  -- A reconcile that succeeds where the certificate is for the remembered projects.
  pub Deployed-Listed :
      (t : State (World A)) {e : Result ReconcileError (Unit {0}) × State (World A)}
      → Listed (services p) t e
      → IsServed (services p) (Moves p) (Cert p) t
      → e.0 ≡ ok tt
      → e.1.world.in_doubt ≡ false
      → (cs : List InspectResponse) × ((list_eligible (services p) t.world).0 ≡ some cs)
        × Deployed cs t.reconciler e.1.world
  Deployed-Listed t (Listed.unlisted q) h e d = absurd (ok_ne_err (sym e ∙ ap (λ x. x.0) q))
  Deployed-Listed t (Listed.with_containers cs l q) h e d =
      let u : State (World A) = record t { world = (list_eligible (services p) t.world).1 } in
      (
        cs,
        l,
        subst (λ x. Deployed cs t.reconciler x.1.world) (sym q)
            (reconcile_with-Deployed cs u
              (IsServed-list_eligible (services p) (Moves p) (Cert p) services-KeepsCertificate t h)
              (sym (ap (λ x. x.0) q) ∙ e) (subst (λ x. x.1.world.in_doubt ≡ false) q d)),
      )
