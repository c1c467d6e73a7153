-- ===== src/Discoverer/Reconcile/Phases.antt =====
-- The effects of one reconcile, in their order, on all of its branches.
use mathlib.Core.List.{append_assoc, append-nil}
use dockerdynomesh.Prelude.{
  ◌≡◌, ◌≢◌, refl, sym, ap, ◌∙◌, Bool, true, false, List, [], ◌∷◌, ◌++◌, Option, none, some, All,
  Bool-cases, inl, inr, ◌⊎◌,
}
use dockerdynomesh.Prelude.Result.{Result, ok, err}
use dockerdynomesh.Text.{Text}
use dockerdynomesh.Inspect.{InspectResponse, projects_of}
use dockerdynomesh.Render.{RenderError}
use dockerdynomesh.Certgen.Reissue.Laws.{sans_equal-true, sans_equal_refl}
use dockerdynomesh.Discoverer.Misconfig.{Logged, log_misconfig}
use dockerdynomesh.Discoverer.Reconcile.{
  Reconciler, Effect, reissue, write, warn, Services, ReconcileError, list_failed, reissue_failed,
  write_failed, render_failed, State, same_projects, network_of, request_of, config_of, routes,
  warnings, call_certgen, log_warnings, promote, write_config, publish, finish, reconcile_with,
}

pub same_projects-true :
    (projects : List Text) (last : Option (List Text))
    → same_projects projects last ≡ true
    → last ≡ some projects
same_projects-true projects none h = cc
same_projects-true projects (some last) h = ap some (sym (sans_equal-true projects last h))

pub same_projects-false :
    (projects : List Text) (last : Option (List Text))
    → same_projects projects last ≡ false
    → last ≢ some projects
same_projects-false projects last h e =
    cc (h, ap (same_projects projects) e, sans_equal_refl projects)

-- An effect that is a warning.
abbrev pub IsWarning : Effect → Type 0
IsWarning e = (id : Text) × (e ≡ warn id)

module _ {W : Type 0} (services : Services W) (cs : List InspectResponse) (s : State W) where
  abbrev pub wanted : List Text
  wanted = projects_of cs

  abbrev Ended : Type 0
  Ended = Result ReconcileError (Unit {0}) × State W

  -- The certificate service refused: nothing else was done.
  pub record Refused (e : Ended) : Type 0 where
    pub differs : s.reconciler.last_projects ≢ some wanted
    pub result : e.0 ≡ err reissue_failed
    pub effects : e.1.trace ≡ s.trace ++ (reissue (request_of s.reconciler wanted) false ∷ [])
    pub last : e.1.reconciler.last_projects ≡ s.reconciler.last_projects

  -- What precedes the warnings: nothing where the projects are those of the last success, else a
  -- reissue for them that succeeded.
  pub data Certified : List Effect → Type 0 where
    unchanged : s.reconciler.last_projects ≡ some wanted → Certified []
    issued :
        s.reconciler.last_projects ≢ some wanted
        → Certified (reissue (request_of s.reconciler wanted) true ∷ [])

  -- What `Render` gives for the routes of the containers.
  abbrev pub drawn : Result RenderError Text
  drawn = services.render (config_of s.reconciler (routes services (network_of s.reconciler) cs))

  -- What follows them, with the result and the projects that are remembered: what is written is what
  -- was rendered.
  pub data Published
      : Result ReconcileError (Unit {0}) → Option (List Text) → List Effect → Type 0 where
    unrendered :
        (e : RenderError)
        → drawn ≡ err e
        → Published (err (render_failed e)) s.reconciler.last_projects []
    unwritten :
        (yaml : Text)
        → drawn ≡ ok yaml
        → Published
            (err write_failed)
            s.reconciler.last_projects
            (write s.reconciler.out yaml false ∷ [])
    written :
        (yaml : Text)
        → drawn ≡ ok yaml
        → Published (ok tt) (some wanted) (write s.reconciler.out yaml true ∷ [])

  -- A reconcile that went past the certificate.
  pub record Ran (e : Ended) : Type 0 where
    pub certificate : List Effect
    pub notes : List Effect
    pub publication : List Effect
    pub effects : e.1.trace ≡ s.trace ++ (certificate ++ (notes ++ publication))
    pub certified : Certified certificate
    pub warned : All IsWarning notes
    pub noted :
        notes ≡ (warnings services (network_of s.reconciler) cs s.reconciler.logged_misconfig).1
    pub published : Published e.0 e.1.reconciler.last_projects publication

  pub warnings-IsWarning :
      (network : Text) (ds : List InspectResponse) (logged : Logged)
      → All IsWarning (warnings services network ds logged).1
  unfolding warnings
  warnings-IsWarning network [] logged = tt
  warnings-IsWarning network (d ∷ ds) logged =
      let rest = warnings-IsWarning network ds (log_misconfig d network logged).0 in
      elim (Bool-cases (log_misconfig d network logged).1) [
        | inl e ↦ rw e ((d.id, refl), rest)
        | inr e ↦ rw e rest
      ]

  promote-Published :
      (yaml : Text) (base : List Effect) (b : Bool) (t : State W)
      → drawn ≡ ok yaml
      → t.reconciler.last_projects ≡ s.reconciler.last_projects
      → t.trace ≡ base ++ (write s.reconciler.out yaml b ∷ [])
      → (publication : List Effect) × ((promote services wanted (b, t)).1.trace
          ≡ base ++ publication)
        × Published
            (promote services wanted (b, t)).0
            (promote services wanted (b, t)).1.reconciler.last_projects
            publication
  unfolding promote
  promote-Published yaml base true t d l e =
      (write s.reconciler.out yaml true ∷ [], e, Published.written yaml d)
  promote-Published yaml base false t d l e =
      (write s.reconciler.out yaml false ∷ [], e, rw l (Published.unwritten yaml d))

  publish-Published :
      (r : Result RenderError Text) (u : State W)
      → drawn ≡ r
      → u.reconciler.out ≡ s.reconciler.out
      → u.reconciler.last_projects ≡ s.reconciler.last_projects
      → (publication : List Effect) × ((publish services wanted r u).1.trace
          ≡ u.trace ++ publication)
        × Published
            (publish services wanted r u).0
            (publish services wanted r u).1.reconciler.last_projects
            publication
  unfolding publish
  publish-Published (err e) u d o l =
      ([], sym (append-nil u.trace), rw l (Published.unrendered e d))
  publish-Published (ok yaml) u d o l =
      promote-Published yaml u.trace (write_config services yaml u).0
        (write_config services yaml u).1 d l (rw o refl)

  finish-Ran :
      (certificate : List Effect) (t : State W)
      → t.reconciler ≡ s.reconciler
      → t.trace ≡ s.trace ++ certificate
      → Certified certificate
      → Ran (finish services cs (true, t))
  unfolding finish
  finish-Ran certificate t same e c =
      let u = log_warnings services cs t in
      let text =
        services.render (config_of t.reconciler (routes services (network_of t.reconciler) cs)) in
      let notes =
        (warnings services (network_of t.reconciler) cs t.reconciler.logged_misconfig).1 in
      let (publication, p, q) =
        publish-Published text u
          (ap
            (λ (x : Reconciler). services.render (config_of x (routes services (network_of x) cs)))
            (sym same))
          (ap (λ (x : Reconciler). x.out) same) (ap (λ (x : Reconciler). x.last_projects) same) in
      record {
        certificate = certificate;
        notes = notes;
        publication = publication;
        effects =
            p
            ∙ ap (λ x. (x ++ notes) ++ publication) e
            ∙ append_assoc (s.trace ++ certificate) notes publication
            ∙ append_assoc s.trace certificate (notes ++ publication);
        certified = c;
        warned = warnings-IsWarning (network_of t.reconciler) cs t.reconciler.logged_misconfig;
        noted =
            ap (λ (x : Reconciler). (warnings services (network_of x) cs x.logged_misconfig).1)
              same;
        published = q;
      }

  finish_called :
      (b : Bool) (t : State W)
      → s.reconciler.last_projects ≢ some wanted
      → t.reconciler ≡ s.reconciler
      → t.trace ≡ s.trace ++ (reissue (request_of s.reconciler wanted) b ∷ [])
      → Refused (finish services cs (b, t)) ⊎ Ran (finish services cs (b, t))
  unfolding finish
  finish_called false t n same e = inl (record {
    differs = n;
    result = refl;
    effects = e;
    last = ap (λ (x : Reconciler). x.last_projects) same;
  })
  finish_called true t n same e = inr (
      finish-Ran (reissue (request_of s.reconciler wanted) true ∷ []) t same e (Certified.issued n))

  pub reconcile_with_lem :
      Refused (reconcile_with services cs s) ⊎ Ran (reconcile_with services cs s)
  unfolding reconcile_with call_certgen
  reconcile_with_lem = elim (Bool-cases (same_projects wanted s.reconciler.last_projects)) [
    | inl e ↦ rw e (
        inr (
          finish-Ran [] s refl (sym (append-nil s.trace))
            (Certified.unchanged (same_projects-true wanted s.reconciler.last_projects e))))
    | inr e ↦
        let (b, t) = call_certgen services (request_of s.reconciler wanted) s in
        rw e (finish_called b t (same_projects-false wanted s.reconciler.last_projects e) refl refl)
  ]

  not_list_failed :
      {r : Result ReconcileError (Unit {0})} {last : Option (List Text)} {es : List Effect}
      → Published r last es
      → r ≢ err list_failed
  not_list_failed (Published.unrendered e d) h = cc
  not_list_failed (Published.unwritten yaml d) h = cc
  not_list_failed (Published.written yaml d) h = cc

  -- A reconcile that has its list does not fail for want of one.
  pub reconcile_with_listed : (reconcile_with services cs s).0 ≢ err list_failed
  reconcile_with_listed h = elim reconcile_with_lem [
    | inl r ↦ cc (r.result, h)
    | inr r ↦ not_list_failed r.published h
  ]
