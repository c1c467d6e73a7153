-- ===== src/Discoverer/Reconcile/Order.antt =====
-- The certificate on disk against the configuration on disk, over sequences of reconciles.
use dockerdynomesh.Prelude.{
  ◌≡◌, refl, sym, ap, ◌∙◌, ◌≢◌, true, false, List, [], ◌∷◌, ◌++◌, Option, none, some, All, inl, inr,
  ◌⊎◌,
}
use dockerdynomesh.Prelude.Result.{Result, ok, err, ok_ne_err}
use dockerdynomesh.Text.{Text}
use dockerdynomesh.Inspect.{InspectResponse, projects_of}
use dockerdynomesh.Discoverer.Reconcile.{
  Effect, reissue, write, warn, Services, ReconcileError, reissue_failed, State, reconcile_with,
}
use dockerdynomesh.Discoverer.Reconcile.Phases.{
  IsWarning, Refused, Certified, Published, Ran, reconcile_with_lem,
}

-- The projects of the last reissue that succeeded, after those of `before`.
unfoldable pub last_reissued : Option (List Text) → List Effect → Option (List Text)
last_reissued before [] = before
last_reissued before (reissue request true ∷ es) = last_reissued (some request.projects) es
last_reissued before (reissue request false ∷ es) = last_reissued before es
last_reissued before (write path yaml works ∷ es) = last_reissued before es
last_reissued before (warn id ∷ es) = last_reissued before es

pub last_reissued-append :
    (before : Option (List Text)) (xs ys : List Effect)
    → last_reissued before (xs ++ ys) ≡ last_reissued (last_reissued before xs) ys
unfolding last_reissued
last_reissued-append before [] ys = refl
last_reissued-append before (reissue request true ∷ xs) ys =
    last_reissued-append (some request.projects) xs ys
last_reissued-append before (reissue request false ∷ xs) ys = last_reissued-append before xs ys
last_reissued-append before (write path yaml works ∷ xs) ys = last_reissued-append before xs ys
last_reissued-append before (warn id ∷ xs) ys = last_reissued-append before xs ys

pub last_reissued-warnings :
    (before : Option (List Text)) (xs : List Effect)
    → All IsWarning xs
    → last_reissued before xs ≡ before
unfolding last_reissued
last_reissued-warnings before [] h = refl
last_reissued-warnings before (x ∷ xs) ((id, e), h) =
    ap (λ y. last_reissued before (y ∷ xs)) e ∙ last_reissued-warnings before xs h

-- The last certificate is for the projects that the reconciler remembers.
abbrev pub InStep : {W : Type 0} → State W → Type 0
InStep s = last_reissued none s.trace ≡ s.reconciler.last_projects

module _ {W : Type 0} (services : Services W) (cs : List InspectResponse) (s : State W) where
  last_reissued-published :
      {before : Option (List Text)} {r : Result ReconcileError (Unit {0})}
      {last : Option (List Text)} {es : List Effect}
      → Published services cs s r last es
      → last_reissued before es ≡ before
  unfolding last_reissued
  last_reissued-published (Published.unrendered e d) = refl
  last_reissued-published (Published.unwritten yaml d) = refl
  last_reissued-published (Published.written yaml d) = refl

  last_reissued-Certified :
      {es : List Effect}
      → Certified services cs s es
      → InStep s
      → last_reissued (last_reissued none s.trace) es ≡ some (projects_of cs)
  unfolding last_reissued
  last_reissued-Certified (Certified.unchanged e) h = h ∙ e
  last_reissued-Certified (Certified.issued n) h = refl

  -- the trace of a reconcile that went past the certificate
  pub last_reissued-Ran :
      (r : Ran services cs s (reconcile_with services cs s))
      → last_reissued none (reconcile_with services cs s).1.trace
        ≡ last_reissued (last_reissued none s.trace) r.certificate
  last_reissued-Ran r =
      ap (last_reissued none) r.effects
      ∙ last_reissued-append none s.trace (r.certificate ++ (r.notes ++ r.publication))
      ∙ last_reissued-append (last_reissued none s.trace) r.certificate (r.notes ++ r.publication)
      ∙ last_reissued-append _ r.notes r.publication
      ∙ last_reissued-published r.published
      ∙ last_reissued-warnings _ r.notes r.warned

  last_of_ok :
      {r : Result ReconcileError (Unit {0})} {last : Option (List Text)} {es : List Effect}
      → Published services cs s r last es
      → r ≡ ok tt
      → last ≡ some (projects_of cs)
  last_of_ok (Published.unrendered e d) h = cc
  last_of_ok (Published.unwritten yaml d) h = cc
  last_of_ok (Published.written yaml d) h = refl

  -- From a state in step, a reconcile that succeeds has had a certificate issued for the projects of
  -- the containers whose configuration it wrote, and remembers them.
  pub reconcile_with_ok :
      InStep s
      → (reconcile_with services cs s).0 ≡ ok tt
      → (last_reissued none (reconcile_with services cs s).1.trace ≡ some (projects_of cs))
        × ((reconcile_with services cs s).1.reconciler.last_projects ≡ some (projects_of cs))
  reconcile_with_ok h e = elim (reconcile_with_lem services cs s) [
    | inl r ↦ absurd (ok_ne_err (sym e ∙ r.result))
    | inr r ↦
        (last_reissued-Ran r ∙ last_reissued-Certified r.certified h, last_of_ok r.published e)
  ]

  -- A reconcile whose certificate is refused leaves a state in step.
  Refused-InStep :
      InStep s
      → Refused services cs s (reconcile_with services cs s)
      → InStep (reconcile_with services cs s).1
  unfolding last_reissued
  Refused-InStep h r =
      ap (last_reissued none) r.effects ∙ last_reissued-append none s.trace _ ∙ h ∙ sym r.last

  result_of_Published :
      {r : Result ReconcileError (Unit {0})} {last : Option (List Text)} {es : List Effect}
      → Published services cs s r last es
      → r ≢ err reissue_failed
  result_of_Published (Published.unrendered e d) h = cc
  result_of_Published (Published.unwritten yaml d) h = cc
  result_of_Published (Published.written yaml d) h = cc

  step-InStep :
      InStep s
      → ((reconcile_with services cs s).0 ≡ ok tt)
        ⊎ ((reconcile_with services cs s).0 ≡ err reissue_failed)
      → InStep (reconcile_with services cs s).1
  step-InStep h (inl e) = let (a, b) = reconcile_with_ok h e in a ∙ sym b
  step-InStep h (inr e) = elim (reconcile_with_lem services cs s) [
    | inl r ↦ Refused-InStep h r
    | inr r ↦ absurd (result_of_Published r.published e)
  ]

-- The states behind any number of reconciles, over any containers, each of which succeeded or had its
-- certificate refused.
pub data Reach {W : Type 0} (services : Services W) (s : State W) : State W → Type 0 where
  here : Reach services s s
  next :
      {t : State W} (cs : List InspectResponse)
      → Reach services s t
      → ((reconcile_with services cs t).0 ≡ ok tt)
        ⊎ ((reconcile_with services cs t).0 ≡ err reissue_failed)
      → Reach services s (reconcile_with services cs t).1

-- Over any run of reconciles, each of which succeeds or has its certificate refused, from a state
-- where the last certificate is for the remembered projects (none at first), it stays so.
pub Reach-InStep :
    {W : Type 0} (services : Services W) {s t : State W} → InStep s → Reach services s t → InStep t
Reach-InStep services h Reach.here = h
Reach-InStep services h (Reach.next {t = t} cs r e) =
    step-InStep services cs t (Reach-InStep services h r) e
