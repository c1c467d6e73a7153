-- ===== src/Discoverer/Process/Whole.antt =====
-- The debounce window of the whole process.
use dockerdynomesh.Prelude.{ℕ, ◌*◌, ◌≤◌, ◌≡◌, ap, subst, ◌∙◌, Bool, List, some}
use dockerdynomesh.Prelude.Int.{pos}
use dockerdynomesh.Prelude.Result.{ok, >>=-eq-ok, ok_inj}
use dockerdynomesh.Text.{Text}
use dockerdynomesh.Discoverer.EventLoop.{Move, Outcome, loop_of, run}
use dockerdynomesh.Discoverer.EventLoop.Quiet.{IsQuiet, run-IsQuiet}
use dockerdynomesh.Discoverer.Start.{
  Flags, Settings, start, window_of, milliseconds, duration_of_ms,
}
use dockerdynomesh.Discoverer.Start.Window.{duration_of_ms-exact}
use dockerdynomesh.Discoverer.Start.Ready.{start-IsReady}
use dockerdynomesh.Discoverer.System.{World, Platform}
use dockerdynomesh.Discoverer.Process.{Machine, attempt, boot_max_attempts, machine_of, main}

module _ {A Wire : Type 0} (p : Platform A Wire) (is_cancelled : Machine A → Bool)
    (discards : Bool) where
  -- A run of `main` that got past the start.
  pub record Started (env : Text → Text) (docker_works : Bool) (f : Flags) (now : ℕ) (w : World A)
      (vs : List (World A)) (moves : List Move) (o : Outcome (Machine A)) : Type 0 where
    pub settings : Settings
    pub begun : start env docker_works f ≡ ok settings
    pub ran :
        run
          (attempt p)
          is_cancelled
          discards
          (window_of settings.debounce)
          boot_max_attempts
          now
          (machine_of settings w vs)
          moves
        ≡ some o

  pub main-Started :
      (env : Text → Text) (docker_works : Bool) (f : Flags) (now : ℕ) (w : World A)
      (vs : List (World A)) (moves : List Move) {o : Outcome (Machine A)}
      → main p is_cancelled discards env docker_works f now w vs moves ≡ ok (some o)
      → Started env docker_works f now w vs moves o
  unfolding main
  main-Started env docker_works f now w vs moves h =
      let (s, e, k) = >>=-eq-ok (start env docker_works f) _ h in
      record { settings = s; begun = e; ran = ok_inj k }

  -- Whichever of flag, environment and default gives the window of `n` milliseconds, if it is at most
  -- 9,223,372,036,854: each reconcile behind the boot follows on an event received since the one
  -- before, and no event was received in the `n` milliseconds before it.
  pub main-IsQuiet :
      (env : Text → Text) (docker_works : Bool) (f : Flags) (now : ℕ) (w : World A)
      (vs : List (World A)) (moves : List Move) (o : Outcome (Machine A)) (n : ℕ)
      → milliseconds env f ≡ pos n
      → n ≤ 9_223_372_036_854
      → main p is_cancelled discards env docker_works f now w vs moves ≡ ok (some o)
      → IsQuiet (n * 1_000_000) (loop_of o).notes
  main-IsQuiet env docker_works f now w vs moves o n m l h =
      let r = main-Started env docker_works f now w vs moves h in
      let exact : r.settings.debounce ≡ pos (n * 1_000_000) =
        (start-IsReady env docker_works f r.begun).window
        ∙ ap duration_of_ms m
        ∙ (duration_of_ms-exact n).1 l in
      subst (λ t. IsQuiet t (loop_of o).notes) (ap window_of exact)
        (run-IsQuiet (attempt p) is_cancelled discards (window_of r.settings.debounce)
          boot_max_attempts now _ moves o r.ran)
