-- ===== src/Discoverer/EventLoop/Worlds.antt =====
-- What every attempt keeps, the event loop keeps.
use dockerdynomesh.Prelude.{
  ℕ, zero, suc, ◌≡◌, sym, subst, Bool, List, [], ◌∷◌, Option, none, some, Bool-cases, inl, inr,
}
use dockerdynomesh.Prelude.Int.{ℤ}
use dockerdynomesh.Discoverer.Boot.{boot_reconcile, after, boot_reconcile-Ending}
use dockerdynomesh.Discoverer.EventLoop.{
  Loop, Move, elapse, container_event, network_event, fire, done, container_failed, network_failed,
  Outcome, going, returned, loop_of, step, then_run, run_moves, new_loop, run,
}

module _ {W : Type 0} (attempt : W → Bool × W) (is_cancelled : W → Bool) (discards : Bool) (d : ℕ)
    (K : W → Type 0) (attempts : (w : W) → K w → K (attempt w).1) where
  abbrev Kept : Option (Outcome W) → Type 0
  Kept none = Unit
  Kept (some o) = K (loop_of o).world

  after-keeps : (n : ℕ) (w : W) → K w → K (after attempt is_cancelled n w)
  unfolding after
  after-keeps zero w k = k
  after-keeps (suc n) w k = after-keeps n (attempt w).1 (attempts w k)

  step-keeps : (m : Move) (l : Loop W) → K l.world → Kept (step attempt is_cancelled discards d m l)
  unfolding step
  step-keeps elapse l k = k
  step-keeps container_event l k = k
  step-keeps network_event l k = k
  step-keeps fire l k = elim (Bool-cases l.timer.tick) [
    | inl h ↦ rw h (attempts l.world k)
    | inr h ↦ rw h tt
  ]
  step-keeps done l k = k
  step-keeps container_failed l k = k
  step-keeps network_failed l k = k

  then_run-keeps :
      (o : Option (Outcome W)) (rest : Loop W → Option (Outcome W))
      → Kept o
      → ((l : Loop W) → K l.world → Kept (rest l))
      → Kept (then_run attempt is_cancelled discards d o rest)
  then_run-keeps none rest h k = tt
  then_run-keeps (some (going l)) rest h k = k l h
  then_run-keeps (some (returned why l)) rest h k = h

  run_moves-keeps :
      (ms : List Move) (l : Loop W)
      → K l.world
      → Kept (run_moves attempt is_cancelled discards d ms l)
  unfolding run_moves
  run_moves-keeps [] l k = k
  run_moves-keeps (m ∷ ms) l k =
      then_run-keeps (step attempt is_cancelled discards d m l) _ (step-keeps m l k)
        (λ j. run_moves-keeps ms j)

  run-Kept :
      (max_attempts : ℤ) (now : ℕ) (w : W) (ms : List Move)
      → K w
      → Kept (run attempt is_cancelled discards d max_attempts now w ms)
  unfolding run
  run-Kept max_attempts now w ms k =
      let booted = (boot_reconcile attempt is_cancelled max_attempts w).2 in
      let kept : K booted =
        subst K (sym (boot_reconcile-Ending attempt is_cancelled max_attempts w).0)
          (after-keeps (boot_reconcile attempt is_cancelled max_attempts w).1 w k) in
      elim (Bool-cases (is_cancelled booted)) [
        | inl e ↦ rw e kept
        | inr e ↦
            rw e (run_moves-keeps ms (new_loop attempt is_cancelled discards d now booted) kept)
      ]

  -- Wherever the loop has got to, the world is one that the attempts keep.
  pub run-keeps :
      (max_attempts : ℤ) (now : ℕ) (w : W) (ms : List Move) {o : Outcome W}
      → run attempt is_cancelled discards d max_attempts now w ms ≡ some o
      → K w
      → K (loop_of o).world
  run-keeps max_attempts now w ms h k = subst Kept h (run-Kept max_attempts now w ms k)
