-- ===== src/Discoverer/EventLoop/Idle.antt =====
-- The loop without an event.
use mathlib.Core.Option.{some-injective}
use dockerdynomesh.Prelude.{
  ℕ, ◌≡◌, refl, ap, subst, Bool, false, List, [], ◌∷◌, Option, none, some, All, Bool-cases, inl,
  inr,
}
use dockerdynomesh.Prelude.Int.{ℤ}
use dockerdynomesh.Discoverer.Boot.{boot_reconcile}
use dockerdynomesh.Discoverer.Debounce.{Timer, advance, new_debouncer}
use dockerdynomesh.Discoverer.EventLoop.{
  Loop, Move, elapse, container_event, network_event, fire, done, container_failed, network_failed,
  Outcome, going, returned, loop_of, step, then_run, run_moves, new_loop, run,
}

-- Not an event of docker.
abbrev pub IsSilent : Move → Type 0
IsSilent container_event = ⊥
IsSilent network_event = ⊥
IsSilent _ = Unit

abbrev idle : Timer
idle = record { deadline = none; tick = false }

module _ {W : Type 0} (attempt : W → Bool × W) (is_cancelled : W → Bool) (discards : Bool)
    (d : ℕ) where
  abbrev Stays : W → Option (Outcome W) → Type 0
  Stays w none = Unit
  Stays w (some (going l)) = (l.timer ≡ idle) × (l.world ≡ w)
  Stays w (some (returned why l)) = l.world ≡ w

  step-Stays :
      (m : Move) (l : Loop W)
      → IsSilent m
      → l.timer ≡ idle
      → Stays l.world (step attempt is_cancelled discards d m l)
  unfolding step advance
  step-Stays elapse l s e = (rw e refl, refl)
  step-Stays container_event l s e = absurd s
  step-Stays network_event l s e = absurd s
  step-Stays fire l s e = rw (ap (λ (t : Timer). t.tick) e) tt
  step-Stays done l s e = refl
  step-Stays container_failed l s e = refl
  step-Stays network_failed l s e = refl

  then_run-Stays :
      (w : W) (o : Option (Outcome W)) (rest : Loop W → Option (Outcome W))
      → Stays w o
      → ((l : Loop W) → l.timer ≡ idle → l.world ≡ w → Stays w (rest l))
      → Stays w (then_run attempt is_cancelled discards d o rest)
  then_run-Stays w none rest h k = tt
  then_run-Stays w (some (going l)) rest (e, f) k = k l e f
  then_run-Stays w (some (returned why l)) rest h k = h

  run_moves-Stays :
      (ms : List Move) (l : Loop W)
      → All IsSilent ms
      → l.timer ≡ idle
      → Stays l.world (run_moves attempt is_cancelled discards d ms l)
  unfolding run_moves
  run_moves-Stays [] l s e = (e, refl)
  run_moves-Stays (m ∷ ms) l (s, rest) e =
      then_run-Stays l.world (step attempt is_cancelled discards d m l) _ (step-Stays m l s e)
        (λ k f g.
          subst (λ w. Stays w (run_moves attempt is_cancelled discards d ms k)) g
            (run_moves-Stays ms k rest f))

  new_loop-idle : (now : ℕ) (w : W) → (new_loop attempt is_cancelled discards d now w).timer ≡ idle
  unfolding new_debouncer
  new_loop-idle now w = elim (Bool-cases discards) [ inl e ↦ rw e refl | inr e ↦ rw e refl ]

  Stays-world :
      (w : W) (o : Option (Outcome W)) {r : Outcome W}
      → Stays w o
      → o ≡ some r
      → (loop_of r).world ≡ w
  Stays-world w none h e = cc
  Stays-world w (some (going l)) h e = subst (λ r. (loop_of r).world ≡ w) (some-injective _ _ e) h.1
  Stays-world w (some (returned why l)) h e =
      subst (λ r. (loop_of r).world ≡ w) (some-injective _ _ e) h

  run-Stays :
      (max_attempts : ℤ) (now : ℕ) (w : W) (ms : List Move)
      → All IsSilent ms
      → Stays
          (boot_reconcile attempt is_cancelled max_attempts w).2
          (run attempt is_cancelled discards d max_attempts now w ms)
  unfolding run
  run-Stays max_attempts now w ms s =
      let booted = (boot_reconcile attempt is_cancelled max_attempts w).2 in
      elim (Bool-cases (is_cancelled booted)) [
        | inl e ↦ rw e refl
        | inr e ↦ rw e (
            run_moves-Stays ms (new_loop attempt is_cancelled discards d now booted) s
              (new_loop-idle now booted))
      ]

  -- Without an event of docker behind the boot, the loop does not reconcile: however long it goes on,
  -- the world is the one that the boot left, also where all attempts of the boot failed.
  pub run_idle :
      (max_attempts : ℤ) (now : ℕ) (w : W) (ms : List Move) (o : Outcome W)
      → All IsSilent ms
      → run attempt is_cancelled discards d max_attempts now w ms ≡ some o
      → (loop_of o).world ≡ (boot_reconcile attempt is_cancelled max_attempts w).2
  run_idle max_attempts now w ms o s h =
      Stays-world (boot_reconcile attempt is_cancelled max_attempts w).2 _
        (run-Stays max_attempts now w ms s) h
