-- ===== src/Examples/Loops.antt =====
-- The timer and the event loop.
use dockerdynomesh.Prelude.{none, ℕ, ◌+◌, ◌≡◌, refl, Bool, false, List, [], ◌∷◌, some, arith}
use dockerdynomesh.Prelude.Int.{pos}
use dockerdynomesh.Discoverer.Boot.{boot_reconcile}
use dockerdynomesh.Discoverer.Debounce.{advance, new_debouncer, bump}
use dockerdynomesh.Discoverer.EventLoop.{
  event, reconciled, Loop, Move, elapse, container_event, network_event, fire, going, step,
  run_moves, run,
}
use dockerdynomesh.Discoverer.EventLoop.Idle.{run_idle}
use dockerdynomesh.Discoverer.EventLoop.Live.{wait, Reconciles, run-Reconciles}

-- A reconcile that fails, and counts.
abbrev attempt : ℕ → Bool × ℕ
attempt n = (false, n + 1)

abbrev never : ℕ → Bool
never n = false

-- Two events, a reconcile behind their window, and another event.
abbrev moves : List Move
moves =
    container_event ∷ elapse ∷ network_event ∷ elapse ∷ elapse ∷ fire ∷ elapse ∷ container_event
    ∷ []

abbrev behind : Loop ℕ
behind = record {
  now = 4;
  timer = record { deadline = some 6; tick = false };
  notes = event 4 ∷ reconciled 3 ∷ event 1 ∷ event 0 ∷ [];
  world = 2;
}

behind_moves : run attempt never false 2 (pos 1) 0 0 moves ≡ some (going behind)
unfolding run run_moves step advance new_debouncer bump boot_reconcile
behind_moves = refl

run-Reconciles_example :
    Reconciles attempt never false 2 behind 6 (run_moves attempt never false 2 (wait 2) behind)
run-Reconciles_example =
    run-Reconciles attempt never false 2 (pos 1) 0 0 moves behind 4 2 _ behind_moves refl
      (omega arith) (omega arith)

-- The boot fails, and time passes.
abbrev silent : List Move
silent = elapse ∷ elapse ∷ []

abbrev booted : Loop ℕ
booted = record { now = 2; timer = record { deadline = none; tick = false }; notes = []; world = 3 }

silent_moves : run attempt never false 2 (pos 3) 0 0 silent ≡ some (going booted)
unfolding run run_moves step advance new_debouncer boot_reconcile
silent_moves = refl

run_idle_example : booted.world ≡ (boot_reconcile attempt never (pos 3) 0).2
run_idle_example =
    run_idle attempt never false 2 (pos 3) 0 0 silent (going booted) (tt, (tt, tt)) silent_moves
