-- ===== src/Discoverer/EventLoop.antt =====
-- `run` of cmd/discoverer/reconcile.go. What the select receives, and the time that passes, is a list
-- of moves; `attempt` is the reconcile, with whether it succeeded, and `is_cancelled` is `ctx.Err()`.
-- The notes are the times at which events were received and reconciles begun, the latest first.
pub mod Quiet
pub mod Live
pub mod Worlds
pub mod Idle
use dockerdynomesh.Prelude.{
  ℕ, suc, Bool, true, false, List, [], ◌∷◌, Option, none, some, if◌then◌else◌,
}
use dockerdynomesh.Prelude.Int.{ℤ}
use dockerdynomesh.Discoverer.Boot.{boot_reconcile}
use dockerdynomesh.Discoverer.Debounce.{Timer, stop_timer, drain, advance, new_debouncer, bump}

pub data Note : Type 0 where
  event reconciled : ℕ → Note

pub record Loop (W : Type 0) : Type 0 where
  pub now : ℕ
  pub timer : Timer
  pub notes : List Note
  pub world : W

-- The cases of the select, and a step of the clock.
pub data Move : Type 0 where
  elapse container_event network_event fire done container_failed network_failed : Move

-- Why `run` returned.
pub data Why : Type 0 where
  cancelled container_events network_events : Why

pub data Outcome (W : Type 0) : Type 0 where
  going : Loop W → Outcome W
  returned : Why → Loop W → Outcome W

abbrev pub loop_of : {W : Type 0} → Outcome W → Loop W
loop_of (going l) = l
loop_of (returned why l) = l

module _ {W : Type 0} (attempt : W → Bool × W) (is_cancelled : W → Bool) (discards : Bool)
    (d : ℕ) where
  bumped : Loop W → Loop W
  bumped l = record l { timer = bump discards d l.now l.timer; notes = event l.now ∷ l.notes }

  -- A reconcile that fails is logged.
  fired : Loop W → Loop W
  fired l = record l {
    timer = drain l.timer;
    notes = reconciled l.now ∷ l.notes;
    world = (attempt l.world).1;
  }

  -- the deferred `debounce.stop`
  stopped : Why → Loop W → Outcome W
  stopped why l = returned why (record l { timer = (stop_timer discards l.timer).1 })

  -- `none` where the select cannot make the move: there is no tick to receive.
  unfoldable pub step : Move → Loop W → Option (Outcome W)
  unfolding bumped fired stopped
  step elapse l = some (going (record l { now = suc l.now; timer = advance (suc l.now) l.timer }))
  step container_event l = some (going (bumped l))
  step network_event l = some (going (bumped l))
  step fire l = if l.timer.tick then some (going (fired l)) else none
  step done l = some (stopped cancelled l)
  step container_failed l = some (stopped container_events l)
  step network_failed l = some (stopped network_events l)

  abbrev then_run : Option (Outcome W) → (Loop W → Option (Outcome W)) → Option (Outcome W)
  then_run none rest = none
  then_run (some (going l)) rest = rest l
  then_run (some (returned why l)) rest = some (returned why l)

  -- The loop, until it returns or the moves end.
  unfoldable pub run_moves : List Move → Loop W → Option (Outcome W)
  run_moves [] l = some (going l)
  run_moves (m ∷ ms) l = then_run (step m l) (run_moves ms)

  abbrev pub new_loop : ℕ → W → Loop W
  new_loop now w = record { now = now; timer = new_debouncer discards now; notes = []; world = w }

  -- `run`
  unfoldable pub run : ℤ → ℕ → W → List Move → Option (Outcome W)
  run max_attempts now w moves =
      let booted = (boot_reconcile attempt is_cancelled max_attempts w).2 in
      if is_cancelled booted
      then some (returned cancelled (new_loop now booted))
      else run_moves moves (new_loop now booted)
