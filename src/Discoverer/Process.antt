-- ===== src/Discoverer/Process.antt =====
-- `main` of cmd/discoverer/main.go as a whole: the start, and `run` with the reconciler of System. The
-- worlds that docker, the disk and the clock bring about are a list; each attempt to reconcile meets
-- the next one, in which the files are those that the program left.
pub mod Whole
pub mod Certificate
use dockerdynomesh.Prelude.{ℕ, Bool, true, false, List, [], ◌∷◌, Option, none, some}
use dockerdynomesh.Prelude.Int.{ℤ, pos}
use dockerdynomesh.Prelude.Result.{Result, ok, err, ◌>>=◌}
use dockerdynomesh.Text.{Text}
use dockerdynomesh.Discoverer.Reconcile.{ReconcileError, State, reconcile}
use dockerdynomesh.Discoverer.EventLoop.{Move, Outcome, run}
use dockerdynomesh.Discoverer.Start.{Flags, Settings, StartError, start, window_of}
use dockerdynomesh.Discoverer.System.{World, Platform, services}

pub record Machine (A : Type 0) : Type 0 where
  pub state : State (World A)
  pub upcoming : List (World A)

abbrev pub succeeds : Result ReconcileError (Unit {0}) → Bool
succeeds (ok done) = true
succeeds (err e) = false

module _ {A : Type 0} where
  -- The world `v`, with the files as they are.
  abbrev pub meet : State (World A) → World A → State (World A)
  meet s v = record s {
    world = record v {
      certs = s.world.certs;
      configs = s.world.configs;
      in_doubt = s.world.in_doubt;
    };
  }

  abbrev pub reconciled :
      List (World A) → Result ReconcileError (Unit {0}) × State (World A) → Bool × Machine A
  reconciled vs (r, s) = (succeeds r, record { state = s; upcoming = vs })

  -- What `run` starts with.
  abbrev pub machine_of : Settings → World A → List (World A) → Machine A
  machine_of s w vs = record {
    state = record { reconciler = s.reconciler; world = w; trace = [] };
    upcoming = vs;
  }

-- The literal of the reconciler leaves `bootMaxAttempts` at 0.
abbrev pub boot_max_attempts : ℤ
boot_max_attempts = pos 0

module _ {A Wire : Type 0} (p : Platform A Wire) where
  abbrev attempt_in : State (World A) → List (World A) → Bool × Machine A
  attempt_in s [] = reconciled [] (reconcile (services p) s)
  attempt_in s (v ∷ vs) = reconciled vs (reconcile (services p) (meet s v))

  abbrev pub attempt : Machine A → Bool × Machine A
  attempt m = attempt_in m.state m.upcoming

  module _ (is_cancelled : Machine A → Bool) (discards : Bool) where
    -- `main`, up to the return of `run`
    unfoldable pub main :
        (Text → Text)
        → Bool
        → Flags
        → ℕ
        → World A
        → List (World A)
        → List Move
        → Result StartError (Option (Outcome (Machine A)))
    main env docker_works f now w vs moves = do
      s ← start env docker_works f
      ok (
          run attempt is_cancelled discards (window_of s.debounce) boot_max_attempts now
            (machine_of s w vs) moves)
