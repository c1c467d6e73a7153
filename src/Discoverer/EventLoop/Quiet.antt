-- ===== src/Discoverer/EventLoop/Quiet.antt =====
-- When the loop reconciles: once for each burst of events, behind a quiet window.
use dockerdynomesh.Prelude.{
  ℕ, suc, ◌+◌, ◌≤◌, ◌≡◌, refl, sym, ap, subst, Bool, true, false, List, [], ◌∷◌, Option, none, some,
  leb, Bool-cases, inl, inr, arith,
}
use mathlib.Core.Option.{some-injective}
use dockerdynomesh.Prelude.Int.{ℤ}
use dockerdynomesh.Discoverer.Boot.{boot_reconcile}
use dockerdynomesh.Discoverer.Debounce.{Timer, IsSound, drain, advance, new_debouncer, bump_lem}
use dockerdynomesh.Discoverer.EventLoop.{
  Note, event, reconciled, Loop, Move, elapse, container_event, network_event, fire, done,
  container_failed, network_failed, Outcome, going, returned, loop_of, bumped, fired, step,
  then_run, run_moves, new_loop, run,
}

-- Nothing happened since the last reconcile.
abbrev pub IsSettled : List Note → Type 0
IsSettled [] = Unit
IsSettled (reconciled t ∷ notes) = Unit
IsSettled (event t ∷ notes) = ⊥

-- Each reconcile follows on an event, by at least the window `d`.
abbrev pub IsQuiet : ℕ → List Note → Type 0
IsQuiet d [] = Unit
IsQuiet d (event t ∷ notes) = IsQuiet d notes
IsQuiet d (reconciled t ∷ event s ∷ notes) = (s + d ≤ t) × IsQuiet d notes
IsQuiet d (reconciled t ∷ _) = ⊥

-- The timer against the notes: stopped where nothing happened since the last reconcile, else waiting
-- for the end of the window behind the last event, or expired behind it.
pub data Phase (d now : ℕ) (notes : List Note) (t : Timer) : Type 0 where
  idle : t ≡ record { deadline = none; tick = false } → IsSettled notes → Phase d now notes t
  waiting :
      (e : ℕ) (older : List Note)
      → notes ≡ event e ∷ older
      → t ≡ record { deadline = some (e + d); tick = false }
      → Phase d now notes t
  due :
      (e : ℕ) (older : List Note)
      → notes ≡ event e ∷ older
      → t ≡ record { deadline = none; tick = true }
      → e + d ≤ now
      → Phase d now notes t

pub record IsDebounced {W : Type 0} (d : ℕ) (l : Loop W) : Type 0 where
  pub quiet : IsQuiet d l.notes
  pub phase : Phase d l.now l.notes l.timer

IsSound-of_Phase : {d now : ℕ} {notes : List Note} {t : Timer} → Phase d now notes t → IsSound t
IsSound-of_Phase (Phase.idle e s) h = ap (λ (t : Timer). t.tick) e
IsSound-of_Phase (Phase.waiting e older n p) h = ap (λ (t : Timer). t.tick) p
IsSound-of_Phase (Phase.due e older n p l) h = cc (h, p)

Phase-waiting :
    (d e now : ℕ) (older : List Note)
    → Phase d
        (suc now)
        (event e ∷ older)
        (advance (suc now) (record { deadline = some (e + d); tick = false }))
unfolding advance
Phase-waiting d e now older = elim (Bool-cases (leb (e + d) (suc now))) [
  | inl h ↦ rw h (Phase.due e older refl refl (ground arith))
  | inr h ↦ rw h (Phase.waiting e older refl refl)
]

Phase-elapse :
    {d now : ℕ} {notes : List Note} {t : Timer}
    → Phase d now notes t
    → Phase d (suc now) notes (advance (suc now) t)
unfolding advance
Phase-elapse (Phase.idle p s) = rw p (Phase.idle refl s)
Phase-elapse {d} {now} (Phase.waiting e older n p) = rw (n, p) (Phase-waiting d e now older)
Phase-elapse (Phase.due e older n p l) = rw p (Phase.due e older n refl (omega arith))

-- A reconcile that is due stands behind its window.
IsQuiet-reconciled :
    (d now : ℕ) (notes : List Note) (t : Timer)
    → Phase d now notes t
    → t.tick ≡ true
    → IsQuiet d notes
    → IsQuiet d (reconciled now ∷ notes)
IsQuiet-reconciled d now notes t (Phase.idle p s) h q = cc (p, h)
IsQuiet-reconciled d now notes t (Phase.waiting e older n p) h q = cc (p, h)
IsQuiet-reconciled d now notes t (Phase.due e older n p l) h q =
    subst (λ ns. IsQuiet d (reconciled now ∷ ns)) (sym n) (l, subst (IsQuiet d) n q)

Phase-drain :
    {d now : ℕ} {notes : List Note} {t : Timer}
    → Phase d now notes t
    → t.tick ≡ true
    → Phase d now (reconciled now ∷ notes) (drain t)
Phase-drain (Phase.idle p s) h = cc (p, h)
Phase-drain (Phase.waiting e older n p) h = cc (p, h)
Phase-drain (Phase.due e older n p l) h = Phase.idle (ap drain p) tt

module _ {W : Type 0} (attempt : W → Bool × W) (is_cancelled : W → Bool) (discards : Bool)
    (d : ℕ) where
  bumped-IsDebounced :
      (l : Loop W) → IsDebounced d l → IsDebounced d (bumped attempt is_cancelled discards d l)
  unfolding bumped
  bumped-IsDebounced l i = record {
    quiet = i.quiet;
    phase =
        Phase.waiting l.now l.notes refl
          (bump_lem discards d l.now l.timer (IsSound-of_Phase i.phase));
  }

  fired-IsDebounced :
      (l : Loop W)
      → l.timer.tick ≡ true
      → IsDebounced d l
      → IsDebounced d (fired attempt is_cancelled discards d l)
  unfolding fired
  fired-IsDebounced l h i = record {
    quiet = IsQuiet-reconciled d l.now l.notes l.timer i.phase h i.quiet;
    phase = Phase-drain i.phase h;
  }

  -- What a move leaves: the invariant while the loop goes on, and the notes when it returns.
  abbrev pub Keeps : Option (Outcome W) → Type 0
  Keeps none = Unit
  Keeps (some (going l)) = IsDebounced d l
  Keeps (some (returned why l)) = IsQuiet d l.notes

  step-Keeps :
      (m : Move) (l : Loop W) → IsDebounced d l → Keeps (step attempt is_cancelled discards d m l)
  unfolding step
  step-Keeps elapse l i = record { quiet = i.quiet; phase = Phase-elapse i.phase }
  step-Keeps container_event l i = bumped-IsDebounced l i
  step-Keeps network_event l i = bumped-IsDebounced l i
  step-Keeps fire l i = elim (Bool-cases l.timer.tick) [
    | inl h ↦ rw h (fired-IsDebounced l h i)
    | inr h ↦ rw h tt
  ]
  step-Keeps done l i = i.quiet
  step-Keeps container_failed l i = i.quiet
  step-Keeps network_failed l i = i.quiet

  Keeps-then_run :
      (o : Option (Outcome W)) (rest : Loop W → Option (Outcome W))
      → Keeps o
      → ((l : Loop W) → IsDebounced d l → Keeps (rest l))
      → Keeps (then_run attempt is_cancelled discards d o rest)
  Keeps-then_run none rest h k = tt
  Keeps-then_run (some (going l)) rest h k = k l h
  Keeps-then_run (some (returned why l)) rest h k = h

  pub run_moves-Keeps :
      (ms : List Move) (l : Loop W)
      → IsDebounced d l
      → Keeps (run_moves attempt is_cancelled discards d ms l)
  unfolding run_moves
  run_moves-Keeps [] l i = i
  run_moves-Keeps (m ∷ ms) l i =
      Keeps-then_run (step attempt is_cancelled discards d m l) _ (step-Keeps m l i)
        (λ k. run_moves-Keeps ms k)

  new_loop-IsDebounced :
      (now : ℕ) (w : W) → IsDebounced d (new_loop attempt is_cancelled discards d now w)
  unfolding new_debouncer
  new_loop-IsDebounced now w = elim (Bool-cases discards) [
    | inl e ↦ rw e (record { quiet = tt; phase = Phase.idle refl tt })
    | inr e ↦ rw e (record { quiet = tt; phase = Phase.idle refl tt })
  ]

  IsQuiet-of_Keeps :
      (o : Option (Outcome W)) {r : Outcome W} → Keeps o → o ≡ some r → IsQuiet d (loop_of r).notes
  IsQuiet-of_Keeps none h e = cc
  IsQuiet-of_Keeps (some (going l)) h e =
      subst (λ r. IsQuiet d (loop_of r).notes) (some-injective _ _ e) h.quiet
  IsQuiet-of_Keeps (some (returned why l)) h e =
      subst (λ r. IsQuiet d (loop_of r).notes) (some-injective _ _ e) h

  pub run-Keeps :
      (max_attempts : ℤ) (now : ℕ) (w : W) (ms : List Move)
      → Keeps (run attempt is_cancelled discards d max_attempts now w ms)
  unfolding run
  run-Keeps max_attempts now w ms =
      let booted = (boot_reconcile attempt is_cancelled max_attempts w).2 in
      elim (Bool-cases (is_cancelled booted)) [
        | inl e ↦ rw e tt
        | inr e ↦ rw e (
            run_moves-Keeps ms (new_loop attempt is_cancelled discards d now booted)
              (new_loop-IsDebounced now booted))
      ]

  -- Whatever the loop receives, and however time passes: each reconcile that it makes has an event
  -- received since the one before, and none in the window `d` before it.
  pub run-IsQuiet :
      (max_attempts : ℤ) (now : ℕ) (w : W) (ms : List Move) (o : Outcome W)
      → run attempt is_cancelled discards d max_attempts now w ms ≡ some o
      → IsQuiet d (loop_of o).notes
  run-IsQuiet max_attempts now w ms o h =
      IsQuiet-of_Keeps (run attempt is_cancelled discards d max_attempts now w ms)
        (run-Keeps max_attempts now w ms) h
