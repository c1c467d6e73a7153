-- ===== src/Discoverer/EventLoop/Live.antt =====
-- No event is lost: the loop can reconcile behind the window of the last one.
use dockerdynomesh.Prelude.{
  ℕ, zero, suc, ◌+◌, ◌≤◌, ◌<◌, ◌≡◌, refl, sym, ap, subst, Bool, true, false, List, [], ◌∷◌, Option,
  none, some, leb, Bool-cases, inl, inr, arith,
}
use dockerdynomesh.Prelude.Int.{ℤ}
use dockerdynomesh.Discoverer.Debounce.{Timer, advance}
use dockerdynomesh.Discoverer.EventLoop.{
  Note, event, reconciled, Loop, Move, elapse, fire, Outcome, going, step, run_moves, run,
}
use dockerdynomesh.Discoverer.EventLoop.Quiet.{Phase, IsDebounced, Keeps, run-Keeps}

-- The clock goes on for a while, and then the select receives the tick.
abbrev pub wait : ℕ → List Move
wait zero = fire ∷ []
wait (suc n) = elapse ∷ wait n

-- The time of the latest note.
abbrev time_of : Note → ℕ
time_of (event t) = t
time_of (reconciled t) = t

abbrev latest : List Note → Note
latest [] = event 0
latest (n ∷ notes) = n

module _ {W : Type 0} (attempt : W → Bool × W) (is_cancelled : W → Bool) (discards : Bool)
    (d : ℕ) where
  -- The loop goes on behind one reconcile at the time `t`, and nothing else.
  pub record Reconciles (l : Loop W) (t : ℕ) (o : Option (Outcome W)) : Type 0 where
    pub after : Loop W
    pub going_on : o ≡ some (going after)
    pub notes : after.notes ≡ reconciled t ∷ l.notes
    pub world : after.world ≡ (attempt l.world).1

  due_fires :
      (n now t : ℕ) (notes : List Note) (w : W)
      → now + n ≡ t
      → Reconciles
          (record {
            now = now;
            timer = record { deadline = none; tick = true };
            notes = notes;
            world = w;
          })
          t
          (run_moves attempt is_cancelled discards d (wait n) (record {
            now = now;
            timer = record { deadline = none; tick = true };
            notes = notes;
            world = w;
          }))
  unfolding run_moves step advance
  due_fires zero now t notes w e = record {
    after = _;
    going_on = refl;
    notes = ap (λ s. reconciled s ∷ notes) (omega arith);
    world = refl;
  }
  due_fires (suc n) now t notes w e =
      let k = due_fires n (suc now) t notes w (omega arith) in
      record { after = k.after; going_on = k.going_on; notes = k.notes; world = k.world }

  waiting_fires :
      (n now t dl : ℕ) (notes : List Note) (w : W)
      → 0 < n
      → dl ≤ t
      → now + n ≡ t
      → Reconciles
          (record {
            now = now;
            timer = record { deadline = some dl; tick = false };
            notes = notes;
            world = w;
          })
          t
          (run_moves attempt is_cancelled discards d (wait n) (record {
            now = now;
            timer = record { deadline = some dl; tick = false };
            notes = notes;
            world = w;
          }))
  unfolding run_moves step advance
  waiting_fires zero now t dl notes w p h e = absurd (omega arith)
  waiting_fires (suc n) now t dl notes w p h e = elim (Bool-cases (leb dl (suc now))) [
    | inl g ↦
        let k = due_fires n (suc now) t notes w (omega arith) in
        rw g (record { after = k.after; going_on = k.going_on; notes = k.notes; world = k.world })
    | inr g ↦
        let more : 0 < n = ground arith in
        let k = waiting_fires n (suc now) t dl notes w more h (omega arith) in
        rw g (record { after = k.after; going_on = k.going_on; notes = k.notes; world = k.world })
  ]

  fires_in_Phase :
      (n e now : ℕ) (older : List Note) (t : Timer) (w : W)
      → 0 < n
      → e + d ≤ now + n
      → Phase d now (event e ∷ older) t
      → Reconciles
          (record { now = now; timer = t; notes = event e ∷ older; world = w })
          (now + n)
          (run_moves attempt is_cancelled discards d
            (wait n)
            (record { now = now; timer = t; notes = event e ∷ older; world = w }))
  fires_in_Phase n e now older t w p h (Phase.idle q s) = absurd s
  fires_in_Phase n e now older t w p h (Phase.waiting f os m q) =
      let same : e ≡ f = ap time_of (ap latest m) in
      rw q (waiting_fires n now (now + n) (f + d) (event e ∷ older) w p (rw same at h) refl)
  fires_in_Phase n e now older t w p h (Phase.due f os m q l) =
      rw q (due_fires n now (now + n) (event e ∷ older) w refl)

  -- Wherever a run of the loop has got to, if the last thing that it noted is an event, received at
  -- `e`, and nothing more arrives: once the clock shows `e + d`, at the earliest with its next step,
  -- the select can receive the tick; the loop then reconciles, once, and goes on, whether the
  -- reconcile succeeds or fails.
  pub run-Reconciles :
      (max_attempts : ℤ) (start : ℕ) (w : W) (ms : List Move) (l : Loop W) (e n : ℕ)
      (older : List Note)
      → run attempt is_cancelled discards d max_attempts start w ms ≡ some (going l)
      → l.notes ≡ event e ∷ older
      → 0 < n
      → e + d ≤ l.now + n
      → Reconciles l (l.now + n) (run_moves attempt is_cancelled discards d (wait n) l)
  run-Reconciles max_attempts start w ms l e n older h noted p late =
      let i : IsDebounced d l =
        subst (Keeps attempt is_cancelled discards d) h
          (run-Keeps attempt is_cancelled discards d max_attempts start w ms) in
      let k =
        fires_in_Phase n e l.now older l.timer l.world p late
          (subst (λ ns. Phase d l.now ns l.timer) noted i.phase) in
      subst
        (λ ns.
          Reconciles (record { now = l.now; timer = l.timer; notes = ns; world = l.world })
            (l.now + n)
            (run_moves attempt is_cancelled discards d (wait n)
              (record { now = l.now; timer = l.timer; notes = ns; world = l.world })))
        (sym noted) k
