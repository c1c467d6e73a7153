-- ===== src/Welcome/Serving/Ending.antt =====
-- That `main` of cmd/welcome/main.go returns after the signal.
use dockerdynomesh.Prelude.{
  ℕ, suc, ◌+◌, ◌*◌, ◌≤◌, ◌<◌, ◌≡◌, ◌≢◌, ◌↔◌, refl, ap, ◌∙◌, true, List, [], ◌∷◌, length, Option,
  none, some, All, Bool-cases, eqb, ltb, inl, inr, arith,
}
use dockerdynomesh.Text.{Text}
use dockerdynomesh.Welcome.Serving.{
  Serve, serving, served, Shut, untouched, shutting, shut_down, HttpServer, Main, starting,
  awaiting, stopping, joining_shutdowns, joining_serves, returned, Process, Move, go_on,
  serve_returns, shutdown_returns, serve_ends, shutdown_ends, shut_at, main_step, ended, closed,
  step, run_moves, serve_all,
}
use dockerdynomesh.Welcome.Serving.Tally.{tally, enabled_at}
use dockerdynomesh.Welcome.Serving.Counted.{runs, closes, IsCounted}
use dockerdynomesh.Welcome.Serving.Invariant.{reached-IsCounted}
use dockerdynomesh.Welcome.Serving.Joined.{IsDone, returned-IsJoined}
use dockerdynomesh.Welcome.Serving.Progress.{
  todo, ahead, distance, cost, own_moves, reached-distance,
}

-- A move of the process's own can be made.
abbrev pub CanMove : Process → Type 0
CanMove p = (m : Move) × (q : Process) × (cost m ≡ 1) × (step m p ≡ some q)

goes_on : (p : Process) {m : Main} {q : Process} → p.main ≡ m → main_step m p ≡ some q → CanMove p
unfolding step
goes_on p {q = q} e h = (go_on, q, refl, ap (λ n. main_step n p) e ∙ h)

serve_ends-runs_zero :
    (s : HttpServer) (v : Serve)
    → ◌≡◌ {A = Option HttpServer}
        (elim v [ serving ↦ some (record s { serve = served }) | served ↦ none ])
        none
    → ◌≡◌ {A = ℕ} (elim v [ serving ↦ 1 | served ↦ 0 ]) 0
serve_ends-runs_zero s serving h = cc
serve_ends-runs_zero s served h = refl

shutdown_ends-closes_zero :
    (s : HttpServer) (v : Shut)
    → ◌≡◌ {A = Option HttpServer}
        (elim v [
          | shutting ↦ some (record s { shut = shut_down })
          | untouched ↦ none
          | shut_down ↦ none
        ])
        none
    → ◌≡◌ {A = ℕ} (elim v [ untouched ↦ 0 | shutting ↦ 1 | shut_down ↦ 0 ]) 0
shutdown_ends-closes_zero s shutting h = cc
shutdown_ends-closes_zero s untouched h = refl
shutdown_ends-closes_zero s shut_down h = refl

serve_can_end : (p : Process) → 0 < tally runs p.servers → CanMove p
unfolding step
serve_can_end p h =
    let (i, ts, e) =
      enabled_at serve_ends runs (λ s k. serve_ends-runs_zero s s.serve k) p.servers h in
    (serve_returns i, _, refl, ap (ended p) e)

shutdown_can_end : (p : Process) → 0 < tally closes p.servers → CanMove p
unfolding step
shutdown_can_end p h =
    let (i, ts, e) =
      enabled_at shutdown_ends closes (λ s k. shutdown_ends-closes_zero s s.shut k) p.servers h in
    (shutdown_returns i, _, refl, ap (closed p) e)

can_move :
    (listeners : List Text) (m : Main) (p : Process)
    → p.main ≡ m
    → IsCounted listeners m p
    → p.signalled ≡ true
    → m ≢ returned
    → CanMove p
can_move listeners (starting []) p e h s n = goes_on p e refl
can_move listeners (starting (a ∷ rest)) p e h s n = goes_on p e refl
can_move listeners awaiting p e h s n = goes_on p {q = record p { main = stopping 0 }} e (rw s refl)
can_move listeners (stopping k) p e h s n = elim (Bool-cases (ltb k (length p.servers))) [
  | inl l ↦
      goes_on p
        {q = record p { main = stopping (suc k); servers = shut_at k p.servers; sg = suc p.sg }} e
        (rw l refl)
  | inr l ↦ goes_on p {q = record p { main = joining_shutdowns }} e (rw l refl)
]
can_move listeners joining_shutdowns p e h s n = elim (Bool-cases (eqb p.sg 0)) [
  | inl l ↦ goes_on p {q = record p { main = joining_serves }} e (rw l refl)
  | inr l ↦ shutdown_can_end p (ground (arith, h.by_sg))
]
can_move listeners joining_serves p e h s n = elim (Bool-cases (eqb p.wg 0)) [
  | inl l ↦ goes_on p {q = record p { main = returned }} e (rw l refl)
  | inr l ↦ serve_can_end p (ground (arith, h.by_wg))
]
can_move listeners returned p e h s n = absurd (n refl)

done-todo : (ss : List HttpServer) → All IsDone ss → tally todo ss ≡ 0
unfolding tally
done-todo [] h = refl
done-todo (s ∷ ss) ((e, k), h) = rw (e, k) (omega (arith, done-todo ss h))

ahead_zero : (m : Main) → ahead m ≡ 0 → m ≡ returned
ahead_zero (starting rest) h = absurd (omega arith)
ahead_zero awaiting h = absurd (omega arith)
ahead_zero (stopping k) h = absurd (omega arith)
ahead_zero joining_shutdowns h = absurd (omega arith)
ahead_zero joining_serves h = absurd (omega arith)
ahead_zero returned h = refl

pub record IsEnding (listeners : List Text) (moves : List Move) (p : Process) : Type 0 where
  pub bounded : own_moves moves ≤ 5 + 4 * length listeners
  pub exact : (p.main ≡ returned) ↔ (own_moves moves ≡ 5 + 4 * length listeners)
  pub goes_on : p.signalled ≡ true → p.main ≢ returned → CanMove p

joined-distance : (p : Process) → p.main ≡ returned → All IsDone p.servers → distance p ≡ 0
joined-distance p e h = rw e (omega (arith, done-todo p.servers h))

-- Every run of the welcome service's goroutines makes at most five moves and four for each listener,
-- signals aside; it has made that many exactly if `main` has returned; and once a signal has come a
-- move can be made until it has.
pub main-IsEnding :
    (listeners : List Text) (moves : List Move) (p : Process)
    → run_moves moves (serve_all listeners) ≡ some p
    → IsEnding listeners moves p
main-IsEnding listeners moves p e =
    let d : distance p + own_moves moves ≡ 5 + 4 * length listeners =
      reached-distance listeners moves e in
    record {
      bounded = omega (arith, d);
      exact = (
        (λ r. omega (arith, d, joined-distance p r (returned-IsJoined listeners moves p e r).done)),
        λ k. ahead_zero p.main (omega (arith, d, k)),
      );
      goes_on = λ s n. can_move listeners p.main p refl (reached-IsCounted listeners moves e) s n;
    }
