-- ===== src/Welcome/Serving/Progress.antt =====
-- How many moves the process has in front of it.
use dockerdynomesh.Prelude.{
  ℕ, zero, suc, ◌+◌, ◌*◌, ◌<◌, ◌≡◌, refl, sym, subst, true, false, List, [], ◌∷◌, map, length,
  Option, none, some, Bool-cases, eqb, ltb, inl, inr, arith,
}
use dockerdynomesh.Text.{Text}
use dockerdynomesh.Welcome.Serving.{
  serving, Shut, untouched, shutting, shut_down, HttpServer, Main, starting, awaiting, stopping,
  joining_shutdowns, joining_serves, returned, Process, Move, go_on, signal, serve_returns,
  shutdown_returns, change_at, serve_ends, shutdown_ends, shut_at, main_step, ended, closed, step,
  then_run, run_moves, serve_all,
}
use dockerdynomesh.Welcome.Serving.Tally.{tally, tally-append, change_at-Changed, Changed-tally}
use dockerdynomesh.Welcome.Serving.Turns.{Yields}
use dockerdynomesh.Welcome.Serving.Invariant.{step-Yields, serve_all-IsCounted}
use dockerdynomesh.Welcome.Serving.Counted.{
  runs, is_touched, Launched, IsCounted, serve_ends-some, shutdown_ends-some,
}

-- Of the two goroutines of a server.
abbrev pub to_shut : Shut → ℕ
to_shut untouched = 2
to_shut shutting = 1
to_shut shut_down = 0

abbrev pub todo : HttpServer → ℕ
todo s = runs s + to_shut s.shut

-- Of the main goroutine, with those of the servers that are still to be made.
abbrev pub ahead : Main → ℕ
ahead (starting rest) = 5 + 4 * length rest
ahead awaiting = 4
ahead (stopping k) = 3
ahead joining_shutdowns = 2
ahead joining_serves = 1
ahead returned = 0

abbrev pub distance : Process → ℕ
distance p = ahead p.main + tally todo p.servers

-- The signal is no move of the process.
abbrev pub cost : Move → ℕ
cost signal = 0
cost _ = 1

abbrev pub own_moves : List Move → ℕ
own_moves [] = 0
own_moves (m ∷ moves) = cost m + own_moves moves

serve_ends-todo : (s t : HttpServer) → serve_ends s ≡ some t → todo t + 1 ≡ todo s + 0
serve_ends-todo s t e = let (v, k) = serve_ends-some s s.serve e in rw (sym k, v) (omega arith)

shutdown_ends-todo : (s t : HttpServer) → shutdown_ends s ≡ some t → todo t + 1 ≡ todo s + 0
shutdown_ends-todo s t e = let (v, k) = shutdown_ends-some s s.shut e in rw (sym k, v) (omega arith)

untouched-to_shut :
    (v : Shut)
    → elim v [ untouched ↦ false | shutting ↦ true | shut_down ↦ true ] ≡ false
    → to_shut v ≡ 2
untouched-to_shut untouched h = refl
untouched-to_shut shutting h = cc
untouched-to_shut shut_down h = cc

shut_at-todo :
    (k : ℕ) (ss : List HttpServer)
    → k < length ss
    → Launched k (map is_touched ss)
    → tally todo (shut_at k ss) + 1 ≡ tally todo ss
unfolding shut_at tally
shut_at-todo k [] h l = absurd (omega arith)
shut_at-todo zero (s ∷ ss) h (e, l) = omega (arith, untouched-to_shut s.shut e)
shut_at-todo (suc k) (s ∷ ss) h (e, l) = omega (arith, shut_at-todo k ss (omega arith) l)

module _ (listeners : List Text) where
  -- A process behind a move from `p`, where there is one, has the moves that were left.
  abbrev Lowers : ℕ → ℕ → Option Process → Type 0
  Lowers d c none = Unit
  Lowers d c (some q) = distance q + c ≡ d

  main_step-Lowers :
      (m : Main) (p : Process)
      → IsCounted listeners m p
      → Lowers (ahead m + tally todo p.servers) 1 (main_step m p)
  unfolding tally
  main_step-Lowers (starting []) p h = omega arith
  main_step-Lowers (starting (a ∷ rest)) p h = omega (
    arith,
    tally-append todo p.servers (record { address = a; serve = serving; shut = untouched } ∷ []),
  )
  main_step-Lowers awaiting p h = elim (Bool-cases p.signalled) [
    | inl e ↦ rw e (omega arith)
    | inr e ↦ rw e tt
  ]
  main_step-Lowers (stopping k) p h = elim (Bool-cases (ltb k (length p.servers))) [
    | inl e ↦ rw e (omega (arith, shut_at-todo k p.servers (ground arith) h.by_launch))
    | inr e ↦ rw e (omega arith)
  ]
  main_step-Lowers joining_shutdowns p h = elim (Bool-cases (eqb p.sg 0)) [
    | inl e ↦ rw e (omega arith)
    | inr e ↦ rw e tt
  ]
  main_step-Lowers joining_serves p h = elim (Bool-cases (eqb p.wg 0)) [
    | inl e ↦ rw e (omega arith)
    | inr e ↦ rw e tt
  ]
  main_step-Lowers returned p h = tt

  ended-Lowers :
      (i : ℕ) (p : Process) (o : Option (List HttpServer))
      → change_at serve_ends i p.servers ≡ o
      → Lowers (distance p) 1 (ended p o)
  ended-Lowers i p none e = tt
  ended-Lowers i p (some ts) e = omega (
    arith,
    Changed-tally serve_ends todo 1 0 serve_ends-todo (change_at-Changed serve_ends i p.servers e),
  )

  closed-Lowers :
      (i : ℕ) (p : Process) (o : Option (List HttpServer))
      → change_at shutdown_ends i p.servers ≡ o
      → Lowers (distance p) 1 (closed p o)
  closed-Lowers i p none e = tt
  closed-Lowers i p (some ts) e = omega (
    arith,
    Changed-tally shutdown_ends todo 1 0 shutdown_ends-todo
        (change_at-Changed shutdown_ends i p.servers e),
  )

  step-Lowers :
      (m : Move) (p : Process)
      → IsCounted listeners p.main p
      → Lowers (distance p) (cost m) (step m p)
  unfolding step
  step-Lowers go_on p h = main_step-Lowers p.main p h
  step-Lowers signal p h = omega arith
  step-Lowers (serve_returns i) p h = ended-Lowers i p (change_at serve_ends i p.servers) refl
  step-Lowers (shutdown_returns i) p h =
      closed-Lowers i p (change_at shutdown_ends i p.servers) refl

  Lowers-further :
      (c d e : ℕ) (p : Process) (o : Option Process)
      → distance p + c ≡ d
      → Lowers (distance p) e o
      → Lowers d (c + e) o
  Lowers-further c d e p none l k = tt
  Lowers-further c d e p (some q) l k = omega (arith, k, l)

  then_run-Lowers :
      (c d : ℕ) (moves : List Move) (o : Option Process)
      → Yields listeners o
      → Lowers d c o
      → ((p : Process)
          → IsCounted listeners p.main p
          → Lowers (distance p) (own_moves moves) (run_moves moves p))
      → Lowers d (c + own_moves moves) (then_run o (run_moves moves))
  then_run-Lowers c d moves none h l f = tt
  then_run-Lowers c d moves (some p) h l f =
      Lowers-further c d (own_moves moves) p (run_moves moves p) l (f p h)

  pub run-Lowers :
      (moves : List Move) (p : Process)
      → IsCounted listeners p.main p
      → Lowers (distance p) (own_moves moves) (run_moves moves p)
  unfolding run_moves
  run-Lowers [] p h = omega arith
  run-Lowers (m ∷ moves) p h =
      then_run-Lowers (cost m) (distance p) moves (step m p) (step-Yields listeners m p h)
        (step-Lowers m p h) (run-Lowers moves)

  pub reached-distance :
      (moves : List Move) {p : Process}
      → run_moves moves (serve_all listeners) ≡ some p
      → distance p + own_moves moves ≡ 5 + 4 * length listeners
  unfolding tally
  reached-distance moves e =
      let l : Lowers (5 + 4 * length listeners + 0) (own_moves moves)
          (run_moves moves (serve_all listeners)) =
        run-Lowers moves (serve_all listeners) (serve_all-IsCounted listeners) in
      omega (arith, subst (Lowers (5 + 4 * length listeners + 0) (own_moves moves)) e l)
