-- ===== src/Welcome/Serving/Invariant.antt =====
-- Each move keeps the counters of the wait groups right.
use dockerdynomesh.Prelude.{
  ℕ, ◌+◌, ◌-◌, ◌≡◌, refl, ap, subst, ◌∙◌, true, List, [], ◌∷◌, ◌++◌, map, length, Option, none,
  some, arith,
}
use dockerdynomesh.Text.{Text}
use dockerdynomesh.Welcome.Serving.{
  HttpServer, Main, starting, awaiting, stopping, joining_shutdowns, joining_serves, returned,
  Process, Move, go_on, signal, serve_returns, shutdown_returns, change_at, serve_ends,
  shutdown_ends, ended, closed, step, then_run, run_moves, serve_all,
}
use dockerdynomesh.Welcome.Serving.Tally.{
  tally, Changed, change_at-Changed, Changed-tally, Changed-map, Changed-length,
}
use dockerdynomesh.Welcome.Serving.Counted.{
  runs, closes, is_touched, Launched, launched, unserved, Awaited, IsCounted, serve_ends-keeps,
  shutdown_ends-keeps, serve_ends-runs, shutdown_ends-closes,
}
use dockerdynomesh.Welcome.Serving.Turns.{Yields, main_step-Yields}

module _ (listeners : List Text) where
  Awaited-mono :
      (m : Main) (p q : Process)
      → (p.signalled ≡ true → q.signalled ≡ true)
      → (p.sg ≡ 0 → q.sg ≡ 0)
      → (p.wg ≡ 0 → q.wg ≡ 0)
      → Awaited p m
      → Awaited q m
  Awaited-mono (starting rest) p q e f g h = tt
  Awaited-mono awaiting p q e f g h = tt
  Awaited-mono (stopping k) p q e f g h = e h
  Awaited-mono joining_shutdowns p q e f g h = e h
  Awaited-mono joining_serves p q e f g (h, i) = (e h, f i)
  Awaited-mono returned p q e f g (h, i, j) = (e h, f i, g j)

  -- The flags, the addresses and the number of the servers are as before.
  changed-Launched :
      (m : Main) (ss ts : List HttpServer)
      → map is_touched ts ≡ map is_touched ss
      → length ts ≡ length ss
      → Launched (launched m (length ss)) (map is_touched ss)
      → Launched (launched m (length ts)) (map is_touched ts)
  changed-Launched m ss ts e k h = rw (e, k) h

  ended-Yields :
      (i : ℕ) (p : Process) (o : Option (List HttpServer))
      → change_at serve_ends i p.servers ≡ o
      → IsCounted listeners p.main p
      → Yields listeners (ended p o)
  ended-Yields i p none e h = tt
  ended-Yields i p (some ts) e h =
      let c : Changed serve_ends p.servers ts = change_at-Changed serve_ends i p.servers e in
      record {
        by_wg = omega (arith, h.by_wg, Changed-tally serve_ends runs 1 0 serve_ends-runs c);
        by_sg = omega (
          arith,
          h.by_sg,
          Changed-tally serve_ends closes 0 0
              (λ s t k. ap (λ n. n + 0) (serve_ends-keeps closes (λ u. refl) s t k)) c,
        );
        in_order =
            ap (λ xs. xs ++ unserved p.main)
              (Changed-map serve_ends HttpServer.address
                (serve_ends-keeps HttpServer.address (λ u. refl)) c)
            ∙ h.in_order;
        by_launch =
            changed-Launched p.main p.servers ts
              (Changed-map serve_ends is_touched (serve_ends-keeps is_touched (λ u. refl)) c)
              (Changed-length serve_ends c) h.by_launch;
        behind =
            Awaited-mono p.main p (record p { servers = ts; wg = p.wg - 1 }) (λ k. k) (λ k. k)
              (λ k. omega (arith, k)) h.behind;
      }

  closed-Yields :
      (i : ℕ) (p : Process) (o : Option (List HttpServer))
      → change_at shutdown_ends i p.servers ≡ o
      → IsCounted listeners p.main p
      → Yields listeners (closed p o)
  closed-Yields i p none e h = tt
  closed-Yields i p (some ts) e h =
      let c : Changed shutdown_ends p.servers ts = change_at-Changed shutdown_ends i p.servers e in
      record {
        by_wg = omega (
          arith,
          h.by_wg,
          Changed-tally shutdown_ends runs 0 0
              (λ s t k. ap (λ n. n + 0) (shutdown_ends-keeps runs (λ u v. refl) s t k)) c,
        );
        by_sg =
            omega (arith, h.by_sg, Changed-tally shutdown_ends closes 1 0 shutdown_ends-closes c);
        in_order =
            ap (λ xs. xs ++ unserved p.main)
              (Changed-map shutdown_ends HttpServer.address
                (shutdown_ends-keeps HttpServer.address (λ u v. refl)) c)
            ∙ h.in_order;
        by_launch =
            changed-Launched p.main p.servers ts
              (Changed-map shutdown_ends is_touched
                (shutdown_ends-keeps is_touched (λ u v. rw v refl)) c)
              (Changed-length shutdown_ends c) h.by_launch;
        behind =
            Awaited-mono p.main p (record p { servers = ts; sg = p.sg - 1 }) (λ k. k)
              (λ k. omega (arith, k)) (λ k. k) h.behind;
      }

  signalled-Yields :
      (p : Process)
      → IsCounted listeners p.main p
      → IsCounted listeners p.main (record p { signalled = true })
  signalled-Yields p h =
      let q : Process = record p { signalled = true } in
      record {
        by_wg = h.by_wg;
        by_sg = h.by_sg;
        in_order = h.in_order;
        by_launch = h.by_launch;
        behind = Awaited-mono p.main p q (λ k. refl) (λ k. k) (λ k. k) h.behind;
      }

  pub step-Yields :
      (m : Move) (p : Process) → IsCounted listeners p.main p → Yields listeners (step m p)
  unfolding step
  step-Yields go_on p h = main_step-Yields listeners p.main p h
  step-Yields signal p h = signalled-Yields p h
  step-Yields (serve_returns i) p h = ended-Yields i p (change_at serve_ends i p.servers) refl h
  step-Yields (shutdown_returns i) p h =
      closed-Yields i p (change_at shutdown_ends i p.servers) refl h

  then_run-Yields :
      (o : Option Process) (rest : Process → Option Process)
      → Yields listeners o
      → ((p : Process) → IsCounted listeners p.main p → Yields listeners (rest p))
      → Yields listeners (then_run o rest)
  then_run-Yields none rest h f = tt
  then_run-Yields (some p) rest h f = f p h

  run-Yields :
      (moves : List Move) (p : Process)
      → IsCounted listeners p.main p
      → Yields listeners (run_moves moves p)
  unfolding run_moves
  run-Yields [] p h = h
  run-Yields (m ∷ moves) p h =
      then_run-Yields (step m p) (run_moves moves) (step-Yields m p h) (run-Yields moves)

  pub serve_all-IsCounted : IsCounted listeners (starting listeners) (serve_all listeners)
  unfolding tally
  serve_all-IsCounted = record {
    by_wg = refl;
    by_sg = refl;
    in_order = refl;
    by_launch = refl;
    behind = tt;
  }

  pub reached-IsCounted :
      (moves : List Move) {p : Process}
      → run_moves moves (serve_all listeners) ≡ some p
      → IsCounted listeners p.main p
  reached-IsCounted moves e =
      subst (Yields listeners) e (run-Yields moves (serve_all listeners) serve_all-IsCounted)
