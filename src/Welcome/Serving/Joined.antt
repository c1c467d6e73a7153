-- ===== src/Welcome/Serving/Joined.antt =====
-- What holds when `main` of cmd/welcome/main.go returns.
use dockerdynomesh.Prelude.{
  ℕ, zero, suc, ◌≡◌, refl, sym, subst, ◌∙◌, Bool, true, false, List, [], ◌∷◌, map, length, some,
  All, arith,
}
use mathlib.Core.List.{append-nil}
use dockerdynomesh.Text.{Text}
use dockerdynomesh.Welcome.Serving.{
  Serve, serving, served, Shut, untouched, shutting, shut_down, HttpServer, returned, Process, Move,
  run_moves, serve_all,
}
use dockerdynomesh.Welcome.Serving.Tally.{tally}
use dockerdynomesh.Welcome.Serving.Counted.{runs, closes, is_touched, Launched, IsCounted}
use dockerdynomesh.Welcome.Serving.Invariant.{reached-IsCounted}

-- Both goroutines of the server are done.
abbrev pub IsDone : HttpServer → Type 0
IsDone s = (s.serve ≡ served) × (s.shut ≡ shut_down)

pub record IsJoined (listeners : List Text) (p : Process) : Type 0 where
  pub of_listeners : map HttpServer.address p.servers ≡ listeners
  pub done : All IsDone p.servers
  pub asked : p.signalled ≡ true
  pub none_left : (p.wg ≡ 0) × (p.sg ≡ 0)

not_serving : (v : Serve) → ◌≡◌ {A = ℕ} (elim v [ serving ↦ 1 | served ↦ 0 ]) 0 → v ≡ served
not_serving serving h = absurd (omega arith)
not_serving served h = refl

not_shutting :
    (v : Shut)
    → ◌≡◌ {A = ℕ} (elim v [ untouched ↦ 0 | shutting ↦ 1 | shut_down ↦ 0 ]) 0
    → ◌≡◌ {A = Bool} (elim v [ untouched ↦ false | shutting ↦ true | shut_down ↦ true ]) true
    → v ≡ shut_down
not_shutting untouched h k = cc
not_shutting shutting h k = absurd (omega arith)
not_shutting shut_down h k = refl

pub All-IsDone :
    (k : ℕ) (ss : List HttpServer)
    → k ≡ length ss
    → tally runs ss ≡ 0
    → tally closes ss ≡ 0
    → Launched k (map is_touched ss)
    → All IsDone ss
unfolding tally
All-IsDone k [] e r c l = tt
All-IsDone zero (s ∷ ss) e r c l = absurd (omega arith)
All-IsDone (suc k) (s ∷ ss) e r c (t, l) = (
  (not_serving s.serve (omega arith), not_shutting s.shut (omega arith) t),
  All-IsDone k ss (omega arith) (omega arith) (omega arith) l,
)

at_return :
    (listeners : List Text) (p : Process) → IsCounted listeners returned p → IsJoined listeners p
at_return listeners p h = record {
  of_listeners = sym (append-nil (map HttpServer.address p.servers)) ∙ h.in_order;
  done =
      All-IsDone (length p.servers) p.servers refl (sym h.by_wg ∙ h.behind.2)
        (sym h.by_sg ∙ h.behind.1) h.by_launch;
  asked = h.behind.0;
  none_left = (h.behind.2, h.behind.1);
}

-- Where `main` of the welcome service has returned, in whatever order the goroutines and the signal
-- moved, a signal had come, there is a server for every listener, in their order, its `Serve` and its
-- `Shutdown` have returned, and neither wait group counts a goroutine.
pub returned-IsJoined :
    (listeners : List Text) (moves : List Move) (p : Process)
    → run_moves moves (serve_all listeners) ≡ some p
    → p.main ≡ returned
    → IsJoined listeners p
returned-IsJoined listeners moves p e r =
    at_return listeners p
      (subst (λ m. IsCounted listeners m p) r (reached-IsCounted listeners moves e))
