-- ===== src/Welcome/Serving.antt =====
-- `main` of cmd/welcome/main.go behind its listeners: a goroutine serves on each, and after a signal
-- a goroutine shuts each server down. What runs next is a move; `none` where it cannot run, or waits.
-- When Serve and Shutdown return is left to net/http.
pub mod Tally
pub mod Counted
pub mod Shutting
pub mod Turns
pub mod Invariant
pub mod Joined
pub mod Progress
pub mod Ending
use dockerdynomesh.Prelude.{
  ℕ, zero, suc, ◌+◌, ◌-◌, Bool, true, false, List, [], ◌∷◌, ◌++◌, Option, none, some, eqb, ltb,
  length, if◌then◌else◌,
}
use dockerdynomesh.Text.{Text}

-- The goroutine that serves, which the main goroutine waits for.
pub data Serve : Type 0 where
  serving served : Serve

-- The goroutine that shuts down; `untouched` before it is started.
pub data Shut : Type 0 where
  untouched shutting shut_down : Shut

pub record HttpServer : Type 0 where
  pub address : Text
  pub serve : Serve
  pub shut : Shut

-- The places of the main goroutine: the two loops, the signal, and the two waits.
pub data Main : Type 0 where
  starting : List Text → Main
  awaiting : Main
  stopping : ℕ → Main
  joining_shutdowns joining_serves returned : Main

-- `wg` and `sg` are the counters of the wait groups, `signalled` the channel of signals.
pub record Process : Type 0 where
  pub main : Main
  pub servers : List HttpServer
  pub wg : ℕ
  pub sg : ℕ
  pub signalled : Bool

pub data Move : Type 0 where
  go_on signal : Move
  serve_returns shutdown_returns : ℕ → Move

abbrev pub began : HttpServer → Option (List HttpServer) → Option (List HttpServer)
began s none = none
began s (some ss) = some (s ∷ ss)

-- A change of one server, where it can happen.
unfoldable pub change_at :
    (HttpServer → Option HttpServer) → ℕ → List HttpServer → Option (List HttpServer)
change_at f i [] = none
change_at f zero (s ∷ ss) = elim (f s) [ none ↦ none | some t ↦ some (t ∷ ss) ]
change_at f (suc i) (s ∷ ss) = began s (change_at f i ss)

abbrev pub serve_ends : HttpServer → Option HttpServer
serve_ends s = elim s.serve [ serving ↦ some (record s { serve = served }) | served ↦ none ]

abbrev pub shutdown_ends : HttpServer → Option HttpServer
shutdown_ends s = elim s.shut [
  | shutting ↦ some (record s { shut = shut_down })
  | untouched ↦ none
  | shut_down ↦ none
]

-- `go func(hs *http.Server) { ... }(hs)` of the second loop
unfoldable pub shut_at : ℕ → List HttpServer → List HttpServer
shut_at i [] = []
shut_at zero (s ∷ ss) = record s { shut = shutting } ∷ ss
shut_at (suc i) (s ∷ ss) = s ∷ shut_at i ss

abbrev pub main_step : Main → Process → Option Process
main_step (starting []) p = some (record p { main = awaiting })
main_step (starting (a ∷ rest)) p = some (record p {
  main = starting rest;
  servers = p.servers ++ (record { address = a; serve = serving; shut = untouched } ∷ []);
  wg = suc p.wg;
})
main_step awaiting p = if p.signalled then some (record p { main = stopping 0 }) else none
main_step (stopping k) p =
    if ltb k (length p.servers)
    then some (record p { main = stopping (suc k); servers = shut_at k p.servers; sg = suc p.sg })
    else some (record p { main = joining_shutdowns })
main_step joining_shutdowns p =
    if eqb p.sg 0 then some (record p { main = joining_serves }) else none
main_step joining_serves p = if eqb p.wg 0 then some (record p { main = returned }) else none
main_step returned p = none

abbrev pub ended : Process → Option (List HttpServer) → Option Process
ended p none = none
ended p (some ss) = some (record p { servers = ss; wg = p.wg - 1 })

abbrev pub closed : Process → Option (List HttpServer) → Option Process
closed p none = none
closed p (some ss) = some (record p { servers = ss; sg = p.sg - 1 })

unfoldable pub step : Move → Process → Option Process
unfolding change_at shut_at
step go_on p = main_step p.main p
step signal p = some (record p { signalled = true })
step (serve_returns i) p = ended p (change_at serve_ends i p.servers)
step (shutdown_returns i) p = closed p (change_at shutdown_ends i p.servers)

abbrev pub then_run : Option Process → (Process → Option Process) → Option Process
then_run none rest = none
then_run (some p) rest = rest p

unfoldable pub run_moves : List Move → Process → Option Process
run_moves [] p = some p
run_moves (m ∷ moves) p = then_run (step m p) (run_moves moves)

-- `main` with the listeners that it bound
abbrev pub serve_all : List Text → Process
serve_all listeners = record {
  main = starting listeners;
  servers = [];
  wg = 0;
  sg = 0;
  signalled = false;
}
