-- ===== src/Examples/Serving.antt =====
-- The welcome service with two listeners, from its start to its return.
use dockerdynomesh.Prelude.{◌≡◌, refl, true, List, [], ◌∷◌, some}
use dockerdynomesh.Text.{Text, codes}
use dockerdynomesh.Welcome.Serving.{
  served, shut_down, returned, Process, Move, go_on, signal, serve_returns, shutdown_returns, step,
  run_moves, serve_all, change_at, shut_at,
}
use dockerdynomesh.Welcome.Serving.Joined.{IsJoined, returned-IsJoined}
use dockerdynomesh.Welcome.Serving.Ending.{IsEnding, main-IsEnding}

abbrev listeners : List Text
listeners = codes "a:80" ∷ codes "b:80" ∷ []

-- The second `Serve` returns before the signal, and the first `Shutdown` before the second.
abbrev moves : List Move
moves =
    go_on
    ∷ go_on
    ∷ go_on
    ∷ serve_returns 1
    ∷ signal
    ∷ go_on
    ∷ go_on
    ∷ shutdown_returns 0
    ∷ go_on
    ∷ go_on
    ∷ serve_returns 0
    ∷ shutdown_returns 1
    ∷ go_on
    ∷ go_on
    ∷ []

abbrev end : Process
end = record {
  main = returned;
  servers =
      record { address = codes "a:80"; serve = served; shut = shut_down }
      ∷ record { address = codes "b:80"; serve = served; shut = shut_down }
      ∷ [];
  wg = 0;
  sg = 0;
  signalled = true;
}

run_to_end : run_moves moves (serve_all listeners) ≡ some end
unfolding run_moves step change_at shut_at
run_to_end = refl

returned-IsJoined_example : IsJoined listeners end
returned-IsJoined_example = returned-IsJoined listeners moves end run_to_end refl

main-IsEnding_example : IsEnding listeners moves end
main-IsEnding_example = main-IsEnding listeners moves end run_to_end
