-- ===== src/Welcome/Serving/Turns.antt =====
-- Each step of the main goroutine keeps the counters of the wait groups right.
use dockerdynomesh.Prelude.{
  ℕ, suc, refl, sym, ap, subst, ◌∙◌, List, [], ◌∷◌, ◌++◌, map, length, length-map, Option, none,
  some, Bool-cases, eqb, ltb, inl, inr, arith,
}
use mathlib.Core.List.{append_assoc, map-append}
use dockerdynomesh.Text.{Text}
use dockerdynomesh.Welcome.Serving.{
  serving, untouched, HttpServer, Main, starting, awaiting, stopping, joining_shutdowns,
  joining_serves, returned, Process, main_step,
}
use dockerdynomesh.Welcome.Serving.Tally.{tally, tally-append}
use dockerdynomesh.Welcome.Serving.Counted.{
  runs, closes, is_touched, Launched, IsCounted, Launched-snoc, all-Launched,
}
use dockerdynomesh.Welcome.Serving.Shutting.{
  shut_at-addresses, shut_at-runs, shut_at-closes, shut_at-Launched,
}

module _ (listeners : List Text) where
  -- The process, where there is one, is counted.
  abbrev pub Yields : Option Process → Type 0
  Yields none = Unit
  Yields (some p) = IsCounted listeners p.main p

  start-Yields :
      (a : Text) (rest : List Text) (p : Process)
      → IsCounted listeners (starting (a ∷ rest)) p
      → Yields (main_step (starting (a ∷ rest)) p)
  unfolding tally
  start-Yields a rest p h =
      let s : HttpServer = record { address = a; serve = serving; shut = untouched } in
      record {
        by_wg = omega (arith, h.by_wg, tally-append runs p.servers (s ∷ []));
        by_sg = omega (arith, h.by_sg, tally-append closes p.servers (s ∷ []));
        in_order =
            ap (λ xs. xs ++ rest) (map-append HttpServer.address p.servers (s ∷ []))
            ∙ append_assoc (map HttpServer.address p.servers) (a ∷ []) rest
            ∙ h.in_order;
        by_launch =
            subst (Launched 0) (sym (map-append is_touched p.servers (s ∷ [])))
              (Launched-snoc (map is_touched p.servers) h.by_launch);
        behind = tt;
      }

  stop-Yields :
      (k : ℕ) (p : Process) → IsCounted listeners (stopping k) p → Yields (main_step (stopping k) p)
  stop-Yields k p h = elim (Bool-cases (ltb k (length p.servers))) [
    | inl e ↦ rw e (record {
      by_wg = h.by_wg ∙ sym (shut_at-runs k p.servers);
      by_sg = ap suc h.by_sg ∙ sym (shut_at-closes k p.servers (ground arith) h.by_launch);
      in_order = ap (λ xs. xs ++ []) (shut_at-addresses k p.servers) ∙ h.in_order;
      by_launch = shut_at-Launched k p.servers (ground arith) h.by_launch;
      behind = h.behind;
    })
    | inr e ↦ rw e (record {
      by_wg = h.by_wg;
      by_sg = h.by_sg;
      in_order = h.in_order;
      by_launch =
          subst (λ n. Launched n (map is_touched p.servers))
            (all-Launched k (map is_touched p.servers) h.by_launch
                (rw (length-map is_touched p.servers) e)
              ∙ length-map is_touched p.servers)
            h.by_launch;
      behind = h.behind;
    })
  ]

  pub main_step-Yields : (m : Main) (p : Process) → IsCounted listeners m p → Yields (main_step m p)
  main_step-Yields (starting []) p h = record {
    by_wg = h.by_wg;
    by_sg = h.by_sg;
    in_order = h.in_order;
    by_launch = h.by_launch;
    behind = tt;
  }
  main_step-Yields (starting (a ∷ rest)) p h = start-Yields a rest p h
  main_step-Yields awaiting p h = elim (Bool-cases p.signalled) [
    | inl e ↦ rw e (record {
      by_wg = h.by_wg;
      by_sg = h.by_sg;
      in_order = h.in_order;
      by_launch = h.by_launch;
      behind = refl;
    })
    | inr e ↦ rw e tt
  ]
  main_step-Yields (stopping k) p h = stop-Yields k p h
  main_step-Yields joining_shutdowns p h = elim (Bool-cases (eqb p.sg 0)) [
    | inl e ↦ rw e (record {
      by_wg = h.by_wg;
      by_sg = h.by_sg;
      in_order = h.in_order;
      by_launch = h.by_launch;
      behind = (h.behind, ground arith);
    })
    | inr e ↦ rw e tt
  ]
  main_step-Yields joining_serves p h = elim (Bool-cases (eqb p.wg 0)) [
    | inl e ↦ rw e (record {
      by_wg = h.by_wg;
      by_sg = h.by_sg;
      in_order = h.in_order;
      by_launch = h.by_launch;
      behind = (h.behind.0, h.behind.1, ground arith);
    })
    | inr e ↦ rw e tt
  ]
  main_step-Yields returned p h = tt
