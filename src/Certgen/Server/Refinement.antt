-- ===== src/Certgen/Server/Refinement.antt =====
-- Every interleaving of the requests is one after the other.
use dockerdynomesh.Prelude.{
  ℕ, ◌≡◌, ◌≢◌, refl, sym, ap, subst, ◌∙◌, false, List, [], ◌∷◌, Option, none, some, Bool-cases, inl,
  inr, ◌⊎◌,
}
use dockerdynomesh.Files.{Files}
use dockerdynomesh.Certgen.Reissue.{Reissuer, Tools}
use dockerdynomesh.Certgen.Api.{ReissueRequest, Response}
use dockerdynomesh.Certgen.Server.{
  Call, Job, Locked, entered, running, renaming_key, renaming_cert, removing_key, removing_cert,
  leaving, Pc, arrived, waiting, inside, answered, System, update, is_free, entry, advance, moved,
  move, act, run_schedule, init,
}
use dockerdynomesh.Certgen.Server.Alone.{Entry, entry-Entry, rest, rest-entered, rest-advance}
use dockerdynomesh.Certgen.Server.Exclusion.{
  is_inside, IsExclusive, false_ne, split_at, update_self, update_ne, free_owner, act-IsExclusive,
  init-IsExclusive,
}
use dockerdynomesh.Certgen.Server.Serial.{
  Serves, Serial, answer_of, files_of, owned_files, settled, Same, Serial-Same, other_files,
  begin-Serves, go_on-Same, leave-Same,
}
use dockerdynomesh.Certgen.Server.Ways.{Ways, way_at, move-Ways}

module _ {A Wire : Type 0} (tools : Tools A) (decode : ℕ → Wire → Option ReissueRequest)
    (r : Reissuer) (calls : ℕ → Call Wire) where
  abbrev Follows : System A Wire → System A Wire → Type 0
  Follows s t =
      Same tools decode r (settled tools decode r s) (settled tools decode r t)
      ⊎ Serves tools decode r calls (settled tools decode r s) (settled tools decode r t)

  Same_refl : (s : System A Wire) → Follows s s
  Same_refl s = inl (record { files = refl; answers = λ i. refl })

  module _ (now i : ℕ) (s : System A Wire) (exclusive : IsExclusive s)
      (ways : Ways tools decode r calls s) where
    owned : {q : Locked} → s.pc i ≡ inside q → s.owner ≡ some i
    owned e = (exclusive i).0 (ap is_inside e)

    disowned : {p : Pc Wire} → s.pc i ≡ p → is_inside p ≡ false → s.owner ≢ some i
    disowned e n o = false_ne n (ap is_inside (sym e) ∙ (exclusive i).1 o)

    arrive-Follows :
        (c : Call Wire) (p : Pc Wire)
        → s.pc i ≡ arrived c
        → Entry tools decode r (calls i) p
        → Follows s (record s { pc = update s.pc i p })
    arrive-Follows c _ e (Entry.refused {response} h) = inr (record {
      thread = i;
      now = now;
      unserved = ap (answer_of tools decode r s.files) e;
      response =
          ap (answer_of tools decode r s.files) (update_self s.pc i (answered response))
          ∙ ap some (ap (λ x. x.0) (sym (h now (owned_files tools decode r s s.owner))));
      files =
          other_files tools decode r s i (answered response) s.owner (disowned e refl)
          ∙ ap (λ x. x.1) (sym (h now (owned_files tools decode r s s.owner)));
      others =
          λ j n. ap (answer_of tools decode r s.files) (update_ne s.pc i j (answered response) n);
    })
    arrive-Follows c _ e (Entry.queued {job} h) = inl (record {
      files = other_files tools decode r s i (waiting job) s.owner (disowned e refl);
      answers =
          split_at i
            (ap (answer_of tools decode r s.files) (update_self s.pc i (waiting job))
              ∙ sym (ap (answer_of tools decode r s.files) e))
            (λ j n. ap (answer_of tools decode r s.files) (update_ne s.pc i j (waiting job) n));
    })

    lock-Follows :
        (job : Job)
        → s.pc i ≡ waiting job
        → s.owner ≡ none
        → Follows s (record s { owner = some i; pc = update s.pc i (inside (entered job)) })
    lock-Follows job e free = inl (record {
      files =
          ap (files_of tools decode r s.files) (update_self s.pc i (inside (entered job)))
          ∙ sym (ap (owned_files tools decode r s) free);
      answers =
          split_at i
            (ap (answer_of tools decode r s.files) (update_self s.pc i (inside (entered job)))
              ∙ sym (ap (answer_of tools decode r s.files) e))
            (λ j n.
              ap (answer_of tools decode r s.files) (update_ne s.pc i j (inside (entered job)) n));
    })

    advance-Follows :
        (q : Locked) {x : Response × Files A}
        → s.pc i ≡ inside q
        → rest tools decode r q s.files ≡ some x
        → Follows s (moved tools decode r i s (advance tools decode r now q s.files))
    advance-Follows q {x} e g = inl (
        go_on-Same tools decode r s i exclusive (owned e) q (advance tools decode r now q s.files) x
          e g (rest-advance tools decode r now q s.files g))

    move-Follows : (p : Pc Wire) → s.pc i ≡ p → Follows s (move tools decode r now i s p)
    move-Follows (arrived c) e = arrive-Follows c (entry tools decode r c) e (
        subst (λ d. Entry tools decode r d (entry tools decode r c))
          (way_at tools decode r calls s i (arrived c) ways e) (entry-Entry tools decode r c))
    move-Follows (waiting job) e = elim (Bool-cases (is_free s.owner)) [
      | inl f ↦ rw f (lock-Follows job e (free_owner tools decode r s.owner f))
      | inr f ↦ rw f (Same_refl s)
    ]
    move-Follows (inside (entered job)) e = inr (
        begin-Serves tools decode r s i exclusive (owned e) calls now job
          (advance tools decode r now (entered job) s.files) e
          (way_at tools decode r calls s i _ ways e) (rest-entered tools decode r now job s.files))
    move-Follows (inside (running sans)) e = advance-Follows (running sans) e refl
    move-Follows (inside (renaming_key sans)) e = advance-Follows (renaming_key sans) e refl
    move-Follows (inside (renaming_cert sans)) e = advance-Follows (renaming_cert sans) e refl
    move-Follows (inside (removing_key sans result)) e =
        advance-Follows (removing_key sans result) e refl
    move-Follows (inside (removing_cert sans result)) e =
        advance-Follows (removing_cert sans result) e refl
    move-Follows (inside (leaving response)) e =
        inl (leave-Same tools decode r s i exclusive (owned e) response e)
    move-Follows (answered response) e = Same_refl s

  Serial-Follows :
      {fs : Files A} (s t : System A Wire)
      → Serial tools decode r fs calls (settled tools decode r s)
      → Follows s t
      → Serial tools decode r fs calls (settled tools decode r t)
  Serial-Follows s t h (inl same) = Serial-Same tools decode r h same
  Serial-Follows s t h (inr serves) = Serial.next h serves

  -- What holds of every state on the way.
  pub record IsLinear (fs : Files A) (s : System A Wire) : Type 0 where
    pub exclusive : IsExclusive s
    pub ways : Ways tools decode r calls s
    pub serial : Serial tools decode r fs calls (settled tools decode r s)

  pub act-IsLinear :
      {fs : Files A} (now i : ℕ) (s : System A Wire)
      → IsLinear fs s
      → IsLinear fs (act tools decode r now i s)
  unfolding act
  act-IsLinear now i s h = record {
    exclusive = act-IsExclusive tools decode r now i s h.exclusive;
    ways = move-Ways tools decode r calls now i s (s.pc i) h.ways refl;
    serial =
        Serial-Follows s (move tools decode r now i s (s.pc i)) h.serial
          (move-Follows now i s h.exclusive h.ways (s.pc i) refl);
  }

  pub run-IsLinear :
      {fs : Files A} (schedule : List (ℕ × ℕ)) (s : System A Wire)
      → IsLinear fs s
      → IsLinear fs (run_schedule tools decode r schedule s)
  unfolding run_schedule
  run-IsLinear [] s h = h
  run-IsLinear ((now, i) ∷ schedule) s h =
      run-IsLinear schedule (act tools decode r now i s) (act-IsLinear now i s h)

  pub init-IsLinear : (fs : Files A) → IsLinear fs (init tools decode r fs calls)
  init-IsLinear fs = record {
    exclusive = init-IsExclusive tools decode r fs calls;
    ways = λ i. refl;
    serial = Serial.start refl (λ i. refl);
  }

  -- Many requests at once, their steps in any order: the files and the answers are at every moment
  -- those of some of the requests served as a whole, one after the other and each once, where a
  -- request that has begun under the mutex counts as finished. So an answer never comes from files
  -- that another request has half changed.
  pub run-Serial :
      (fs : Files A) (schedule : List (ℕ × ℕ))
      → Serial tools decode r fs calls (
          settled tools decode r
            (run_schedule tools decode r schedule (init tools decode r fs calls)))
  run-Serial fs schedule =
      (run-IsLinear schedule (init tools decode r fs calls) (init-IsLinear fs)).serial
