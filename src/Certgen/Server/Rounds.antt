-- ===== src/Certgen/Server/Rounds.antt =====
-- Every request is answered, where the threads take turns.
use dockerdynomesh.Prelude.{
  ℕ, zero, suc, ◌*◌, ◌≤◌, ◌<◌, ◌≡◌, ◌≢◌, refl, sym, ap, subst, ◌∙◌, true, false, List, [], ◌∷◌,
  Option, none, some, All, Bool-cases, ltb, inl, inr, ◌⊎◌, arith,
}
use dockerdynomesh.Files.{Files}
use dockerdynomesh.Certgen.Reissue.{Reissuer, Tools}
use dockerdynomesh.Certgen.Api.{ReissueRequest, Response}
use dockerdynomesh.Certgen.Server.{
  Call, entered, running, renaming_key, renaming_cert, removing_key, removing_cert, leaving, Pc,
  arrived, waiting, inside, answered, System, update, is_free, act, run_schedule, init,
}
use dockerdynomesh.Certgen.Server.Exclusion.{
  is_inside, IsExclusive, false_ne, update_ne, act-IsExclusive, init-IsExclusive,
}
use dockerdynomesh.Certgen.Server.Progress.{
  left, total, total-update, left-le-total, total_zero, Stuck, Moves, act-Moves,
}

-- The thread has a turn.
abbrev pub HasTurn : ℕ → List (ℕ × ℕ) → Type 0
HasTurn i [] = ⊥
HasTurn i ((now, j) ∷ turns) = (j ≡ i) ⊎ HasTurn i turns

-- A round of the threads below `n`: each has a turn, and no other.
pub record IsRound (n : ℕ) (turns : List (ℕ × ℕ)) : Type 0 where
  pub within : All (λ turn. turn.1 < n) turns
  pub fair : (i : ℕ) → i < n → HasTurn i turns

abbrev pub rounds_length : List (List (ℕ × ℕ)) → ℕ
rounds_length [] = 0
rounds_length (turns ∷ rounds) = suc (rounds_length rounds)

left-inside : {Wire : Type 0} (p : Pc Wire) → is_inside p ≡ true → 0 < left p
left-inside (arrived c) h = cc
left-inside (waiting job) h = cc
left-inside (answered response) h = cc
left-inside (inside (entered job)) h = omega arith
left-inside (inside (running sans)) h = omega arith
left-inside (inside (renaming_key sans)) h = omega arith
left-inside (inside (renaming_cert sans)) h = omega arith
left-inside (inside (removing_key sans result)) h = omega arith
left-inside (inside (removing_cert sans result)) h = omega arith
left-inside (inside (leaving response)) h = omega arith

answered_of_left :
    {Wire : Type 0} (p : Pc Wire) → left p ≡ 0 → (response : Response) × (p ≡ answered response)
answered_of_left (answered response) h = (response, refl)
answered_of_left (arrived c) h = absurd (omega arith)
answered_of_left (waiting job) h = absurd (omega arith)
answered_of_left {Wire} (inside q) h =
    absurd (omega (arith, left-inside {Wire = Wire} (inside q) refl))

owner_of : (o : Option ℕ) → is_free o ≡ false → (j : ℕ) × (o ≡ some j)
owner_of none h = cc
owner_of (some j) h = (j, refl)

module _ {A Wire : Type 0} (tools : Tools A) (decode : ℕ → Wire → Option ReissueRequest)
    (r : Reissuer) (n : ℕ) where
  abbrev after : List (ℕ × ℕ) → System A Wire → System A Wire
  after = run_schedule tools decode r

  -- The mutex is with none of the other threads.
  abbrev pub Untouched : System A Wire → Type 0
  Untouched s = (j : ℕ) → n ≤ j → is_inside (s.pc j) ≡ false

  act-Untouched :
      (now i : ℕ) (s : System A Wire) → i < n → Untouched s → Untouched (act tools decode r now i s)
  act-Untouched now i s l h = elim (act-Moves tools decode r now i s) [
    | Moves.blocked e k ↦ subst Untouched (sym e) h
    | Moves.progressed p e k ↦ λ j m.
        let other : i ≢ j = λ same. absurd (omega (arith, same)) in
        ap (λ (pc : ℕ → Pc Wire). is_inside (pc j)) e
        ∙ ap is_inside (update_ne s.pc i j p other)
        ∙ h j m
  ]

  data Turned (turns : List (ℕ × ℕ)) (s t : System A Wire) : Type 0 where
    still : t ≡ s → All (λ turn. Stuck tools decode r s turn.1) turns → Turned turns s t
    less : total n t.pc < total n s.pc → Turned turns s t

  after_blocked :
      (now i : ℕ) (turns : List (ℕ × ℕ)) (s u t : System A Wire)
      → u ≡ s
      → Stuck tools decode r s i
      → Turned turns u t
      → Turned ((now, i) ∷ turns) s t
  after_blocked now i turns s u t e k (still f ks) =
      still (f ∙ e) (k, subst (λ v. All (λ turn. Stuck tools decode r v turn.1) turns) e ks)
  after_blocked now i turns s u t e k (less l) =
      less (subst (λ (v : System A Wire). total n t.pc < total n v.pc) e l)

  after_progressed :
      (now i : ℕ) (turns : List (ℕ × ℕ)) (s u t : System A Wire)
      → total n u.pc < total n s.pc
      → Turned turns u t
      → Turned ((now, i) ∷ turns) s t
  after_progressed now i turns s u t l (still f ks) =
      less (subst (λ (v : System A Wire). total n v.pc < total n s.pc) (sym f) l)
  after_progressed now i turns s u t l (less k) = less (omega arith)

  total-progressed :
      (s t : System A Wire) (i : ℕ) (p : Pc Wire)
      → i < n
      → t.pc ≡ update s.pc i p
      → left p < left (s.pc i)
      → total n t.pc < total n s.pc
  total-progressed s t i p l e k = omega (arith, ap (total n) e, total-update n s.pc i p l)

  run-Turned :
      (turns : List (ℕ × ℕ)) (s : System A Wire)
      → All (λ turn. turn.1 < n) turns
      → Turned turns s (after turns s)
  unfolding run_schedule
  run-Turned [] s h = still refl tt
  run-Turned ((now, i) ∷ turns) s (l, h) =
      let u = act tools decode r now i s in
      let rest : Turned turns u (after turns u) = run-Turned turns u h in
      elim (act-Moves tools decode r now i s) [
        | Moves.blocked e k ↦ after_blocked now i turns s u (after turns u) e k rest
        | Moves.progressed p e k ↦
            after_progressed now i turns s u (after turns u) (total-progressed s u i p l e k) rest
      ]

  Stuck-turn :
      (s : System A Wire) (i : ℕ) (turns : List (ℕ × ℕ))
      → HasTurn i turns
      → All (λ turn. Stuck tools decode r s turn.1) turns
      → Stuck tools decode r s i
  Stuck-turn s i [] h k = absurd h
  Stuck-turn s i ((now, j) ∷ turns) (inl e) (k, ks) = subst (Stuck tools decode r s) e k
  Stuck-turn s i ((now, j) ∷ turns) (inr h) (k, ks) = Stuck-turn s i turns h ks

  not_waiting : (s : System A Wire) (j : ℕ) → is_inside (s.pc j) ≡ true → ¬ Stuck tools decode r s j
  not_waiting s j h (inl e) = absurd (omega (arith, left-inside (s.pc j) h))
  not_waiting s j h (inr (busy, out)) = false_ne out h

  -- Where no thread of a round can move, all have their answers: there is no deadlock.
  no_deadlock :
      (s : System A Wire) (turns : List (ℕ × ℕ))
      → IsExclusive s
      → Untouched s
      → IsRound n turns
      → All (λ turn. Stuck tools decode r s turn.1) turns
      → (i : ℕ) → i < n
      → left (s.pc i) ≡ 0
  no_deadlock s turns x u f ks i l = elim (Stuck-turn s i turns (f.fair i l) ks) [
    | inl e ↦ e
    | inr (busy, out) ↦
        let (j, owns) = owner_of s.owner busy in
        let held = (x j).1 owns in
        elim (Bool-cases (ltb j n)) [
          | inl below ↦
              absurd (not_waiting s j held (Stuck-turn s j turns (f.fair j (ground arith)) ks))
          | inr above ↦ absurd (false_ne (u j (ground arith)) held)
        ]
  ]

  record IsFine (s : System A Wire) : Type 0 where
    exclusive : IsExclusive s
    untouched : Untouched s

  after-IsFine :
      (turns : List (ℕ × ℕ)) (s : System A Wire)
      → All (λ turn. turn.1 < n) turns
      → IsFine s
      → IsFine (after turns s)
  unfolding run_schedule
  after-IsFine [] s h f = f
  after-IsFine ((now, i) ∷ turns) s (l, h) f =
      after-IsFine turns (act tools decode r now i s) h (record {
        exclusive = act-IsExclusive tools decode r now i s f.exclusive;
        untouched = act-Untouched now i s l f.untouched;
      })

  -- A round makes progress, until all have their answers.
  round_less :
      (turns : List (ℕ × ℕ)) (s : System A Wire)
      → IsFine s
      → IsRound n turns
      → (total n (after turns s).pc < total n s.pc) ⊎ (total n (after turns s).pc ≡ 0)
  round_less turns s f h = elim (run-Turned turns s h.within) [
    | less l ↦ inl l
    | still e ks ↦ inr (
        ap (λ (t : System A Wire). total n t.pc) e
        ∙ total_zero n s.pc (no_deadlock s turns f.exclusive f.untouched h ks))
  ]

  abbrev pub run_rounds : List (List (ℕ × ℕ)) → System A Wire → System A Wire
  run_rounds [] s = s
  run_rounds (turns ∷ rounds) s = run_rounds rounds (after turns s)

  rounds_enough :
      (rounds : List (List (ℕ × ℕ))) (s : System A Wire)
      → IsFine s
      → All (IsRound n) rounds
      → total n s.pc ≤ rounds_length rounds
      → total n (run_rounds rounds s).pc ≡ 0
  rounds_enough [] s f h l = omega arith
  rounds_enough (turns ∷ rounds) s f (h, hs) l =
      let fewer : total n (after turns s).pc ≤ rounds_length rounds =
        elim (round_less turns s f h) [ inl k ↦ omega arith | inr k ↦ omega arith ] in
      rounds_enough rounds (after turns s) (after-IsFine turns s h.within f) hs fewer

  total-init :
      (m : ℕ) (fs : Files A) (calls : ℕ → Call Wire)
      → total m (init tools decode r fs calls).pc ≡ 9 * m
  unfolding total
  total-init zero fs calls = refl
  total-init (suc m) fs calls = omega (arith, total-init m fs calls)

  -- `n` requests, in rounds in which each thread takes a step or more and waits where the mutex is
  -- taken: nine rounds for each request are enough for all to have their answers. No order of the
  -- steps within the rounds, and no outcome of mkcert or of a rename, leaves a request waiting for
  -- ever.
  pub run_rounds-answers :
      (fs : Files A) (calls : ℕ → Call Wire) (rounds : List (List (ℕ × ℕ))) (i : ℕ)
      → All (IsRound n) rounds
      → 9 * n ≤ rounds_length rounds
      → i < n
      → (response : Response) × ((run_rounds rounds (init tools decode r fs calls)).pc i
          ≡ answered response)
  run_rounds-answers fs calls rounds i h enough l =
      let s = init tools decode r fs calls in
      let fine : IsFine s = record {
        exclusive = init-IsExclusive tools decode r fs calls;
        untouched = λ j m. refl;
      } in
      let zero_left = rounds_enough rounds s fine h (omega (arith, total-init n fs calls)) in
      answered_of_left ((run_rounds rounds s).pc i)
        (omega (arith, left-le-total n (run_rounds rounds s).pc i l))
