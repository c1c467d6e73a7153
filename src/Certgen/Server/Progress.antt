-- ===== src/Certgen/Server/Progress.antt =====
-- How far the requests are from their answers.
use dockerdynomesh.Prelude.{
  ℕ, zero, suc, ◌+◌, ◌≤◌, ◌<◌, ◌≡◌, ◌≢◌, refl, ap, Bool, true, false, List, Option, none, some,
  Bool-cases, eqb, eqb_iff, inl, inr, ◌⊎◌, arith,
}
use dockerdynomesh.Files.{Files}
use dockerdynomesh.Certgen.Reissue.{Reissuer, Tools}
use dockerdynomesh.Certgen.Api.{ReissueRequest}
use dockerdynomesh.Certgen.Server.{
  Call, Job, reissuing, reporting, Locked, entered, running, renaming_key, renaming_cert,
  removing_key, removing_cert, leaving, Pc, arrived, waiting, inside, answered, System, update,
  is_free, entry, renamed_key, renamed_cert, ran, begin, advance, moved, move, act,
}
use dockerdynomesh.Certgen.Server.Alone.{Entry, entry-Entry}
use dockerdynomesh.Certgen.Server.Exclusion.{is_inside, false_ne, update_self, update_ne}

-- The steps that a thread has left, at most.
abbrev pub locked_left : Locked → ℕ
locked_left (entered job) = 7
locked_left (running sans) = 6
locked_left (renaming_key sans) = 5
locked_left (renaming_cert sans) = 4
locked_left (removing_key sans result) = 3
locked_left (removing_cert sans result) = 2
locked_left (leaving response) = 1

abbrev pub left : {Wire : Type 0} → Pc Wire → ℕ
left (arrived c) = 9
left (waiting job) = 8
left (inside q) = locked_left q
left (answered response) = 0

-- Over the threads below `n`.
unfoldable pub total : {Wire : Type 0} → ℕ → (ℕ → Pc Wire) → ℕ
total zero pc = 0
total (suc n) pc = total n pc + left (pc n)

module _ {Wire : Type 0} where
  total-update_above :
      (n : ℕ) (pc : ℕ → Pc Wire) (i : ℕ) (p : Pc Wire)
      → n ≤ i
      → total n (update pc i p) ≡ total n pc
  unfolding total
  total-update_above zero pc i p h = refl
  total-update_above (suc n) pc i p h =
      let below : i ≢ n = λ e. absurd (omega (arith, e)) in
      omega (arith, total-update_above n pc i p (omega arith), ap left (update_ne pc i n p below))

  pub total-update :
      (n : ℕ) (pc : ℕ → Pc Wire) (i : ℕ) (p : Pc Wire)
      → i < n
      → total n (update pc i p) + left (pc i) ≡ total n pc + left p
  unfolding total
  total-update zero pc i p h = absurd (omega arith)
  total-update (suc n) pc i p h = elim (Bool-cases (eqb i n)) [
    | inl e ↦
        let same : i ≡ n = (eqb_iff i n).0 e in
        rw same
          (omega (arith, total-update_above n pc n p (omega arith), ap left (update_self pc n p)))
    | inr e ↦
        let other : i ≢ n = λ f. false_ne e ((eqb_iff i n).1 f) in
        omega (arith, total-update n pc i p (ground arith), ap left (update_ne pc i n p other))
  ]

  pub left-le-total : (n : ℕ) (pc : ℕ → Pc Wire) (i : ℕ) → i < n → left (pc i) ≤ total n pc
  unfolding total
  left-le-total zero pc i h = absurd (omega arith)
  left-le-total (suc n) pc i h = elim (Bool-cases (eqb i n)) [
    | inl e ↦ rw ((eqb_iff i n).0 e) (omega arith)
    | inr e ↦ omega (arith, left-le-total n pc i (ground arith))
  ]

  pub total_zero : (n : ℕ) (pc : ℕ → Pc Wire) → ((i : ℕ) → i < n → left (pc i) ≡ 0) → total n pc ≡ 0
  unfolding total
  total_zero zero pc h = refl
  total_zero (suc n) pc h =
      omega (arith, total_zero n pc (λ i l. h i (omega arith)), h n (omega arith))

module _ {A Wire : Type 0} (tools : Tools A) (decode : ℕ → Wire → Option ReissueRequest)
    (r : Reissuer) where
  left-Entry : (c : Call Wire) {p : Pc Wire} → Entry tools decode r c p → left p < 9
  left-Entry c (Entry.refused h) = omega arith
  left-Entry c (Entry.queued h) = omega arith

  left-begin :
      (now : ℕ) (job : Job) (fs : Files A) → locked_left (begin tools decode r now job fs) < 7
  left-begin now reporting fs = omega arith
  left-begin now (reissuing sans) fs = ground arith

  left-ran : (sans : List _) (o : Bool × Files A) → locked_left (ran tools decode r sans o).0 < 6
  left-ran sans (true, gs) = omega arith
  left-ran sans (false, gs) = omega arith

  left-renamed_key :
      (sans : List _) (fs : Files A) (o : Option (Files A))
      → locked_left (renamed_key tools decode r sans fs o).0 < 5
  left-renamed_key sans fs none = omega arith
  left-renamed_key sans fs (some gs) = omega arith

  left-renamed_cert :
      (sans : List _) (fs : Files A) (o : Option (Files A))
      → locked_left (renamed_cert tools decode r sans fs o).0 < 4
  left-renamed_cert sans fs none = omega arith
  left-renamed_cert sans fs (some gs) = omega arith

  abbrev IsLeaving : Locked → Type 0
  IsLeaving (leaving response) = Unit
  IsLeaving _ = ⊥

  left-advance :
      (now : ℕ) (q : Locked) (fs : Files A)
      → ¬ IsLeaving q
      → locked_left (advance tools decode r now q fs).0 < locked_left q
  unfolding advance
  left-advance now (entered job) fs n = left-begin now job fs
  left-advance now (running sans) fs n = left-ran sans _
  left-advance now (renaming_key sans) fs n = left-renamed_key sans fs _
  left-advance now (renaming_cert sans) fs n = left-renamed_cert sans fs _
  left-advance now (removing_key sans result) fs n = omega arith
  left-advance now (removing_cert sans result) fs n = omega arith
  left-advance now (leaving response) fs n = absurd (n tt)

  -- A thread cannot move: it has its answer, or it waits for the mutex.
  abbrev pub Stuck : System A Wire → ℕ → Type 0
  Stuck s i = (left (s.pc i) ≡ 0) ⊎ ((is_free s.owner ≡ false) × (is_inside (s.pc i) ≡ false))

  pub data Moves (i : ℕ) (s t : System A Wire) : Type 0 where
    blocked : t ≡ s → Stuck s i → Moves i s t
    progressed : (p : Pc Wire) → t.pc ≡ update s.pc i p → left p < left (s.pc i) → Moves i s t

  advance-Moves :
      (now i : ℕ) (s : System A Wire) (q : Locked)
      → s.pc i ≡ inside q
      → ¬ IsLeaving q
      → Moves i s (moved tools decode r i s (advance tools decode r now q s.files))
  advance-Moves now i s q e n =
      progressed (inside (advance tools decode r now q s.files).0) refl
        (rw e (left-advance now q s.files n))

  move-Moves :
      (now i : ℕ) (s : System A Wire) (p : Pc Wire)
      → s.pc i ≡ p
      → Moves i s (move tools decode r now i s p)
  move-Moves now i s (arrived c) e =
      progressed (entry tools decode r c) refl (rw e (left-Entry c (entry-Entry tools decode r c)))
  move-Moves now i s (waiting job) e = elim (Bool-cases (is_free s.owner)) [
    | inl f ↦ rw f (progressed (inside (entered job)) refl (rw e (omega arith)))
    | inr f ↦ rw f (blocked refl (inr (f, ap is_inside e)))
  ]
  move-Moves now i s (inside (entered job)) e = advance-Moves now i s (entered job) e (λ h. h)
  move-Moves now i s (inside (running sans)) e = advance-Moves now i s (running sans) e (λ h. h)
  move-Moves now i s (inside (renaming_key sans)) e =
      advance-Moves now i s (renaming_key sans) e (λ h. h)
  move-Moves now i s (inside (renaming_cert sans)) e =
      advance-Moves now i s (renaming_cert sans) e (λ h. h)
  move-Moves now i s (inside (removing_key sans result)) e =
      advance-Moves now i s (removing_key sans result) e (λ h. h)
  move-Moves now i s (inside (removing_cert sans result)) e =
      advance-Moves now i s (removing_cert sans result) e (λ h. h)
  move-Moves now i s (inside (leaving response)) e =
      progressed (answered response) refl (rw e (omega arith))
  move-Moves now i s (answered response) e = blocked refl (inl (ap left e))

  pub act-Moves : (now i : ℕ) (s : System A Wire) → Moves i s (act tools decode r now i s)
  unfolding act
  act-Moves now i s = move-Moves now i s (s.pc i) refl
