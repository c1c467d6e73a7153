-- ===== src/Discoverer/Boot.antt =====
-- `bootReconcile` of cmd/discoverer/reconcile.go: the bounded retry of the first reconcile. `attempt`
-- is the reconcile, `is_cancelled` what the select finds behind the wait.
use dockerdynomesh.Prelude.{
  ℕ, zero, suc, ◌+◌, ◌<◌, ◌≡◌, ◌∙◌, refl, sym, Bool, true, false, Bool-cases, inl, inr, eqb,
  if◌then◌else◌, arith, subst,
}
use dockerdynomesh.Prelude.Int.{ℤ, pos, negsuc}

-- Why the loop returned.
pub data Stop : Type 0 where
  succeeded exhausted cancelled : Stop

-- r.bootMaxAttempts, where a value that is not positive stands for the default
abbrev pub attempts_of : ℤ → ℕ
attempts_of (pos n) = if eqb n 0 then 10 else n
attempts_of (negsuc n) = 10

module _ {W : Type 0} (attempt : W → Bool × W) (is_cancelled : W → Bool) where
  -- The loop with the attempts that are left, and the number made so far.
  boot_loop : ℕ → ℕ → W → Stop × ℕ × W
  boot_loop zero made w = (exhausted, made, w)
  boot_loop (suc left) made w =
      let again = boot_loop left (suc made) (attempt w).1 in
      if (attempt w).0
      then (succeeded, suc made, (attempt w).1)
      else if eqb left 0
      then (exhausted, suc made, (attempt w).1)
      else if is_cancelled (attempt w).1
      then (cancelled, suc made, (attempt w).1)
      else again

  -- `bootReconcile`, with the number of attempts that it made
  unfoldable pub boot_reconcile : ℤ → W → Stop × ℕ × W
  unfolding boot_loop
  boot_reconcile max_attempts w = boot_loop (attempts_of max_attempts) 0 w

  -- The state behind a number of attempts.
  unfoldable pub after : ℕ → W → W
  after zero w = w
  after (suc n) w = after n (attempt w).1

  abbrev pub Fails : ℕ → W → Type 0
  Fails k w = (attempt (after k w)).0 ≡ false

  -- The ends of the loop, by their reason and the number of attempts.
  pub data Ending (max : ℕ) (w : W) : Stop → ℕ → Type 0 where
    worked :
        (k : ℕ)
        → k < max
        → ((i : ℕ) → i < k → Fails i w)
        → (attempt (after k w)).0 ≡ true
        → Ending max w succeeded (suc k)
    spent : ((i : ℕ) → i < max → Fails i w) → Ending max w exhausted max
    given_up :
        (n : ℕ)
        → 0 < n
        → n < max
        → ((i : ℕ) → i < n → Fails i w)
        → is_cancelled (after n w) ≡ true
        → Ending max w cancelled n

  abbrev Ended : ℕ → ℕ → W → Stop × ℕ × W → Type 0
  Ended max made w (stop, total, last) =
      (n : ℕ) × (total ≡ made + n) × (last ≡ after n w) × Ending max w stop n

  Fails-suc :
      (n : ℕ) (w : W)
      → (attempt w).0 ≡ false
      → ((i : ℕ) → i < n → Fails i (attempt w).1)
      → (i : ℕ) → i < suc n
      → Fails i w
  unfolding after
  Fails-suc n w h k zero l = h
  Fails-suc n w h k (suc i) l = k i (omega arith)

  Ending-suc :
      {max : ℕ} {w : W} {stop : Stop} {n : ℕ}
      → (attempt w).0 ≡ false
      → Ending max (attempt w).1 stop n
      → Ending (suc max) w stop (suc n)
  unfolding after
  Ending-suc {w = w} h (Ending.worked k l f e) =
      Ending.worked (suc k) (omega arith) (Fails-suc k w h f) e
  Ending-suc {max = max} {w = w} h (Ending.spent f) = Ending.spent (Fails-suc max w h f)
  Ending-suc {w = w} h (Ending.given_up n p l f e) =
      Ending.given_up (suc n) (omega arith) (omega arith) (Fails-suc n w h f) e

  only_first : (w : W) → (attempt w).0 ≡ false → (i : ℕ) → i < 1 → Fails i w
  unfolding after
  only_first w h zero l = h
  only_first w h (suc i) l = absurd (omega arith)

  later :
      (left made : ℕ) (w : W) (r : Stop × ℕ × W)
      → (attempt w).0 ≡ false
      → Ended left (suc made) (attempt w).1 r
      → Ended (suc left) made w r
  unfolding after
  later left made w r h (n, e, l, d) = (suc n, omega arith, l, Ending-suc h d)

  boot_loop-Ended : (left made : ℕ) (w : W) → Ended left made w (boot_loop left made w)
  unfolding boot_loop after
  boot_loop-Ended zero made w = (0, omega arith, refl, Ending.spent (λ i l. absurd (omega arith)))
  boot_loop-Ended (suc left) made w =
      let rest = boot_loop-Ended left (suc made) (attempt w).1 in
      elim (Bool-cases (attempt w).0) [
        | inl e ↦
            rw e
              (1, omega arith, refl, Ending.worked 0 (omega arith) (λ i l. absurd (omega arith)) e)
        | inr e ↦ elim (Bool-cases (eqb left 0)) [
          | inl f ↦
              let one : left ≡ 0 = ground arith in
              rw (e, f)
                (
                  1,
                  omega arith,
                  refl,
                  subst (λ m. Ending (suc m) w exhausted 1) (sym one)
                      (Ending.spent (only_first w e)),
                )
          | inr f ↦ elim (Bool-cases (is_cancelled (attempt w).1)) [
            | inl g ↦
                let more : 1 < suc left = ground arith in
                rw (e, f, g)
                  (1, omega arith, refl, Ending.given_up 1 (omega arith) more (only_first w e) g)
            | inr g ↦ rw (e, f, g) (later left made w _ e rest)
          ]
        ]
      ]

  -- The loop ends in one of three ways: at the first attempt that works; after the full number of
  -- attempts, all of which failed; or before that, cancelled behind failed attempts alone, at least
  -- one. It reports how many it made, and the state is the one behind them.
  pub boot_reconcile-Ending :
      (max_attempts : ℤ) (w : W)
      → let r = boot_reconcile max_attempts w in
        (r.2 ≡ after r.1 w) × Ending (attempts_of max_attempts) w r.0 r.1
  unfolding boot_reconcile
  boot_reconcile-Ending max_attempts w =
      let (n, e, l, d) = boot_loop-Ended (attempts_of max_attempts) 0 w in
      let total : (boot_loop (attempts_of max_attempts) 0 w).1 ≡ n = e ∙ omega arith in
      rw total (l, d)
