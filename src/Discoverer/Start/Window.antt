-- ===== src/Discoverer/Start/Window.antt =====
-- The debounce window in machine arithmetic.
use dockerdynomesh.Prelude.{ℕ, ◌*◌, ◌%◌, ◌^◌, ◌≤◌, ◌≡◌, ◌↔◌, true, Bool-cases, inl, inr, ltb, arith}
use dockerdynomesh.Prelude.Int.{pos, negsuc}
use dockerdynomesh.Discoverer.Start.{signed, duration_of_ms}

pos_inj : {m n : ℕ} → pos m ≡ pos n → m ≡ n
pos_inj e = cc

negsuc-pos : {m n : ℕ} → ¬ (negsuc m ≡ pos n)
negsuc-pos e = cc

signed-pos : (w n : ℕ) → signed w ≡ pos n → (w ≡ n) × (ltb w (2 ^ 63) ≡ true)
signed-pos w n e = elim (Bool-cases (ltb w (2 ^ 63))) [
  | inl less ↦ (pos_inj (rw less at e), less)
  | inr more ↦ absurd (negsuc-pos (rw more at e))
]

within :
    (n : ℕ)
    → (n * 1_000_000) % 2 ^ 64 ≡ n * 1_000_000
    → ltb ((n * 1_000_000) % 2 ^ 64) (2 ^ 63) ≡ true
    → n ≤ 9_223_372_036_854
within n e less = ground arith

-- For a number of milliseconds that an `int` can hold, the product is the number of nanoseconds exactly
-- up to 9,223,372,036,854 ms; beyond that it wraps around.
pub duration_of_ms-exact :
    (n : ℕ) → (duration_of_ms (pos n) ≡ pos (n * 1_000_000)) ↔ (n ≤ 9_223_372_036_854)
unfolding duration_of_ms
duration_of_ms-exact n =
    ((λ h. let (same, less) = signed-pos _ _ h in within n same less), λ h. ground arith)
