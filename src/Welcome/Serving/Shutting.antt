-- ===== src/Welcome/Serving/Shutting.antt =====
-- One turn of the loop that shuts the servers down.
use dockerdynomesh.Prelude.{
  ℕ, zero, suc, ◌+◌, ◌<◌, ◌≡◌, refl, ap, true, false, List, [], ◌∷◌, map, length, arith,
}
use dockerdynomesh.Welcome.Serving.{Shut, untouched, shutting, shut_down, HttpServer, shut_at}
use dockerdynomesh.Welcome.Serving.Tally.{tally}
use dockerdynomesh.Welcome.Serving.Counted.{runs, closes, is_touched, Launched}

closes_of_untouched :
    (v : Shut)
    → elim v [ untouched ↦ false | shutting ↦ true | shut_down ↦ true ] ≡ false
    → ◌≡◌ {A = ℕ} (elim v [ untouched ↦ 0 | shutting ↦ 1 | shut_down ↦ 0 ]) 0
closes_of_untouched untouched h = refl
closes_of_untouched shutting h = cc
closes_of_untouched shut_down h = cc

pub shut_at-length : (k : ℕ) (ss : List HttpServer) → length (shut_at k ss) ≡ length ss
unfolding shut_at
shut_at-length k [] = refl
shut_at-length zero (s ∷ ss) = refl
shut_at-length (suc k) (s ∷ ss) = ap suc (shut_at-length k ss)

pub shut_at-addresses :
    (k : ℕ) (ss : List HttpServer)
    → map HttpServer.address (shut_at k ss) ≡ map HttpServer.address ss
unfolding shut_at
shut_at-addresses k [] = refl
shut_at-addresses zero (s ∷ ss) = refl
shut_at-addresses (suc k) (s ∷ ss) = ap (λ rest. s.address ∷ rest) (shut_at-addresses k ss)

pub shut_at-runs : (k : ℕ) (ss : List HttpServer) → tally runs (shut_at k ss) ≡ tally runs ss
unfolding shut_at tally
shut_at-runs k [] = refl
shut_at-runs zero (s ∷ ss) = refl
shut_at-runs (suc k) (s ∷ ss) = ap (λ n. runs s + n) (shut_at-runs k ss)

-- The server is untouched until then.
pub shut_at-closes :
    (k : ℕ) (ss : List HttpServer)
    → k < length ss
    → Launched k (map is_touched ss)
    → tally closes (shut_at k ss) ≡ suc (tally closes ss)
unfolding shut_at tally
shut_at-closes k [] h l = absurd (omega arith)
shut_at-closes zero (s ∷ ss) h (e, l) = omega (arith, closes_of_untouched s.shut e)
shut_at-closes (suc k) (s ∷ ss) h (e, l) = omega (arith, shut_at-closes k ss (omega arith) l)

pub shut_at-Launched :
    (k : ℕ) (ss : List HttpServer)
    → k < length ss
    → Launched k (map is_touched ss)
    → Launched (suc k) (map is_touched (shut_at k ss))
unfolding shut_at
shut_at-Launched k [] h l = absurd (omega arith)
shut_at-Launched zero (s ∷ ss) h (e, l) = (refl, l)
shut_at-Launched (suc k) (s ∷ ss) h (e, l) = (e, shut_at-Launched k ss (omega arith) l)
