-- ===== src/Examples/Threads.antt =====
-- The certificate service with two requests at once.
use dockerdynomesh.Prelude.{
  ℕ, zero, suc, ◌<◌, ◌≡◌, refl, List, [], ◌∷◌, none, All, inl, inr, eqb, if◌then◌else◌, arith,
}
use dockerdynomesh.Text.{Text, codes}
use dockerdynomesh.Files.{Files}
use dockerdynomesh.Certgen.Reissue.{CertInfo}
use dockerdynomesh.Certgen.Api.{ReissueRequest, Response}
use dockerdynomesh.Certgen.Server.{Call, answered, run_schedule, init}
use dockerdynomesh.Certgen.Server.Serial.{Serial, settled}
use dockerdynomesh.Certgen.Server.Refinement.{run-Serial}
use dockerdynomesh.Certgen.Server.Rounds.{HasTurn, IsRound, run_rounds, run_rounds-answers}
use dockerdynomesh.Examples.Data.{reissuer, tools, request, decode}

abbrev no_files : Files CertInfo
no_files path = none

-- No rename is refused.
abbrev works : Text
works = []

-- A reissue, and a second thread that asks for the status.
abbrev reissue_call : Call ReissueRequest
reissue_call = record { path = codes "/reissue"; method = codes "POST"; body = request }

abbrev status_call : Call ReissueRequest
status_call = record { path = codes "/status"; method = codes "GET"; body = request }

abbrev calls : ℕ → Call ReissueRequest
calls i = if eqb i 0 then reissue_call else status_call

-- The second thread waits while the first one is under the mutex.
abbrev schedule : List (ℕ × ℕ)
schedule = (0, 0) ∷ (0, 0) ∷ (0, 1) ∷ (0, 1) ∷ (0, 0) ∷ (0, 0) ∷ (0, 1) ∷ (0, 0) ∷ []

run-Serial_example : Serial (tools works) decode reissuer no_files calls (
    settled (tools works) decode reissuer (
      run_schedule
        (tools works)
        decode
        reissuer
        schedule
        (init (tools works) decode reissuer no_files calls)))
run-Serial_example = run-Serial (tools works) decode reissuer calls no_files schedule

abbrev both : List (ℕ × ℕ)
both = (0, 0) ∷ (0, 1) ∷ []

abbrev repeated : ℕ → List (List (ℕ × ℕ))
repeated zero = []
repeated (suc k) = both ∷ repeated k

has_turn : (i : ℕ) → i < 2 → HasTurn i both
has_turn zero l = inl refl
has_turn (suc zero) l = inr (inl refl)
has_turn (suc (suc i)) l = absurd (omega arith)

both-IsRound : IsRound 2 both
both-IsRound = record { within = (omega arith, (omega arith, tt)); fair = has_turn }

repeated-IsRound : (k : ℕ) → All (IsRound 2) (repeated k)
repeated-IsRound zero = tt
repeated-IsRound (suc k) = (both-IsRound, repeated-IsRound k)

run_rounds-answers_example :
    (response : Response) × ((run_rounds
          (tools works)
          decode
          reissuer
          2
          (repeated 18)
          (init (tools works) decode reissuer no_files calls)).pc
        1
      ≡ answered response)
run_rounds-answers_example =
    run_rounds-answers (tools works) decode reissuer 2 no_files calls (repeated 18) 1
      (repeated-IsRound 18) (omega arith) (omega arith)
