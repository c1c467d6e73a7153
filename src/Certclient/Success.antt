-- ===== src/Certclient/Success.antt =====
-- What a call that succeeds, or that fails, has done to the files.
use dockerdynomesh.Prelude.{
  ◌≢◌, ℕ, ◌≡◌, refl, sym, ap, subst, ◌∙◌, Bool, true, false, Option, none, some, inl, inr, ◌⊎◌,
}
use dockerdynomesh.Text.{Text, codes}
use dockerdynomesh.Files.{Files}
use dockerdynomesh.Certgen.Reissue.{
  Reissuer, Tools, ReissueError, Reissued, reissued, failed, reissue,
}
use dockerdynomesh.Certgen.Api.{
  ReissueRequest, ReissueResponse, Payload, Response, reissue_json, answer, requested_sans,
  handle_reissue, max_body,
}
use dockerdynomesh.Certgen.Api.Validation.{IsValid, handle_reissue_cases, Accepted, Refused}
use dockerdynomesh.Certclient.{
  Link, answering, unreachable, losing, new_client, interpret, send, client_reissue, succeeded,
}
use dockerdynomesh.Certclient.Service.{call, exchange-handle_reissue, to_service, succeeded-refused}

-- What encoding/json promises: a request that is decoded is the one that was encoded, and a response
-- is read back.
pub record IsFaithful {Wire : Type 0} (encode : ReissueRequest → Option Wire)
    (decode : ℕ → Wire → Option ReissueRequest) (decode_response : Payload → Option ReissueResponse)
    : Type 0 where
  pub request :
      (sent read : ReissueRequest) (body : Wire)
      → encode sent ≡ some body
      → decode max_body body ≡ some read
      → read ≡ sent
  pub response : (r : ReissueResponse) → decode_response (reissue_json r) ≡ some r

module _ {A Wire : Type 0} (tools : Tools A) (decode : ℕ → Wire → Option ReissueRequest)
    (r : Reissuer) (now : ℕ) (encode : ReissueRequest → Option Wire)
    (decode_response : Payload → Option ReissueResponse) where
  -- A call that succeeded was for a valid request, and its effect is that of a reissue that did not
  -- fail.
  pub record Worked (request : ReissueRequest) (fs gs : Files A) : Type 0 where
    pub valid : IsValid request
    pub wrote : Bool
    pub result : (reissue tools now r (requested_sans request) fs).0 ≡ reissued wrote
    pub files : gs ≡ (reissue tools now r (requested_sans request) fs).1

  -- A call that failed although no answer was lost has changed nothing, or was a reissue that failed.
  pub data Failed (request : ReissueRequest) (fs : Files A) : Files A → Type 0 where
    untouched : Failed request fs fs
    reissue_failed :
        (e : ReissueError)
        → (reissue tools now r (requested_sans request) fs).0 ≡ failed e
        → Failed request fs (reissue tools now r (requested_sans request) fs).1

  abbrev Outcome : ReissueRequest → Files A → Bool → Files A → Type 0
  Outcome request fs true gs = Worked request fs gs
  Outcome request fs false gs = Failed request fs gs

  -- A failed call says nothing of the files where its answer was lost.
  abbrev Over : Link → ReissueRequest → Files A → Bool → Files A → Type 0
  Over losing request fs false gs = Unit
  Over link request fs works gs = Outcome request fs works gs

  module _ (socket : Text) (faithful : IsFaithful encode decode decode_response) where
    Outcome-of_answer :
        (request : ReissueRequest) (fs : Files A) (result : Reissued)
        → IsValid request
        → (reissue tools now r (requested_sans request) fs).0 ≡ result
        → Outcome request fs
            (succeeded (interpret decode_response (answer (requested_sans request) result)))
            (reissue tools now r (requested_sans request) fs).1
    unfolding interpret
    Outcome-of_answer request fs (failed e) v h = Failed.reissue_failed e h
    Outcome-of_answer request fs (reissued false) v h = record {
      valid = v;
      wrote = false;
      result = h;
      files = refl;
    }
    Outcome-of_answer request fs (reissued true) v h =
        rw faithful.response (record { valid = v; wrote = true; result = h; files = refl })

    abbrev answered : Files A → ReissueRequest → Response × Files A
    answered fs q =
        let (result, gs) = reissue tools now r (requested_sans q) fs in
        (answer (requested_sans q) result, gs)

    Outcome-of_response :
        (request : ReissueRequest) (body : Wire) (fs : Files A)
        → encode request ≡ some body
        → (resp : Response × Files A)
        → Refused tools decode r resp fs ⊎ Accepted tools decode r now (codes "POST") body fs resp
        → Outcome request fs (succeeded (interpret decode_response resp.0)) resp.1
    Outcome-of_response request body fs e (resp, gs) (inl refused) =
        rw (succeeded-refused tools decode r now encode decode_response resp refused.1, refused.0)
          Failed.untouched
    Outcome-of_response request body fs e (resp, gs) (inr accepted) =
        let same = faithful.request request accepted.request body e accepted.read in
        let names = requested_sans request in
        let read : Outcome request fs
            (succeeded (interpret decode_response (answer names (reissue tools now r names fs).0)))
            (reissue tools now r names fs).1 =
          Outcome-of_answer request fs _ (subst IsValid same accepted.valid) refl in
        subst (λ x. Outcome request fs (succeeded (interpret decode_response x.0)) x.1)
          (sym (accepted.answer_lem ∙ ap (answered fs) same)) read

    Outcome-of_send :
        (link : Link) (request : ReissueRequest) (fs : Files A) (o : Option Wire)
        → encode request ≡ o
        → let e =
            send
              (to_service tools decode r now link socket encode decode_response)
              (new_client socket)
              o
              fs in
          Over link request fs (succeeded e.0) e.1
    Outcome-of_send answering request fs none e = Failed.untouched
    Outcome-of_send unreachable request fs none e = Failed.untouched
    Outcome-of_send losing request fs none e = tt
    Outcome-of_send unreachable request fs (some body) e = Failed.untouched
    Outcome-of_send losing request fs (some body) e = tt
    Outcome-of_send answering request fs (some body) e =
        rw (exchange-handle_reissue tools decode r now encode decode_response socket body fs) (
          Outcome-of_response request body fs e
            (handle_reissue tools decode r now (codes "POST") body fs)
            (handle_reissue_cases tools decode r now (codes "POST") body fs))

    call-Outcome :
        (link : Link) (request : ReissueRequest) (fs : Files A)
        → let e = call tools decode r now encode decode_response link socket request fs in
          Over link request fs (succeeded e.0) e.1
    unfolding client_reissue
    call-Outcome link request fs = Outcome-of_send link request fs (encode request) refl

    pub call-Worked :
        (link : Link) (request : ReissueRequest) (fs : Files A)
        → succeeded (call tools decode r now encode decode_response link socket request fs).0 ≡ true
        → Worked request fs
            (call tools decode r now encode decode_response link socket request fs).1
    call-Worked answering request fs h = rw h at (call-Outcome answering request fs)
    call-Worked unreachable request fs h = rw h at (call-Outcome unreachable request fs)
    call-Worked losing request fs h = rw h at (call-Outcome losing request fs)

    pub call-Failed :
        (link : Link) (request : ReissueRequest) (fs : Files A)
        → link ≢ losing
        → succeeded (call tools decode r now encode decode_response link socket request fs).0
          ≡ false
        → Failed request fs
            (call tools decode r now encode decode_response link socket request fs).1
    call-Failed answering request fs n h = rw h at (call-Outcome answering request fs)
    call-Failed unreachable request fs n h = rw h at (call-Outcome unreachable request fs)
    call-Failed losing request fs n h = absurd (n refl)
