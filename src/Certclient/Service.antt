-- ===== src/Certclient/Service.antt =====
-- The client against the service: what a reissue request does end to end.
use dockerdynomesh.Prelude.{
  ℕ, ◌≡◌, refl, sym, ap, subst, ◌∙◌, true, false, List, [], ◌++◌, Option, none, some, ◌&&◌,
  if◌then◌else◌, inl, inr, ◌⊎◌,
}
use mathlib.Core.Option.{some-injective}
use dockerdynomesh.Prelude.Result.{ok, err}
use dockerdynomesh.Text.{Text, codes, ◌==◌}
use dockerdynomesh.Text.Order.{==_refl}
use dockerdynomesh.Files.{Files}
use dockerdynomesh.Certgen.Reissue.{Reissuer, Tools, Reissued, reissued, failed, reissue}
use dockerdynomesh.Certgen.Api.{
  ReissueRequest, ReissueResponse, Payload, Response, reissue_json, answer, requested_sans,
  handle_reissue, serve, max_body,
}
use dockerdynomesh.Certgen.Api.Validation.{IsValid, validate_iff, handle_reissue_cases}
use dockerdynomesh.Certclient.{
  Link, answering, carried, new_client, HttpRequest, reissue_post, returned, Connection, Reply,
  interpret, client_reissue, succeeded,
}

-- The client's reading of the service's answer to a reissue.
abbrev pub reply_of : List Text → Reissued → Reply
reply_of names (failed e) = err (returned 500)
reply_of names (reissued false) = ok (false, [])
reply_of names (reissued true) = ok (true, names)

interpret-answer :
    (decode_response : Payload → Option ReissueResponse)
    → ((r : ReissueResponse) → decode_response (reissue_json r) ≡ some r)
    → (names : List Text) (result : Reissued)
    → interpret decode_response (answer names result) ≡ reply_of names result
unfolding interpret
interpret-answer d law names (failed e) = refl
interpret-answer d law names (reissued false) = refl
interpret-answer d law names (reissued true) = rw law

module _ {A Wire : Type 0} (tools : Tools A) (decode : ℕ → Wire → Option ReissueRequest)
    (r : Reissuer) (now : ℕ) where
  abbrev pub arrives : Response × Files A → Option Response × Files A
  arrives (resp, gs) = (some resp, gs)

  -- What a request finds where it is dialled: the routes of the service at its socket, and nobody
  -- elsewhere.
  abbrev pub dialled : Text → HttpRequest Wire → Files A → Text × Text → Option Response × Files A
  dialled socket request fs (network, address) =
      if network == codes "unix" && address == socket
      then arrives (serve tools decode r now request.path request.method request.body fs)
      else (none, fs)

  -- The connection over the link to the service that listens at the socket.
  abbrev pub to_service :
      Link
      → Text
      → (ReissueRequest → Option Wire)
      → (Payload → Option ReissueResponse)
      → Connection (Files A) Wire
  to_service link socket encode decode_response = record {
    encode = encode;
    decode_response = decode_response;
    exchange = λ http request fs.
        carried link fs
          (dialled socket request fs (http.dial (codes "tcp") (request.host ++ codes ":80")));
  }

  module _ (encode : ReissueRequest → Option Wire)
      (decode_response : Payload → Option ReissueResponse) where
    -- What encoding/json promises of a request that fits, and of a response.
    pub record IsCodec (request : ReissueRequest) (body : Wire) : Type 0 where
      pub encoded : encode request ≡ some body
      pub decoded : decode max_body body ≡ some request
      pub response : (resp : ReissueResponse) → decode_response (reissue_json resp) ≡ some resp

    abbrev pub call : Link → Text → ReissueRequest → Files A → Reply × Files A
    call link socket =
        client_reissue (to_service link socket encode decode_response) (new_client socket)

    -- The client dials the socket that it is made with, and, where it is answered, asks for the route of the handler.
    pub exchange-handle_reissue :
        (socket : Text) (body : Wire) (fs : Files A)
        → let resp = handle_reissue tools decode r now (codes "POST") body fs in
          (to_service answering socket encode decode_response).exchange
            (new_client socket).http
            (reissue_post body)
            fs
          ≡ (some resp.0, resp.1)
    unfolding new_client serve ◌==◌
    exchange-handle_reissue socket body fs = rw (==_refl socket) refl

    handle_valid :
        (request : ReissueRequest) (body : Wire) (fs : Files A)
        → decode max_body body ≡ some request
        → IsValid request
        → handle_reissue tools decode r now (codes "POST") body fs ≡ (
          answer (requested_sans request) (reissue tools now r (requested_sans request) fs).0,
          (reissue tools now r (requested_sans request) fs).1,
        )
    unfolding handle_reissue ◌==◌
    handle_valid request body fs d v = rw (d, (validate_iff request).1 v)

    -- Where the exchange is answered and the codecs read what they wrote, a call with a valid request has the effect of the
    -- reissue of its names, and the client reads its outcome: no names where nothing was done,
    -- the names where a certificate was written, status 500 where the reissue failed.
    pub call_valid :
        (socket : Text) (request : ReissueRequest) (body : Wire) (fs : Files A)
        → IsCodec request body
        → IsValid request
        → call answering socket request fs ≡ (
          reply_of (requested_sans request) (reissue tools now r (requested_sans request) fs).0,
          (reissue tools now r (requested_sans request) fs).1,
        )
    unfolding client_reissue
    call_valid socket request body fs c v =
        let names = requested_sans request in
        let (result, gs) = reissue tools now r names fs in
        rw
          (
            c.encoded,
            exchange-handle_reissue socket body fs,
            handle_valid request body fs c.decoded v,
          )
          (ap (λ reply. (reply, gs)) (interpret-answer decode_response c.response names result))

    pub succeeded-refused :
        (resp : Response)
        → (resp.status ≡ 400) ⊎ (resp.status ≡ 405)
        → succeeded (interpret decode_response resp) ≡ false
    unfolding interpret
    succeeded-refused resp (inl e) = rw e
    succeeded-refused resp (inr e) = rw e

    -- Where the exchange is answered and the codecs read what they wrote, a call with a request that is not valid is an error
    -- for the client, and changes no file.
    pub call_invalid :
        (socket : Text) (request : ReissueRequest) (body : Wire) (fs : Files A)
        → IsCodec request body
        → ¬ IsValid request
        → (succeeded (call answering socket request fs).0 ≡ false)
          × ((call answering socket request fs).1 ≡ fs)
    unfolding client_reissue
    call_invalid socket request body fs c n =
        rw (c.encoded, exchange-handle_reissue socket body fs)
          (elim (handle_reissue_cases tools decode r now (codes "POST") body fs) [
            | inl refused ↦ (succeeded-refused _ refused.1, refused.0)
            | inr accepted ↦ absurd (
                n (
                  subst IsValid (some-injective _ _ (sym accepted.read ∙ c.decoded))
                    accepted.valid))
          ])
