-- ===== src/Certclient.antt =====
-- internal/certclient/client.go: the HTTP client of the certificate service. Encoding, decoding and
-- the exchange of package net/http are parameters.
pub mod Service
pub mod Success
use dockerdynomesh.Prelude.{
  ℕ, ◌*◌, Bool, true, false, List, [], Option, none, some, eqb, if◌then◌else◌,
}
use dockerdynomesh.Prelude.Result.{Result, ok, err}
use dockerdynomesh.Text.{Text, codes}
use dockerdynomesh.Certgen.Api.{ReissueRequest, ReissueResponse, Payload, Response}

-- The errors of `Client.Reissue`.
pub data ClientError : Type 0 where
  not_encoded not_sent not_decoded : ClientError
  returned : ℕ → ClientError

-- `http.Client`: the timeout in nanoseconds, and the network and address that its transport dials for
-- those of a request.
pub record HttpClient : Type 0 where
  pub timeout : ℕ
  pub dial : Text → Text → Text × Text

pub record Client : Type 0 where
  pub http : HttpClient
  pub socket_path : Text

-- time.Second
abbrev second : ℕ
second = 1000000000

-- `New`
unfoldable pub new_client : Text → Client
new_client socket_path = record {
  socket_path = socket_path;
  http = record { timeout = 60 * second; dial = λ _ _. (codes "unix", socket_path) };
}

-- `http.Request`, with its URL in parts.
pub record HttpRequest (Wire : Type 0) : Type 0 where
  pub method : Text
  pub host : Text
  pub path : Text
  pub content_type : Text
  pub body : Wire

-- A POST to http://unix/reissue
abbrev pub reissue_post : {Wire : Type 0} → Wire → HttpRequest Wire
reissue_post body = record {
  method = codes "POST";
  host = codes "unix";
  path = codes "/reissue";
  content_type = codes "application/json";
  body = body;
}

-- What the client calls: json.Marshal, json.Decoder and `http.Client.Do`.
pub record Connection (W Wire : Type 0) : Type 0 where
  pub encode : ReissueRequest → Option Wire
  pub decode_response : Payload → Option ReissueResponse
  pub exchange : HttpClient → HttpRequest Wire → W → Option Response × W

abbrev pub Reply : Type 0
Reply = Result ClientError (Bool × List Text)

abbrev pub read_response : Option ReissueResponse → Reply
read_response none = err not_decoded
read_response (some r) = ok (r.reissued, r.sans)

-- The switch on the status.
unfoldable pub interpret : (Payload → Option ReissueResponse) → Response → Reply
interpret decode_response resp =
    if eqb resp.status 204
    then ok (false, [])
    else if eqb resp.status 200
    then read_response (decode_response resp.payload)
    else err (returned resp.status)

module _ {W Wire : Type 0} (connection : Connection W Wire) (client : Client) where
  abbrev pub received : Option Response × W → Reply × W
  received (none, w) = (err not_sent, w)
  received (some resp, w) = (interpret connection.decode_response resp, w)

  abbrev pub send : Option Wire → W → Reply × W
  send none w = (err not_encoded, w)
  send (some body) w = received (connection.exchange client.http (reissue_post body) w)

  -- `Client.Reissue`
  unfoldable pub client_reissue : ReissueRequest → W → Reply × W
  client_reissue request w = send (connection.encode request) w

-- What becomes of an exchange: it is answered, or the socket cannot be reached, or the answer is lost
-- behind it, as by the timeout of the client.
pub data Link : Type 0 where
  answering unreachable losing : Link

-- An exchange over the link; `w` is the state before it.
abbrev pub carried : {W : Type 0} → Link → W → Option Response × W → Option Response × W
carried answering w e = e
carried unreachable w e = (none, w)
carried losing w e = (none, e.1)

-- The error of a reply is what the reconciler looks at.
abbrev pub succeeded : Reply → Bool
succeeded (ok _) = true
succeeded (err _) = false
