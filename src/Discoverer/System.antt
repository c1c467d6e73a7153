-- ===== src/Discoverer/System.antt =====
-- The parts together: the reconciler with the certificate service behind its client, `Render` and
-- `atomicWrite`. Docker's answers, the faults of the disk and the time are part of the world, and may
-- change between reconciles.
pub mod Deployed
pub mod Unrenewed
use dockerdynomesh.Prelude.{ℕ, ◌≡◌, Bool, true, false, List, Option}
use dockerdynomesh.Prelude.Result.{Result}
use dockerdynomesh.Text.{Text}
use dockerdynomesh.Files.{Files}
use dockerdynomesh.Inspect.{InspectResponse}
use dockerdynomesh.Certgen.Reissue.{Reissuer, Tools}
use dockerdynomesh.Certgen.Api.{ReissueRequest, ReissueResponse, Payload, requested_sans}
use dockerdynomesh.Certgen.Reissue.Names.{HasNames}
use dockerdynomesh.Certclient.{Link, answering, unreachable, losing, Reply, succeeded}
use dockerdynomesh.Certclient.Service.{call}
use dockerdynomesh.Render.{RenderRouter, render}
use dockerdynomesh.Discoverer.AtomicWrite.{Calls, WriteResult, done, atomic_write}
use dockerdynomesh.Discoverer.Reconcile.{Services}

-- The volume of the certificates, that of the configuration, the time, and what docker and the disk
-- answer at the moment. `link` is what becomes of an exchange with the certificate service, and
-- `in_doubt` says that one has lost its answer since the last that told of success.
pub record World (A : Type 0) : Type 0 where
  pub certs : Files A
  pub configs : Files Text
  pub now : ℕ
  pub faults : Calls
  pub link : Link
  pub in_doubt : Bool
  pub listing : Option (List Text)
  pub containers : Text → Option InspectResponse

-- What the program is built on; `socket` is where the service listens and the client is to dial.
pub record Platform (A Wire : Type 0) : Type 0 where
  pub tools : Tools A
  pub reissuer : Reissuer
  pub decode : ℕ → Wire → Option ReissueRequest
  pub encode : ReissueRequest → Option Wire
  pub decode_response : Payload → Option ReissueResponse
  pub sort_slice : List RenderRouter → List RenderRouter
  pub port_of : Text → Text
  pub socket : Text
  pub lower : ℕ → ℕ

abbrev pub doubt : Bool → Link → Bool → Bool
doubt true link before = false
doubt false losing before = true
doubt false answering before = before
doubt false unreachable before = before

abbrev is_done : WriteResult → Bool
is_done done = true
is_done _ = false

module _ {A Wire : Type 0} (p : Platform A Wire) where
  abbrev pub ask : ReissueRequest → World A → Reply × Files A
  ask request w =
      call p.tools p.decode p.reissuer w.now p.encode p.decode_response w.link p.socket request
        w.certs

  abbrev pub answered : World A → Reply × Files A → Bool × World A
  answered w (reply, certs) = (
    succeeded reply,
    record w { certs = certs; in_doubt = doubt (succeeded reply) w.link w.in_doubt },
  )

  abbrev pub written : World A → WriteResult × Files Text → Bool × World A
  written w (result, configs) = (is_done result, record w { configs = configs })

  -- The fields of `reconciler` that `main` wires up.
  abbrev pub services : Services (World A)
  services = record {
    certgen = λ request w. answered w (ask request w);
    write_out = λ path yaml w. written w (atomic_write w.faults path yaml w.configs);
    render = render p.sort_slice;
    list = λ w. (w.listing, w);
    inspect = λ id w. (w.containers id, w);
    port_of = p.port_of;
    lower = p.lower;
  }

  -- Between reconciles everything may change but the certificates, and what is known of them.
  abbrev pub Moves : World A → World A → Type 0
  Moves w v = (v.certs ≡ w.certs) × (v.in_doubt ≡ w.in_doubt)

  -- The certificate on disk has the names that the request asks for, unless it is in doubt.
  abbrev pub Cert : ReissueRequest → World A → Type 0
  Cert request w = w.in_doubt ≡ false → HasNames p.tools p.reissuer (requested_sans request) w.certs
