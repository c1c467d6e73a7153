-- ===== src/Certgen/Server.antt =====
-- `Server` of internal/certgen/api.go with many requests at once. Each request is a thread, and each
-- call of the operating system between `Lock` and `Unlock` is a step of its own; the threads take
-- their steps in any order, and `act` does nothing where `Lock` waits. `now` is the clock at a step.
pub mod Alone
pub mod Exclusion
pub mod Serial
pub mod Ways
pub mod Refinement
pub mod Progress
pub mod Rounds
use dockerdynomesh.Prelude.{
  ℕ, Bool, true, false, not, List, [], ◌∷◌, Option, none, some, eqb, if◌then◌else◌,
}
use dockerdynomesh.Prelude.Result.{Result, ok, err}
use dockerdynomesh.Text.{Text, codes, ◌==◌}
use dockerdynomesh.Files.{Files, tmp_of, remove}
use dockerdynomesh.Certgen.Reissue.{
  Reissuer, Tools, ReissueError, mkdir_cert, mkdir_key, mkcert_failed, rename_key, rename_cert,
  Reissued, reissued, failed, current_sans, up_to_date, commit, binary, arguments,
}
use dockerdynomesh.Certgen.Api.{
  ReissueRequest, Message, method_not_allowed, bad_json, not_found, Response, http_error, validate,
  requested_sans, answer, max_body, status_of,
}

pub record Call (Wire : Type 0) : Type 0 where
  pub path : Text
  pub method : Text
  pub body : Wire

-- What a request does under the mutex.
pub data Job : Type 0 where
  reissuing : List Text → Job
  reporting : Job

-- The places between `Lock` and `Unlock`, by the next step.
pub data Locked : Type 0 where
  entered : Job → Locked
  running renaming_key renaming_cert : List Text → Locked
  removing_key removing_cert : List Text → Reissued → Locked
  leaving : Response → Locked

pub data Pc (Wire : Type 0) : Type 0 where
  arrived : Call Wire → Pc Wire
  waiting : Job → Pc Wire
  inside : Locked → Pc Wire
  answered : Response → Pc Wire

pub record System (A Wire : Type 0) : Type 0 where
  pub files : Files A
  pub owner : Option ℕ
  pub pc : ℕ → Pc Wire

abbrev pub update {ℓ} : {A : Type ℓ} → (ℕ → A) → ℕ → A → ℕ → A
update f i a j = if eqb i j then a else f j

abbrev pub is_free : Option ℕ → Bool
is_free none = true
is_free (some i) = false

module _ {A Wire : Type 0} (tools : Tools A) (decode : ℕ → Wire → Option ReissueRequest)
    (r : Reissuer) where
  abbrev pub checked : ReissueRequest → Result Message (Unit {0}) → Pc Wire
  checked body (err m) = answered (http_error 400 m)
  checked body (ok done) = waiting (reissuing (requested_sans body))

  abbrev pub read : Option ReissueRequest → Pc Wire
  read none = answered (http_error 400 bad_json)
  read (some body) = checked body (validate body)

  -- A request up to `Lock`, or to its answer.
  unfoldable pub entry : Call Wire → Pc Wire
  entry c =
      if c.path == codes "/reissue"
      then (if not (c.method == codes "POST")
          then answered (http_error 405 method_not_allowed)
          else read (decode max_body c.body))
      else if c.path == codes "/status"
      then (if not (c.method == codes "GET")
          then answered (http_error 405 method_not_allowed)
          else waiting reporting)
      else answered (http_error 404 not_found)

  abbrev pub renamed_key : List Text → Files A → Option (Files A) → Locked × Files A
  renamed_key sans fs none = (removing_key sans (failed rename_key), fs)
  renamed_key sans fs (some gs) = (renaming_cert sans, gs)

  abbrev pub renamed_cert : List Text → Files A → Option (Files A) → Locked × Files A
  renamed_cert sans fs none = (removing_key sans (failed rename_cert), fs)
  renamed_cert sans fs (some gs) = (removing_key sans (reissued true), gs)

  abbrev pub ran : List Text → Bool × Files A → Locked × Files A
  ran sans (true, gs) = (renaming_key sans, gs)
  ran sans (false, gs) = (removing_key sans (failed mkcert_failed), gs)

  -- The no-op test and the two directories.
  abbrev pub begin : ℕ → Job → Files A → Locked
  begin now reporting fs = leaving (status_of tools decode r (current_sans tools r fs))
  begin now (reissuing sans) fs =
      if up_to_date tools now sans (current_sans tools r fs)
      then leaving (answer sans (reissued false))
      else if not (tools.mkdir_works (tools.dir r.cert_path))
      then leaving (answer sans (failed mkdir_cert))
      else if not (tools.mkdir_works (tools.dir r.key_path))
      then leaving (answer sans (failed mkdir_key))
      else running sans

  -- One step under the mutex.
  unfoldable pub advance : ℕ → Locked → Files A → Locked × Files A
  advance now (entered job) fs = (begin now job fs, fs)
  advance now (running sans) fs =
      ran sans (tools.mkcert (binary tools r) r.ca_root_dir (arguments tools r sans) fs)
  advance now (renaming_key sans) fs =
      renamed_key sans fs (commit tools fs (tmp_of r.key_path) r.key_path)
  advance now (renaming_cert sans) fs =
      renamed_cert sans fs (commit tools fs (tmp_of r.cert_path) r.cert_path)
  advance now (removing_key sans result) fs =
      (removing_cert sans result, remove fs (tmp_of r.key_path))
  advance now (removing_cert sans result) fs =
      (leaving (answer sans result), remove fs (tmp_of r.cert_path))
  advance now (leaving response) fs = (leaving response, fs)

  abbrev pub moved : ℕ → System A Wire → Locked × Files A → System A Wire
  moved i s (q, fs) = record s { files = fs; pc = update s.pc i (inside q) }

  -- A step of the thread `i` at its place; the last one under the mutex is `Unlock`.
  abbrev pub move : ℕ → ℕ → System A Wire → Pc Wire → System A Wire
  move now i s (arrived c) = record s { pc = update s.pc i (entry c) }
  move now i s (waiting job) =
      if is_free s.owner
      then record s { owner = some i; pc = update s.pc i (inside (entered job)) }
      else s
  move now i s (inside (leaving response)) = record s {
    owner = none;
    pc = update s.pc i (answered response);
  }
  move now i s (inside q) = moved i s (advance now q s.files)
  move now i s (answered response) = s

  unfoldable pub act : ℕ → ℕ → System A Wire → System A Wire
  act now i s = move now i s (s.pc i)

  -- A schedule is the threads that act, each with the clock.
  unfoldable pub run_schedule : List (ℕ × ℕ) → System A Wire → System A Wire
  run_schedule [] s = s
  run_schedule ((now, i) ∷ schedule) s = run_schedule schedule (act now i s)

  abbrev pub init : Files A → (ℕ → Call Wire) → System A Wire
  init fs calls = record { files = fs; owner = none; pc = λ i. arrived (calls i) }
