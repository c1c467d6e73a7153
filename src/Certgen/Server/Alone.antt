-- ===== src/Certgen/Server/Alone.antt =====
-- What a request does when nothing else runs, against the steps of its thread.
use dockerdynomesh.Prelude.{
  ℕ, ◌≡◌, refl, ◌∙◌, Bool, true, false, List, Option, none, some, Bool-cases, inl, inr,
}
use dockerdynomesh.Prelude.Result.{Result, ok, err}
use dockerdynomesh.Text.{Text, codes, ◌==◌}
use dockerdynomesh.Files.{Files, tmp_of, remove}
use dockerdynomesh.Certgen.Reissue.{
  Reissuer, Tools, Reissued, current_sans, up_to_date, commit, cleanup, rename_second, rename_first,
  rename_both, issue, clean, reissue,
}
use dockerdynomesh.Certgen.Api.{
  ReissueRequest, Message, Response, validate, answer, max_body, status_of, handle_reissue,
  handle_status, serve, validated, decoded,
}
use dockerdynomesh.Certgen.Server.{
  Call, Job, reissuing, reporting, Locked, entered, running, renaming_key, renaming_cert,
  removing_key, removing_cert, leaving, Pc, waiting, answered, checked, read, entry, renamed_key,
  renamed_cert, ran, begin, advance,
}

module _ {A Wire : Type 0} (tools : Tools A) (decode : ℕ → Wire → Option ReissueRequest)
    (r : Reissuer) where
  abbrev finished : List Text → Reissued × Files A → Response × Files A
  finished sans (result, fs) = (answer sans result, fs)

  -- The job as one step.
  abbrev pub alone : ℕ → Job → Files A → Response × Files A
  alone now (reissuing sans) fs = finished sans (reissue tools now r sans fs)
  alone now reporting fs = (status_of tools decode r (current_sans tools r fs), fs)

  abbrev pub handled : ℕ → Call Wire → Files A → Response × Files A
  handled now c fs = serve tools decode r now c.path c.method c.body fs

  -- A request up to `Lock`: refused, with no effect at any time, or the job that it waits with.
  pub data Entry (c : Call Wire) : Pc Wire → Type 0 where
    refused :
        {response : Response}
        → ((now : ℕ) (fs : Files A) → handled now c fs ≡ (response, fs))
        → Entry c (answered response)
    queued :
        {job : Job}
        → ((now : ℕ) (fs : Files A) → handled now c fs ≡ alone now job fs)
        → Entry c (waiting job)

  Entry-checked :
      (c : Call Wire) (body : ReissueRequest) (v : Result Message (Unit {0}))
      → ((now : ℕ) (fs : Files A) → handled now c fs ≡ validated tools decode r now body v fs)
      → Entry c (checked tools decode r body v)
  unfolding validated
  Entry-checked c body (err m) h = Entry.refused h
  Entry-checked c body (ok done) h = Entry.queued h

  Entry-read :
      (c : Call Wire) (o : Option ReissueRequest)
      → ((now : ℕ) (fs : Files A) → handled now c fs ≡ decoded tools decode r now o fs)
      → Entry c (read tools decode r o)
  unfolding decoded
  Entry-read c none h = Entry.refused h
  Entry-read c (some body) h = Entry-checked c body (validate body) h

  pub entry-Entry : (c : Call Wire) → Entry c (entry tools decode r c)
  unfolding entry serve handle_reissue handle_status
  entry-Entry c = elim (Bool-cases (c.path == codes "/reissue")) [
    | inl e ↦ elim (Bool-cases (c.method == codes "POST")) [
      | inl f ↦ rw (e, f) (Entry-read c (decode max_body c.body) (λ now fs. rw (e, f) refl))
      | inr f ↦ rw (e, f) (Entry.refused (λ now fs. rw (e, f) refl))
    ]
    | inr e ↦ elim (Bool-cases (c.path == codes "/status")) [
      | inl f ↦ elim (Bool-cases (c.method == codes "GET")) [
        | inl g ↦ rw (e, f, g) (Entry.queued (λ now fs. rw (e, f, g) refl))
        | inr g ↦ rw (e, f, g) (Entry.refused (λ now fs. rw (e, f, g) refl))
      ]
      | inr f ↦ rw (e, f) (Entry.refused (λ now fs. rw (e, f) refl))
    ]
  ]

  -- What is left to do, if nothing else runs; `none` before the job has begun.
  abbrev pub rest : Locked → Files A → Option (Response × Files A)
  rest (entered job) fs = none
  rest (running sans) fs = some (finished sans (clean tools r (issue tools r sans fs)))
  rest (renaming_key sans) fs = some (
      finished sans
        (clean tools r (rename_first tools r fs (commit tools fs (tmp_of r.key_path) r.key_path))))
  rest (renaming_cert sans) fs = some (
      finished sans (
        clean tools r
          (rename_second tools r fs (commit tools fs (tmp_of r.cert_path) r.cert_path))))
  rest (removing_key sans result) fs = some (answer sans result, cleanup tools r fs)
  rest (removing_cert sans result) fs = some (answer sans result, remove fs (tmp_of r.cert_path))
  rest (leaving response) fs = some (response, fs)

  abbrev resting : Locked × Files A → Option (Response × Files A)
  resting (q, fs) = rest q fs

  rest-begin :
      (now : ℕ) (job : Job) (fs : Files A)
      → rest (begin tools decode r now job fs) fs ≡ some (alone now job fs)
  unfolding reissue
  rest-begin now reporting fs = refl
  rest-begin now (reissuing sans) fs =
      elim (Bool-cases (up_to_date tools now sans (current_sans tools r fs))) [
        | inl e ↦ rw e refl
        | inr e ↦ elim (Bool-cases (tools.mkdir_works (tools.dir r.cert_path))) [
          | inr f ↦ rw (e, f) refl
          | inl f ↦ elim (Bool-cases (tools.mkdir_works (tools.dir r.key_path))) [
            | inr g ↦ rw (e, f, g) refl
            | inl g ↦ rw (e, f, g) refl
          ]
        ]
      ]

  rest-ran :
      (sans : List Text) (o : Bool × Files A)
      → resting (ran tools decode r sans o)
        ≡ some (finished sans (clean tools r (rename_both tools r o)))
  unfolding rename_both
  rest-ran sans (true, gs) = refl
  rest-ran sans (false, gs) = refl

  rest-renamed_key :
      (sans : List Text) (fs : Files A) (o : Option (Files A))
      → resting (renamed_key tools decode r sans fs o)
        ≡ some (finished sans (clean tools r (rename_first tools r fs o)))
  unfolding rename_first
  rest-renamed_key sans fs none = refl
  rest-renamed_key sans fs (some gs) = refl

  rest-renamed_cert :
      (sans : List Text) (fs : Files A) (o : Option (Files A))
      → resting (renamed_cert tools decode r sans fs o)
        ≡ some (finished sans (clean tools r (rename_second tools r fs o)))
  unfolding rename_second
  rest-renamed_cert sans fs none = refl
  rest-renamed_cert sans fs (some gs) = refl

  pub rest-entered :
      (now : ℕ) (job : Job) (fs : Files A)
      → resting (advance tools decode r now (entered job) fs) ≡ some (alone now job fs)
  unfolding advance
  rest-entered now job fs = rest-begin now job fs

  -- A step of a job that has begun leaves the same to do.
  pub rest-advance :
      (now : ℕ) (q : Locked) (fs : Files A) {x : Response × Files A}
      → rest q fs ≡ some x
      → resting (advance tools decode r now q fs) ≡ some x
  unfolding advance issue
  rest-advance now (entered job) fs h = cc
  rest-advance now (running sans) fs h = rest-ran sans _ ∙ h
  rest-advance now (renaming_key sans) fs h = rest-renamed_key sans fs _ ∙ h
  rest-advance now (renaming_cert sans) fs h = rest-renamed_cert sans fs _ ∙ h
  rest-advance now (removing_key sans result) fs h = h
  rest-advance now (removing_cert sans result) fs h = h
  rest-advance now (leaving response) fs h = h
