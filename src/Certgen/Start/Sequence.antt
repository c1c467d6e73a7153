-- ===== src/Certgen/Start/Sequence.antt =====
-- The order in which the certificate service starts.
use dockerdynomesh.Prelude.{
  ◌≡◌, refl, Bool, true, false, List, [], ◌∷◌, ◌++◌, Option, none, some, Bool-cases, inl, inr,
}
use dockerdynomesh.Prelude.Result.{Result, ok, err, ◌>>=◌}
use dockerdynomesh.Text.{Text}
use dockerdynomesh.Certgen.Start.{
  Flags, Call, mkdir_all, remove, listen, chmod_666, serve, shutdown, StartError, mkdir_ca_root,
  install_ca_failed, mkdir_socket_dir, listen_failed, chmod_failed, serve_failed, Ended,
  serve_error, signalled, Outcome, fatal, exited, call, installation, install_ca, prepare,
  server_of, served, start,
}

-- The calls before the server, each with the error that ends the process where the call fails;
-- `none` for the call whose result does not matter.
abbrev pub plan : (Text → Text) → Flags → List (Call × Option StartError)
plan dir f =
    (mkdir_all f.ca_root, some mkdir_ca_root)
    ∷ (installation f.mkcert f.ca_root, some install_ca_failed)
    ∷ (mkdir_all (dir f.socket), some mkdir_socket_dir)
    ∷ (remove f.socket, none)
    ∷ (listen f.socket, some listen_failed)
    ∷ (chmod_666 f.socket, some chmod_failed)
    ∷ []

abbrev pub Ready : Type 0
Ready = Result (StartError × List Call) (List Call)

module _ (works : List Call → Call → Bool) where
  -- How a plan runs after the calls `done`: one call after the other, up to the first that fails and
  -- matters.
  pub data Follows : List Call → List (Call × Option StartError) → Ready → Type 0 where
    finished : {done : List Call} → Follows done [] (ok done)
    fails :
        {done : List Call} {c : Call} {e : StartError} {rest : List (Call × Option StartError)}
        → works done c ≡ false
        → Follows done ((c, some e) ∷ rest) (err (e, done ++ (c ∷ [])))
    goes_on :
        {done : List Call} {c : Call} {e : StartError} {rest : List (Call × Option StartError)}
        {r : Ready}
        → works done c ≡ true
        → Follows (done ++ (c ∷ [])) rest r
        → Follows done ((c, some e) ∷ rest) r
    either_way :
        {done : List Call} {c : Call} {rest : List (Call × Option StartError)} {r : Ready}
        → Follows (done ++ (c ∷ [])) rest r
        → Follows done ((c, none) ∷ rest) r

  call_then :
      (c : Call) (e : StartError) (done : List Call) (rest : List (Call × Option StartError))
      (k : List Call → Ready)
      → Follows (done ++ (c ∷ [])) rest (k (done ++ (c ∷ [])))
      → Follows done ((c, some e) ∷ rest) (call works c e done >>= k)
  unfolding call
  call_then c e done rest k h = elim (Bool-cases (works done c)) [
    | inl w ↦ rw w (goes_on w h)
    | inr w ↦ rw w (fails w)
  ]

  call_last :
      (c : Call) (e : StartError) (done : List Call)
      → Follows done ((c, some e) ∷ []) (call works c e done)
  unfolding call
  call_last c e done = elim (Bool-cases (works done c)) [
    | inl w ↦ rw w (goes_on w finished)
    | inr w ↦ rw w (fails w)
  ]

  module _ (dir : Text → Text) (f : Flags) where
    prepare-Follows : Follows [] (plan dir f) (prepare works dir f)
    unfolding prepare install_ca
    prepare-Follows = call_then _ _ _ _ _ (
        call_then _ _ _ _ _
          (call_then _ _ _ _ _ (either_way (call_then _ _ _ _ _ (call_last _ _ _)))))

    -- The whole life of the process. The server runs only where the plan was finished.
    pub data Life (ended : Ended) : Outcome → Type 0 where
      unready :
          {e : StartError} {done : List Call}
          → Follows [] (plan dir f) (err (e, done))
          → Life ended (fatal e done)
      shut_down :
          {done : List Call}
          → Follows [] (plan dir f) (ok done)
          → ended ≡ signalled
          → Life ended (exited (done ++ (serve (server_of f) ∷ shutdown ∷ [])))
      broken :
          {done : List Call}
          → Follows [] (plan dir f) (ok done)
          → ended ≡ serve_error
          → Life ended (fatal serve_failed (done ++ (serve (server_of f) ∷ [])))

    served-Life :
        (ended : Ended) (r : Ready)
        → Follows [] (plan dir f) r
        → Life ended (served (server_of f) ended r)
    served-Life ended (err (e, done)) h = unready h
    served-Life signalled (ok done) h = shut_down h refl
    served-Life serve_error (ok done) h = broken h refl

    -- The certificate service makes its calls in the order of the plan and ends at the first that
    -- fails, where only the removal of an old socket may fail. It serves after all of them, which
    -- is after the root was installed and the socket's mode was set, and shuts the server down
    -- exactly where a signal ends it.
    pub start-Life : (ended : Ended) → Life ended (start works dir f ended)
    unfolding start
    start-Life ended = served-Life ended _ prepare-Follows
