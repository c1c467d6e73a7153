-- ===== src/Discoverer/Start/Ready.antt =====
-- When the discoverer starts, and with what.
use dockerdynomesh.Prelude.Int.{pos}
use dockerdynomesh.Prelude.{
  subst, ◌≡◌, refl, sym, ap, ◌∙◌, Bool, true, false, List, [], ◌∷◌, none, Bool-cases, inl, inr,
}
use dockerdynomesh.Prelude.Result.{Result, ok, err, require, ◌>>=◌, ◌>>◌, ok_inj, ok_ne_err}
use dockerdynomesh.Text.{Text, codes, is_empty, split_commas}
use dockerdynomesh.Inspect.{default_network_name}
use dockerdynomesh.Certgen.San.{validate_label}
use dockerdynomesh.Discoverer.Reconcile.{network_of}
use dockerdynomesh.Discoverer.Suffixes.{SuffixError, parse_takeover_suffixes}
use dockerdynomesh.Discoverer.Suffixes.Loop.{IsPart}
use dockerdynomesh.Discoverer.Suffixes.Listed.{
  IsSuffixList, parse_takeover_suffixes-IsSuffixList, parse_takeover_suffixes_iff,
}
use dockerdynomesh.Discoverer.Start.{
  env_or, env_or_int, flag_or, Flags, Settings, StartError, no_docker, bad_suffixes, parsed,
  first_of, duration_of_ms, suffix_flag, takeover_of, settings_of, start,
}

-- What has to hold at the start: a client for the engine, and suffixes that are labels.
pub record CanStart (env : Text → Text) (docker_works : Bool) (f : Flags) : Type 0 where
  pub docker : docker_works ≡ true
  pub primary : validate_label (suffix_flag env f) ≡ true
  pub takeover : (s : Text) → IsPart (split_commas (takeover_of env)) s → validate_label s ≡ true

-- What the reconciler starts with.
pub record IsReady (env : Text → Text) (f : Flags) (s : Settings) : Type 0 where
  pub suffixes :
      IsSuffixList
        (flag_or f.suffix (env_or env (codes "SUFFIX") (codes "docker.localhost")))
        (env (codes "TAKEOVER_SUFFIXES"))
        s.reconciler.suffixes
  pub shown : (rest : List Text) × (s.reconciler.suffixes ≡ s.banner.suffix ∷ rest)
  pub machine : s.reconciler.machine ≡ flag_or f.machine (env (codes "MACHINE_NAME"))
  pub tailnet : s.reconciler.tailnet ≡ flag_or f.tailnet (env (codes "TAILNET_DOMAIN"))
  pub out : s.reconciler.out ≡ flag_or f.out (codes "/shared/dynamic/auto.yml")
  pub socket : s.socket ≡ flag_or f.certgen (codes "/shared/run/certgen.sock")
  pub network : network_of s.reconciler ≡ env_or env (codes "NETWORK_NAME") default_network_name
  pub window :
      s.debounce
      ≡ duration_of_ms (flag_or f.debounce_ms (env_or_int env (codes "DEBOUNCE_MS") (pos 500)))
  pub unremembered : s.reconciler.last_projects ≡ none
  pub unwarned : s.reconciler.logged_misconfig ≡ []

parsed-eq-ok :
    (r : Result SuffixError (List Text)) {out : List Text} → parsed r ≡ ok out → r ≡ ok out
parsed-eq-ok (ok suffixes) h = ap ok (ok_inj h)
parsed-eq-ok (err e) h = absurd (ok_ne_err (sym h))

first_of_inv :
    (suffixes : List Text) {first : Text}
    → first_of suffixes ≡ ok first
    → (rest : List Text) × (suffixes ≡ first ∷ rest)
first_of_inv [] h = absurd (ok_ne_err (sym h))
first_of_inv (s ∷ suffixes) h = (suffixes, ap (λ t. t ∷ suffixes) (ok_inj h))

env_or-given :
    (env : Text → Text) (k def : Text) → is_empty def ≡ false → is_empty (env_or env k def) ≡ false
unfolding env_or
env_or-given env k def h = elim (Bool-cases (is_empty (env k))) [
  | inl e ↦ rw e h
  | inr e ↦ rw (e, e) refl
]

network-kept :
    (env : Text → Text) (f : Flags) (suffixes : List Text) (first : Text)
    → network_of (settings_of env f suffixes first).reconciler
      ≡ env_or env (codes "NETWORK_NAME") default_network_name
unfolding settings_of
network-kept env f suffixes first =
    rw (env_or-given env (codes "NETWORK_NAME") default_network_name refl) refl

settings_of-IsReady :
    (env : Text → Text) (f : Flags) (suffixes : List Text) (first : Text) (rest : List Text)
    → IsSuffixList (suffix_flag env f) (takeover_of env) suffixes
    → suffixes ≡ first ∷ rest
    → IsReady env f (settings_of env f suffixes first)
unfolding settings_of
settings_of-IsReady env f suffixes first rest h e = record {
  suffixes = h;
  shown = (rest, e);
  machine = refl;
  tailnet = refl;
  out = refl;
  socket = refl;
  network = network-kept env f suffixes first;
  window = refl;
  unremembered = refl;
  unwarned = refl;
}

-- How a start ends: an error is a missing client or a suffix that is no label, and taking the first
-- suffix of the list never fails.
pub data Started (env : Text → Text) (docker_works : Bool) (f : Flags)
    : Result StartError Settings → Type 0 where
  ready :
      {s : Settings}
      → CanStart env docker_works f
      → IsReady env f s
      → Started env docker_works f (ok s)
  bad_suffix :
      {e : SuffixError}
      → ¬ CanStart env docker_works f
      → Started env docker_works f (err (bad_suffixes e))
  no_client : docker_works ≡ false → Started env docker_works f (err no_docker)

module _ (env : Text → Text) (f : Flags) where
  abbrev suffix_list : Result SuffixError (List Text)
  suffix_list = parse_takeover_suffixes (suffix_flag env f) (takeover_of env)

  refused_suffixes : (d : Bool) {e : SuffixError} → suffix_list ≡ err e → ¬ CanStart env d f
  refused_suffixes d h c =
      let (out, k) =
        (parse_takeover_suffixes_iff (suffix_flag env f) (takeover_of env)).1
          (c.primary, c.takeover) in
      ok_ne_err (sym k ∙ h)

  accepted : {suffixes : List Text} → suffix_list ≡ ok suffixes → CanStart env true f
  accepted {suffixes} h =
      let (primary, takeover) =
        (parse_takeover_suffixes_iff (suffix_flag env f) (takeover_of env)).0 (suffixes, h) in
      record { docker = refl; primary = primary; takeover = takeover }

  indexed :
      (suffixes : List Text)
      → suffix_list ≡ ok suffixes
      → Started env true f (first_of suffixes >>= λ first. ok (settings_of env f suffixes first))
  indexed [] h = elim (parse_takeover_suffixes-IsSuffixList _ _ [] h).first [ ]
  indexed (s ∷ suffixes) h = ready (accepted h) (
      settings_of-IsReady env f (s ∷ suffixes) s suffixes
        (parse_takeover_suffixes-IsSuffixList _ _ _ h) refl)

  connected :
      (d : Bool) (suffixes : List Text)
      → suffix_list ≡ ok suffixes
      → Started env d f (
          require d no_docker
          >> (first_of suffixes >>= λ first. ok (settings_of env f suffixes first)))
  connected false suffixes h = no_client refl
  connected true suffixes h = indexed suffixes h

  listed :
      (d : Bool) (r : Result SuffixError (List Text))
      → suffix_list ≡ r
      → Started env d f (
          parsed r >>= λ suffixes.
          require d no_docker
          >> (first_of suffixes >>= λ first. ok (settings_of env f suffixes first)))
  listed d (err e) h = bad_suffix (refused_suffixes d h)
  listed d (ok suffixes) h = connected d suffixes h

-- The discoverer starts exactly where it has a docker client, the primary suffix is a label and so is
-- every entry of TAKEOVER_SUFFIXES. It then has the sorted list of both without repetition, shows its
-- first entry, has the machine, the tailnet, the path of the configuration and the socket of the
-- certificate service of its flags, or else of MACHINE_NAME, TAILNET_DOMAIN and the defaults, looks at the network of NETWORK_NAME or else the default one, waits for the window of
-- its flag or else of DEBOUNCE_MS, and has remembered no projects and no warning. It never panics at the first suffix.
pub start-Started :
    (env : Text → Text) (docker_works : Bool) (f : Flags)
    → Started env docker_works f (start env docker_works f)
unfolding start
start-Started env docker_works f = listed env f docker_works _ refl

IsReady-of_Started :
    (env : Text → Text) (docker_works : Bool) (f : Flags) (r : Result StartError Settings)
    {s : Settings}
    → Started env docker_works f r
    → r ≡ ok s
    → IsReady env f s
IsReady-of_Started env docker_works f _ (Started.ready c i) e = subst (IsReady env f) (ok_inj e) i
IsReady-of_Started env docker_works f _ (Started.bad_suffix n) e = absurd (ok_ne_err (sym e))
IsReady-of_Started env docker_works f _ (Started.no_client n) e = absurd (ok_ne_err (sym e))

pub start-IsReady :
    (env : Text → Text) (docker_works : Bool) (f : Flags) {s : Settings}
    → start env docker_works f ≡ ok s
    → IsReady env f s
start-IsReady env docker_works f e =
    IsReady-of_Started env docker_works f _ (start-Started env docker_works f) e
