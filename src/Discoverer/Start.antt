-- ===== src/Discoverer/Start.antt =====
-- `main` of cmd/discoverer/main.go, up to `run`. `env` is `os.Getenv`, which is empty for a variable
-- that is not set; a flag is `none` where the command line does not give it. `docker_works` is the
-- result of `client.NewClientWithOpts`.
pub mod Ready
pub mod Window
use dockerdynomesh.Prelude.{
  ℕ, ◌+◌, ◌-◌, ◌*◌, ◌%◌, ◌^◌, Bool, true, false, List, [], ◌∷◌, Option, none, some, ltb,
  if◌then◌else◌,
}
use dockerdynomesh.Prelude.Int.{ℤ, pos, negsuc}
use dockerdynomesh.Prelude.Result.{Result, ok, err, require, ◌>>=◌, ◌>>◌}
use dockerdynomesh.Text.{Text, codes, is_empty, join}
use dockerdynomesh.Text.Number.{atoi}
use dockerdynomesh.Inspect.{default_network_name}
use dockerdynomesh.Discoverer.Suffixes.{SuffixError, parse_takeover_suffixes}
use dockerdynomesh.Discoverer.Reconcile.{Reconciler}

-- `envOr`
unfoldable pub env_or : (Text → Text) → Text → Text → Text
env_or env k def = if is_empty (env k) then def else env k

-- `envOrInt`
abbrev pub or_default : ℤ → Option ℤ → ℤ
or_default def none = def
or_default def (some n) = n

unfoldable pub env_or_int : (Text → Text) → Text → ℤ → ℤ
env_or_int env k def = if is_empty (env k) then def else or_default def (atoi (env k))

pub record Flags : Type 0 where
  pub suffix : Option Text
  pub machine : Option Text
  pub tailnet : Option Text
  pub out : Option Text
  pub certgen : Option Text
  pub debounce_ms : Option ℤ

-- A flag's value, or its default.
abbrev pub flag_or {ℓ} : {A : Type ℓ} → Option A → A → A
flag_or none def = def
flag_or (some v) def = v

-- An int64 by its bit pattern, and back.
abbrev pub word : ℤ → ℕ
word (pos n) = n % 2 ^ 64
word (negsuc n) = 2 ^ 64 - 1 - n % 2 ^ 64

abbrev pub signed : ℕ → ℤ
signed w = if ltb w (2 ^ 63) then pos w else negsuc (2 ^ 64 - 1 - w)

abbrev pub times_million : ℤ → ℤ
times_million (pos n) = pos (n * 1_000_000)
times_million (negsuc n) = negsuc ((n + 1) * 1_000_000 - 1)

-- time.Duration(ms) * time.Millisecond, which wraps around
unfoldable pub duration_of_ms : ℤ → ℤ
duration_of_ms ms = signed (word (times_million ms))

-- The window of the debouncer: a timer whose duration is not positive expires at once.
abbrev pub window_of : ℤ → ℕ
window_of (pos n) = n
window_of (negsuc n) = 0

-- The values of the line that is logged at the start.
pub record Banner : Type 0 where
  pub suffix : Text
  pub machine : Text
  pub tailnet : Text
  pub takeover : Text

pub record Settings : Type 0 where
  pub reconciler : Reconciler
  pub debounce : ℤ
  pub socket : Text
  pub banner : Banner

pub data StartError : Type 0 where
  bad_suffixes : SuffixError → StartError
  no_docker index_panic : StartError

abbrev pub parsed : Result SuffixError (List Text) → Result StartError (List Text)
parsed (ok suffixes) = ok suffixes
parsed (err e) = err (bad_suffixes e)

-- suffixes[0]
abbrev pub first_of : List Text → Result StartError Text
first_of [] = err index_panic
first_of (s ∷ suffixes) = ok s

abbrev pub or_none : Text → Text
or_none s = if is_empty s then codes "<none>" else s

abbrev pub suffix_flag : (Text → Text) → Flags → Text
suffix_flag env f = flag_or f.suffix (env_or env (codes "SUFFIX") (codes "docker.localhost"))

abbrev pub takeover_of : (Text → Text) → Text
takeover_of env = env (codes "TAKEOVER_SUFFIXES")

-- The window in milliseconds: of the flag, else of the environment.
abbrev pub milliseconds : (Text → Text) → Flags → ℤ
milliseconds env f = flag_or f.debounce_ms (env_or_int env (codes "DEBOUNCE_MS") (pos 500))

-- The literal of the reconciler, and what goes with it.
unfoldable pub settings_of : (Text → Text) → Flags → List Text → Text → Settings
settings_of env f suffixes first =
    let machine = flag_or f.machine (env (codes "MACHINE_NAME")) in
    let tailnet = flag_or f.tailnet (env (codes "TAILNET_DOMAIN")) in
    record {
      reconciler = record {
        out = flag_or f.out (codes "/shared/dynamic/auto.yml");
        suffixes = suffixes;
        machine = machine;
        tailnet = tailnet;
        network = env_or env (codes "NETWORK_NAME") default_network_name;
        last_projects = none;
        logged_misconfig = [];
      };
      debounce = duration_of_ms (milliseconds env f);
      socket = flag_or f.certgen (codes "/shared/run/certgen.sock");
      banner = record {
        suffix = first;
        machine = or_none machine;
        tailnet = or_none tailnet;
        takeover = or_none (join (codes ",") suffixes);
      };
    }

-- `main`
unfoldable pub start : (Text → Text) → Bool → Flags → Result StartError Settings
start env docker_works f = do
  suffixes ← parsed (parse_takeover_suffixes (suffix_flag env f) (takeover_of env))
  require docker_works no_docker
  first ← first_of suffixes
  ok (settings_of env f suffixes first)
