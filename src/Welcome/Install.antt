-- ===== src/Welcome/Install.antt =====
-- What a shell reads in the install script.
use dockerdynomesh.Prelude.{
  ℕ, ◌≡◌, refl, sym, subst, Bool, true, false, ◌||◌, List, [], ◌∷◌, ◌++◌, Option, none, some, All,
  eqb, Bool-cases, inl, inr, if◌then◌else◌, arith,
}
use dockerdynomesh.Prelude.Result.{ok}
use dockerdynomesh.Text.{Text, codes}
use dockerdynomesh.Text.Label.{IsSafe}
use dockerdynomesh.Certgen.San.{dotted}
use dockerdynomesh.Certgen.San.Labels.{IsSafe-dotted}
use dockerdynomesh.Certgen.Api.{given_label}
use dockerdynomesh.Welcome.Script.{
  before_machine, before_setup, before_tls, before_file, after_file,
}
use dockerdynomesh.Welcome.{
  Server, Flags, both_given, tailnet_host_of, setup_host_of, install_script, start,
}
use dockerdynomesh.Welcome.Config.{server_of, start_inv, IsSafe-given}

-- A character that a shell does not take literally between double quotes, other than the quote.
abbrev pub expands : ℕ → Bool
expands c = eqb c b'$' || eqb c b'`' || eqb c b'\\'

abbrev with_first : ℕ → Option (Text × Text) → Option (Text × Text)
with_first c none = none
with_first c (some (word, rest)) = some (c ∷ word, rest)

-- The word behind an opening double quote, with what follows the closing one. `none` stands for a
-- word that the shell would expand, or that does not end.
unfoldable pub double_quoted : Text → Option (Text × Text)
double_quoted [] = none
double_quoted (c ∷ s) =
    let rest = with_first c (double_quoted s) in
    if eqb c b'"' then some ([], s) else if expands c then none else rest

safe_literal : (c : ℕ) → IsSafe c → (eqb c b'"' ≡ false) × (expands c ≡ false)
safe_literal c h = (ground arith, ground arith)

double_quoted-safe :
    (word rest : Text) → All IsSafe word → double_quoted (word ++ (b'"' ∷ rest)) ≡ some (word, rest)
unfolding double_quoted
double_quoted-safe [] rest h = refl
double_quoted-safe (c ∷ word) rest (h, k) =
    let (p, q) = safe_literal c h in rw (p, q, double_quoted-safe word rest k)

setup-IsSafe : All IsSafe (codes "setup")
setup-IsSafe = ground arith

module _ (machine tailnet : Text) (m : given_label machine ≡ true)
    (t : given_label tailnet ≡ true) where
  IsSafe-base : All IsSafe (dotted machine tailnet)
  IsSafe-base = IsSafe-dotted machine tailnet (IsSafe-given machine m) (IsSafe-given tailnet t)

  IsSafe-tailnet_host : All IsSafe (tailnet_host_of machine tailnet)
  IsSafe-tailnet_host = elim (Bool-cases (both_given machine tailnet)) [
    | inl e ↦ rw e IsSafe-base
    | inr e ↦ rw e tt
  ]

  IsSafe-setup_host : All IsSafe (setup_host_of machine tailnet)
  IsSafe-setup_host = elim (Bool-cases (both_given machine tailnet)) [
    | inl e ↦ rw e (IsSafe-dotted (codes "setup") (dotted machine tailnet) setup-IsSafe IsSafe-base)
    | inr e ↦ rw e tt
  ]

-- What the script says to a shell, as far as the flags reach into it: its two assignments have the two
-- hosts as they are for values, with nothing to expand, and all other text is that of the template,
-- but for the machine's name, which is made of safe characters.
pub record IsHarmless (srv : Server) (script : Text) : Type 0 where
  pub from_setup : Text
  pub from_tls : Text
  pub rest : Text
  pub opening : script ≡ before_machine ++ (srv.machine_name ++ (before_setup ++ from_setup))
  pub setup : double_quoted from_setup ≡ some (srv.setup_host, before_tls ++ from_tls)
  pub tls : double_quoted from_tls ≡ some (srv.tailnet_host, rest)
  pub ending : rest ≡ before_file ++ (srv.machine_name ++ after_file)
  pub name : All IsSafe srv.machine_name

IsHarmless-safe :
    (srv : Server)
    → All IsSafe srv.machine_name
    → All IsSafe srv.setup_host
    → All IsSafe srv.tailnet_host
    → IsHarmless srv (install_script srv)
unfolding install_script
IsHarmless-safe srv m s t = record {
  from_setup = _;
  from_tls = _;
  rest = before_file ++ (srv.machine_name ++ after_file);
  opening = refl;
  setup = double_quoted-safe srv.setup_host _ s;
  tls = double_quoted-safe srv.tailnet_host _ t;
  ending = refl;
  name = m;
}

-- If the service starts, a shell that reads its install script takes exactly the two hosts for the
-- values of SETUP_HOST and TLS_HOST, and expands nothing in them; the machine's name, which stands
-- twice more in the script, has letters, digits, dots and hyphens alone.
pub start-IsHarmless :
    (listen : List Text → Text → Bool) (f : Flags) (srv : Server) (ls : List Text)
    → start listen f ≡ ok (srv, ls)
    → IsHarmless srv (install_script srv)
start-IsHarmless listen f srv ls h =
    let (u, e, l) = start_inv listen f h in
    subst (λ s. IsHarmless s (install_script s)) (sym e)
      (IsHarmless-safe (server_of f) (IsSafe-given f.machine u.machine)
        (IsSafe-setup_host f.machine f.tailnet u.machine u.tailnet)
        (IsSafe-tailnet_host f.machine f.tailnet u.machine u.tailnet))
