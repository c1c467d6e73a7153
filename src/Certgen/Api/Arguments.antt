-- ===== src/Certgen/Api/Arguments.antt =====
-- What a valid request can put on mkcert's command line.
use mathlib.Core.List.{Memᴰ}
use dockerdynomesh.Prelude.{◌≡◌, ◌∷◌, All, true, false, arith}
use dockerdynomesh.Text.{Text, is_empty}
use dockerdynomesh.Text.Label.{IsSafe}
use dockerdynomesh.Certgen.San.{dotted}
use dockerdynomesh.Certgen.San.Labels.{IsSafe-dotted, validate_label-IsSafe}
use dockerdynomesh.Certgen.San.Members.{IsName, mem-sans}
use dockerdynomesh.Certgen.Api.{ReissueRequest, given_label, requested_sans}
use dockerdynomesh.Certgen.Api.Validation.{IsValid}

-- A wildcard over safe characters: it starts with an asterisk and a dot, so it is no flag, and has no
-- blank, quote, comma or other syntax.
abbrev pub IsSafeWildcard : Text → Type 0
IsSafeWildcard n = (base : Text) × (n ≡ b'*' ∷ b'.' ∷ base) × All IsSafe base

IsSafe-given : (s : Text) → given_label s ≡ true → is_empty s ≡ false → All IsSafe s
IsSafe-given s h e = validate_label-IsSafe s (ground arith)

name-IsSafeWildcard :
    (body : ReissueRequest)
    → IsValid body
    → (n : Text) → IsName body.suffixes body.machine_name body.tailnet_domain body.projects n
    → IsSafeWildcard n
name-IsSafeWildcard body v n (IsName.local s m e) = (s, e, validate_label-IsSafe s (v.suffixes s m))
name-IsSafeWildcard body v n (IsName.local_project p s m k e) = (
  dotted p s,
  e,
  IsSafe-dotted p s (validate_label-IsSafe p (v.projects p k))
      (validate_label-IsSafe s (v.suffixes s m)),
)
name-IsSafeWildcard body v n (IsName.remote h k e) = (
  dotted body.machine_name body.tailnet_domain,
  e,
  IsSafe-dotted body.machine_name body.tailnet_domain (IsSafe-given _ v.machine h)
      (IsSafe-given _ v.tailnet k),
)
name-IsSafeWildcard body v n (IsName.remote_project p h k m e) = (
  dotted p (dotted body.machine_name body.tailnet_domain),
  e,
  IsSafe-dotted p _ (validate_label-IsSafe p (v.projects p m)) (
      IsSafe-dotted body.machine_name body.tailnet_domain (IsSafe-given _ v.machine h)
        (IsSafe-given _ v.tailnet k)),
)

-- Every name that a valid request makes the reissue pass to mkcert is a safe wildcard.
pub requested_sans-IsSafeWildcard :
    (body : ReissueRequest)
    → IsValid body
    → (n : Text) → Memᴰ n (requested_sans body)
    → IsSafeWildcard n
requested_sans-IsSafeWildcard body v n m =
    name-IsSafeWildcard body v n
      ((mem-sans body.suffixes body.machine_name body.tailnet_domain body.projects n).0 m)
