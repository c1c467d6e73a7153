-- ===== src/Welcome/Config.antt =====
-- Which flags the welcome service starts with.
use mathlib.Core.List.{append-nil, append_assoc}
use dockerdynomesh.Prelude.{
  ◌≡◌, refl, ◌↔◌, sym, ap, ap₂, ◌∙◌, Bool, true, false, List, [], ◌∷◌, ◌++◌, All, Bool-cases, inl,
  inr, if◌then◌else◌, arith,
}
use dockerdynomesh.Prelude.Result.{ok, require, >>=-eq-ok, require-eq-ok, ok_inj, ok_ne_err}
use dockerdynomesh.Text.{Text, codes, is_empty, split_commas, trim_space}
use dockerdynomesh.Text.Label.{IsSafe}
use dockerdynomesh.Certgen.San.{validate_label}
use dockerdynomesh.Certgen.San.Labels.{validate_label-IsSafe}
use dockerdynomesh.Certgen.Api.{given_label}
use dockerdynomesh.Welcome.{
  Server, invalid_machine, invalid_tailnet, invalid_suffix, Flags, validate_config, tailnet_host_of,
  setup_host_of, new_server, listen_all, some_address, start,
}

-- The trimmed parts that are not empty.
abbrev pub addresses : List Text → List Text
addresses [] = []
addresses (raw ∷ parts) =
    let rest = addresses parts in if is_empty (trim_space raw) then rest else trim_space raw ∷ rest

-- Each of the addresses can be bound once those before it are.
abbrev pub Binds : (List Text → Text → Bool) → List Text → List Text → Type 0
Binds listen before [] = Unit {0}
Binds listen before (a ∷ as_) = (listen before a ≡ true) × Binds listen (before ++ (a ∷ [])) as_

-- What the flags have to be: labels, and at least one address, all of which can be bound in turn.
pub record IsUsable (listen : List Text → Text → Bool) (f : Flags) : Type 0 where
  pub machine : given_label f.machine ≡ true
  pub tailnet : given_label f.tailnet ≡ true
  pub suffix : validate_label f.suffix ≡ true
  pub first : Text
  pub others : List Text
  pub listed : addresses (split_commas f.listen) ≡ first ∷ others
  pub bound : Binds listen [] (addresses (split_commas f.listen))

-- A host of the machine in the tailnet; none where one of the two has no name.
abbrev pub host_with : Text → Text → Text → Text
host_with prefix [] tailnet = []
host_with prefix (c ∷ machine) [] = []
host_with prefix (c ∷ machine) (d ∷ tailnet) =
    prefix ++ ((c ∷ machine) ++ (codes "." ++ (d ∷ tailnet)))

-- The server that the flags ask for.
abbrev pub server_with : Flags → Server
server_with f = record {
  machine_name = f.machine;
  suffix = f.suffix;
  tailnet_host = host_with [] f.machine f.tailnet;
  setup_host = host_with (codes "setup.") f.machine f.tailnet;
  root_cert_path = f.root;
}

tailnet_host_of_lem :
    (machine tailnet : Text) → tailnet_host_of machine tailnet ≡ host_with [] machine tailnet
tailnet_host_of_lem [] tailnet = refl
tailnet_host_of_lem (c ∷ machine) [] = refl
tailnet_host_of_lem (c ∷ machine) (d ∷ tailnet) = refl

setup_host_of_lem :
    (machine tailnet : Text)
    → setup_host_of machine tailnet ≡ host_with (codes "setup.") machine tailnet
setup_host_of_lem [] tailnet = refl
setup_host_of_lem (c ∷ machine) [] = refl
setup_host_of_lem (c ∷ machine) (d ∷ tailnet) = refl

abbrev pub server_of : Flags → Server
server_of f =
    new_server f.machine f.suffix (tailnet_host_of f.machine f.tailnet)
      (setup_host_of f.machine f.tailnet) f.root

server_of_lem : (f : Flags) → server_of f ≡ server_with f
server_of_lem f =
    rw (tailnet_host_of_lem f.machine f.tailnet, setup_host_of_lem f.machine f.tailnet)

module _ (listen : List Text → Text → Bool) where
  listen_all_inv :
      (before parts : List Text) {ls : List Text}
      → listen_all listen before parts ≡ ok ls
      → (ls ≡ before ++ addresses parts) × Binds listen before (addresses parts)
  unfolding listen_all
  listen_all_inv before [] h = (sym (ok_inj h) ∙ sym (append-nil before), tt)
  listen_all_inv before (raw ∷ parts) h = elim (Bool-cases (is_empty (trim_space raw))) [
    | inl e ↦ rw e (listen_all_inv before parts (rw (e, listen_all) at h))
    | inr e ↦ elim (Bool-cases (listen before (trim_space raw))) [
      | inr f ↦ absurd (ok_ne_err (sym (rw (e, f, listen_all) at h)))
      | inl f ↦
          let (same, binds) =
            listen_all_inv (before ++ (trim_space raw ∷ [])) parts (rw (e, f, listen_all) at h) in
          rw e (same ∙ append_assoc before (trim_space raw ∷ []) (addresses parts), (f, binds))
    ]
  ]

  listen_all_pass :
      (before parts : List Text)
      → Binds listen before (addresses parts)
      → listen_all listen before parts ≡ ok (before ++ addresses parts)
  unfolding listen_all
  listen_all_pass before [] h = ap ok (sym (append-nil before))
  listen_all_pass before (raw ∷ parts) h = elim (Bool-cases (is_empty (trim_space raw))) [
    | inl e ↦ rw e (listen_all_pass before parts (rw e at h))
    | inr e ↦
        let (f, binds) = (rw e at h) in
        rw (e, f)
          (listen_all_pass (before ++ (trim_space raw ∷ [])) parts binds
            ∙ ap ok (append_assoc before (trim_space raw ∷ []) (addresses parts)))
  ]

  some_address_inv :
      (bound : List Text) {ls : List Text}
      → some_address bound ≡ ok ls
      → (ls ≡ bound) × ((a : Text) × (as_ : List Text) × (bound ≡ a ∷ as_))
  some_address_inv [] h = absurd (ok_ne_err (sym h))
  some_address_inv (a ∷ bound) h = (sym (ok_inj h), (a, bound, refl))

  pub start_inv :
      (f : Flags) {srv : Server} {ls : List Text}
      → start listen f ≡ ok (srv, ls)
      → IsUsable listen f × (srv ≡ server_of f) × (ls ≡ addresses (split_commas f.listen))
  unfolding start validate_config
  start_inv f h =
      let (u, e, k) = >>=-eq-ok (validate_config f.machine f.tailnet f.suffix) _ h in
      let (v, a, b) = >>=-eq-ok (require (given_label f.machine) (invalid_machine f.machine)) _ e in
      let (w, c, d) = >>=-eq-ok (require (given_label f.tailnet) (invalid_tailnet f.tailnet)) _ b in
      let (bound, l, m) = >>=-eq-ok (listen_all listen [] (split_commas f.listen)) _ k in
      let (listeners, n, p) = >>=-eq-ok (some_address bound) _ m in
      let (same, all_bound) = listen_all_inv [] (split_commas f.listen) l in
      let (equal, (first, others, q)) = some_address_inv bound n in
      (
        record {
          machine = require-eq-ok (given_label f.machine) (invalid_machine f.machine) a;
          tailnet = require-eq-ok (given_label f.tailnet) (invalid_tailnet f.tailnet) c;
          suffix = require-eq-ok (validate_label f.suffix) (invalid_suffix f.suffix) d;
          first = first;
          others = others;
          listed = sym same ∙ q;
          bound = all_bound;
        },
        sym (ap (λ x. x.0) (ok_inj p)),
        sym (ap (λ x. x.1) (ok_inj p)) ∙ equal ∙ same,
      )

  start_pass :
      (f : Flags)
      → IsUsable listen f
      → start listen f ≡ ok (server_of f, addresses (split_commas f.listen))
  unfolding start validate_config
  start_pass f u =
      rw (
        u.machine,
        u.tailnet,
        u.suffix,
        listen_all_pass [] (split_commas f.listen) u.bound,
        u.listed,
      )

  -- The service starts exactly where the suffix is a valid label, machine and tailnet are each empty or
  -- one, there is an address, and every address can be bound once those before it are. It then listens
  -- on the trimmed parts of its flag that are not empty, in their order. The host of its pages is the
  -- machine's name, a dot and the tailnet, that of its setup the same behind "setup."; both are empty
  -- where machine or tailnet is.
  pub start_iff :
      (f : Flags) (srv : Server) (ls : List Text)
      → (start listen f ≡ ok (srv, ls))
        ↔ (IsUsable listen f × (srv ≡ server_with f) × (ls ≡ addresses (split_commas f.listen)))
  start_iff f srv ls = (
    λ h. let (u, e, l) = start_inv f h in (u, e ∙ server_of_lem f, l),
    λ (u, e, l). start_pass f u ∙ ap ok (sym (ap₂ (λ a b. (a, b)) (e ∙ sym (server_of_lem f)) l)),
  )

IsSafe-of_given : (s : Text) → given_label s ≡ true → is_empty s ≡ false → All IsSafe s
IsSafe-of_given s h e = validate_label-IsSafe s (ground arith)

IsSafe-empty : (s : Text) → is_empty s ≡ true → All IsSafe s
IsSafe-empty [] h = tt
IsSafe-empty (c ∷ s) h = cc

-- A name that is empty or a label is made of safe characters.
pub IsSafe-given : (s : Text) → given_label s ≡ true → All IsSafe s
IsSafe-given s h = elim (Bool-cases (is_empty s)) [
  | inl e ↦ IsSafe-empty s e
  | inr e ↦ IsSafe-of_given s h e
]
