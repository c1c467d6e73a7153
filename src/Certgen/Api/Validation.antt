-- ===== src/Certgen/Api/Validation.antt =====
-- Which requests reach the reissue.
use mathlib.Core.List.{Memᴰ}
use dockerdynomesh.Prelude.{
  ℕ, ◌≡◌, refl, ◌↔◌, true, false, not, List, [], ◌∷◌, Option, none, some, Bool-cases, arith, inl,
  inr, ◌⊎◌,
}
use dockerdynomesh.Prelude.Result.{Result, ok, err, require, >>=-eq-ok, require-eq-ok}
use dockerdynomesh.Text.{Text, codes, ◌==◌}
use dockerdynomesh.Files.{Files}
use dockerdynomesh.Certgen.San.{validate_label}
use dockerdynomesh.Certgen.Reissue.{Reissuer, Tools, reissue}
use dockerdynomesh.Certgen.Api.{
  ReissueRequest, Message, suffixes_required, invalid_suffix, invalid_project, invalid_machine_name,
  invalid_tailnet_domain, Response, check_labels, given_label, is_none, validate, requested_sans,
  answer, validated, decoded, handle_reissue, max_body,
}

-- A request whose every field may be interpolated into a certificate.
pub record IsValid (body : ReissueRequest) : Type 0 where
  pub some_suffix : is_none body.suffixes ≡ false
  pub suffixes : (s : Text) → Memᴰ s body.suffixes → validate_label s ≡ true
  pub machine : given_label body.machine_name ≡ true
  pub tailnet : given_label body.tailnet_domain ≡ true
  pub projects : (p : Text) → Memᴰ p body.projects → validate_label p ≡ true

check_labels_inv :
    (invalid : Text → Message) (ls : List Text) {u : Unit {0}}
    → check_labels invalid ls ≡ ok u
    → (s : Text) → Memᴰ s ls
    → validate_label s ≡ true
unfolding check_labels
check_labels_inv invalid [] h s m = elim m [ ]
check_labels_inv invalid (t ∷ ls) h s (Memᴰ.head e) = rw e (ground arith)
check_labels_inv invalid (t ∷ ls) h s (Memᴰ.tail m) =
    check_labels_inv invalid ls {u = tt} (ground arith) s m

check_labels_pass :
    (invalid : Text → Message) (ls : List Text)
    → ((s : Text) → Memᴰ s ls → validate_label s ≡ true)
    → check_labels invalid ls ≡ ok tt
unfolding check_labels
check_labels_pass invalid [] h = refl
check_labels_pass invalid (t ∷ ls) h =
    rw (h t (Memᴰ.head refl)) (check_labels_pass invalid ls (λ s m. h s (Memᴰ.tail m)))

IsValid-of_validate : (body : ReissueRequest) {u : Unit {0}} → validate body ≡ ok u → IsValid body
unfolding validate
IsValid-of_validate body h =
    let (u, e, k) = >>=-eq-ok (require (not (is_none body.suffixes)) suffixes_required) _ h in
    let (v, f, l) = >>=-eq-ok (check_labels invalid_suffix body.suffixes) _ k in
    let (w, g, m) = >>=-eq-ok (require (given_label body.machine_name) invalid_machine_name) _ l in
    let (x, i, n) =
      >>=-eq-ok (require (given_label body.tailnet_domain) invalid_tailnet_domain) _ m in
    record {
      some_suffix = ground arith;
      suffixes = check_labels_inv invalid_suffix body.suffixes f;
      machine = require-eq-ok (given_label body.machine_name) invalid_machine_name g;
      tailnet = require-eq-ok (given_label body.tailnet_domain) invalid_tailnet_domain i;
      projects = check_labels_inv invalid_project body.projects n;
    }

validate_of_IsValid : (body : ReissueRequest) → IsValid body → validate body ≡ ok tt
unfolding validate
validate_of_IsValid body v = rw (
  v.some_suffix,
  check_labels_pass _ body.suffixes v.suffixes,
  v.machine,
  v.tailnet,
  check_labels_pass _ body.projects v.projects,
)

-- The checks pass exactly where every field is a valid label, machine and tailnet possibly empty, and
-- there is a suffix.
pub validate_iff : (body : ReissueRequest) → (validate body ≡ ok tt) ↔ IsValid body
validate_iff body = (IsValid-of_validate body, validate_of_IsValid body)

module _ {A Wire : Type 0} (tools : Tools A) (decode : ℕ → Wire → Option ReissueRequest)
    (r : Reissuer) where
  -- The request is refused with a client error and the files stay as they are.
  abbrev pub Refused : Response × Files A → Files A → Type 0
  Refused answered fs = (answered.1 ≡ fs) × ((answered.0.status ≡ 400) ⊎ (answered.0.status ≡ 405))

  -- A valid request was decoded, and the answer is that of the reissue of its names.
  pub record Accepted (now : ℕ) (method : Text) (body : Wire) (fs : Files A)
      (answered : Response × Files A) : Type 0 where
    pub request : ReissueRequest
    pub post : (method == codes "POST") ≡ true
    pub read : decode max_body body ≡ some request
    pub valid : IsValid request
    pub answer_lem : answered ≡ (
      answer (requested_sans request) (reissue tools now r (requested_sans request) fs).0,
      (reissue tools now r (requested_sans request) fs).1,
    )

  Accepted-or_Refused :
      (now : ℕ) (method : Text) (body : Wire) (fs : Files A)
      → (method == codes "POST") ≡ true
      → (o : Option ReissueRequest) → decode max_body body ≡ o
      → Refused (decoded tools decode r now o fs) fs
        ⊎ Accepted now method body fs (decoded tools decode r now o fs)
  unfolding decoded
  Accepted-or_Refused now method body fs e none d = inl (refl, inl refl)
  Accepted-or_Refused now method body fs e (some request) d = checked (validate request) refl
    where
      checked :
          (v : Result Message (Unit {0}))
          → validate request ≡ v
          → Refused (validated tools decode r now request v fs) fs
            ⊎ Accepted now method body fs (validated tools decode r now request v fs)
      checked (err m) q = inl (refl, inl refl)
      checked (ok u) q = inr (record {
        request = request;
        post = e;
        read = d;
        valid = IsValid-of_validate request q;
        answer_lem = refl;
      })

  -- A call of the handler is refused with status 400 or 405 and changes no file, unless it is a POST
  -- whose body decodes to a valid request; then it is the reissue of the names of that request.
  pub handle_reissue_cases :
      (now : ℕ) (method : Text) (body : Wire) (fs : Files A)
      → Refused (handle_reissue tools decode r now method body fs) fs
        ⊎ Accepted now method body fs (handle_reissue tools decode r now method body fs)
  unfolding handle_reissue
  handle_reissue_cases now method body fs = elim (Bool-cases (method == codes "POST")) [
    | inr e ↦ rw e (inl (refl, inr refl))
    | inl e ↦ rw e (Accepted-or_Refused now method body fs e (decode max_body body) refl)
  ]
