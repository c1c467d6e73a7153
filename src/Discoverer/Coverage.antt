-- ===== src/Discoverer/Coverage.antt =====
-- Host names against certificate names: a wildcard covers exactly one more label.
use mathlib.Core.List.{Memᴰ, append_assoc}
use dockerdynomesh.Prelude.{
  ℕ, ◌≡◌, refl, ap, subst, ◌∙◌, false, not, ◌&&◌, List, [], ◌∷◌, map, some, inl, inr, Bool-cases,
  mem_append_cases, mem_map_inv, mem_singleton, any, eqb, if◌then◌else◌,
}
use dockerdynomesh.Prelude.Sort.{sort, mem-sort}
use dockerdynomesh.Text.{Text, is_empty, lower_rune, to_lower}
use dockerdynomesh.Text.Order.{text_order}
use dockerdynomesh.Inspect.{
  Config, InspectResponse, label, project_label, service_label, project_in, projects_of,
  infer_hostname,
}
use dockerdynomesh.Inspect.Projects.{projects_of_lem}
use dockerdynomesh.Render.{host_names}
use dockerdynomesh.Certgen.San.{dotted, wildcard, sans}
use dockerdynomesh.Certgen.San.Members.{IsName, IsGiven, mem-sans}

-- A label of a host name: not empty, and without a dot.
pub record IsOneLabel (l : Text) : Type 0 where
  pub given : is_empty l ≡ false
  pub no_dot : any (λ c. eqb c b'.') l ≡ false

-- RFC 6125: the asterisk stands for one label.
pub record Covers (n host : Text) : Type 0 where
  pub first : Text
  pub base : Text
  pub one_label : IsOneLabel first
  pub name : n ≡ wildcard base
  pub host_lem : host ≡ dotted first base

-- Some name of the certificate covers the host.
abbrev pub IsCovered : List Text → Text → Type 0
IsCovered names host = (n : Text) × Memᴰ n names × Covers n host

-- A base domain of the certificate: a suffix, or the remote base.
data IsBase (suffixes : List Text) (machine tailnet : Text) : Text → Type 0 where
  local : (s : Text) → Memᴰ s suffixes → IsBase suffixes machine tailnet s
  remote :
      IsGiven machine → IsGiven tailnet → IsBase suffixes machine tailnet (dotted machine tailnet)

module _ (suffixes : List Text) (machine tailnet : Text) where
  remote-IsBase :
      (hostname host : Text)
      → Memᴰ host (
          if not (is_empty machine) && not (is_empty tailnet)
          then dotted hostname (dotted machine tailnet) ∷ []
          else [])
      → (b : Text) × IsBase suffixes machine tailnet b × (host ≡ dotted hostname b)
  remote-IsBase hostname host m = elim (Bool-cases (is_empty machine)) [
    | inl e ↦ absurd (elim (rw e at m) [ ])
    | inr e ↦ elim (Bool-cases (is_empty tailnet)) [
      | inl f ↦ absurd (elim (rw (e, f) at m) [ ])
      | inr f ↦ (dotted machine tailnet, IsBase.remote e f, mem_singleton (rw (e, f) at m))
    ]
  ]

  host-IsBase :
      (hostname host : Text)
      → Memᴰ host (host_names (sort suffixes) machine tailnet hostname)
      → (b : Text) × IsBase suffixes machine tailnet b × (host ≡ dotted hostname b)
  unfolding host_names
  host-IsBase hostname host m =
      elim (mem_append_cases (map (dotted hostname) (sort suffixes)) _ m) [
        | inl k ↦
            let (s, l, e) = mem_map_inv (dotted hostname) (sort suffixes) k in
            (s, IsBase.local s ((mem-sort suffixes).0 l), e)
        | inr k ↦ remote-IsBase hostname host k
      ]

  module _ (projects : List Text) where
    base_name :
        {b : Text}
        → IsBase suffixes machine tailnet b
        → Memᴰ (wildcard b) (sans suffixes machine tailnet projects)
    base_name {b} (IsBase.local s m) =
        (mem-sans suffixes machine tailnet projects (wildcard b)).1 (IsName.local s m refl)
    base_name {b} (IsBase.remote h k) =
        (mem-sans suffixes machine tailnet projects (wildcard b)).1 (IsName.remote h k refl)

    project_name :
        {b : Text} (p : Text)
        → IsBase suffixes machine tailnet b
        → Memᴰ p projects
        → Memᴰ (wildcard (dotted p b)) (sans suffixes machine tailnet projects)
    project_name p (IsBase.local s m) k =
        (mem-sans suffixes machine tailnet projects _).1 (IsName.local_project p s m k refl)
    project_name p (IsBase.remote h l) k =
        (mem-sans suffixes machine tailnet projects _).1 (IsName.remote_project p h l k refl)

    -- A host name of one label is covered by the wildcard of its base.
    IsCovered-by_base :
        (hostname host : Text)
        → IsOneLabel hostname
        → Memᴰ host (host_names (sort suffixes) machine tailnet hostname)
        → IsCovered (sans suffixes machine tailnet projects) host
    IsCovered-by_base hostname host one m =
        let (b, k, e) = host-IsBase hostname host m in
        (
          wildcard b,
          base_name k,
          record { first = hostname; base = b; one_label = one; name = refl; host_lem = e },
        )

    -- A host name of a label and a project is covered by the wildcard of the project.
    IsCovered-by_project :
        (l p host : Text)
        → IsOneLabel l
        → Memᴰ p projects
        → Memᴰ host (host_names (sort suffixes) machine tailnet (dotted l p))
        → IsCovered (sans suffixes machine tailnet projects) host
    IsCovered-by_project l p host one k m =
        let (b, i, e) = host-IsBase (dotted l p) host m in
        (
          wildcard (dotted p b),
          project_name p i k,
          record {
            first = l;
            base = dotted p b;
            one_label = one;
            name = refl;
            host_lem = e ∙ append_assoc l (b'.' ∷ p) (b'.' ∷ b);
          },
        )

to_lower-dotted :
    (lower : ℕ → ℕ) (s t : Text)
    → to_lower lower (dotted s t) ≡ dotted (to_lower lower s) (to_lower lower t)
unfolding to_lower
to_lower-dotted lower [] t = refl
to_lower-dotted lower (c ∷ s) t = ap (◌∷◌ (lower_rune lower c)) (to_lower-dotted lower s t)

infer_hostname_compose :
    (lower : ℕ → ℕ) (name : Text) (config : Config)
    → is_empty (label project_label config.labels) ≡ false
    → is_empty (label service_label config.labels) ≡ false
    → infer_hostname lower name config
      ≡ dotted
          (to_lower lower (label service_label config.labels))
          (to_lower lower (label project_label config.labels))
unfolding infer_hostname
infer_hostname_compose lower name config h k =
    rw (h, k)
      (to_lower-dotted lower (label service_label config.labels)
        (label project_label config.labels))

module _ (lower : ℕ → ℕ) (suffixes : List Text) (machine tailnet : Text) (cs : List InspectResponse)
    (c : InspectResponse) (config : Config) (host : Text) where
  -- The host names in the rule of the container's router.
  abbrev pub hosts_of_container : List Text
  hosts_of_container =
      host_names (sort suffixes) machine tailnet (infer_hostname lower c.name config)

  -- The certificate for the projects of the containers covers every host name in the rule of a
  -- compose container among them, whose project label is in lower case and whose service, in
  -- lower case, is one label.
  pub compose-IsCovered :
      Memᴰ c cs
      → c.config ≡ some config
      → is_empty (label project_label config.labels) ≡ false
      → is_empty (label service_label config.labels) ≡ false
      → to_lower lower (label project_label config.labels) ≡ label project_label config.labels
      → IsOneLabel (to_lower lower (label service_label config.labels))
      → Memᴰ host hosts_of_container
      → IsCovered (sans suffixes machine tailnet (projects_of cs)) host
  compose-IsCovered m e p s low one h =
      let project = label project_label config.labels in
      let service = to_lower lower (label service_label config.labels) in
      let named : infer_hostname lower c.name config ≡ dotted service project =
        infer_hostname_compose lower c.name config p s ∙ ap (dotted service) low in
      let known = ((projects_of_lem cs).2 project).1 (c, m, ap project_in e, p) in
      IsCovered-by_project suffixes machine tailnet (projects_of cs) service project host one known
        (subst (λ x. Memᴰ host (host_names (sort suffixes) machine tailnet x)) named h)

  -- The certificate, whatever its projects, covers every host name in the rule of a container
  -- whose own host name is one label, such as one outside of compose with no dot in its name.
  pub standalone-IsCovered :
      IsOneLabel (infer_hostname lower c.name config)
      → Memᴰ host hosts_of_container
      → IsCovered (sans suffixes machine tailnet (projects_of cs)) host
  standalone-IsCovered one h =
      IsCovered-by_base suffixes machine tailnet (projects_of cs)
        (infer_hostname lower c.name config) host one h
