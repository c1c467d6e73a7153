-- ===== src/Inspect/Projects.antt =====
-- `ProjectsOf`: a sorted set.
use mathlib.Core.List.{Memᴰ}
use mathlib.Core.List.Permᴰ
use dockerdynomesh.Prelude.{
  ◌≡◌, refl, ◌↔◌, ◌∙◌, ap, sym, false, List, [], ◌∷◌, any, IsDistinct, IsDistinct-perm,
  IsDistinct-append_one, mem-append_left, mem-append_right, mem_append_cases, Bool-cases, inl, inr,
  ◌⊎◌, if◌then◌else◌,
}
use dockerdynomesh.Prelude.Sort.{IsSorted, sort-perm, mem-sort, sort-IsSorted}
use dockerdynomesh.Text.{Text, ◌==◌, is_empty}
use dockerdynomesh.Text.Order.{text_order, mem_of_any, not-mem_of_any}
use dockerdynomesh.Inspect.{InspectResponse, project_of, add_key, seen_projects, projects_of}

-- Some container of the list has the project, which is not the empty text.
abbrev pub HasProject : List InspectResponse → Text → Type 0
HasProject cs p = (c : InspectResponse) × Memᴰ c cs × (project_of c ≡ p) × (is_empty p ≡ false)

add_key-IsDistinct : (p : Text) (seen : List Text) → IsDistinct seen → IsDistinct (add_key p seen)
unfolding add_key
add_key-IsDistinct p seen d = elim (Bool-cases (any (◌==◌ p) seen)) [
  | inl e ↦ rw e d
  | inr e ↦ rw e (IsDistinct-append_one p seen (not-mem_of_any p seen e) d)
]

add_key_cases :
    {q : Text} (p : Text) (seen : List Text) → Memᴰ q (add_key p seen) → Memᴰ q seen ⊎ (q ≡ p)
unfolding add_key
add_key_cases p seen m = elim (Bool-cases (any (◌==◌ p) seen)) [
  | inl e ↦ inl (rw e at m)
  | inr e ↦ elim (mem_append_cases seen (p ∷ []) (rw e at m)) [
    | inl k ↦ inl k
    | inr (Memᴰ.head h) ↦ inr h
    | inr (Memᴰ.tail k) ↦ absurd (elim k [ ])
  ]
]

mem-add_key_self : (p : Text) (seen : List Text) → Memᴰ p (add_key p seen)
unfolding add_key
mem-add_key_self p seen = elim (Bool-cases (any (◌==◌ p) seen)) [
  | inl e ↦ rw e (mem_of_any p seen e)
  | inr e ↦ rw e (mem-append_right seen (Memᴰ.head refl))
]

mem-add_key : {q : Text} (p : Text) (seen : List Text) → Memᴰ q seen → Memᴰ q (add_key p seen)
unfolding add_key
mem-add_key p seen m = elim (Bool-cases (any (◌==◌ p) seen)) [
  | inl e ↦ rw e m
  | inr e ↦ rw e (mem-append_left (p ∷ []) m)
]

seen_projects-IsDistinct :
    (seen : List Text) (cs : List InspectResponse)
    → IsDistinct seen
    → IsDistinct (seen_projects seen cs)
unfolding seen_projects
seen_projects-IsDistinct seen [] d = d
seen_projects-IsDistinct seen (c ∷ cs) d = elim (Bool-cases (is_empty (project_of c))) [
  | inl e ↦ rw e (seen_projects-IsDistinct seen cs d)
  | inr e ↦ rw e (
      seen_projects-IsDistinct (add_key (project_of c) seen) cs
        (add_key-IsDistinct (project_of c) seen d))
]

HasProject-tail :
    {p : Text} (c : InspectResponse) {cs : List InspectResponse}
    → HasProject cs p
    → HasProject (c ∷ cs) p
HasProject-tail c (d, m, e, n) = (d, Memᴰ.tail m, e, n)

seen_projects_cases :
    {p : Text} (seen : List Text) (cs : List InspectResponse)
    → Memᴰ p (seen_projects seen cs)
    → Memᴰ p seen ⊎ HasProject cs p
unfolding seen_projects
seen_projects_cases seen [] m = inl m
seen_projects_cases seen (c ∷ cs) m = elim (Bool-cases (is_empty (project_of c))) [
  | inl e ↦ elim (seen_projects_cases seen cs (rw e at m)) [
    | inl k ↦ inl k
    | inr h ↦ inr (HasProject-tail c h)
  ]
  | inr e ↦ elim (seen_projects_cases (add_key (project_of c) seen) cs (rw e at m)) [
    | inr h ↦ inr (HasProject-tail c h)
    | inl k ↦ elim (add_key_cases (project_of c) seen k) [
      | inl l ↦ inl l
      | inr q ↦ inr (c, Memᴰ.head refl, sym q, rw q e)
    ]
  ]
]

mem-seen_projects_left :
    {p : Text} (seen : List Text) (cs : List InspectResponse)
    → Memᴰ p seen
    → Memᴰ p (seen_projects seen cs)
unfolding seen_projects
mem-seen_projects_left seen [] m = m
mem-seen_projects_left seen (c ∷ cs) m = elim (Bool-cases (is_empty (project_of c))) [
  | inl e ↦ rw e (mem-seen_projects_left seen cs m)
  | inr e ↦
      rw e (
        mem-seen_projects_left (add_key (project_of c) seen) cs (mem-add_key (project_of c) seen m))
]

mem-seen_projects :
    {p : Text} (seen : List Text) (cs : List InspectResponse) (c : InspectResponse)
    → Memᴰ c cs
    → project_of c ≡ p
    → is_empty p ≡ false
    → Memᴰ p (seen_projects seen cs)
unfolding seen_projects
mem-seen_projects seen [] c m e n = elim m [ ]
mem-seen_projects {p} seen (d ∷ cs) c (Memᴰ.head h) e n =
    let q : project_of d ≡ p = ap project_of (sym h) ∙ e in
    rw (q, n) (mem-seen_projects_left _ cs (mem-add_key_self p seen))
mem-seen_projects seen (d ∷ cs) c (Memᴰ.tail m) e n =
    mem-seen_projects (if is_empty (project_of d) then seen else add_key (project_of d) seen) cs c m
      e n

-- The result is ascending and has no repetition, and its members are exactly the projects that the
-- labels of some container name.
pub projects_of_lem :
    (cs : List InspectResponse)
    → IsSorted (projects_of cs)
      × IsDistinct (projects_of cs)
      × ((p : Text) → Memᴰ p (projects_of cs) ↔ HasProject cs p)
unfolding projects_of
projects_of_lem cs = (
  sort-IsSorted (seen_projects [] cs),
  IsDistinct-perm (Permᴰ.symm (sort-perm (seen_projects [] cs)))
      (seen_projects-IsDistinct [] cs tt),
  λ p. (
    (λ m. elim (seen_projects_cases [] cs ((mem-sort (seen_projects [] cs)).0 m)) [
      | inl k ↦ absurd (elim k [ ])
      | inr h ↦ h
    ]),
    (λ (c, m, e, n). (mem-sort (seen_projects [] cs)).1 (mem-seen_projects [] cs c m e n)),
  ),
)
