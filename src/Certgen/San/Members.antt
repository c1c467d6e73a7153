-- ===== src/Certgen/San/Members.antt =====
-- The members and the order of the list of names.
use mathlib.Core.List.{Memᴰ}
use dockerdynomesh.Prelude.{
  ◌≡◌, refl, ◌↔◌, false, List, [], ◌∷◌, ◌++◌, inl, inr, ◌⊎◌, mem-append_left, mem-append_right,
  mem_append_cases, mem-map, mem_map_inv,
}
use dockerdynomesh.Prelude.Sort.{IsSorted, mem-sort, sort-IsSorted}
use dockerdynomesh.Text.{Text, is_empty}
use dockerdynomesh.Text.Order.{text_order}
use dockerdynomesh.Certgen.San.{
  unique, wildcard, dotted, wildcards_at, local_names, remote_names, sans,
}
use dockerdynomesh.Certgen.San.Unique.{mem-unique}

-- `s != ""`
abbrev pub IsGiven : Text → Type 0
IsGiven s = is_empty s ≡ false

-- The names that the comment of `SANs` lists.
pub data IsName (suffixes : List Text) (machine tailnet : Text) (projects : List Text) (n : Text)
    : Type 0 where
  local : (s : Text) → Memᴰ s suffixes → n ≡ wildcard s → IsName suffixes machine tailnet projects n
  local_project :
      (p s : Text)
      → Memᴰ s suffixes
      → Memᴰ p projects
      → n ≡ wildcard (dotted p s)
      → IsName suffixes machine tailnet projects n
  remote :
      IsGiven machine
      → IsGiven tailnet
      → n ≡ wildcard (dotted machine tailnet)
      → IsName suffixes machine tailnet projects n
  remote_project :
      (p : Text)
      → IsGiven machine
      → IsGiven tailnet
      → Memᴰ p projects
      → n ≡ wildcard (dotted p (dotted machine tailnet))
      → IsName suffixes machine tailnet projects n

-- What stands in `wildcards_at`.
IsAt : List Text → Text → Text → Type 0
IsAt projects base n =
    (n ≡ wildcard base) ⊎ ((p : Text) × Memᴰ p projects × (n ≡ wildcard (dotted p base)))

wildcards_at_cases :
    {n : Text} (projects : List Text) (base : Text)
    → Memᴰ n (wildcards_at projects base)
    → IsAt projects base n
unfolding IsAt
wildcards_at_cases projects base (Memᴰ.head e) = inl e
wildcards_at_cases projects base (Memᴰ.tail m) =
    inr (mem_map_inv (λ p. wildcard (dotted p base)) projects m)

mem-wildcards_at :
    {n : Text} (projects : List Text) (base : Text)
    → IsAt projects base n
    → Memᴰ n (wildcards_at projects base)
unfolding IsAt
mem-wildcards_at projects base (inl e) = Memᴰ.head e
mem-wildcards_at projects base (inr (p, m, e)) =
    Memᴰ.tail (rw e (mem-map (λ p. wildcard (dotted p base)) m))

local_names_cases :
    {n : Text} (suffixes projects : List Text)
    → Memᴰ n (local_names suffixes projects)
    → (s : Text) × Memᴰ s suffixes × IsAt projects s n
unfolding local_names
local_names_cases [] projects m = elim m [ ]
local_names_cases (s ∷ suffixes) projects m =
    elim (mem_append_cases (wildcards_at projects s) (local_names suffixes projects) m) [
      | inl k ↦ (s, Memᴰ.head refl, wildcards_at_cases projects s k)
      | inr k ↦ let (t, l, a) = local_names_cases suffixes projects k in (t, Memᴰ.tail l, a)
    ]

mem-local_names :
    {n s : Text} (suffixes projects : List Text)
    → Memᴰ s suffixes
    → IsAt projects s n
    → Memᴰ n (local_names suffixes projects)
unfolding local_names
mem-local_names [] projects m a = elim m [ ]
mem-local_names (t ∷ suffixes) projects (Memᴰ.head e) a =
    mem-append_left (local_names suffixes projects) (mem-wildcards_at projects t (rw (← e) a))
mem-local_names (t ∷ suffixes) projects (Memᴰ.tail m) a =
    mem-append_right (wildcards_at projects t) (mem-local_names suffixes projects m a)

remote_names_cases :
    {n : Text} (machine tailnet : Text) (projects : List Text)
    → Memᴰ n (remote_names machine tailnet projects)
    → IsGiven machine × IsGiven tailnet × IsAt projects (dotted machine tailnet) n
unfolding remote_names
remote_names_cases [] tailnet projects m = elim m [ ]
remote_names_cases (c ∷ machine) [] projects m = elim m [ ]
remote_names_cases (c ∷ machine) (d ∷ tailnet) projects m =
    (refl, refl, wildcards_at_cases projects (dotted (c ∷ machine) (d ∷ tailnet)) m)

mem-remote_names :
    {n : Text} (machine tailnet : Text) (projects : List Text)
    → IsGiven machine
    → IsGiven tailnet
    → IsAt projects (dotted machine tailnet) n
    → Memᴰ n (remote_names machine tailnet projects)
unfolding remote_names
mem-remote_names machine tailnet projects h k a =
    rw (h, k) (mem-wildcards_at projects (dotted machine tailnet) a)

IsAt-unique :
    (projects : List Text) (base n : Text) → IsAt (unique projects) base n → IsAt projects base n
unfolding IsAt
IsAt-unique projects base n (inl e) = inl e
IsAt-unique projects base n (inr (p, m, e)) = inr (p, (mem-unique projects).0 m, e)

unique-IsAt :
    (projects : List Text) (base n : Text) → IsAt projects base n → IsAt (unique projects) base n
unfolding IsAt
unique-IsAt projects base n (inl e) = inl e
unique-IsAt projects base n (inr (p, m, e)) = inr (p, (mem-unique projects).1 m, e)

module _ (suffixes : List Text) (machine tailnet : Text) (projects : List Text) (n : Text) where
  IsName-of_local :
      (s : Text) → Memᴰ s suffixes → IsAt projects s n → IsName suffixes machine tailnet projects n
  unfolding IsAt
  IsName-of_local s m (inl e) = IsName.local s m e
  IsName-of_local s m (inr (p, k, e)) = IsName.local_project p s m k e

  IsName-of_remote :
      IsGiven machine
      → IsGiven tailnet
      → IsAt projects (dotted machine tailnet) n
      → IsName suffixes machine tailnet projects n
  unfolding IsAt
  IsName-of_remote h k (inl e) = IsName.remote h k e
  IsName-of_remote h k (inr (p, m, e)) = IsName.remote_project p h k m e

  IsName-of_mem :
      Memᴰ n (sans suffixes machine tailnet projects) → IsName suffixes machine tailnet projects n
  unfolding sans
  IsName-of_mem m =
      let all_names =
        local_names suffixes (unique projects) ++ remote_names machine tailnet (unique projects) in
      elim (mem_append_cases (local_names suffixes (unique projects)) _
        ((mem-sort all_names).0 m)) [
          | inl l ↦
              let (s, k, a) = local_names_cases suffixes (unique projects) l in
              IsName-of_local s k (IsAt-unique projects _ n a)
          | inr r ↦
              let (h, k, a) = remote_names_cases machine tailnet (unique projects) r in
              IsName-of_remote h k (IsAt-unique projects _ n a)
        ]

  from_local :
      (s : Text)
      → Memᴰ s suffixes
      → IsAt projects s n
      → Memᴰ n (sans suffixes machine tailnet projects)
  unfolding sans
  from_local s m a = (mem-sort _).1 (
      mem-append_left _ (mem-local_names suffixes (unique projects) m (unique-IsAt projects _ n a)))

  from_remote :
      IsGiven machine
      → IsGiven tailnet
      → IsAt projects (dotted machine tailnet) n
      → Memᴰ n (sans suffixes machine tailnet projects)
  unfolding sans
  from_remote h k a = (mem-sort _).1 (
      mem-append_right (local_names suffixes (unique projects))
        (mem-remote_names machine tailnet (unique projects) h k (unique-IsAt projects _ n a)))

  mem_of_name :
      IsName suffixes machine tailnet projects n → Memᴰ n (sans suffixes machine tailnet projects)
  unfolding IsAt
  mem_of_name (IsName.local s m e) = from_local s m (inl e)
  mem_of_name (IsName.local_project p s m k e) = from_local s m (inr (p, k, e))
  mem_of_name (IsName.remote h k e) = from_remote h k (inl e)
  mem_of_name (IsName.remote_project p h k m e) = from_remote h k (inr (p, m, e))

  -- The list of names holds exactly the local wildcard of each suffix, that of each project below
  -- each suffix, and, when machine and tailnet are both set, the same two at the remote base.
  pub mem-sans :
      Memᴰ n (sans suffixes machine tailnet projects) ↔ IsName suffixes machine tailnet projects n
  mem-sans = (IsName-of_mem, mem_of_name)

-- The list of names is in ascending order, code point by code point.
pub sans-IsSorted :
    (suffixes : List Text) (machine tailnet : Text) (projects : List Text)
    → IsSorted (sans suffixes machine tailnet projects)
unfolding sans
sans-IsSorted suffixes machine tailnet projects =
    let distinct = unique projects in
    sort-IsSorted (local_names suffixes distinct ++ remote_names machine tailnet distinct)
