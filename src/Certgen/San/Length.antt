-- ===== src/Certgen/San/Length.antt =====
-- How many names `SANs` gives.
use mathlib.Core.List.{Memᴰ}
use native.Mathlib.Nat.{suc-mul}
use dockerdynomesh.Prelude.{
  ℕ, ◌+◌, ◌*◌, ◌≡◌, refl, ap, ◌∙◌, not, ◌&&◌, List, [], ◌∷◌, ◌++◌, any, length, length-map,
  length-append, length_perm, IsDistinct, Bool-cases, inl, inr, if◌then◌else◌, arith,
}
use dockerdynomesh.Prelude.Sort.{sort-perm}
use dockerdynomesh.Text.{Text, ◌==◌, is_empty}
use dockerdynomesh.Text.Order.{text_order, mem_of_any}
use dockerdynomesh.Certgen.San.{
  unique_onto, unique, wildcard, wildcards_at, local_names, remote_names, dotted, sans,
}

-- The names below the remote domain, where one is given.
abbrev pub remote_count : Text → Text → List Text → ℕ
remote_count machine tailnet projects =
    if not (is_empty machine) && not (is_empty tailnet) then length projects + 1 else 0

fresh_above :
    {p q : Text} {seen ps : List Text}
    → ((p : Text) → Memᴰ p ps → ¬ Memᴰ p seen)
    → ¬ Memᴰ p ps
    → Memᴰ q ps
    → ¬ Memᴰ q (p ∷ seen)
fresh_above h fresh m (Memᴰ.head e) = fresh (rw (← e) m)
fresh_above h fresh m (Memᴰ.tail k) = h _ m k

unique_onto_of_distinct :
    (seen ps : List Text)
    → ((p : Text) → Memᴰ p ps → ¬ Memᴰ p seen)
    → IsDistinct ps
    → unique_onto seen ps ≡ ps
unfolding unique_onto
unique_onto_of_distinct seen [] h d = refl
unique_onto_of_distinct seen (p ∷ ps) h (fresh, d) = elim (Bool-cases (any (◌==◌ p) seen)) [
  | inl e ↦ absurd (h p (Memᴰ.head refl) (mem_of_any p seen e))
  | inr e ↦ rw e (
      ap (λ kept. p ∷ kept)
        (unique_onto_of_distinct (p ∷ seen) ps
          (λ q m. fresh_above (λ r k. h r (Memᴰ.tail k)) fresh m) d))
]

length-wildcards_at :
    (projects : List Text) (base : Text) → length (wildcards_at projects base) ≡ length projects + 1
length-wildcards_at projects base =
    omega (arith, length-map (λ p. wildcard (dotted p base)) projects)

length-local_names :
    (suffixes projects : List Text)
    → length (local_names suffixes projects) ≡ length suffixes * (length projects + 1)
unfolding local_names
length-local_names [] projects = omega arith
length-local_names (s ∷ suffixes) projects = omega (
  arith,
  length-append (wildcards_at projects s) (local_names suffixes projects),
  length-wildcards_at projects s,
  length-local_names suffixes projects,
  suc-mul (length suffixes) (length projects + 1),
)

length-remote_names :
    (machine tailnet : Text) (projects : List Text)
    → length (remote_names machine tailnet projects) ≡ remote_count machine tailnet projects
unfolding remote_names
length-remote_names machine tailnet projects =
    elim (Bool-cases (not (is_empty machine) && not (is_empty tailnet))) [
      | inl e ↦ rw e (length-wildcards_at projects (dotted machine tailnet))
      | inr e ↦ rw e refl
    ]

pub length-sans :
    (suffixes : List Text) (machine tailnet : Text) (projects : List Text)
    → IsDistinct projects
    → length (sans suffixes machine tailnet projects)
      ≡ length suffixes * (length projects + 1) + remote_count machine tailnet projects
unfolding sans unique
length-sans suffixes machine tailnet projects d =
    rw (unique_onto_of_distinct [] projects (λ p m k. elim k [ ]) d) (
      length_perm
        (sort-perm (local_names suffixes projects ++ remote_names machine tailnet projects))
      ∙ length-append (local_names suffixes projects) (remote_names machine tailnet projects)
      ∙ ap (λ n. n + length (remote_names machine tailnet projects))
          (length-local_names suffixes projects)
      ∙ ap (λ n. length suffixes * (length projects + 1) + n)
          (length-remote_names machine tailnet projects))
