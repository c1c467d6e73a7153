-- ===== src/Certgen/San/Unique.antt =====
-- The loop that drops repeated projects keeps each project once.
use mathlib.Core.List.{Memᴰ}
use dockerdynomesh.Prelude.{
  refl, ◌↔◌, List, [], ◌∷◌, any, Bool-cases, inl, inr, ◌⊎◌, mem-cons_mono, IsDistinct,
}
use dockerdynomesh.Text.{Text, ◌==◌}
use dockerdynomesh.Text.Order.{mem_of_any, not-mem_of_any}
use dockerdynomesh.Certgen.San.{unique_onto, unique}

new_or_kept :
    {q : Text} (p : Text) (seen : List Text)
    → ¬ Memᴰ p seen
    → (kept : List Text) → (Memᴰ q kept → ¬ Memᴰ q (p ∷ seen))
    → Memᴰ q (p ∷ kept)
    → ¬ Memᴰ q seen
new_or_kept p seen fresh kept ih (Memᴰ.head e) k = fresh (rw (← e) k)
new_or_kept p seen fresh kept ih (Memᴰ.tail m) k = ih m (Memᴰ.tail k)

skipped :
    {q p : Text} {seen ps kept : List Text}
    → Memᴰ q (p ∷ ps)
    → Memᴰ p seen
    → (Memᴰ q ps → Memᴰ q seen ⊎ Memᴰ q kept)
    → Memᴰ q seen ⊎ Memᴰ q kept
skipped (Memᴰ.head e) s ih = inl (rw e s)
skipped (Memᴰ.tail m) s ih = ih m

added :
    {q p : Text} {seen ps kept : List Text}
    → Memᴰ q (p ∷ ps)
    → (Memᴰ q ps → Memᴰ q (p ∷ seen) ⊎ Memᴰ q kept)
    → Memᴰ q seen ⊎ Memᴰ q (p ∷ kept)
added (Memᴰ.head e) ih = inr (Memᴰ.head e)
added (Memᴰ.tail m) ih = elim (ih m) [
  | inl (Memᴰ.head e) ↦ inr (Memᴰ.head e)
  | inl (Memᴰ.tail k) ↦ inl k
  | inr k ↦ inr (Memᴰ.tail k)
]

unique_onto_mem : {q : Text} (seen ps : List Text) → Memᴰ q (unique_onto seen ps) → Memᴰ q ps
unfolding unique_onto
unique_onto_mem seen [] m = m
unique_onto_mem seen (p ∷ ps) m = elim (Bool-cases (any (◌==◌ p) seen)) [
  | inl e ↦ Memᴰ.tail (unique_onto_mem seen ps (rw (e, unique_onto) at m))
  | inr e ↦ mem-cons_mono (unique_onto_mem (p ∷ seen) ps) (rw (e, unique_onto) at m)
]

not-mem-unique_onto :
    {q : Text} (seen ps : List Text) → Memᴰ q (unique_onto seen ps) → ¬ Memᴰ q seen
unfolding unique_onto
not-mem-unique_onto seen [] m = elim m [ ]
not-mem-unique_onto {q} seen (p ∷ ps) m = elim (Bool-cases (any (◌==◌ p) seen)) [
  | inl e ↦ not-mem-unique_onto seen ps (rw (e, unique_onto) at m)
  | inr e ↦
      new_or_kept p seen (not-mem_of_any p seen e) (unique_onto (p ∷ seen) ps)
        (λ k. not-mem-unique_onto (p ∷ seen) ps k) (rw (e, unique_onto) at m)
]

mem-unique_onto :
    {q : Text} (seen ps : List Text) → Memᴰ q ps → Memᴰ q seen ⊎ Memᴰ q (unique_onto seen ps)
unfolding unique_onto
mem-unique_onto seen [] m = elim m [ ]
mem-unique_onto {q} seen (p ∷ ps) m = elim (Bool-cases (any (◌==◌ p) seen)) [
  | inl e ↦ rw (e, unique_onto) (skipped m (mem_of_any p seen e) (mem-unique_onto seen ps))
  | inr e ↦ rw (e, unique_onto) (added m (mem-unique_onto (p ∷ seen) ps))
]

unique_onto-IsDistinct : (seen ps : List Text) → IsDistinct (unique_onto seen ps)
unfolding unique_onto
unique_onto-IsDistinct seen [] = tt
unique_onto-IsDistinct seen (p ∷ ps) = elim (Bool-cases (any (◌==◌ p) seen)) [
  | inl e ↦ rw (e, unique_onto) (unique_onto-IsDistinct seen ps)
  | inr e ↦
      rw (e, unique_onto)
        (
          (λ m. not-mem-unique_onto (p ∷ seen) ps m (Memᴰ.head refl)),
          unique_onto-IsDistinct (p ∷ seen) ps,
        )
]

pub mem-unique : {q : Text} (ps : List Text) → Memᴰ q (unique ps) ↔ Memᴰ q ps
unfolding unique
mem-unique ps = (
  unique_onto_mem [] ps,
  λ m. elim (mem-unique_onto [] ps m) [ inl k ↦ absurd (elim k [ ]) | inr k ↦ k ],
)

pub unique-IsDistinct : (ps : List Text) → IsDistinct (unique ps)
unfolding unique
unique-IsDistinct = unique_onto-IsDistinct []
