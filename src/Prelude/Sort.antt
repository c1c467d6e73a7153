-- ===== src/Prelude/Sort.antt =====
-- Ascending order of lists by a total order. `sort.Strings` and `sort.Ints` return the one
-- ascending permutation of their input, whatever the algorithm: `sort_unique`.
use mathlib.Core.Path.{◌≡◌, refl, ap₂, sym, ◌∙◌}
use mathlib.Core.Logic.{◌↔◌, inl, inr}
use mathlib.Core.Bool.{Bool, true, false}
use mathlib.Core.List.{List, [], ◌∷◌, Memᴰ, Permᴰ}
use mathlib.Core.List.Permᴰ
use native.Mathlib.Omega.{arith}
use dockerdynomesh.Prelude.Tests.{if◌then◌else◌, Bool-cases}
use dockerdynomesh.Prelude.Lists.{mem_of_perm}

pub record Order {ℓ} (A : Type ℓ) : Type ℓ where
  pub le : A → A → Bool
  pub total : (a b : A) → le a b ≡ false → le b a ≡ true
  pub trans : (a b c : A) → le a b ≡ true → le b c ≡ true → le a c ≡ true
  pub antisymm : (a b : A) → le a b ≡ true → le b a ≡ true → a ≡ b

module _ {ℓ} {A : Type ℓ} ⦃o : Order A⦄ where
  abbrev pub IsBelow : A → List A → Type ℓ
  IsBelow a l = (b : A) → Memᴰ b l → o.le a b ≡ true

  abbrev pub IsSorted : List A → Type ℓ
  IsSorted [] = Unit
  IsSorted (x ∷ xs) = IsBelow x xs × IsSorted xs

  insert : A → List A → List A
  insert x [] = x ∷ []
  insert x (y ∷ ys) = let rest = insert x ys in if o.le x y then x ∷ y ∷ ys else y ∷ rest

  unfoldable pub sort : List A → List A
  unfolding insert
  sort [] = []
  sort (x ∷ xs) = insert x (sort xs)

  insert-perm : (x : A) (l : List A) → Permᴰ (insert x l) (x ∷ l)
  unfolding insert
  insert-perm x [] = Permᴰ.refl (x ∷ [])
  insert-perm x (y ∷ ys) = elim (Bool-cases (o.le x y)) [
    | inl e ↦ rw (e, insert) (Permᴰ.refl (x ∷ y ∷ ys))
    | inr e ↦
        rw (e, insert) (Permᴰ.trans (Permᴰ.cons refl (insert-perm x ys)) (Permᴰ.swap refl refl))
  ]

  pub sort-perm : (l : List A) → Permᴰ (sort l) l
  unfolding sort
  sort-perm [] = Permᴰ.nil
  sort-perm (x ∷ xs) = Permᴰ.trans (insert-perm x (sort xs)) (Permᴰ.cons refl (sort-perm xs))

  pub mem-sort : {a : A} (l : List A) → Memᴰ a (sort l) ↔ Memᴰ a l
  mem-sort l = (mem_of_perm (sort-perm l), mem_of_perm (Permᴰ.symm (sort-perm l)))

  IsBelow-cons : {a b : A} {l : List A} → o.le a b ≡ true → IsBelow a l → IsBelow a (b ∷ l)
  IsBelow-cons {a} h k c (Memᴰ.head e) = rw e h
  IsBelow-cons h k c (Memᴰ.tail m) = k c m

  le_refl : (a : A) → o.le a a ≡ true
  le_refl a = ground (arith, o.total a a)

  IsBelow-head : (a b : A) {l : List A} → o.le a b ≡ true → IsBelow b l → IsBelow a (b ∷ l)
  IsBelow-head a b h k = IsBelow-cons h (λ c m. o.trans a b c h (k c m))

  insert-IsSorted : (x : A) (l : List A) → IsSorted l → IsSorted (insert x l)
  unfolding insert
  insert-IsSorted x [] s = ((λ b m. elim m [ ]), tt)
  insert-IsSorted x (y ∷ ys) (below, s) = elim (Bool-cases (o.le x y)) [
    | inl e ↦ rw (e, insert) (IsBelow-head x y e below, (below, s))
    | inr e ↦
        rw (e, insert)
          (
            (λ b m. IsBelow-cons (o.total x y e) below b (mem_of_perm (insert-perm x ys) m)),
            insert-IsSorted x ys s,
          )
  ]

  pub sort-IsSorted : (l : List A) → IsSorted (sort l)
  unfolding sort
  sort-IsSorted [] = tt
  sort-IsSorted (x ∷ xs) = insert-IsSorted x (sort xs) (sort-IsSorted xs)

  insert_comm : (x y : A) (l : List A) → insert x (insert y l) ≡ insert y (insert x l)
  unfolding insert
  insert_comm x y [] = ground (arith, o.total x y, o.antisymm x y)
  insert_comm x y (z ∷ l) = ground (
    arith,
    o.total x y,
    o.antisymm x y,
    o.trans x y z,
    o.trans y x z,
    o.total x z,
    o.total y z,
    insert_comm x y l,
  )

  -- The result depends on the members alone, not on their order.
  pub sort_of_perm : {xs ys : List A} → Permᴰ xs ys → sort xs ≡ sort ys
  unfolding sort
  sort_of_perm Permᴰ.nil = refl
  sort_of_perm (Permᴰ.cons e p) = ap₂ insert e (sort_of_perm p)
  sort_of_perm (Permᴰ.swap {a = a} {b = b} {l = l} e f) =
      insert_comm a b (sort l) ∙ ap₂ insert f (ap₂ insert e refl)
  sort_of_perm (Permᴰ.trans p q) = sort_of_perm p ∙ sort_of_perm q

  insert_below : (x : A) (l : List A) → IsBelow x l → insert x l ≡ x ∷ l
  unfolding insert
  insert_below x [] h = refl
  insert_below x (y ∷ ys) h = ground (arith, h y (Memᴰ.head refl))

  pub sort_of_IsSorted : (l : List A) → IsSorted l → sort l ≡ l
  unfolding sort
  sort_of_IsSorted [] s = refl
  sort_of_IsSorted (x ∷ xs) (below, s) = rw (sort_of_IsSorted xs s) (insert_below x xs below)

  -- Any ascending permutation is the one that `sort` returns.
  pub sort_unique : {xs ys : List A} → Permᴰ ys xs → IsSorted ys → ys ≡ sort xs
  sort_unique {ys = ys} p s = sym (sort_of_IsSorted ys s) ∙ sort_of_perm p
