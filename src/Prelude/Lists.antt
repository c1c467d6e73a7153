-- ===== src/Prelude/Lists.antt =====
-- Lists: tests and predicates by recursion, and lengths over the native numbers.
use Prim.Native.Nat.{ℕ, zero, suc, ◌+◌}
use mathlib.Core.Path.{◌≡◌, refl, ap, sym, ◌∙◌}
use mathlib.Core.Logic.{◌↔◌, ◌⊎◌, inl, inr}
use mathlib.Core.Bool.{Bool, true, false, ◌&&◌, ◌||◌}
use mathlib.Core.List.{List, [], ◌∷◌, ◌++◌, map, Memᴰ, Permᴰ, append-nil}
use mathlib.Core.List.Permᴰ
use native.Mathlib.Omega.{arith}
use dockerdynomesh.Prelude.Tests.{Bool-cases}

module _ {ℓ} {A : Type ℓ} where
  abbrev pub length : List A → ℕ
  length [] = 0
  length (x ∷ xs) = suc (length xs)

  abbrev pub take : ℕ → List A → List A
  take zero xs = []
  take (suc n) [] = []
  take (suc n) (x ∷ xs) = x ∷ take n xs

  -- Every element has the property.
  abbrev pub All {κ} : (A → Type κ) → List A → Type κ
  All P [] = Unit
  All P (x ∷ xs) = P x × All P xs

  -- Some element passes the test; every element does.
  abbrev pub any : (A → Bool) → List A → Bool
  any p [] = false
  any p (x ∷ xs) = p x || any p xs

  abbrev pub all : (A → Bool) → List A → Bool
  all p [] = true
  all p (x ∷ xs) = p x && all p xs

module _ {ℓ} {A : Type ℓ} where
  pub All-of_mem {κ} : (P : A → Type κ) (xs : List A) → ((x : A) → Memᴰ x xs → P x) → All P xs
  All-of_mem P [] h = tt
  All-of_mem P (x ∷ xs) h = (h x (Memᴰ.head refl), All-of_mem P xs (λ y m. h y (Memᴰ.tail m)))

  pub mem-cons_mono :
      {a x : A} {xs ys : List A} → (Memᴰ a xs → Memᴰ a ys) → Memᴰ a (x ∷ xs) → Memᴰ a (x ∷ ys)
  mem-cons_mono f (Memᴰ.head e) = Memᴰ.head e
  mem-cons_mono f (Memᴰ.tail m) = Memᴰ.tail (f m)

  pub mem_singleton : {a x : A} → Memᴰ a (x ∷ []) → a ≡ x
  mem_singleton (Memᴰ.head e) = e
  mem_singleton (Memᴰ.tail m) = absurd (elim m [ ])

  pub mem-append_left : {a : A} {xs : List A} (ys : List A) → Memᴰ a xs → Memᴰ a (xs ++ ys)
  mem-append_left ys (Memᴰ.head e) = Memᴰ.head e
  mem-append_left ys (Memᴰ.tail m) = Memᴰ.tail (mem-append_left ys m)

  pub mem-append_right : {a : A} (xs : List A) {ys : List A} → Memᴰ a ys → Memᴰ a (xs ++ ys)
  mem-append_right [] m = m
  mem-append_right (x ∷ xs) m = Memᴰ.tail (mem-append_right xs m)

  pub mem_append_cases : {a : A} (xs ys : List A) → Memᴰ a (xs ++ ys) → Memᴰ a xs ⊎ Memᴰ a ys
  mem_append_cases [] ys m = inr m
  mem_append_cases (x ∷ xs) ys (Memᴰ.head e) = inl (Memᴰ.head e)
  mem_append_cases (x ∷ xs) ys (Memᴰ.tail m) = elim (mem_append_cases xs ys m) [
    | inl l ↦ inl (Memᴰ.tail l)
    | inr r ↦ inr r
  ]

  pub mem-map {κ} :
      {B : Type κ} (f : A → B) {a : A} {xs : List A} → Memᴰ a xs → Memᴰ (f a) (map f xs)
  mem-map f (Memᴰ.head e) = Memᴰ.head (ap f e)
  mem-map f (Memᴰ.tail m) = Memᴰ.tail (mem-map f m)

  pub mem_map_inv {κ} :
      {B : Type κ} (f : A → B) {b : B} (xs : List A)
      → Memᴰ b (map f xs)
      → (a : A) × Memᴰ a xs × (b ≡ f a)
  mem_map_inv f [] m = elim m [ ]
  mem_map_inv f (x ∷ xs) (Memᴰ.head e) = (x, Memᴰ.head refl, e)
  mem_map_inv f (x ∷ xs) (Memᴰ.tail m) = let (a, k, e) = mem_map_inv f xs m in (a, Memᴰ.tail k, e)

  -- A permutation has the same members.
  pub mem_of_perm : {a : A} {xs ys : List A} → Permᴰ xs ys → Memᴰ a xs → Memᴰ a ys
  mem_of_perm Permᴰ.nil m = elim m [ ]
  mem_of_perm (Permᴰ.cons e p) (Memᴰ.head h) = Memᴰ.head (h ∙ e)
  mem_of_perm (Permᴰ.cons e p) (Memᴰ.tail m) = Memᴰ.tail (mem_of_perm p m)
  mem_of_perm (Permᴰ.swap e f) (Memᴰ.head h) = Memᴰ.tail (Memᴰ.head (h ∙ e))
  mem_of_perm (Permᴰ.swap e f) (Memᴰ.tail (Memᴰ.head h)) = Memᴰ.head (h ∙ f)
  mem_of_perm (Permᴰ.swap e f) (Memᴰ.tail (Memᴰ.tail m)) = Memᴰ.tail (Memᴰ.tail m)
  mem_of_perm (Permᴰ.trans p q) m = mem_of_perm q (mem_of_perm p m)

  any_of_mem : (p : A → Bool) {a : A} {xs : List A} → p a ≡ true → Memᴰ a xs → any p xs ≡ true
  any_of_mem p h (Memᴰ.head e) = ground (arith, ap p e)
  any_of_mem p h (Memᴰ.tail m) = ground (arith, any_of_mem p h m)

  mem_of_any : (p : A → Bool) (xs : List A) → any p xs ≡ true → (a : A) × Memᴰ a xs × (p a ≡ true)
  mem_of_any p [] h = cc
  mem_of_any p (x ∷ xs) h = elim (Bool-cases (p x)) [
    | inl e ↦ (x, Memᴰ.head refl, e)
    | inr e ↦ let (a, m, k) = mem_of_any p xs (ground arith) in (a, Memᴰ.tail m, k)
  ]

  pub any_iff :
      (p : A → Bool) (xs : List A) → (any p xs ≡ true) ↔ ((a : A) × Memᴰ a xs × (p a ≡ true))
  any_iff p xs = (mem_of_any p xs, λ w. any_of_mem p w.2 w.1)

  all_mem : (p : A → Bool) {a : A} {xs : List A} → all p xs ≡ true → Memᴰ a xs → p a ≡ true
  all_mem p h (Memᴰ.head e) = ground (arith, ap p e)
  all_mem p h (Memᴰ.tail m) = all_mem p (ground arith) m

  all_of_mem : (p : A → Bool) (xs : List A) → ((a : A) → Memᴰ a xs → p a ≡ true) → all p xs ≡ true
  all_of_mem p [] h = refl
  all_of_mem p (x ∷ xs) h =
      ground (arith, h x (Memᴰ.head refl), all_of_mem p xs (λ a m. h a (Memᴰ.tail m)))

  pub all_iff :
      (p : A → Bool) (xs : List A) → (all p xs ≡ true) ↔ ((a : A) → Memᴰ a xs → p a ≡ true)
  all_iff p xs = ((λ h a m. all_mem p h m), all_of_mem p xs)

  -- A test fails on the list exactly when some element fails it.
  pub all-false :
      (p : A → Bool) (xs : List A) → all p xs ≡ false → (a : A) × Memᴰ a xs × (p a ≡ false)
  all-false p [] h = cc
  all-false p (x ∷ xs) h = elim (Bool-cases (p x)) [
    | inr e ↦ (x, Memᴰ.head refl, e)
    | inl e ↦ let (a, m, k) = all-false p xs (ground arith) in (a, Memᴰ.tail m, k)
  ]

  pub any_perm : (p : A → Bool) {xs ys : List A} → Permᴰ xs ys → any p xs ≡ any p ys
  any_perm p Permᴰ.nil = refl
  any_perm p (Permᴰ.cons e q) = ground (arith, ap p e, any_perm p q)
  any_perm p (Permᴰ.swap e f) = ground (arith, ap p e, ap p f)
  any_perm p (Permᴰ.trans q r) = any_perm p q ∙ any_perm p r

  pub length-append : (xs ys : List A) → length (xs ++ ys) ≡ length xs + length ys
  length-append [] ys = omega arith
  length-append (x ∷ xs) ys = omega (arith, length-append xs ys)

  pub length_perm : {xs ys : List A} → Permᴰ xs ys → length xs ≡ length ys
  length_perm Permᴰ.nil = refl
  length_perm (Permᴰ.cons e q) = ap suc (length_perm q)
  length_perm (Permᴰ.swap e f) = refl
  length_perm (Permᴰ.trans q r) = length_perm q ∙ length_perm r

module _ {ℓ} {A : Type ℓ} where
  -- No element stands at two places.
  abbrev pub IsDistinct : List A → Type ℓ
  IsDistinct [] = Unit
  IsDistinct (x ∷ xs) = (¬ Memᴰ x xs) × IsDistinct xs

  not-mem-cons_swap :
      {a b a' b' : A} {l : List A}
      → a ≡ b'
      → b ≡ a'
      → ¬ Memᴰ a (b ∷ l)
      → ¬ Memᴰ b l
      → ¬ Memᴰ a' (b' ∷ l)
  not-mem-cons_swap e f n k (Memᴰ.head h) = n (Memᴰ.head (e ∙ sym (f ∙ h)))
  not-mem-cons_swap e f n k (Memᴰ.tail m) = k (rw f m)

  pub IsDistinct-perm : {xs ys : List A} → Permᴰ xs ys → IsDistinct xs → IsDistinct ys
  IsDistinct-perm Permᴰ.nil d = tt
  IsDistinct-perm (Permᴰ.cons e p) (n, d) =
      ((λ m. n (rw e (mem_of_perm (Permᴰ.symm p) m))), IsDistinct-perm p d)
  IsDistinct-perm (Permᴰ.swap e f) (n, (k, d)) =
      (not-mem-cons_swap e f n k, ((λ m. n (Memᴰ.tail (rw e m))), d))
  IsDistinct-perm (Permᴰ.trans p q) d = IsDistinct-perm q (IsDistinct-perm p d)

  pub IsDistinct-append_one :
      (x : A) (xs : List A) → ¬ Memᴰ x xs → IsDistinct xs → IsDistinct (xs ++ (x ∷ []))
  IsDistinct-append_one x xs n d =
      IsDistinct-perm (Permᴰ.symm (rw append-nil at (Permᴰ.middle x xs []))) (n, d)

pub length-map {ℓ κ} :
    {A : Type ℓ} {B : Type κ} (g : A → B) (xs : List A) → length (map g xs) ≡ length xs
length-map g [] = refl
length-map g (x ∷ xs) = ap suc (length-map g xs)
