-- ===== src/Inspect/Ports.antt =====
-- `selectPort` against a description of its order of preference.
use mathlib.Core.List.{Memᴰ, Permᴰ}
use mathlib.Core.List.Permᴰ
use dockerdynomesh.Prelude.{
  ℕ, ◌<◌, ◌&&◌, ltb, false, sym, ◌≡◌, refl, ◌≢◌, ◌∙◌, ap, true, List, [], ◌∷◌, ◌++◌, any, any_iff,
  Bool-cases, Option-cases, inl, inr, ◌⊎◌, Option, none, some, arith, length, length_perm,
  mem_of_perm,
}
use mathlib.Core.Option.{none-ne-some}
use dockerdynomesh.Prelude.Int.{ℤ, pos, negsuc, int_eq, int_eq-true, int_eq_refl, int_order}
use dockerdynomesh.Prelude.Sort.{sort, sort-perm}
use dockerdynomesh.Text.{Text, codes, is_empty}
use dockerdynomesh.Text.Number.{atoi, decimal, atoi-decimal, decimal_head}
use dockerdynomesh.Inspect.{
  Config, lookup, or_zero, label, port_label, labelled_port, in_range, port_in_range, port_numbers,
  first_favourite, favourites, choose_exposed, select_port, collect,
}

-- The text is a number of a port.
pub record IsPort (t : Text) (p : ℕ) : Type 0 where
  pub read : atoi t ≡ some (pos p)
  pub positive : 0 < p
  pub in_range : p < 65536

-- The numbers of the exposed ports, in their order; one whose port is no number is left out.
pub data Numbers (port_of : Text → Text) : List Text → List ℤ → Type 0 where
  none_left : Numbers port_of [] []
  numbered :
      {p : Text} {n : ℤ} {ports : List Text} {ns : List ℤ}
      → atoi (port_of p) ≡ some n
      → Numbers port_of ports ns
      → Numbers port_of (p ∷ ports) (n ∷ ns)
  unnumbered :
      {p : Text} {ports : List Text} {ns : List ℤ}
      → atoi (port_of p) ≡ none
      → Numbers port_of ports ns
      → Numbers port_of (p ∷ ports) ns

-- What is looked for among several, the first first.
abbrev pub preferred : List ℕ
preferred = 80 ∷ 8080 ∷ 8000 ∷ []

-- The preference among the numbers of the exposed ports: a single one; else the first of 80, 8080
-- and 8000 that is there; else none.
pub data Chosen (exposed : List ℤ) : Option ℤ → Type 0 where
  single : (p : ℤ) → exposed ≡ p ∷ [] → Chosen exposed (some p)
  favourite :
      (before after : List ℕ) (fav : ℕ)
      → length exposed ≢ 1
      → preferred ≡ before ++ (fav ∷ after)
      → ((q : ℕ) → Memᴰ q before → ¬ Memᴰ (pos q) exposed)
      → Memᴰ (pos fav) exposed
      → Chosen exposed (some (pos fav))
  nothing :
      length exposed ≢ 1
      → ((q : ℕ) → Memᴰ q preferred → ¬ Memᴰ (pos q) exposed)
      → Chosen exposed none

-- The order of preference with the label first; `t` is the label, empty where there is none.
pub data Selected (port_of : Text → Text) (t : Text) (ports : List Text) : Option ℤ → Type 0 where
  by_label : (p : ℕ) → IsPort t p → Selected port_of t ports (some (pos p))
  by_exposed :
      {r : Option ℤ} (ns : List ℤ)
      → ((p : ℕ) → ¬ IsPort t p)
      → Numbers port_of ports ns
      → Chosen ns r
      → Selected port_of t ports r

mem_of_any : (n : ℤ) (ns : List ℤ) → any (int_eq n) ns ≡ true → Memᴰ n ns
mem_of_any n ns h = let (m, k, e) = (any_iff (int_eq n) ns).0 h in rw (int_eq-true n m e) k

not-mem_of_any : (n : ℤ) (ns : List ℤ) → any (int_eq n) ns ≡ false → ¬ Memᴰ n ns
not-mem_of_any n ns h m = cc (h, (any_iff (int_eq n) ns).1 (n, m, int_eq_refl n))

abbrev NoneOf : List ℕ → List ℤ → Type 0
NoneOf favs exposed = (q : ℕ) → Memᴰ q favs → ¬ Memᴰ (pos q) exposed

NoneOf-cons :
    {fav : ℕ} {favs : List ℕ} {exposed : List ℤ}
    → ¬ Memᴰ (pos fav) exposed
    → NoneOf favs exposed
    → NoneOf (fav ∷ favs) exposed
NoneOf-cons n h q (Memᴰ.head e) = rw e n
NoneOf-cons n h q (Memᴰ.tail m) = h q m

abbrev FirstOf : List ℕ → List ℤ → Option ℤ → Type 0
FirstOf favs exposed r =
    ((before : List ℕ) × (fav : ℕ) × (after : List ℕ) × (favs ≡ before ++ (fav ∷ after))
      × NoneOf before exposed
      × Memᴰ (pos fav) exposed
      × (r ≡ some (pos fav)))
    ⊎ (NoneOf favs exposed × (r ≡ none))

first_favourite_lem :
    (favs : List ℕ) (exposed : List ℤ) → FirstOf favs exposed (first_favourite favs exposed)
unfolding first_favourite
first_favourite_lem [] exposed = inr ((λ q m. elim m [ ]), refl)
first_favourite_lem (fav ∷ favs) exposed = elim (Bool-cases (any (int_eq (pos fav)) exposed)) [
  | inl e ↦
      rw e (inl ([], fav, favs, refl, (λ q m. elim m [ ]), mem_of_any (pos fav) exposed e, refl))
  | inr e ↦ rw e (elim (first_favourite_lem favs exposed) [
    | inl (before, f, after, p, n, m, r) ↦ inl (
      fav ∷ before,
      f,
      after,
      ap (◌∷◌ fav) p,
      NoneOf-cons (not-mem_of_any (pos fav) exposed e) n,
      m,
      r,
    )
    | inr (n, r) ↦ inr (NoneOf-cons (not-mem_of_any (pos fav) exposed e) n, r)
  ])
]

Chosen-of_FirstOf :
    {exposed : List ℤ} {r : Option ℤ}
    → length exposed ≢ 1
    → FirstOf preferred exposed r
    → Chosen exposed r
Chosen-of_FirstOf l (inl (before, fav, after, p, n, m, e)) =
    rw e (Chosen.favourite before after fav l p n m)
Chosen-of_FirstOf l (inr (n, e)) = rw e (Chosen.nothing l n)

choose_exposed-Chosen : (exposed : List ℤ) → Chosen exposed (choose_exposed exposed)
unfolding choose_exposed
choose_exposed-Chosen (p ∷ []) = Chosen.single p refl
choose_exposed-Chosen [] = Chosen-of_FirstOf (omega arith) (first_favourite_lem favourites [])
choose_exposed-Chosen (p ∷ q ∷ ps) =
    Chosen-of_FirstOf (omega arith) (first_favourite_lem favourites (p ∷ q ∷ ps))

single_perm : {p : ℤ} (ys : List ℤ) → Permᴰ (p ∷ []) ys → ys ≡ p ∷ []
single_perm [] q = absurd (omega (arith, length_perm q))
single_perm {p} (y ∷ []) q = only (mem_of_perm (Permᴰ.symm q) (Memᴰ.head refl))
  where
    only : Memᴰ y (p ∷ []) → ◌≡◌ {A = List ℤ} (y ∷ []) (p ∷ [])
    only (Memᴰ.head e) = ap (λ z. z ∷ []) e
    only (Memᴰ.tail m) = absurd (elim m [ ])
single_perm (y ∷ z ∷ ys) q = absurd (omega (arith, length_perm q))

Chosen-perm : {xs ys : List ℤ} {r : Option ℤ} → Permᴰ xs ys → Chosen xs r → Chosen ys r
Chosen-perm {ys = ys} q (Chosen.single p e) = Chosen.single p (single_perm ys (rw e at q))
Chosen-perm q (Chosen.favourite before after fav l p n m) =
    Chosen.favourite before after fav (λ e. l (length_perm q ∙ e)) p
      (λ f k x. n f k (mem_of_perm (Permᴰ.symm q) x)) (mem_of_perm q m)
Chosen-perm q (Chosen.nothing l n) =
    Chosen.nothing (λ e. l (length_perm q ∙ e)) (λ f k x. n f k (mem_of_perm (Permᴰ.symm q) x))

labelled_port-decimal : (p : ℕ) → 0 < p → p < 65536 → labelled_port (decimal p) ≡ some (pos p)
unfolding labelled_port
labelled_port-decimal p lo hi =
    let (d, rest, e, _, _) = decimal_head p in
    let some_digits : is_empty (decimal p) ≡ false = rw e refl in
    rw (some_digits, atoi-decimal p (omega arith)) (ground arith)

collect-perm : (n : Option ℤ) {xs ys : List ℤ} → Permᴰ xs ys → Permᴰ (collect n xs) (collect n ys)
collect-perm none q = q
collect-perm (some n) q = Permᴰ.cons refl q

collect_swap :
    (n m : Option ℤ) (xs : List ℤ) → Permᴰ (collect n (collect m xs)) (collect m (collect n xs))
collect_swap none m xs = Permᴰ.refl (collect m xs)
collect_swap (some n) none xs = Permᴰ.refl (n ∷ xs)
collect_swap (some n) (some m) xs = Permᴰ.swap refl refl

-- What the label gives, read independently of `labelled_port`.
data Labelled (t : Text) : Option ℤ → Type 0 where
  port : (p : ℕ) → IsPort t p → Labelled t (some (pos p))
  no_port : ((p : ℕ) → ¬ IsPort t p) → Labelled t none

out_of_range :
    (t : Text) (n p : ℕ) → atoi t ≡ some (pos n) → (ltb 0 n && ltb n 65536) ≡ false → ¬ IsPort t p
out_of_range t n p e f h =
    let same : n ≡ p = cc (e, h.read) in
    let lo = h.positive in let hi = h.in_range in ground (arith, same, lo, hi)

Labelled-in_range : (t : Text) (o : Option ℤ) → atoi t ≡ o → Labelled t (port_in_range o)
unfolding in_range
Labelled-in_range t none e = Labelled.no_port (λ p h. absurd (none-ne-some _ (sym e ∙ h.read)))
Labelled-in_range t (some (negsuc n)) e = Labelled.no_port (λ p h. cc (e, h.read))
Labelled-in_range t (some (pos n)) e = elim (Bool-cases (ltb 0 n && ltb n 65536)) [
  | inl f ↦
      rw f (Labelled.port n (record { read = e; positive = ground arith; in_range = ground arith }))
  | inr f ↦ rw f (Labelled.no_port (λ p. out_of_range t n p e f))
]

labelled_port-Labelled : (t : Text) → Labelled t (labelled_port t)
unfolding labelled_port atoi
labelled_port-Labelled [] = Labelled.no_port (λ p h. absurd (none-ne-some _ h.read))
labelled_port-Labelled (c ∷ t) = Labelled-in_range (c ∷ t) (atoi (c ∷ t)) refl

module _ (port_of : Text → Text) where
  port_numbers-Numbers : (ports : List Text) → Numbers port_of ports (port_numbers port_of ports)
  unfolding port_numbers
  port_numbers-Numbers [] = Numbers.none_left
  port_numbers-Numbers (p ∷ ports) = elim (Option-cases (atoi (port_of p))) [
    | inl e ↦ rw e (Numbers.unnumbered e (port_numbers-Numbers ports))
    | inr (n, e) ↦ rw e (Numbers.numbered e (port_numbers-Numbers ports))
  ]

  -- The port is that of the label `dynomesh.port` where it holds a number from 1 to 65535; else the only exposed
  -- one; else the first of 80, 8080 and 8000 among those exposed; else there is none.
  pub select_port-Selected :
      (config : Config)
      → Selected port_of
          (or_zero (lookup (codes "dynomesh.port") config.labels))
          config.exposed_ports
          (select_port port_of config)
  unfolding select_port
  select_port-Selected config =
      by_label (labelled_port (label port_label config.labels))
        (labelled_port-Labelled (label port_label config.labels))
    where
      by_label :
          (o : Option ℤ)
          → Labelled (label port_label config.labels) o
          → Selected port_of (label port_label config.labels) config.exposed_ports (elim o [
            | some p ↦ some p
            | none ↦ choose_exposed (sort (port_numbers port_of config.exposed_ports))
          ])
      by_label _ (Labelled.port p h) = Selected.by_label p h
      by_label _ (Labelled.no_port n) =
          Selected.by_exposed (port_numbers port_of config.exposed_ports) n
            (port_numbers-Numbers config.exposed_ports)
            (Chosen-perm (sort-perm (port_numbers port_of config.exposed_ports))
              (choose_exposed-Chosen (sort (port_numbers port_of config.exposed_ports))))

  select_port_of_label :
      (config : Config) {p : ℤ}
      → labelled_port (label port_label config.labels) ≡ some p
      → select_port port_of config ≡ some p
  unfolding select_port
  select_port_of_label config e = rw (e, select_port)

  -- A label `dynomesh.port` with the decimal digits of a number from 1 to 65535 decides the port.
  pub select_port-decimal :
      (config : Config) (p : ℕ)
      → label port_label config.labels ≡ decimal p
      → 0 < p
      → p < 65536
      → select_port port_of config ≡ some (pos p)
  select_port-decimal config p e lo hi =
      select_port_of_label config (ap labelled_port e ∙ labelled_port-decimal p lo hi)

  pub port_numbers-perm :
      {xs ys : List Text} → Permᴰ xs ys → Permᴰ (port_numbers port_of xs) (port_numbers port_of ys)
  unfolding port_numbers
  port_numbers-perm Permᴰ.nil = Permᴰ.nil
  port_numbers-perm (Permᴰ.cons {a = a} e q) =
      rw (← e) (collect-perm (atoi (port_of a)) (port_numbers-perm q))
  port_numbers-perm (Permᴰ.swap {a = a} {b = b} {l = l} e f) =
      rw (← e, ← f) (collect_swap (atoi (port_of a)) (atoi (port_of b)) (port_numbers port_of l))
  port_numbers-perm (Permᴰ.trans q r) = Permᴰ.trans (port_numbers-perm q) (port_numbers-perm r)
