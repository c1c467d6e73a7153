-- ===== src/Render/Stable.antt =====
-- The text does not depend on the order of the containers or the suffixes.
use mathlib.Core.List.{Memᴰ, Permᴰ}
use mathlib.Core.List.Permᴰ
use dockerdynomesh.Prelude.{
  ◌≡◌, refl, sym, ap, ap₂, subst, ◌∙◌, true, List, [], ◌∷◌, map, mem-map, mem_of_perm, IsDistinct,
  IsDistinct-perm, arith,
}
use dockerdynomesh.Prelude.Result.{ok}
use dockerdynomesh.Prelude.Sort.{sort, sort_of_perm}
use dockerdynomesh.Text.{Text, text_le}
use dockerdynomesh.Text.Order.{text_order, text_le_antisymm}
use dockerdynomesh.Render.{Config, RenderRouter, is_none, router_of, template, render}
use dockerdynomesh.Render.Success.{IsRenderable, all_routers, render_iff}

abbrev pub names : List RenderRouter → List Text
names = map (λ r. r.name)

-- Ascending by name.
abbrev pub NameSorted : List RenderRouter → Type 0
NameSorted [] = Unit
NameSorted (r ∷ rs) =
    ((s : RenderRouter) → Memᴰ s rs → text_le r.name s.name ≡ true) × NameSorted rs

-- What `sort.Slice` with the comparison by name promises.
pub record IsNameSort (f : List RenderRouter → List RenderRouter) : Type 0 where
  pub perm : (rs : List RenderRouter) → Permᴰ (f rs) rs
  pub sorted : (rs : List RenderRouter) → NameSorted (f rs)

abbrev Within : List RenderRouter → List RenderRouter → Type 0
Within xs ys = (r : RenderRouter) → Memᴰ r xs → Memᴰ r ys

head-le :
    (x y : RenderRouter) (ys : List RenderRouter)
    → NameSorted (y ∷ ys)
    → Memᴰ x (y ∷ ys)
    → (x ≡ y → text_le y.name x.name ≡ true)
    → text_le y.name x.name ≡ true
head-le x y ys (below, _) (Memᴰ.head e) k = k e
head-le x y ys (below, _) (Memᴰ.tail m) k = below x m

text_le_refl : (s : Text) → text_le s s ≡ true
unfolding text_le
text_le_refl [] = refl
text_le_refl (a ∷ s) = ground (arith, text_le_refl s)

first_le :
    {x y : RenderRouter} {ys : List RenderRouter}
    → NameSorted (y ∷ ys)
    → Memᴰ x (y ∷ ys)
    → text_le y.name x.name ≡ true
first_le {x} {y} {ys} s m = head-le x y ys s m (λ e. rw e (text_le_refl y.name))

-- Of two members with one name, where names are distinct, the head is the other.
same_member :
    {x y : RenderRouter} {xs : List RenderRouter}
    → IsDistinct (names (x ∷ xs))
    → Memᴰ y (x ∷ xs)
    → x.name ≡ y.name
    → x ≡ y
same_member (n, d) (Memᴰ.head e) p = sym e
same_member (n, d) (Memᴰ.tail m) p = absurd (n (rw p (mem-map (λ r. r.name) m)))

Within-tail :
    {x : RenderRouter} {xs ys : List RenderRouter}
    → IsDistinct (names (x ∷ xs))
    → Within (x ∷ xs) (x ∷ ys)
    → Within xs ys
Within-tail {x} {xs} {ys} (n, d) w r m = later (w r (Memᴰ.tail m))
  where
    later : Memᴰ r (x ∷ ys) → Memᴰ r ys
    later (Memᴰ.head e) = absurd (n (rw e at (mem-map (λ s. s.name) m)))
    later (Memᴰ.tail k) = k

-- Lists with the same members and distinct names are one list when both ascend by name.
names_unique :
    (xs ys : List RenderRouter)
    → NameSorted xs
    → NameSorted ys
    → IsDistinct (names xs)
    → IsDistinct (names ys)
    → Within xs ys
    → Within ys xs
    → xs ≡ ys
names_unique [] [] s t d e v w = refl
names_unique [] (y ∷ ys) s t d e v w = absurd (elim (w y (Memᴰ.head refl)) [ ])
names_unique (x ∷ xs) [] s t d e v w = absurd (elim (v x (Memᴰ.head refl)) [ ])
names_unique (x ∷ xs) (y ∷ ys) s t d e v w =
    let x_in = v x (Memᴰ.head refl) in
    let y_in = w y (Memᴰ.head refl) in
    let p : x.name ≡ y.name =
      text_le_antisymm x.name y.name (first_le {x = y} {y = x} {ys = xs} s y_in)
        (first_le {x = x} {y = y} {ys = ys} t x_in) in
    let q : x ≡ y = same_member {xs = xs} d y_in p in
    ap₂ ◌∷◌ q (
      names_unique xs ys s.1 t.1 d.1 e.1
        (Within-tail {x = x} d (subst (λ z. Within (x ∷ xs) (z ∷ ys)) (sym q) v))
        (Within-tail {x = y} e (subst (λ z. Within (y ∷ ys) (z ∷ xs)) q w)))

sorts_agree :
    (f g : List RenderRouter → List RenderRouter)
    → IsNameSort f
    → IsNameSort g
    → (xs ys : List RenderRouter) → Permᴰ xs ys
    → IsDistinct (names xs)
    → f xs ≡ g ys
sorts_agree f g F G xs ys p d =
    let to_f = Permᴰ.symm (F.perm xs) in
    let to_g = Permᴰ.trans p (Permᴰ.symm (G.perm ys)) in
    names_unique (f xs) (g ys) (F.sorted xs) (G.sorted ys)
      (IsDistinct-perm (Permᴰ.map (λ r. r.name) to_f) d)
      (IsDistinct-perm (Permᴰ.map (λ r. r.name) to_g) d)
      (λ r m. mem_of_perm to_g (mem_of_perm (F.perm xs) m))
      (λ r m. mem_of_perm to_f (mem_of_perm (Permᴰ.symm to_g) m))

-- Two configurations that differ in the order of suffixes and containers alone.
pub record SameConfig (a b : Config) : Type 0 where
  pub suffixes : Permᴰ a.suffixes b.suffixes
  pub machine : a.machine_name ≡ b.machine_name
  pub tailnet : a.tailnet_domain ≡ b.tailnet_domain
  pub containers : Permᴰ a.containers b.containers

is_none-perm : {xs ys : List Text} → Permᴰ xs ys → is_none xs ≡ is_none ys
is_none-perm Permᴰ.nil = refl
is_none-perm (Permᴰ.cons e p) = refl
is_none-perm (Permᴰ.swap e f) = refl
is_none-perm (Permᴰ.trans p q) = is_none-perm p ∙ is_none-perm q

IsRenderable-SameConfig : (a b : Config) → SameConfig a b → IsRenderable a → IsRenderable b
IsRenderable-SameConfig a b s r = record {
  some_suffix = sym (is_none-perm s.suffixes) ∙ r.some_suffix;
  suffixes = λ t m. r.suffixes t (mem_of_perm (Permᴰ.symm s.suffixes) m);
  machine = rw s.machine at r.machine;
  tailnet = rw s.tailnet at r.tailnet;
  containers = λ c m. r.containers c (mem_of_perm (Permᴰ.symm s.containers) m);
}

all_routers-perm : (a b : Config) → SameConfig a b → Permᴰ (all_routers a) (all_routers b)
all_routers-perm a b s =
    rw (sort_of_perm s.suffixes, s.machine, s.tailnet)
      (Permᴰ.map (router_of (sort b.suffixes) b.machine_name b.tailnet_domain) s.containers)

-- Where no two routers share a name, the text does not depend on the order of the suffixes and the
-- containers, nor on the algorithm behind `sort.Slice`.
pub render-SameConfig :
    (f g : List RenderRouter → List RenderRouter) (a b : Config) (yaml : Text)
    → IsNameSort f
    → IsNameSort g
    → SameConfig a b
    → IsDistinct (names (all_routers a))
    → render f a ≡ ok yaml
    → render g b ≡ ok yaml
render-SameConfig f g a b yaml F G s d h =
    let (r, e) = (render_iff f a yaml).0 h in
    (render_iff g b yaml).1 (
      IsRenderable-SameConfig a b s r,
      e
          ∙ ap template
              (sorts_agree f g F G (all_routers a) (all_routers b) (all_routers-perm a b s) d),
    )
