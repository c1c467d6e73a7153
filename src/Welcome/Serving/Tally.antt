-- ===== src/Welcome/Serving/Tally.antt =====
-- What a change of one server does to the list of the servers.
use dockerdynomesh.Prelude.{
  ℕ, zero, suc, ◌+◌, ◌<◌, ◌≡◌, refl, ap, subst, List, [], ◌∷◌, ◌++◌, map, length, Option, none,
  some, Option-cases, inl, inr, arith,
}
use mathlib.Core.Option.{some-injective}
use dockerdynomesh.Welcome.Serving.{HttpServer, began, change_at}

-- The sum of a weight over the servers.
unfoldable pub tally : (HttpServer → ℕ) → List HttpServer → ℕ
tally w [] = 0
tally w (s ∷ ss) = w s + tally w ss

pub tally-append :
    (w : HttpServer → ℕ) (xs ys : List HttpServer) → tally w (xs ++ ys) ≡ tally w xs + tally w ys
unfolding tally
tally-append w [] ys = omega arith
tally-append w (x ∷ xs) ys = omega (arith, tally-append w xs ys)

-- The lists before and after a change of one server.
pub data Changed (f : HttpServer → Option HttpServer)
    : List HttpServer → List HttpServer → Type 0 where
  here : (s t : HttpServer) (ss : List HttpServer) → f s ≡ some t → Changed f (s ∷ ss) (t ∷ ss)
  there : (s : HttpServer) (ss ts : List HttpServer) → Changed f ss ts → Changed f (s ∷ ss) (s ∷ ts)

module _ (f : HttpServer → Option HttpServer) where
  began-cases :
      (s : HttpServer) (o : Option (List HttpServer)) {ts : List HttpServer}
      → began s o ≡ some ts
      → (us : List HttpServer) × (o ≡ some us) × ((s ∷ us) ≡ ts)
  began-cases s none h = cc
  began-cases s (some us) h = (us, refl, some-injective _ _ h)

  headed :
      (s : HttpServer) (ss : List HttpServer) (o : Option HttpServer) {ts : List HttpServer}
      → f s ≡ o
      → elim o [ none ↦ none | some t ↦ some (t ∷ ss) ] ≡ some ts
      → Changed f (s ∷ ss) ts
  headed s ss none e h = cc
  headed s ss (some t) e h =
      subst (λ us. Changed f (s ∷ ss) us) (some-injective _ _ h) (Changed.here s t ss e)

  pub change_at-Changed :
      (i : ℕ) (ss : List HttpServer) {ts : List HttpServer}
      → change_at f i ss ≡ some ts
      → Changed f ss ts
  unfolding change_at
  change_at-Changed i [] h = cc
  change_at-Changed zero (s ∷ ss) h = headed s ss (f s) refl h
  change_at-Changed (suc i) (s ∷ ss) h =
      let (us, e, k) = began-cases s (change_at f i ss) h in
      subst (λ vs. Changed f (s ∷ ss) vs) k (Changed.there s ss us (change_at-Changed i ss e))

  pub Changed-tally :
      (w : HttpServer → ℕ) (a b : ℕ)
      → ((s t : HttpServer) → f s ≡ some t → w t + a ≡ w s + b)
      → {ss ts : List HttpServer} → Changed f ss ts
      → tally w ts + a ≡ tally w ss + b
  unfolding tally
  Changed-tally w a b h (Changed.here s t ss e) = omega (arith, h s t e)
  Changed-tally w a b h (Changed.there s ss ts c) = omega (arith, Changed-tally w a b h c)

  pub Changed-map :
      {B : Type 0} (g : HttpServer → B)
      → ((s t : HttpServer) → f s ≡ some t → g t ≡ g s)
      → {ss ts : List HttpServer} → Changed f ss ts
      → map g ts ≡ map g ss
  Changed-map g h (Changed.here s t ss e) = ap (λ b. b ∷ map g ss) (h s t e)
  Changed-map g h (Changed.there s ss ts c) = ap (λ bs. g s ∷ bs) (Changed-map g h c)

  pub Changed-length : {ss ts : List HttpServer} → Changed f ss ts → length ts ≡ length ss
  Changed-length (Changed.here s t ss e) = refl
  Changed-length (Changed.there s ss ts c) = ap suc (Changed-length c)

  -- Where the weight of the changeable servers is positive, one can be changed.
  pub enabled_at :
      (w : HttpServer → ℕ)
      → ((s : HttpServer) → f s ≡ none → w s ≡ 0)
      → (ss : List HttpServer) → 0 < tally w ss
      → (i : ℕ) × (ts : List HttpServer) × (change_at f i ss ≡ some ts)
  unfolding tally change_at
  enabled_at w h [] l = absurd (omega arith)
  enabled_at w h (s ∷ ss) l = elim (Option-cases (f s)) [
    | inl e ↦
        let (i, ts, k) = enabled_at w h ss (omega (arith, h s e)) in (suc i, s ∷ ts, ap (began s) k)
    | inr (t, e) ↦ (0, t ∷ ss, rw (change_at, e) refl)
  ]
