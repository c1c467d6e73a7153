-- ===== src/Prelude/Result.antt =====
-- A value or an error: Go's pair of a result and an `error`.
use mathlib.Core.Path.{◌≡◌, refl}
use mathlib.Core.Bool.{Bool, true, false}

pub data Result {κ ℓ} (E : Type κ) (A : Type ℓ) : Type (κ ⊔ ℓ) where
  err : E → Result E A
  ok : A → Result E A

module _ {κ} {E : Type κ} where
  infixl 5 ◌>>=◌ ◌>>◌
  -- `if err != nil { return err }` in front of what follows
  abbrev pub ◌>>=◌ {ℓ μ} : {A : Type ℓ} {B : Type μ} → Result E A → (A → Result E B) → Result E B
  err reason >>= rest = err reason
  ok value >>= rest = rest value

  -- `if !b { return err }`
  abbrev pub require : Bool → E → Result E (Unit {0})
  require false reason = err reason
  require true reason = ok tt

  abbrev pub ◌>>◌ {ℓ} : {B : Type ℓ} → Result E (Unit {0}) → Result E B → Result E B
  check >> rest = check >>= λ done. rest

-- The call succeeds, with some value.
abbrev pub Succeeds {ℓ κ} : {E : Type κ} {A : Type ℓ} → Result E A → Type (ℓ ⊔ κ)
Succeeds {A} r = (a : A) × (r ≡ ok a)

-- A chain that succeeds has run all of its steps.
pub >>=-eq-ok {κ ℓ μ} :
    {E : Type κ} {A : Type ℓ} {B : Type μ} (step : Result E A) (rest : A → Result E B) {end : B}
    → (step >>= rest) ≡ ok end
    → (value : A) × (step ≡ ok value) × (rest value ≡ ok end)
>>=-eq-ok (err reason) rest h = cc
>>=-eq-ok (ok value) rest h = (value, refl, h)

pub require-eq-ok {κ} :
    {E : Type κ} (b : Bool) (e : E) {u : Unit {0}} → require b e ≡ ok u → b ≡ true
require-eq-ok true e h = refl
require-eq-ok false e h = cc

pub ok_inj {ℓ κ} : {E : Type κ} {A : Type ℓ} {a b : A} → ◌≡◌ {A = Result E A} (ok a) (ok b) → a ≡ b
ok_inj h = cc

pub ok_ne_err {ℓ κ} :
    {E : Type κ} {A : Type ℓ} {a : A} {e : E} → ¬ (◌≡◌ {A = Result E A} (ok a) (err e))
ok_ne_err h = cc

pub err_inj {κ ℓ} :
    {E : Type κ} {A : Type ℓ} {d e : E} → ◌≡◌ {A = Result E A} (err d) (err e) → d ≡ e
err_inj h = cc
