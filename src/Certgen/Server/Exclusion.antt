-- ===== src/Certgen/Server/Exclusion.antt =====
-- One request at a time is between `Lock` and `Unlock`.
use dockerdynomesh.Prelude.{
  ℕ, ◌≡◌, ◌≢◌, refl, sym, ap, ◌∙◌, subst, ◌↔◌, Bool, true, false, Option, none, some, Bool-cases,
  eqb, eqb_iff, inl, inr,
}
use mathlib.Core.Option.{some-injective}
use dockerdynomesh.Files.{Files}
use dockerdynomesh.Certgen.Reissue.{Reissuer, Tools}
use dockerdynomesh.Certgen.Api.{ReissueRequest}
use dockerdynomesh.Certgen.Server.{
  Call, Locked, entered, running, renaming_key, renaming_cert, removing_key, removing_cert, leaving,
  Pc, arrived, waiting, inside, answered, System, update, is_free, entry, advance, moved, move, act,
  init,
}
use dockerdynomesh.Certgen.Server.Alone.{Entry, entry-Entry}

pub update_self {ℓ} : {A : Type ℓ} (f : ℕ → A) (i : ℕ) (a : A) → update f i a i ≡ a
update_self f i a = rw ((eqb_iff i i).1 refl) refl

pub update_ne {ℓ} : {A : Type ℓ} (f : ℕ → A) (i j : ℕ) (a : A) → i ≢ j → update f i a j ≡ f j
update_ne f i j a n = elim (Bool-cases (eqb i j)) [
  | inl e ↦ absurd (n ((eqb_iff i j).0 e))
  | inr e ↦ rw e refl
]

abbrev pub is_inside : {Wire : Type 0} → Pc Wire → Bool
is_inside (inside q) = true
is_inside _ = false

-- A thread is inside exactly if the mutex is its own.
abbrev pub IsExclusive : {A Wire : Type 0} → System A Wire → Type 0
IsExclusive s = (i : ℕ) → (is_inside (s.pc i) ≡ true) ↔ (s.owner ≡ some i)

pub false_ne : {b : Bool} → b ≡ false → b ≢ true
false_ne h e = cc

pub split_at {ℓ} : {P : ℕ → Type ℓ} (i : ℕ) → P i → ((j : ℕ) → i ≢ j → P j) → (j : ℕ) → P j
split_at {P = P} i here others j = elim (Bool-cases (eqb i j)) [
  | inl e ↦ subst P ((eqb_iff i j).0 e) here
  | inr e ↦ others j (λ same. false_ne e ((eqb_iff i j).1 same))
]

none_owned : {i : ℕ} → ◌≢◌ {A = Option ℕ} none (some i)
none_owned e = cc

module _ {A Wire : Type 0} where
  stay-IsExclusive :
      (s : System A Wire) (fs : Files A) (i : ℕ) (p : Pc Wire)
      → IsExclusive s
      → is_inside p ≡ is_inside (s.pc i)
      → IsExclusive (record s { files = fs; pc = update s.pc i p })
  stay-IsExclusive s fs i p h same =
      split_at i (rw (update_self s.pc i p, same) (h i)) (λ j n. rw (update_ne s.pc i j p n) (h j))

  enter-IsExclusive :
      (s : System A Wire) (i : ℕ) (q : Locked)
      → IsExclusive s
      → s.owner ≡ none
      → IsExclusive (record s { owner = some i; pc = update s.pc i (inside q) })
  enter-IsExclusive s i q h free =
      split_at i (rw (update_self s.pc i (inside q)) ((λ e. refl), λ e. refl)) (λ j n.
        rw (update_ne s.pc i j (inside q) n) (
          (λ e. absurd (none_owned (sym free ∙ (h j).0 e))),
          λ e. absurd (n (some-injective _ _ e)),
        ))

  leave-IsExclusive :
      (s : System A Wire) (i : ℕ) (p : Pc Wire)
      → IsExclusive s
      → is_inside (s.pc i) ≡ true
      → is_inside p ≡ false
      → IsExclusive (record s { owner = none; pc = update s.pc i p })
  leave-IsExclusive s i p h was not_now =
      split_at i
        (rw (update_self s.pc i p) ((λ e. absurd (false_ne not_now e)), λ e. absurd (none_owned e)))
        (λ j n. rw (update_ne s.pc i j p n) (
          (λ e. absurd (n (some-injective _ _ (sym ((h i).0 was) ∙ (h j).0 e)))),
          λ e. absurd (none_owned e),
        ))

module _ {A Wire : Type 0} (tools : Tools A) (decode : ℕ → Wire → Option ReissueRequest)
    (r : Reissuer) where
  outside-Entry : (c : Call Wire) {p : Pc Wire} → Entry tools decode r c p → is_inside p ≡ false
  outside-Entry c (Entry.refused h) = refl
  outside-Entry c (Entry.queued h) = refl

  pub free_owner : (o : Option ℕ) → is_free o ≡ true → o ≡ none
  free_owner none h = refl
  free_owner (some i) h = cc

  moved-IsExclusive :
      (i : ℕ) (s : System A Wire) (q : Locked) (o : Locked × Files A)
      → IsExclusive s
      → s.pc i ≡ inside q
      → IsExclusive (moved tools decode r i s o)
  moved-IsExclusive i s q (p, fs) h e = stay-IsExclusive s fs i (inside p) h (sym (ap is_inside e))

  advanced-IsExclusive :
      (now i : ℕ) (s : System A Wire) (q : Locked)
      → IsExclusive s
      → s.pc i ≡ inside q
      → IsExclusive (moved tools decode r i s (advance tools decode r now q s.files))
  advanced-IsExclusive now i s q h e =
      moved-IsExclusive i s q (advance tools decode r now q s.files) h e

  move-IsExclusive :
      (now i : ℕ) (s : System A Wire) (p : Pc Wire)
      → IsExclusive s
      → s.pc i ≡ p
      → IsExclusive (move tools decode r now i s p)
  move-IsExclusive now i s (arrived c) h e =
      stay-IsExclusive s s.files i (entry tools decode r c) h
        (outside-Entry c (entry-Entry tools decode r c) ∙ sym (ap is_inside e))
  move-IsExclusive now i s (waiting job) h e = elim (Bool-cases (is_free s.owner)) [
    | inl f ↦ rw f (enter-IsExclusive s i (entered job) h (free_owner s.owner f))
    | inr f ↦ rw f h
  ]
  move-IsExclusive now i s (inside (leaving response)) h e =
      leave-IsExclusive s i (answered response) h (ap is_inside e) refl
  move-IsExclusive now i s (inside (entered job)) h e =
      advanced-IsExclusive now i s (entered job) h e
  move-IsExclusive now i s (inside (running sans)) h e =
      advanced-IsExclusive now i s (running sans) h e
  move-IsExclusive now i s (inside (renaming_key sans)) h e =
      advanced-IsExclusive now i s (renaming_key sans) h e
  move-IsExclusive now i s (inside (renaming_cert sans)) h e =
      advanced-IsExclusive now i s (renaming_cert sans) h e
  move-IsExclusive now i s (inside (removing_key sans result)) h e =
      advanced-IsExclusive now i s (removing_key sans result) h e
  move-IsExclusive now i s (inside (removing_cert sans result)) h e =
      advanced-IsExclusive now i s (removing_cert sans result) h e
  move-IsExclusive now i s (answered response) h e = h

  pub act-IsExclusive :
      (now i : ℕ) (s : System A Wire) → IsExclusive s → IsExclusive (act tools decode r now i s)
  unfolding act
  act-IsExclusive now i s h = move-IsExclusive now i s (s.pc i) h refl

  pub init-IsExclusive :
      (fs : Files A) (calls : ℕ → Call Wire) → IsExclusive (init tools decode r fs calls)
  init-IsExclusive fs calls i = ((λ e. cc), λ e. absurd (none_owned e))
