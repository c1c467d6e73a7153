-- ===== src/Discoverer/Suffixes/Loop.antt =====
-- The loop of `parseTakeoverSuffixes` over the parts of the variable.
use mathlib.Core.List.{Memᴰ}
use dockerdynomesh.Prelude.{
  ◌≡◌, refl, sym, ap, ◌∙◌, subst, true, false, List, [], ◌∷◌, ◌++◌, Bool-cases, inl, inr, ◌⊎◌, any,
  IsDistinct, IsDistinct-append_one, mem-append_left, mem-append_right, mem_append_cases,
  mem_singleton,
}
use dockerdynomesh.Prelude.Result.{ok, ok_inj, ok_ne_err, Succeeds}
use dockerdynomesh.Text.{Text, ◌==◌, is_empty, trim_space}
use dockerdynomesh.Text.Order.{text_order, mem_of_any, not-mem_of_any}
use dockerdynomesh.Certgen.San.{validate_label}
use dockerdynomesh.Discoverer.Suffixes.{take_suffixes}

-- What the loop keeps of its two lists: the same members, distinct and valid.
pub record IsGood (seen out : List Text) : Type 0 where
  pub seen_out : (s : Text) → Memᴰ s seen → Memᴰ s out
  pub out_seen : (s : Text) → Memᴰ s out → Memᴰ s seen
  pub distinct : IsDistinct out
  pub valid : (s : Text) → Memᴰ s out → validate_label s ≡ true

-- A suffix that some part of the variable names.
abbrev pub IsPart : List Text → Text → Type 0
IsPart parts s = (raw : Text) × Memᴰ raw parts × (s ≡ trim_space raw) × (is_empty s ≡ false)

-- What the loop returns, against the list that it began with.
pub record Grown (out parts res : List Text) : Type 0 where
  pub keeps : (s : Text) → Memᴰ s out → Memᴰ s res
  pub adds : (s : Text) → IsPart parts s → Memᴰ s res
  pub only : (s : Text) → Memᴰ s res → Memᴰ s out ⊎ IsPart parts s
  pub distinct : IsDistinct res
  pub valid : (s : Text) → Memᴰ s res → validate_label s ≡ true

IsPart-tail : {raw s : Text} {parts : List Text} → IsPart parts s → IsPart (raw ∷ parts) s
IsPart-tail (r, m, e, g) = (r, Memᴰ.tail m, e, g)

-- A part that adds nothing.
Grown-skip :
    {out parts res : List Text} (raw : Text)
    → (is_empty (trim_space raw) ≡ false → Memᴰ (trim_space raw) out)
    → Grown out parts res
    → Grown out (raw ∷ parts) res
Grown-skip {out} {parts} {res} raw known g = record {
  keeps = g.keeps;
  adds = added;
  only = narrowed;
  distinct = g.distinct;
  valid = g.valid;
}
  where
    added : (s : Text) → IsPart (raw ∷ parts) s → Memᴰ s res
    added s (r, Memᴰ.head h, e, f) =
        let p : s ≡ trim_space raw = e ∙ ap trim_space h in
        g.keeps s (subst (λ x. Memᴰ x out) (sym p) (known (subst (λ x. is_empty x ≡ false) p f)))
    added s (r, Memᴰ.tail m, e, f) = g.adds s (r, m, e, f)

    narrowed : (s : Text) → Memᴰ s res → Memᴰ s out ⊎ IsPart (raw ∷ parts) s
    narrowed s m = elim (g.only s m) [ inl k ↦ inl k | inr p ↦ inr (IsPart-tail p) ]

-- A part that is added.
Grown-add :
    {out parts res : List Text} (raw : Text)
    → is_empty (trim_space raw) ≡ false
    → Grown (out ++ (trim_space raw ∷ [])) parts res
    → Grown out (raw ∷ parts) res
Grown-add {out} {parts} {res} raw given g = record {
  keeps = λ s m. g.keeps s (mem-append_left _ m);
  adds = added;
  only = narrowed;
  distinct = g.distinct;
  valid = g.valid;
}
  where
    added : (s : Text) → IsPart (raw ∷ parts) s → Memᴰ s res
    added s (r, Memᴰ.head h, e, f) =
        g.keeps s (mem-append_right out (Memᴰ.head (e ∙ ap trim_space h)))
    added s (r, Memᴰ.tail m, e, f) = g.adds s (r, m, e, f)

    split : (s : Text) → Memᴰ s (out ++ (trim_space raw ∷ [])) → Memᴰ s out ⊎ IsPart (raw ∷ parts) s
    split s m = elim (mem_append_cases out (trim_space raw ∷ []) m) [
      | inl k ↦ inl k
      | inr k ↦
          let p = mem_singleton k in
          inr (raw, Memᴰ.head refl, p, subst (λ x. is_empty x ≡ false) (sym p) given)
    ]

    narrowed : (s : Text) → Memᴰ s res → Memᴰ s out ⊎ IsPart (raw ∷ parts) s
    narrowed s m = elim (g.only s m) [ inl k ↦ split s k | inr p ↦ inr (IsPart-tail p) ]

IsGood-add :
    {seen out : List Text} (s : Text)
    → IsGood seen out
    → ¬ Memᴰ s seen
    → validate_label s ≡ true
    → IsGood (s ∷ seen) (out ++ (s ∷ []))
IsGood-add {seen} {out} s g fresh ok_label = record {
  seen_out = into;
  out_seen = back;
  distinct = IsDistinct-append_one s out (λ m. fresh (g.out_seen s m)) g.distinct;
  valid = all_valid;
}
  where
    into : (t : Text) → Memᴰ t (s ∷ seen) → Memᴰ t (out ++ (s ∷ []))
    into t (Memᴰ.head e) = mem-append_right out (Memᴰ.head e)
    into t (Memᴰ.tail m) = mem-append_left _ (g.seen_out t m)

    back : (t : Text) → Memᴰ t (out ++ (s ∷ [])) → Memᴰ t (s ∷ seen)
    back t m = elim (mem_append_cases out (s ∷ []) m) [
      | inl k ↦ Memᴰ.tail (g.out_seen t k)
      | inr k ↦ Memᴰ.head (mem_singleton k)
    ]

    all_valid : (t : Text) → Memᴰ t (out ++ (s ∷ [])) → validate_label t ≡ true
    all_valid t m = elim (mem_append_cases out (s ∷ []) m) [
      | inl k ↦ g.valid t k
      | inr k ↦ ap validate_label (mem_singleton k) ∙ ok_label
    ]

true_ne_false : ¬ (true ≡ false)
true_ne_false h = cc

pub take_suffixes-Grown :
    (seen out parts : List Text) {res : List Text}
    → IsGood seen out
    → take_suffixes seen out parts ≡ ok res
    → Grown out parts res
unfolding take_suffixes
take_suffixes-Grown seen out [] g h = subst (Grown out []) (ok_inj h) (record {
  keeps = λ s m. m;
  adds = λ s p. elim p.1 [ ];
  only = λ s m. inl m;
  distinct = g.distinct;
  valid = g.valid;
})
take_suffixes-Grown seen out (raw ∷ parts) g h =
    let s = trim_space raw in
    elim (Bool-cases (is_empty s)) [
      | inl e ↦
          Grown-skip raw (λ f. absurd (true_ne_false (sym e ∙ f)))
            (take_suffixes-Grown seen out parts g (rw (e, take_suffixes) at h))
      | inr e ↦ elim (Bool-cases (validate_label s)) [
        | inr f ↦ absurd (ok_ne_err (sym (rw (e, f, take_suffixes) at h)))
        | inl f ↦ elim (Bool-cases (any (◌==◌ s) seen)) [
          | inl k ↦
              Grown-skip raw (λ _. g.seen_out s (mem_of_any s seen k))
                (take_suffixes-Grown seen out parts g (rw (e, f, k, take_suffixes) at h))
          | inr k ↦ Grown-add raw e (
              take_suffixes-Grown (s ∷ seen) (out ++ (s ∷ [])) parts
                (IsGood-add s g (not-mem_of_any s seen k) f) (rw (e, f, k, take_suffixes) at h))
        ]
      ]
    ]

-- The loop succeeds where every part that is not empty is a valid label.
pub take_suffixes_ok :
    (seen out parts : List Text)
    → ((s : Text) → IsPart parts s → validate_label s ≡ true)
    → Succeeds (take_suffixes seen out parts)
unfolding take_suffixes
take_suffixes_ok seen out [] h = (out, refl)
take_suffixes_ok seen out (raw ∷ parts) h =
    let s = trim_space raw in
    let later : (t : Text) → IsPart parts t → validate_label t ≡ true =
      λ t p. h t (IsPart-tail p) in
    elim (Bool-cases (is_empty s)) [
      | inl e ↦ rw (e, take_suffixes) (take_suffixes_ok seen out parts later)
      | inr e ↦
          let f : validate_label s ≡ true = h s (raw, Memᴰ.head refl, refl, e) in
          elim (Bool-cases (any (◌==◌ s) seen)) [
            | inl k ↦ rw (e, f, k, take_suffixes) (take_suffixes_ok seen out parts later)
            | inr k ↦
                rw (e, f, k, take_suffixes)
                  (take_suffixes_ok (s ∷ seen) (out ++ (s ∷ [])) parts later)
          ]
    ]
