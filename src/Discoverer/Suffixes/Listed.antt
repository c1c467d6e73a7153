-- ===== src/Discoverer/Suffixes/Listed.antt =====
-- What `parseTakeoverSuffixes` returns, and when.
use mathlib.Core.List.{Memᴰ}
use mathlib.Core.List.Permᴰ
use dockerdynomesh.Prelude.{
  ◌≡◌, refl, sym, ap, ◌∙◌, ◌↔◌, subst, true, List, [], ◌∷◌, Bool-cases, inl, inr, ◌⊎◌, IsDistinct,
  IsDistinct-perm, mem_singleton,
}
use dockerdynomesh.Prelude.Result.{Result, ok, err, ok_inj, ok_ne_err, Succeeds}
use dockerdynomesh.Prelude.Sort.{IsSorted, sort, sort-perm, mem-sort, sort-IsSorted}
use dockerdynomesh.Text.{Text, split_commas}
use dockerdynomesh.Text.Order.{text_order}
use dockerdynomesh.Certgen.San.{validate_label}
use dockerdynomesh.Discoverer.Suffixes.{SuffixError, take_suffixes, sorted, parse_takeover_suffixes}
use dockerdynomesh.Discoverer.Suffixes.Loop.{
  IsGood, IsPart, Grown, take_suffixes-Grown, take_suffixes_ok,
}

-- The list behind the two arguments: the primary suffix, and the parts of the variable.
pub record IsSuffixList (primary env : Text) (out : List Text) : Type 0 where
  pub sorted : IsSorted out
  pub distinct : IsDistinct out
  pub valid : (s : Text) → Memᴰ s out → validate_label s ≡ true
  pub first : Memᴰ primary out
  pub parts : (s : Text) → IsPart (split_commas env) s → Memᴰ s out
  pub only : (s : Text) → Memᴰ s out → (s ≡ primary) ⊎ IsPart (split_commas env) s

primary-IsGood :
    (primary : Text) → validate_label primary ≡ true → IsGood (primary ∷ []) (primary ∷ [])
primary-IsGood primary h = record {
  seen_out = λ s m. m;
  out_seen = λ s m. m;
  distinct = ((λ m. elim m [ ]), tt);
  valid = λ s m. ap validate_label (mem_singleton m) ∙ h;
}

IsSuffixList-sort :
    (primary env : Text) (res : List Text)
    → Grown (primary ∷ []) (split_commas env) res
    → IsSuffixList primary env (sort res)
IsSuffixList-sort primary env res g = record {
  sorted = sort-IsSorted res;
  distinct = IsDistinct-perm (Permᴰ.symm (sort-perm res)) g.distinct;
  valid = λ s m. g.valid s ((mem-sort res).0 m);
  first = (mem-sort res).1 (g.keeps primary (Memᴰ.head refl));
  parts = λ s p. (mem-sort res).1 (g.adds s p);
  only =
      λ s m. elim (g.only s ((mem-sort res).0 m)) [ inl k ↦ inl (mem_singleton k) | inr p ↦ inr p ];
}

IsSuffixList-sorted :
    (primary env : Text) (r : Result SuffixError (List Text)) {out : List Text}
    → take_suffixes (primary ∷ []) (primary ∷ []) (split_commas env) ≡ r
    → validate_label primary ≡ true
    → sorted r ≡ ok out
    → IsSuffixList primary env out
IsSuffixList-sorted primary env (err e) h v k = absurd (ok_ne_err (sym k))
IsSuffixList-sorted primary env (ok res) h v k = subst (IsSuffixList primary env) (ok_inj k) (
    IsSuffixList-sort primary env res (
      take_suffixes-Grown (primary ∷ []) (primary ∷ []) (split_commas env)
        (primary-IsGood primary v) h))

-- A list that is returned is in ascending order and has no repetition; its members are valid labels,
-- and they are exactly the primary suffix and the trimmed parts of the variable that are not empty.
pub parse_takeover_suffixes-IsSuffixList :
    (primary env : Text) (out : List Text)
    → parse_takeover_suffixes primary env ≡ ok out
    → IsSuffixList primary env out
unfolding parse_takeover_suffixes
parse_takeover_suffixes-IsSuffixList primary env out h =
    elim (Bool-cases (validate_label primary)) [
      | inr e ↦ absurd (ok_ne_err (sym (rw e at h)))
      | inl e ↦ IsSuffixList-sorted primary env _ refl e (rw e at h)
    ]

Succeeds-sorted : (r : Result SuffixError (List Text)) → Succeeds r → Succeeds (sorted r)
Succeeds-sorted (ok res) h = (sort res, refl)
Succeeds-sorted (err e) (res, h) = absurd (ok_ne_err (sym h))

valid_primary :
    (primary env : Text)
    → Succeeds (parse_takeover_suffixes primary env)
    → validate_label primary ≡ true
valid_primary primary env (out, h) =
    let g = parse_takeover_suffixes-IsSuffixList primary env out h in g.valid primary g.first

valid_part :
    (primary env : Text)
    → Succeeds (parse_takeover_suffixes primary env)
    → (s : Text) → IsPart (split_commas env) s
    → validate_label s ≡ true
valid_part primary env (out, h) s p =
    let g = parse_takeover_suffixes-IsSuffixList primary env out h in g.valid s (g.parts s p)

Succeeds-of_valid :
    (primary env : Text)
    → validate_label primary ≡ true
    → ((s : Text) → IsPart (split_commas env) s → validate_label s ≡ true)
    → Succeeds (parse_takeover_suffixes primary env)
unfolding parse_takeover_suffixes
Succeeds-of_valid primary env v h = rw v (
    Succeeds-sorted (take_suffixes (primary ∷ []) (primary ∷ []) (split_commas env))
      (take_suffixes_ok (primary ∷ []) (primary ∷ []) (split_commas env) h))

-- A list is returned exactly where the primary suffix and every trimmed part of the variable that is
-- not empty are valid labels; in all other cases it is an error.
pub parse_takeover_suffixes_iff :
    (primary env : Text)
    → Succeeds (parse_takeover_suffixes primary env) ↔ (
        (validate_label primary ≡ true)
        × ((s : Text) → IsPart (split_commas env) s → validate_label s ≡ true))
parse_takeover_suffixes_iff primary env = (
  (λ h. (valid_primary primary env h, valid_part primary env h)),
  λ (v, h). Succeeds-of_valid primary env v h,
)
