-- ===== src/Certgen/San/Labels.antt =====
-- What `ValidateLabel` accepts.
use dockerdynomesh.Prelude.{
  ℕ, ◌≡◌, ◌↔◌, ap, Bool, true, false, ◌&&◌, [], ◌∷◌, ◌++◌, All, eqb, arith, Bool-cases, inl, inr,
}
use dockerdynomesh.Text.{Text, ends_in, has_double}
use dockerdynomesh.Text.Label.{matches_label, IsSafe, matches_label-IsSafe}
use dockerdynomesh.Certgen.San.{dotted, validate_label}

-- The text ends in the character; it has the character twice in a row.
abbrev pub EndsIn : ℕ → Text → Type 0
EndsIn c s = (r : Text) × (s ≡ r ++ (c ∷ []))

abbrev pub HasDouble : ℕ → Text → Type 0
HasDouble c s = (a : Text) × (b : Text) × (s ≡ a ++ (c ∷ c ∷ b))

EndsIn-of_test : (c : ℕ) (s : Text) → ends_in c s ≡ true → EndsIn c s
unfolding ends_in
EndsIn-of_test c [] h = cc
EndsIn-of_test c (a ∷ []) h = ([], ground arith)
EndsIn-of_test c (a ∷ b ∷ s) h = let (r, e) = EndsIn-of_test c (b ∷ s) h in (a ∷ r, ap (◌∷◌ a) e)

ends_in-append : (c : ℕ) (r : Text) → ends_in c (r ++ (c ∷ [])) ≡ true
unfolding ends_in
ends_in-append c [] = ground arith
ends_in-append c (a ∷ []) = ground arith
ends_in-append c (a ∷ b ∷ r) = ends_in-append c (b ∷ r)

HasDouble-of_test : (c : ℕ) (s : Text) → has_double c s ≡ true → HasDouble c s
unfolding has_double
HasDouble-of_test c [] h = cc
HasDouble-of_test c (a ∷ []) h = cc
HasDouble-of_test c (a ∷ b ∷ s) h = elim (Bool-cases (eqb a c && eqb b c)) [
  | inl e ↦ ([], s, ground arith)
  | inr e ↦ let (l, r, p) = HasDouble-of_test c (b ∷ s) (ground arith) in (a ∷ l, r, ap (◌∷◌ a) p)
]

has_double-append : (c : ℕ) (a b : Text) → has_double c (a ++ (c ∷ c ∷ b)) ≡ true
unfolding has_double
has_double-append c [] b = ground arith
has_double-append c (x ∷ []) b = ground arith
has_double-append c (x ∷ y ∷ a) b = ground (arith, has_double-append c (y ∷ a) b)

-- `validate_label` written as the four conditions of its comment.
pub record IsLabel (s : Text) : Type 0 where
  pub matches : matches_label s ≡ true
  pub single_dots : ¬ HasDouble b'.' s
  pub no_last_dot : ¬ EndsIn b'.' s
  pub no_last_hyphen : ¬ EndsIn b'-' s

tests_of_label :
    (s : Text)
    → validate_label s ≡ true
    → (matches_label s ≡ true)
      × (has_double b'.' s ≡ false)
      × (ends_in b'.' s ≡ false)
      × (ends_in b'-' s ≡ false)
unfolding validate_label
tests_of_label s h = ground arith

not_true_of_false : (b : Bool) → ¬ (b ≡ true) → b ≡ false
not_true_of_false b h = ground arith

label_of_tests :
    (s : Text)
    → matches_label s ≡ true
    → has_double b'.' s ≡ false
    → ends_in b'.' s ≡ false
    → ends_in b'-' s ≡ false
    → validate_label s ≡ true
unfolding validate_label
label_of_tests s h k l m = ground arith

not_double : (c : ℕ) (s : Text) → has_double c s ≡ false → ¬ HasDouble c s
not_double c s h (a, b, e) = cc (h, ap (has_double c) e, has_double-append c a b)

not_ends : (c : ℕ) (s : Text) → ends_in c s ≡ false → ¬ EndsIn c s
not_ends c s h (r, e) = cc (h, ap (ends_in c) e, ends_in-append c r)

-- `ValidateLabel` accepts a text exactly when it matches the expression, has no two dots in a row,
-- and ends neither in a dot nor in a hyphen.
pub validate_label_iff : (s : Text) → (validate_label s ≡ true) ↔ IsLabel s
validate_label_iff s = (
  (λ h.
      let (m, d, e, f) = tests_of_label s h in
      record {
        matches = m;
        single_dots = not_double b'.' s d;
        no_last_dot = not_ends b'.' s e;
        no_last_hyphen = not_ends b'-' s f;
      }),
  (λ l.
      label_of_tests s l.matches
        (not_true_of_false _ (λ e. l.single_dots (HasDouble-of_test b'.' s e)))
        (not_true_of_false _ (λ e. l.no_last_dot (EndsIn-of_test b'.' s e)))
        (not_true_of_false _ (λ e. l.no_last_hyphen (EndsIn-of_test b'-' s e)))),
)

-- Every character of an accepted label is safe to interpolate.
pub validate_label-IsSafe : (s : Text) → validate_label s ≡ true → All IsSafe s
validate_label-IsSafe s h = matches_label-IsSafe s (tests_of_label s h).0

-- Texts of safe characters joined by a dot.
pub IsSafe-dotted : (s t : Text) → All IsSafe s → All IsSafe t → All IsSafe (dotted s t)
IsSafe-dotted [] t h k = (ground arith, k)
IsSafe-dotted (c ∷ s) t (h, hs) k = (h, IsSafe-dotted s t hs k)
