-- ===== src/Text/Label.antt =====
-- The expression `^[a-z0-9][a-z0-9.-]*$`, which `certgen.labelRE` and `render.hostnameRE` share.
use dockerdynomesh.Prelude.{
  ℕ, ◌≡◌, refl, Bool, true, false, ◌&&◌, ◌||◌, [], ◌∷◌, ◌++◌, All, all, leb, eqb, arith,
}
use dockerdynomesh.Text.{Text}

-- `[a-z0-9]`
abbrev pub is_alnum : ℕ → Bool
is_alnum c = (leb b'a' c && leb c b'z') || (leb b'0' c && leb c b'9')

-- `[a-z0-9.-]`
abbrev pub is_label_char : ℕ → Bool
is_label_char c = is_alnum c || eqb c b'.' || eqb c b'-'

unfoldable pub matches_label : Text → Bool
matches_label [] = false
matches_label (c ∷ s) = is_alnum c && all is_label_char s

-- A character that is no syntax in a `Host(...)` rule, in YAML's plain text or in a shell word.
abbrev pub IsSafe : ℕ → Type 0
IsSafe c = is_label_char c ≡ true

all-IsSafe : (s : Text) → all is_label_char s ≡ true → All IsSafe s
all-IsSafe [] h = tt
all-IsSafe (c ∷ s) h = (ground arith, all-IsSafe s (ground arith))

-- A text that matches is not empty, starts with a letter or digit, and has safe characters alone.
pub matches_label-IsSafe : (s : Text) → matches_label s ≡ true → All IsSafe s
unfolding matches_label
matches_label-IsSafe [] h = cc
matches_label-IsSafe (c ∷ s) h = (ground arith, all-IsSafe s (ground arith))

all-append :
    (s t : Text)
    → all is_label_char s ≡ true
    → all is_label_char t ≡ true
    → all is_label_char (s ++ t) ≡ true
all-append [] t h k = k
all-append (c ∷ s) t h k = ground (arith, all-append s t)

all_of_matches : (s : Text) → matches_label s ≡ true → all is_label_char s ≡ true
unfolding matches_label
all_of_matches [] h = refl
all_of_matches (c ∷ s) h = ground arith

-- Two matching texts, joined by a dot, match.
pub matches_label-dotted :
    (s t : Text)
    → matches_label s ≡ true
    → matches_label t ≡ true
    → matches_label (s ++ (b'.' ∷ t)) ≡ true
unfolding matches_label
matches_label-dotted [] t h k = cc
matches_label-dotted (c ∷ s) t h k = ground (arith, all-append s (b'.' ∷ t), all_of_matches t)
