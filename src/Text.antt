-- ===== src/Text.antt =====
-- Go's strings, as the lists of their code points, and the functions of package `strings` that the
-- program calls. UTF-8 orders texts as their code points do, so `<` on strings is `text_le` below.
pub mod Order
pub mod Number
pub mod Label
use Prim.Native.Char.{code}
use Prim.Native.String.{String}
use dockerdynomesh.Prelude.{
  ℕ, zero, suc, ◌+◌, Bool, true, false, not, ◌&&◌, ◌||◌, List, [], ◌∷◌, ◌++◌, map, Option, none,
  some, ltb, leb, eqb, any, if◌then◌else◌,
}

abbrev pub Text : Type 0
Text = List ℕ

-- A literal of the source.
abbrev pub codes : String → Text
codes String.[] = []
codes (String.◌∷◌ c s) = code c ∷ codes s

infix 50 ◌==◌
unfoldable pub ◌==◌ : Text → Text → Bool
[] == [] = true
[] == (b ∷ t) = false
(a ∷ s) == [] = false
(a ∷ s) == (b ∷ t) = eqb a b && s == t

-- `s == ""`
abbrev pub is_empty : Text → Bool
is_empty [] = true
is_empty (_ ∷ _) = false

-- `a < b || a == b` on strings.
unfoldable pub text_le : Text → Text → Bool
text_le [] t = true
text_le (a ∷ s) [] = false
text_le (a ∷ s) (b ∷ t) = if ltb a b then true else eqb a b && text_le s t

-- strings.HasPrefix(s, prefix)
unfoldable pub has_prefix : Text → Text → Bool
has_prefix s [] = true
has_prefix [] (p ∷ prefix) = false
has_prefix (a ∷ s) (p ∷ prefix) = eqb a p && has_prefix s prefix

-- strings.TrimPrefix(s, prefix)
drop_prefix : Text → Text → Option Text
drop_prefix s [] = some s
drop_prefix [] (p ∷ prefix) = none
drop_prefix (a ∷ s) (p ∷ prefix) = if eqb a p then drop_prefix s prefix else none

unfoldable pub trim_prefix : Text → Text → Text
unfolding drop_prefix
trim_prefix s prefix = elim (drop_prefix s prefix) [ none ↦ s | some rest ↦ rest ]

-- strings.HasSuffix(s, string(c)), for one character
unfoldable pub ends_in : ℕ → Text → Bool
ends_in c [] = false
ends_in c (a ∷ []) = eqb a c
ends_in c (a ∷ b ∷ s) = ends_in c (b ∷ s)

-- strings.Contains(s, string(c) + string(c))
unfoldable pub has_double : ℕ → Text → Bool
has_double c [] = false
has_double c (a ∷ []) = false
has_double c (a ∷ b ∷ s) = (eqb a c && eqb b c) || has_double c (b ∷ s)

-- strings.ReplaceAll(s, ".", "-")
unfoldable pub dots_to_hyphens : Text → Text
dots_to_hyphens = map (λ c. if eqb c b'.' then b'-' else c)

-- strings.Join(parts, sep)
unfoldable pub join : Text → List Text → Text
join sep [] = []
join sep (p ∷ []) = p
join sep (p ∷ q ∷ ps) = p ++ (sep ++ join sep (q ∷ ps))

-- strings.Split(s, ","): one part more than there are commas.
push : ℕ → List Text → List Text
push c [] = (c ∷ []) ∷ []
push c (p ∷ ps) = (c ∷ p) ∷ ps

unfoldable pub split_commas : Text → List Text
unfolding push
split_commas [] = [] ∷ []
split_commas (c ∷ s) = let rest = split_commas s in if eqb c b',' then [] ∷ rest else push c rest

-- unicode.IsSpace: the characters with the property White_Space.
abbrev pub is_space : ℕ → Bool
is_space c =
    (leb 9 c && leb c 13)
    || eqb c 32
    || eqb c 0x85
    || eqb c 0xa0
    || eqb c 0x1680
    || (leb 0x2000 c && leb c 0x200a)
    || eqb c 0x2028
    || eqb c 0x2029
    || eqb c 0x202f
    || eqb c 0x205f
    || eqb c 0x3000

trim_left : Text → Text
trim_left [] = []
trim_left (c ∷ s) = let rest = trim_left s in if is_space c then rest else c ∷ s

trim_right : Text → Text
trim_right [] = []
trim_right (c ∷ s) = let rest = trim_right s in if is_space c && is_empty rest then [] else c ∷ rest

-- strings.TrimSpace
unfoldable pub trim_space : Text → Text
unfolding trim_left trim_right
trim_space s = trim_left (trim_right s)

-- strings.ToLower. Beyond ASCII the mapping is the Unicode table of the language, `lower`.
abbrev pub lower_rune : (ℕ → ℕ) → ℕ → ℕ
lower_rune lower c = if ltb c 128 then (if leb b'A' c && leb c b'Z' then c + 32 else c) else lower c

unfoldable pub to_lower : (ℕ → ℕ) → Text → Text
to_lower lower = map (lower_rune lower)
