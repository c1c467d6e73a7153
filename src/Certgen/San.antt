-- ===== src/Certgen/San.antt =====
-- internal/certgen/san.go: labels and the list of subject alternative names.
pub mod Labels
pub mod Unique
pub mod Members
pub mod Length
use dockerdynomesh.Prelude.{
  ℕ, Bool, true, false, not, ◌&&◌, ◌||◌, List, [], ◌∷◌, ◌++◌, map, any, if◌then◌else◌,
}
use dockerdynomesh.Prelude.Sort.{sort}
use dockerdynomesh.Text.{Text, codes, ◌==◌, is_empty, ends_in, has_double}
use dockerdynomesh.Text.Order.{text_order}
use dockerdynomesh.Text.Label.{matches_label}

-- `ValidateLabel`
unfoldable pub validate_label : Text → Bool
validate_label s =
    if not (matches_label s)
    then false
    else if has_double b'.' s || ends_in b'.' s || ends_in b'-' s
    then false
    else true

-- The loop that drops repeated projects; `seen` is the map's key set.
unique_onto : List Text → List Text → List Text
unique_onto seen [] = []
unique_onto seen (p ∷ ps) =
    let kept = unique_onto (p ∷ seen) ps in
    let rest = unique_onto seen ps in if any (◌==◌ p) seen then rest else p ∷ kept

unfoldable pub unique : List Text → List Text
unfolding unique_onto
unique = unique_onto []

-- fmt.Sprintf("*.%s", s)
abbrev pub wildcard : Text → Text
wildcard s = codes "*." ++ s

-- fmt.Sprintf("%s.%s", a, b)
abbrev pub dotted : Text → Text → Text
dotted a b = a ++ (b'.' ∷ b)

-- One wildcard at a base domain, and one below each project.
abbrev pub wildcards_at : List Text → Text → List Text
wildcards_at projects base = wildcard base ∷ map (λ p. wildcard (dotted p base)) projects

local_names : List Text → List Text → List Text
local_names [] projects = []
local_names (s ∷ suffixes) projects = wildcards_at projects s ++ local_names suffixes projects

remote_names : Text → Text → List Text → List Text
remote_names machine tailnet projects =
    if not (is_empty machine) && not (is_empty tailnet)
    then wildcards_at projects (dotted machine tailnet)
    else []

-- `SANs`
unfoldable pub sans : List Text → Text → Text → List Text → List Text
unfolding local_names remote_names
sans suffixes machine tailnet projects =
    let distinct = unique projects in
    sort (local_names suffixes distinct ++ remote_names machine tailnet distinct)
