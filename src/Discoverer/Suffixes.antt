-- ===== src/Discoverer/Suffixes.antt =====
-- `parseTakeoverSuffixes` of cmd/discoverer/main.go.
pub mod Loop
pub mod Listed
use dockerdynomesh.Prelude.{Bool, true, false, not, List, [], ◌∷◌, ◌++◌, any, if◌then◌else◌}
use dockerdynomesh.Prelude.Result.{Result, ok, err}
use dockerdynomesh.Prelude.Sort.{sort}
use dockerdynomesh.Text.{Text, ◌==◌, is_empty, split_commas, trim_space}
use dockerdynomesh.Text.Order.{text_order}
use dockerdynomesh.Certgen.San.{validate_label}

pub data SuffixError : Type 0 where
  invalid_primary invalid_takeover : Text → SuffixError

-- The loop over the parts of the variable; `seen` is the map's key set.
pub take_suffixes : List Text → List Text → List Text → Result SuffixError (List Text)
take_suffixes seen out [] = ok out
take_suffixes seen out (raw ∷ parts) =
    let s = trim_space raw in
    let skip = take_suffixes seen out parts in
    let add = take_suffixes (s ∷ seen) (out ++ (s ∷ [])) parts in
    if is_empty s
    then skip
    else if not (validate_label s)
    then err (invalid_takeover s)
    else if any (◌==◌ s) seen
    then skip
    else add

abbrev sorted : Result SuffixError (List Text) → Result SuffixError (List Text)
sorted (ok out) = ok (sort out)
sorted (err e) = err e

-- `parseTakeoverSuffixes`
unfoldable pub parse_takeover_suffixes : Text → Text → Result SuffixError (List Text)
unfolding take_suffixes
parse_takeover_suffixes primary env =
    if not (validate_label primary)
    then err (invalid_primary primary)
    else sorted (take_suffixes (primary ∷ []) (primary ∷ []) (split_commas env))
