-- ===== src/Examples/Certificates.antt =====
-- Labels, names, requests and numbers.
use mathlib.Core.List.{Memᴰ}
use dockerdynomesh.Prelude.{◌≡◌, refl, ◌↔◌, true, List, [], ◌∷◌, some, arith}
use dockerdynomesh.Prelude.Int.{pos}
use dockerdynomesh.Text.{Text, codes}
use dockerdynomesh.Text.Order.{text_order}
use dockerdynomesh.Text.Number.{atoi, decimal, atoi-decimal}
use dockerdynomesh.Certgen.San.{validate_label, sans}
use dockerdynomesh.Certgen.San.Labels.{IsLabel, validate_label_iff}
use dockerdynomesh.Certgen.San.Members.{IsName, mem-sans}
use dockerdynomesh.Certgen.Api.{requested_sans}
use dockerdynomesh.Certgen.Api.Arguments.{IsSafeWildcard, requested_sans-IsSafeWildcard}
use dockerdynomesh.Examples.Data.{suffixes, request, request-IsValid}

validate_label_iff_example : (validate_label (codes "a..b") ≡ true) ↔ IsLabel (codes "a..b")
validate_label_iff_example = validate_label_iff (codes "a..b")

abbrev shop : List Text
shop = codes "shop" ∷ []

mem-sans_example :
    Memᴰ (codes "*.shop.test") (sans suffixes [] [] shop)
    ↔ IsName suffixes [] [] shop (codes "*.shop.test")
mem-sans_example = mem-sans suffixes [] [] shop (codes "*.shop.test")

abbrev box_name : Text
box_name = codes "*.box.tail.net"

box_listed : Memᴰ box_name (requested_sans request)
box_listed =
    (mem-sans suffixes (codes "box") (codes "tail.net") shop box_name).1
      (IsName.remote refl refl refl)

requested_sans-IsSafeWildcard_example : IsSafeWildcard box_name
requested_sans-IsSafeWildcard_example =
    requested_sans-IsSafeWildcard request request-IsValid box_name box_listed

atoi-decimal_example : atoi (decimal 8080) ≡ some (pos 8080)
atoi-decimal_example = atoi-decimal 8080 (omega arith)
