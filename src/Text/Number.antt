-- ===== src/Text/Number.antt =====
-- `strconv.Atoi` and the verb `%d`: decimal numbers, and their round trip.
use dockerdynomesh.Prelude.{
  ℕ, zero, suc, ◌+◌, ◌-◌, ◌*◌, ◌/◌, ◌%◌, ◌^◌, ◌≤◌, ◌<◌, ◌≡◌, ◌∙◌, Bool, true, false, ◌&&◌, [], ◌∷◌,
  Option, none, some, leb, ltb, eqb, Bool-cases, arith, inl, inr, if◌then◌else◌,
}
use dockerdynomesh.Prelude.Int.{ℤ, pos, negsuc}
use dockerdynomesh.Text.{Text}

abbrev is_digit : ℕ → Bool
is_digit c = leb b'0' c && leb c b'9'

parse_digits : ℕ → Text → Option ℕ
parse_digits n [] = some n
parse_digits n (c ∷ s) =
    let rest = parse_digits (n * 10 + (c - 48)) s in if is_digit c then rest else none

-- at least one digit
number : Text → Option ℕ
unfolding parse_digits
number [] = none
number (c ∷ s) = parse_digits 0 (c ∷ s)

abbrev positive : Option ℕ → Option ℤ
positive none = none
positive (some n) = if leb n (2 ^ 63 - 1) then some (pos n) else none

abbrev negative : Option ℕ → Option ℤ
negative none = none
negative (some zero) = some (pos 0)
negative (some (suc n)) = if leb (suc n) (2 ^ 63) then some (negsuc n) else none

-- strconv.Atoi on a 64-bit platform; `none` is an error.
unfoldable pub atoi : Text → Option ℤ
unfolding number
atoi [] = none
atoi (c ∷ s) =
    if eqb c b'-'
    then negative (number s)
    else if eqb c b'+'
    then positive (number s)
    else positive (number (c ∷ s))

decimal_onto : ℕ → ℕ → Text → Text
decimal_onto zero n acc = acc
decimal_onto (suc fuel) n acc = elim (ltb n 10) [
  | true ↦ (48 + n) ∷ acc
  | false ↦ decimal_onto fuel (n / 10) ((48 + n % 10) ∷ acc)
]

-- the fuel is above the number of digits
unfoldable pub decimal : ℕ → Text
unfolding decimal_onto
decimal n = decimal_onto (suc n) n []

-- `%d`
unfoldable pub format_int : ℤ → Text
unfolding decimal
format_int (pos n) = decimal n
format_int (negsuc n) = b'-' ∷ decimal (suc n)

-- One digit read.
parse_digits_step :
    (m d n : ℕ) (acc : Text)
    → d < 10
    → m * 10 + d ≡ n
    → parse_digits m ((48 + d) ∷ acc) ≡ parse_digits n acc
unfolding parse_digits
parse_digits_step m d n acc h e =
    let digit : is_digit (48 + d) ≡ true = ground arith in
    let value : m * 10 + (48 + d - 48) ≡ n = omega arith in rw (digit, value)

parse_digits-decimal_onto :
    (fuel n : ℕ) (acc : Text)
    → n < fuel
    → parse_digits 0 (decimal_onto fuel n acc) ≡ parse_digits n acc
unfolding decimal_onto
parse_digits-decimal_onto zero n acc h = elim h [ ]
parse_digits-decimal_onto (suc fuel) n acc h = elim (Bool-cases (ltb n 10)) [
  | inl e ↦ rw (e, decimal_onto) (parse_digits_step 0 n n acc (ground arith) (omega arith))
  | inr e ↦
      rw (e, decimal_onto)
        (parse_digits-decimal_onto fuel (n / 10) ((48 + n % 10) ∷ acc) (ground arith)
          ∙ parse_digits_step (n / 10) (n % 10) n acc (omega arith) (omega arith))
]

-- The printed number starts with a digit.
decimal_onto_head :
    (fuel n : ℕ) (acc : Text)
    → n < fuel
    → (d : ℕ) × (rest : Text) × (decimal_onto fuel n acc ≡ d ∷ rest) × (48 ≤ d) × (d < 58)
unfolding decimal_onto
decimal_onto_head zero n acc h = elim h [ ]
decimal_onto_head (suc fuel) n acc h = elim (Bool-cases (ltb n 10)) [
  | inl e ↦ (48 + n, acc, rw (e, decimal_onto), omega arith, ground arith)
  | inr e ↦
      let (d, rest, p, lo, hi) =
        decimal_onto_head fuel (n / 10) ((48 + n % 10) ∷ acc) (ground arith) in
      (d, rest, rw (e, decimal_onto) p, lo, hi)
]

atoi_unsigned :
    (d : ℕ) (rest : Text) {n : ℕ}
    → 48 ≤ d
    → n ≤ 2 ^ 63 - 1
    → parse_digits 0 (d ∷ rest) ≡ some n
    → atoi (d ∷ rest) ≡ some (pos n)
unfolding atoi
atoi_unsigned d rest {n} h k e =
    let minus : eqb d b'-' ≡ false = ground arith in
    let plus : eqb d b'+' ≡ false = ground arith in
    let fits : leb n (2 ^ 63 - 1) ≡ true = ground arith in rw (minus, plus, e, fits)

-- A printed `int` that is not negative is read back.
pub atoi-decimal : (n : ℕ) → n ≤ 2 ^ 63 - 1 → atoi (decimal n) ≡ some (pos n)
unfolding decimal parse_digits
atoi-decimal n h =
    let (d, rest, e, lo, _) = decimal_onto_head (suc n) n [] (omega arith) in
    let parsed = parse_digits-decimal_onto (suc n) n [] (omega arith) in
    rw e (atoi_unsigned d rest lo h (rw e at parsed))

pub decimal_head : (n : ℕ) → (d : ℕ) × (rest : Text) × (decimal n ≡ d ∷ rest) × (48 ≤ d) × (d < 58)
unfolding decimal
decimal_head n = decimal_onto_head (suc n) n [] (omega arith)
