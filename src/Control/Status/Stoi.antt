-- ===== src/Control/Status/Stoi.antt =====
-- `std::stoi`, and the handler around each of its calls.
use tuw_spike.Base.{
  ℕ, suc, ◌+◌, ◌-◌, ◌^◌, ◌≤◌, ◌<◌, ◌∙◌, ap, ◌≡◌, refl, Bool, true, false, ◌||◌, ◌&&◌, List, [], ◌∷◌,
  ◌++◌, leb, ◌==◌, if◌then◌else◌, arith, map,
}
use tuw_spike.Base.Int.{ℤ, pos, negsuc, sub_ℕ}
use tuw_spike.Base.Words.{IsInt32}
use tuw_spike.Base.Text.{Bytes}
use tuw_spike.Base.Result.{invalid_argument, out_of_range, Result, ok, throws}
use tuw_spike.Base.Decimal.{
  span_digits, from_digits, to_string, digits, Stops, span_digits-to_string, from_digits-digits,
  digits-cons, digits-small,
}

abbrev is_space : ℕ → Bool
is_space c = c == b' ' || leb 9 c && leb c 13

unfoldable pub skip_space : Bytes → Bytes
skip_space [] = []
skip_space (c ∷ cs) = if is_space c then skip_space cs else c ∷ cs

-- The value of the digits with the sign, if it is an `int`.
abbrev pub convert : Bool → List ℕ × Bytes → Result ℤ
convert negative ([], rest) = throws invalid_argument
convert negative (d ∷ ds, rest) =
    let value = from_digits 10 0 (d ∷ ds) in
    if leb value (if negative then 2 ^ 31 else 2 ^ 31 - 1)
    then ok (if negative then sub_ℕ 0 value else pos value)
    else throws out_of_range

abbrev pub with_sign : Bytes → Result ℤ
with_sign [] = throws invalid_argument
with_sign (c ∷ cs) =
    if c == b'-'
    then convert true (span_digits 10 cs)
    else if c == b'+'
    then convert false (span_digits 10 cs)
    else convert false (span_digits 10 (c ∷ cs))

-- What follows the digits is ignored.
unfoldable pub stoi : Bytes → Result ℤ
stoi s = with_sign (skip_space s)

-- `try { variable = std::stoi(text); } catch (std::invalid_argument const &)`: a text with no number
-- leaves the variable, and a number out of range goes through.
unfoldable pub stoi_into : Bytes → ℤ → Result ℤ
stoi_into text variable = elim (stoi text) [
  | ok v ↦ ok v
  | throws e ↦ elim e [ invalid_argument ↦ ok variable | other ↦ throws other ]
]

-- `std::to_string` of an `int`.
unfoldable pub int_to_string : ℤ → Bytes
int_to_string (pos n) = to_string n
int_to_string (negsuc n) = b'-' ∷ to_string (suc n)

starts_digit :
    (c : ℕ) (cs : Bytes) → 48 ≤ c → c ≤ 57 → stoi (c ∷ cs) ≡ convert false (span_digits 10 (c ∷ cs))
unfolding stoi skip_space
starts_digit c cs lo hi = ground arith

convert-digits :
    (negative : Bool) (n : ℕ) (rest : Bytes)
    → n ≤ (if negative then 2 ^ 31 else 2 ^ 31 - 1)
    → convert negative (digits n, rest) ≡ ok (if negative then sub_ℕ 0 n else pos n)
convert-digits negative n rest h = go (digits n) (digits-cons n) (from_digits-digits n)
  where
    go :
        (ds : List ℕ)
        → (d : ℕ) × (more : List ℕ) × (ds ≡ d ∷ more)
        → from_digits 10 0 ds ≡ n
        → convert negative (ds, rest) ≡ ok (if negative then sub_ℕ 0 n else pos n)
    go ds (d, more, e) v = ground arith

digits-head : (n : ℕ) → (d : ℕ) × (ds : List ℕ) × (digits n ≡ d ∷ ds) × (d < 10)
digits-head n = let (d, ds, e) = digits-cons n in (d, ds, e, (rw e at (digits-small n)).0)

stoi-to_string :
    (n : ℕ) (rest : Bytes)
    → Stops 10 rest
    → n ≤ 2 ^ 31 - 1
    → stoi (to_string n ++ rest) ≡ ok (pos n)
stoi-to_string n rest s h =
    first (digits-head n)
    ∙ ap (convert false) (span_digits-to_string n rest s)
    ∙ convert-digits false n rest h
  where
    first :
        (d : ℕ) × (ds : List ℕ) × (digits n ≡ d ∷ ds) × (d < 10)
        → stoi (to_string n ++ rest) ≡ convert false (span_digits 10 (to_string n ++ rest))
    first (d, ds, e, lt) =
        unfold to_string in
        rw e (starts_digit (48 + d) (map (λ x. 48 + x) ds ++ rest) (omega arith) (omega arith))

-- What `std::to_string` prints of an `int` is read back by `std::stoi`, with anything behind it that
-- is not a digit.
pub stoi-int_to_string :
    (z : ℤ) (rest : Bytes) → IsInt32 z → Stops 10 rest → stoi (int_to_string z ++ rest) ≡ ok z
unfolding int_to_string
stoi-int_to_string (pos n) rest h s = stoi-to_string n rest s (omega arith)
stoi-int_to_string (negsuc n) rest h s =
    minus
    ∙ ap (convert true) (span_digits-to_string (suc n) rest s)
    ∙ convert-digits true (suc n) rest (omega arith)
    ∙ ground arith
  where
    minus :
        stoi (b'-' ∷ to_string (suc n) ++ rest)
        ≡ convert true (span_digits 10 (to_string (suc n) ++ rest))
    minus = unfold stoi skip_space in refl
