-- ===== src/Base/Decimal.antt =====
-- Numerals in text: `std::to_string` of an unsigned integer, and the digit runs that `std::stoi` and
-- `std::from_chars` read.
use Prim.Native.Nat.{ℕ, zero, suc, ◌+◌, ◌-◌, ◌*◌, ◌/◌, ◌%◌, ◌≤◌, ◌<◌}
use mathlib.Core.Path.{◌≡◌, refl, ap, ◌∙◌}
use mathlib.Core.Logic.{inl, inr}
use mathlib.Core.Bool.{true, false, ◌&&◌}
use mathlib.Core.Option.{Option, none, some}
use mathlib.Core.List.{List, [], ◌∷◌, ◌++◌, map}
use native.Mathlib.Omega.{arith}
use tuw_spike.Base.Tests.{ltb, leb, if◌then◌else◌, Bool-cases, ltb→lt}
use tuw_spike.Base.Lists.{All, All-append, length, length-append}
use tuw_spike.Base.Text.{Bytes}

-- The digits of a number, most significant first; the first argument bounds their count.
digits_fuel : ℕ → ℕ → List ℕ
digits_fuel zero n = []
digits_fuel (suc f) n = elim (ltb n 10) [
  | true ↦ n ∷ []
  | false ↦ digits_fuel f (n / 10) ++ (n % 10) ∷ []
]

unfoldable pub digits : ℕ → List ℕ
unfolding digits_fuel
digits n = digits_fuel (suc n) n

-- `std::to_string` of an unsigned number.
unfoldable pub to_string : ℕ → Bytes
to_string n = map (λ d. 48 + d) (digits n)

-- The value of a character as a digit of the base, 10 or 16.
unfoldable pub digit_value : ℕ → ℕ → Option ℕ
digit_value base c =
    if leb 48 c && leb c 57
    then some (c - 48)
    else if ltb 10 base && leb 97 c && leb c 102
    then some (c - 87)
    else if ltb 10 base && leb 65 c && leb c 70
    then some (c - 55)
    else none

-- The longest run of digits at the front, and what follows it.
unfoldable pub span_digits : ℕ → Bytes → List ℕ × Bytes
span_digits base [] = ([], [])
span_digits base (c ∷ cs) = elim (digit_value base c) [
  | none ↦ ([], c ∷ cs)
  | some d ↦ let (ds, rest) = span_digits base cs in (d ∷ ds, rest)
]

-- The number that digits stand for, after those that `acc` stands for.
unfoldable pub from_digits : ℕ → ℕ → List ℕ → ℕ
from_digits base acc [] = acc
from_digits base acc (d ∷ ds) = from_digits base (acc * base + d) ds

from_digits-append :
    (base acc : ℕ) (xs ys : List ℕ)
    → from_digits base acc (xs ++ ys) ≡ from_digits base (from_digits base acc xs) ys
unfolding from_digits
from_digits-append base acc [] ys = refl
from_digits-append base acc (x ∷ xs) ys = from_digits-append base (acc * base + x) xs ys

digits_fuel_last : (f n : ℕ) → ltb n 10 ≡ true → digits_fuel (suc f) n ≡ n ∷ []
unfolding digits_fuel
digits_fuel_last f n e = rw (e, digits_fuel)

digits_fuel_more :
    (f n : ℕ) → ltb n 10 ≡ false → digits_fuel (suc f) n ≡ digits_fuel f (n / 10) ++ (n % 10) ∷ []
unfolding digits_fuel
digits_fuel_more f n e = rw (e, digits_fuel)

from_digits_one : (acc d : ℕ) → from_digits 10 acc (d ∷ []) ≡ acc * 10 + d
unfolding from_digits
from_digits_one acc d = refl

from_digits-digits_fuel : (f n : ℕ) → n < f → from_digits 10 0 (digits_fuel f n) ≡ n
from_digits-digits_fuel zero n h = absurd (omega arith)
from_digits-digits_fuel (suc f) n h = elim (Bool-cases (ltb n 10)) [
  | inl e ↦ rw (digits_fuel_last f n e, from_digits_one) (omega arith)
  | inr e ↦
      rw
        (
          digits_fuel_more f n e,
          from_digits-append 10 0 (digits_fuel f (n / 10)) ((n % 10) ∷ []),
          from_digits-digits_fuel f (n / 10) (ground arith),
          from_digits_one,
        )
        (omega arith)
]

-- Printed digits read back.
pub from_digits-digits : (n : ℕ) → from_digits 10 0 (digits n) ≡ n
unfolding digits
from_digits-digits n = from_digits-digits_fuel (suc n) n (omega arith)

digits_fuel-small : (f n : ℕ) → All (λ d. d < 10) (digits_fuel f n)
unfolding digits_fuel
digits_fuel-small zero n = tt
digits_fuel-small (suc f) n = elim (Bool-cases (ltb n 10)) [
  | inl e ↦ rw (e, digits_fuel, All) (ltb→lt n 10 e, tt)
  | inr e ↦
      rw (e, digits_fuel, All)
        (All-append (λ d. d < 10) (digits_fuel f (n / 10)) ((n % 10) ∷ [])
          (digits_fuel-small f (n / 10)) (omega arith))
]

pub digits-small : (n : ℕ) → All (λ d. d < 10) (digits n)
unfolding digits
digits-small n = digits_fuel-small (suc n) n

-- No text of digits goes on into `rest`.
abbrev pub Stops : ℕ → Bytes → Type 0
Stops base [] = Unit {0}
Stops base (c ∷ cs) = digit_value base c ≡ none

digit_value-decimal : (d : ℕ) → d < 10 → digit_value 10 (48 + d) ≡ some d
unfolding digit_value
digit_value-decimal d h = ground arith

span_digits-map :
    (ds : List ℕ) (rest : Bytes)
    → All (λ d. d < 10) ds
    → Stops 10 rest
    → span_digits 10 (map (λ d. 48 + d) ds ++ rest) ≡ (ds, rest)
unfolding span_digits
span_digits-map [] [] h s = refl
span_digits-map [] (c ∷ cs) h s = rw (s, span_digits)
span_digits-map (d ∷ ds) rest h s =
    rw (digit_value-decimal d h.0, span_digits, span_digits-map ds rest h.1 s)

-- The run of digits at the front of a printed number is that number's.
pub span_digits-to_string :
    (n : ℕ) (rest : Bytes) → Stops 10 rest → span_digits 10 (to_string n ++ rest) ≡ (digits n, rest)
unfolding to_string
span_digits-to_string n rest s = span_digits-map (digits n) rest (digits-small n) s

digits_fuel-cons : (f n : ℕ) → (d : ℕ) × (ds : List ℕ) × (digits_fuel (suc f) n ≡ d ∷ ds)
digits_fuel-cons zero n = elim (Bool-cases (ltb n 10)) [
  | inl e ↦ (n, [], digits_fuel_last 0 n e)
  | inr e ↦ (n % 10, [], digits_fuel_more 0 n e ∙ unfold digits_fuel in refl)
]
digits_fuel-cons (suc f) n = elim (Bool-cases (ltb n 10)) [
  | inl e ↦ (n, [], digits_fuel_last (suc f) n e)
  | inr e ↦
      let (d, ds, q) = digits_fuel-cons f (n / 10) in
      (
        d,
        ds ++ (n % 10) ∷ [],
        digits_fuel_more (suc f) n e ∙ ap (λ (t : List ℕ). t ++ (n % 10) ∷ []) q,
      )
]

-- A number has a digit.
pub digits-cons : (n : ℕ) → (d : ℕ) × (ds : List ℕ) × (digits n ≡ d ∷ ds)
unfolding digits
digits-cons n = digits_fuel-cons n n

pub digits_one : (n : ℕ) → n < 10 → digits n ≡ n ∷ []
unfolding digits
digits_one n h = digits_fuel_last n n (ground arith)

pub digits_more : (n : ℕ) → 10 ≤ n → 2 ≤ length (digits n)
unfolding digits
digits_more (suc n) h =
    let (d, ds, e) = digits_fuel-cons n (suc n / 10) in
    rw (digits_fuel_more (suc n) (suc n) (ground arith), e)
      (omega (arith, length-append ds ((suc n % 10) ∷ [])))
digits_more zero h = elim h [ ]

length-digits_fuel-le : (f n : ℕ) → length (digits_fuel f n) ≤ f
length-digits_fuel-le zero n = unfold digits_fuel in omega arith
length-digits_fuel-le (suc f) n = elim (Bool-cases (ltb n 10)) [
  | inl e ↦ rw (digits_fuel_last f n e) (omega arith)
  | inr e ↦ rw (digits_fuel_more f n e) (
      omega (
        arith,
        length-append (digits_fuel f (n / 10)) ((n % 10) ∷ []),
        length-digits_fuel-le f (n / 10),
      ))
]

length-map-digits : (ds : List ℕ) → length (map (λ d. 48 + d) ds) ≡ length ds
length-map-digits [] = refl
length-map-digits (d ∷ ds) = ap suc (length-map-digits ds)

-- A coarse bound on the length of a printed number.
pub length-to_string-le : (n : ℕ) → length (to_string n) ≤ suc n
unfolding to_string digits
length-to_string-le n =
    omega (arith, length-map-digits (digits_fuel (suc n) n), length-digits_fuel-le (suc n) n)

pub length-to_string : (n : ℕ) → length (to_string n) ≡ length (digits n)
unfolding to_string
length-to_string n = length-map-digits (digits n)
