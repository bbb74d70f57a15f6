-- ===== src/Control/Params.antt =====
-- `read_param` and its overloads, of tuw_spike_control/include/tuw_spike_control/interface_utils.hpp.
-- A parameter map is an association list of texts; its first entry for a name is the entry.
use tuw_spike.Base.{
  ℕ, ◌+◌, ◌≤◌, ◌<◌, ◌≡◌, refl, ◌⊎◌, Bool, true, false, List, [], ◌∷◌, Option, none, some, arith,
  leb, if◌then◌else◌, take, drop, append-nil, All, map, ap, ◌∙◌, sym,
}
use tuw_spike.Base.Text.{Bytes, bytes, bytes_eq, lookup}
use tuw_spike.Base.Result.{runtime_error, Result, ok, throws, ◌>>=◌}
use tuw_spike.Base.Decimal.{
  span_digits, from_digits, to_string, digits, span_digits-to_string, from_digits-digits,
  digits-cons, digits-small,
}

abbrev pub Params : Type 0
Params = List (Bytes × Bytes)

-- `read_param_impl<std::string>`
unfoldable pub read_string : Params → Bytes → Result Bytes
read_string params param = elim (lookup param params) [
  | none ↦ throws runtime_error
  | some v ↦ ok v
]

-- What `std::from_chars` returns for an unsigned type: `ec` with the value, and `ptr` as the rest.
pub data Parsed : Type 0 where
  parsed : ℕ → Bytes → Parsed
  no_digits too_large : Parsed

abbrev in_range : ℕ → ℕ → List ℕ × Bytes → Parsed
in_range max base ([], rest) = no_digits
in_range max base (d ∷ ds, rest) =
    let value = from_digits base 0 (d ∷ ds) in
    if leb value max then parsed value rest else too_large

-- `std::from_chars` into an unsigned type whose greatest value is `max`.
unfoldable pub from_chars : ℕ → ℕ → Bytes → Parsed
from_chars max base s = in_range max base (span_digits base s)

-- `ec != std::errc() || ptr != end` throws.
abbrev finish : Parsed → Result ℕ
finish (parsed value []) = ok value
finish (parsed value (c ∷ rest)) = throws runtime_error
finish no_digits = throws runtime_error
finish too_large = throws runtime_error

abbrev pub is_hex : Bytes → Bool
is_hex s = bytes_eq (take 2 s) (bytes "0x")

-- `read_param_impl` of an unsigned integral type.
unfoldable pub read_integer : ℕ → Params → Bytes → Result ℕ
read_integer max params param = do
  string ← read_string params param
  finish (if is_hex string then from_chars max 16 (drop 2 string) else from_chars max 10 string)

abbrev bool_of : Bytes → Result Bool
bool_of string =
    if bytes_eq string (bytes "true")
    then ok true
    else if bytes_eq string (bytes "false")
    then ok false
    else throws runtime_error

-- `read_param_impl<bool>`
unfoldable pub read_bool : Params → Bytes → Result Bool
read_bool params param = do string ← read_string params param; bool_of string

-- `read_param`, over the overload of `read_param_impl` for the type.
unfoldable pub read_param :
    {A : Type 0} → (Params → Bytes → Result A) → Params → Bytes → Option A → Result A
read_param impl params param none = impl params param
read_param impl params param (some def) = elim (lookup param params) [
  | none ↦ ok def
  | some v ↦ impl params param
]

to_string-not-hex : (n : ℕ) → is_hex (to_string n) ≡ false
unfolding to_string
to_string-not-hex n = go (digits n) (digits-small n)
  where
    go : (ds : List ℕ) → All (λ d. d < 10) ds → is_hex (map (λ d. 48 + d) ds) ≡ false
    go [] h = refl
    go (d ∷ []) h = ground arith
    go (d ∷ e ∷ ds) h = ground arith

from_chars-to_string : (max n : ℕ) → n ≤ max → from_chars max 10 (to_string n) ≡ parsed n []
unfolding from_chars
from_chars-to_string max n h =
    ap (in_range max 10)
      (ap (span_digits 10) (sym (append-nil (to_string n))) ∙ span_digits-to_string n [] tt)
    ∙ go (digits n) (digits-cons n) (from_digits-digits n)
  where
    go :
        (ds : List ℕ)
        → (d : ℕ) × (rest : List ℕ) × (ds ≡ d ∷ rest)
        → from_digits 10 0 ds ≡ n
        → in_range max 10 (ds, []) ≡ parsed n []
    go ds (d, rest, e) v = ground arith

-- An integer parameter written in decimal, as `std::to_string` prints it, is read back exactly, for
-- every value that the type holds.
pub read_integer-to_string :
    (max n : ℕ) (params : Params) (param : Bytes)
    → n ≤ max
    → lookup param params ≡ some (to_string n)
    → read_integer max params param ≡ ok n
unfolding read_integer read_string
read_integer-to_string max n params param h e =
    ground (arith, to_string-not-hex n, from_chars-to_string max n h)

-- Reading an integer parameter yields a value of the type or throws `std::runtime_error`.
pub read_integer-cases :
    (max : ℕ) (params : Params) (param : Bytes)
    → (read_integer max params param ≡ throws runtime_error)
      ⊎ ((v : ℕ) × (read_integer max params param ≡ ok v) × (v ≤ max))
unfolding read_integer read_string from_chars
read_integer-cases max params param = ground arith

-- With a default, a missing parameter yields the default, and one that is set yields what it says in
-- the range of the type, or throws `std::runtime_error`.
pub read_param-integer :
    (max : ℕ) (params : Params) (param : Bytes) (def : ℕ)
    → def ≤ max
    → let result = read_param (read_integer max) params param (some def) in
      ((lookup param params ≡ none) × (result ≡ ok def))
      ⊎ ((result ≡ throws runtime_error) ⊎ ((v : ℕ) × (result ≡ ok v) × (v ≤ max)))
unfolding read_param
read_param-integer max params param def h = ground (arith, read_integer-cases max params param)

pub read_param-bool :
    (params : Params) (param : Bytes) (def : Bool)
    → let result = read_param read_bool params param (some def) in
      (result ≡ throws runtime_error) ⊎ ((v : Bool) × (result ≡ ok v))
unfolding read_param read_bool read_string
read_param-bool params param def = ground arith
