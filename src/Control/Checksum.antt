-- ===== src/Control/Checksum.antt =====
-- `checksum` of tuw_spike_control/src/tuw_spike_control_interface.cpp, by which the Build HAT
-- checks an uploaded firmware image.
use Prim.Native.Nat.{bit_xor}
use tuw_spike.Base.{
  ℕ, ◌*◌, ◌-◌, ◌≤◌, ◌%◌, ◌^◌, ◌<◌, ◌≡◌, ◌≢◌, refl, sym, ap, ◌∙◌, ◌⊎◌, inl, inr, List, [], ◌∷◌, ◌++◌,
  leb, if◌then◌else◌, arith, All, Bool-cases, leb→le,
}
use tuw_spike.Base.Bits.{bit_xor-mod_two, bit_xor-injective, bit_xor-lt, bit_xor_comm}

-- `u << 1` on a uint32_t.
abbrev pub shl32 : ℕ → ℕ
shl32 u = u * 2 % 2 ^ 32

-- The constant that is fed back when the top bit leaves the word.
abbrev pub feedback : ℕ
feedback = 0x1d872b41

-- The shift of one round: `(u & 0x80000000) != 0` asks for the top bit of a uint32_t.
unfoldable pub advance : ℕ → ℕ
advance u = if leb 0x80000000 u then bit_xor (shl32 u) feedback else shl32 u

-- One round of the loop; `& 0xFFFFFFFF` is the remainder by 2^32.
unfoldable pub round : ℕ → ℕ → ℕ
round u b = bit_xor (advance u) b % 2 ^ 32

unfoldable pub checksum_from : ℕ → List ℕ → ℕ
checksum_from u [] = u
checksum_from u (b ∷ bs) = checksum_from (round u b) bs

unfoldable pub checksum : List ℕ → ℕ
unfolding checksum_from
checksum bs = checksum_from 1 bs

abbrev pub IsByte : ℕ → Type 0
IsByte b = b < 2 ^ 8

advance-lt : (u : ℕ) → advance u < 2 ^ 32
unfolding advance
advance-lt u = elim (Bool-cases (leb 0x80000000 u)) [
  | inl e ↦ rw e (bit_xor-lt 32 (shl32 u) feedback (omega arith) (omega arith))
  | inr e ↦ rw e (omega arith)
]

round-eq : (u b : ℕ) → IsByte b → round u b ≡ bit_xor (advance u) b
unfolding round
round-eq u b h = omega (arith, bit_xor-lt 32 (advance u) b (advance-lt u) (omega arith))

-- With the top bit clear the word is doubled; with it set, the rest is doubled and the constant,
-- which is odd, is fed back.
advance-cases :
    (u : ℕ)
    → u < 2 ^ 32
    → ((u < 2 ^ 31) × (advance u ≡ u * 2))
      ⊎ ((2 ^ 31 ≤ u) × (advance u ≡ bit_xor ((u - 2 ^ 31) * 2) feedback))
unfolding advance
advance-cases u h = elim (Bool-cases (leb 0x80000000 u)) [
  | inl e ↦
      let top : 2 ^ 31 ≤ u = leb→le 0x80000000 u e in
      inr (top, rw e (ap (λ (t : ℕ). bit_xor t feedback) (omega arith)))
  | inr e ↦ inl (ground arith, rw e (ground arith))
]

advance-injective : (u v : ℕ) → u < 2 ^ 32 → v < 2 ^ 32 → advance u ≡ advance v → u ≡ v
advance-injective u v hu hv e = both (advance-cases u hu) (advance-cases v hv)
  where
    both :
        ((u < 2 ^ 31) × (advance u ≡ u * 2))
          ⊎ ((2 ^ 31 ≤ u) × (advance u ≡ bit_xor ((u - 2 ^ 31) * 2) feedback))
        → ((v < 2 ^ 31) × (advance v ≡ v * 2))
          ⊎ ((2 ^ 31 ≤ v) × (advance v ≡ bit_xor ((v - 2 ^ 31) * 2) feedback))
        → u ≡ v
    both (inl (p, a)) (inl (q, b)) = omega arith
    both (inl (p, a)) (inr (q, b)) =
        absurd (omega (arith, bit_xor-mod_two ((v - 2 ^ 31) * 2) feedback))
    both (inr (p, a)) (inl (q, b)) =
        absurd (omega (arith, bit_xor-mod_two ((u - 2 ^ 31) * 2) feedback))
    both (inr (p, a)) (inr (q, b)) =
        omega
          (arith, bit_xor-injective ((u - 2 ^ 31) * 2) ((v - 2 ^ 31) * 2) feedback (sym a ∙ e ∙ b))

round-lt : (u b : ℕ) → round u b < 2 ^ 32
unfolding round
round-lt u b = omega arith

-- A round loses nothing of the state.
round-injective : (u v b : ℕ) → u < 2 ^ 32 → v < 2 ^ 32 → IsByte b → round u b ≡ round v b → u ≡ v
round-injective u v b hu hv hb e =
    advance-injective u v hu hv
      (bit_xor-injective (advance u) (advance v) b (sym (round-eq u b hb) ∙ e ∙ round-eq v b hb))

xor-comm_cancel : (a b c : ℕ) → bit_xor a b ≡ bit_xor a c → b ≡ c
xor-comm_cancel a b c e = bit_xor-injective b c a (bit_xor_comm b a ∙ e ∙ bit_xor_comm a c)

-- Nor of the byte.
round-injective_byte : (u b c : ℕ) → IsByte b → IsByte c → round u b ≡ round u c → b ≡ c
round-injective_byte u b c hb hc e =
    xor-comm_cancel (advance u) b c (sym (round-eq u b hb) ∙ e ∙ round-eq u c hc)

checksum_from-injective :
    (bs : List ℕ) (u v : ℕ)
    → u < 2 ^ 32
    → v < 2 ^ 32
    → All IsByte bs
    → checksum_from u bs ≡ checksum_from v bs
    → u ≡ v
unfolding checksum_from
checksum_from-injective [] u v hu hv h e = e
checksum_from-injective (b ∷ bs) u v hu hv h e =
    round-injective u v b hu hv h.0
      (checksum_from-injective bs (round u b) (round v b) (round-lt u b) (round-lt v b) h.1 e)

checksum_from-append :
    (xs ys : List ℕ) (u : ℕ) → checksum_from u (xs ++ ys) ≡ checksum_from (checksum_from u xs) ys
unfolding checksum_from
checksum_from-append [] ys u = refl
checksum_from-append (x ∷ xs) ys u = checksum_from-append xs ys (round u x)

checksum_from-lt : (bs : List ℕ) (u : ℕ) → u < 2 ^ 32 → checksum_from u bs < 2 ^ 32
unfolding checksum_from
checksum_from-lt [] u h = h
checksum_from-lt (b ∷ bs) u h = checksum_from-lt bs (round u b) (round-lt u b)

-- The checksum of an image is a 32-bit word, and the image may be summed in two parts.
pub checksum-append :
    (xs ys : List ℕ)
    → (checksum (xs ++ ys) ≡ checksum_from (checksum xs) ys) × (checksum (xs ++ ys) < 2 ^ 32)
unfolding checksum
checksum-append xs ys = (checksum_from-append xs ys 1, checksum_from-lt (xs ++ ys) 1 (omega arith))

-- Two images of bytes that differ in exactly one byte have different checksums, wherever that byte
-- stands and whatever surrounds it.
pub checksum_detects_byte :
    (before after : List ℕ) (b c : ℕ)
    → All IsByte after
    → IsByte b
    → IsByte c
    → b ≢ c
    → checksum (before ++ b ∷ after) ≢ checksum (before ++ c ∷ after)
unfolding checksum checksum_from
checksum_detects_byte before after b c ha hb hc ne e =
    let u : ℕ = checksum_from 1 before in
    ne (
      round-injective_byte u b c hb hc (
        checksum_from-injective after (round u b) (round u c) (round-lt u b) (round-lt u c) ha (
          sym (checksum_from-append before (b ∷ after) 1)
          ∙ e
          ∙ checksum_from-append before (c ∷ after) 1)))
