-- ===== src/Scan/Tests/Numbers.antt =====
-- Numbers for the tests: the integers with two infinities.
use tuw_spike.Base.{◌↔◌, ◌≡◌, refl, Bool, true, false, not, if◌then◌else◌, arith}
use tuw_spike.Base.Int.{ℤ, pos, negsuc, neg, ◌+ℤ◌, ◌-ℤ◌, ◌*ℤ◌, ltb_ℤ}
use tuw_spike.Scan.Geometry.Clip.{IsExactSide}
use tuw_spike.Scan.Geometry.Clip.Edges.{IsExact}
use tuw_spike.Scan.Scalar.{Scalar, Vec3, Matrix, Vision, Le, OrderLaws}

pub data Number : Type 0 where
  below : Number
  at : ℤ → Number
  above : Number

abbrev flip : Number → Number
flip below = above
flip (at z) = at (neg z)
flip above = below

abbrev lift : (ℤ → ℤ → ℤ) → Number → Number → Number
lift f (at a) (at b) = at (f a b)
lift f (at a) n = n
lift f n b = n

abbrev less : Number → Number → Bool
less below below = false
less below n = true
less (at a) (at b) = ltb_ℤ a b
less (at a) above = true
less (at a) below = false
less above n = false

-- A product with an infinity has the sign of the other factor, or is 0 with it.
abbrev signed : ℤ → Number → Number
signed z n = if ltb_ℤ z (pos 0) then flip n else if ltb_ℤ (pos 0) z then n else at (pos 0)

abbrev times : Number → Number → Number
times (at a) (at b) = at (a *ℤ b)
times (at a) b = signed a b
times a (at b) = signed b a
times below b = flip b
times above b = b

-- Quotients by 1 and -1, which are all that the tests need.
abbrev over : Number → Number → Number
over a (at (negsuc n)) = flip a
over a b = a

abbrev whole : Number → ℤ
whole (at z) = z
whole n = pos 0

abbrev pub numbers : Scalar
numbers = record {
  D = Number;
  of_int = λ z. at z;
  neg = flip;
  add = lift (λ a b. a +ℤ b);
  sub = lift (λ a b. a -ℤ b);
  mul = times;
  div = over;
  lt = less;
  le = λ a b. not (less b a);
  infinity = above;
  epsilon = at (pos 0);
  abs = λ x. x;
  sqrt = λ x. x;
  cos = λ x. at (pos 1);
  sin = λ x. at (pos 1);
  atan2 = λ y x. y;
  to_int = whole;
  to_float = λ x. x;
}

abbrev nought : Vec3 Number
nought = record { v0 = at (pos 0); v1 = at (pos 0); v2 = at (pos 1) }

abbrev pub square : Matrix Number
square = record { r0 = nought; r1 = nought; r2 = nought }

abbrev pub vision : Vision Number
vision = record {
  cross = λ a b. a;
  dot = λ a b. a.v0;
  normalize = λ v. v;
  norm = λ v. v.d0;
  apply = λ m v. v;
  transpose = λ m. m;
  inverse = λ m. m;
  determinant = λ m. at (pos 1);
  times34 = λ m n. n;
  scaled = λ m k. m;
  to_point = λ v. record { column = whole v.d0; row = whole v.d1 };
}

less_trans : (a b c : Number) → less b a ≡ false → less c b ≡ false → less c a ≡ false
less_trans below b c h k = ground arith
less_trans (at x) (at y) (at z) h k = ground arith
less_trans (at x) b c h k = ground arith
less_trans above b c h k = ground arith

less-Le : (a b : Number) → less a b ≡ true → less b a ≡ false
less-Le below b h = ground arith
less-Le (at x) below h = ground arith
less-Le (at x) (at y) h = ground arith
less-Le (at x) above h = refl
less-Le above b h = ground arith

pub numbers_laws : OrderLaws numbers
numbers_laws = record { le_trans = less_trans; le_of_lt = less-Le; le_infinity = λ a. refl }

times_one : (t : Number) → times t (at (pos 1)) ≡ t
unfolding ◌*ℤ◌
times_one below = refl
times_one (at z) = ground arith
times_one above = refl

one_times : (t : Number) → times (at (pos 1)) t ≡ t
unfolding ◌*ℤ◌
one_times below = refl
one_times (at z) = ground arith
one_times above = refl

minus_times : (t : Number) → times (at (negsuc 0)) t ≡ flip t
unfolding ◌*ℤ◌ neg
minus_times below = refl
minus_times (at z) = ground arith
minus_times above = refl

-- Edges whose `p` is 1 or -1.
flip-Le : (t q : Number) → Le numbers (flip t) q ↔ Le numbers (flip q) t
unfolding neg
flip-Le below below = ground arith
flip-Le below (at y) = ground arith
flip-Le below above = ground arith
flip-Le (at x) below = ground arith
flip-Le (at x) (at y) = ground arith
flip-Le (at x) above = ground arith
flip-Le above below = ground arith
flip-Le above (at y) = ground arith
flip-Le above above = ground arith

falling-IsExact : (q : Number) → IsExact numbers (record { p = at (negsuc 0); q = q })
falling-IsExact q = record {
  falling = λ t e. rw (minus_times t) (flip-Le t q);
  rising = λ t e. ground arith;
}

rising-IsExact : (q : Number) → IsExact numbers (record { p = at (pos 1); q = q })
unfolding neg
rising-IsExact q = record {
  falling = λ t e. ground arith;
  rising = λ t e. rw (one_times t) ((λ h. h), (λ h. h));
}

-- A coordinate that grows by 1.
low_side :
    (c low : ℤ) (t : Number)
    → Le numbers (flip t) (at (c -ℤ low)) ↔ Le numbers (at low) (lift (λ a b. a +ℤ b) (at c) t)
unfolding neg ◌+ℤ◌ ◌-ℤ◌
low_side c low below = ground arith
low_side c low (at z) = ground arith
low_side c low above = ground arith

high_side :
    (c high : ℤ) (t : Number)
    → Le numbers t (at (high -ℤ c)) ↔ Le numbers (lift (λ a b. a +ℤ b) (at c) t) (at high)
unfolding ◌+ℤ◌ ◌-ℤ◌
high_side c high below = ground arith
high_side c high (at z) = ground arith
high_side c high above = ground arith

low_still : (c low : ℤ) → Le numbers (at (pos 0)) (at (c -ℤ low)) ↔ Le numbers (at low) (at c)
unfolding ◌-ℤ◌
low_still c low = ground arith

high_still : (c high : ℤ) → Le numbers (at (pos 0)) (at (high -ℤ c)) ↔ Le numbers (at c) (at high)
unfolding ◌-ℤ◌
high_still c high = ground arith

pub rising-IsExactSide :
    (c low high : ℤ) → IsExactSide numbers (at c) (at (pos 1)) (at low) (at high)
unfolding neg
rising-IsExactSide c low high = record {
  neg_below = refl;
  neg_above = refl;
  low_exact = falling-IsExact (at (c -ℤ low));
  high_exact = rising-IsExact (at (high -ℤ c));
  low_moving = λ t. rw (minus_times t, times_one t) (low_side c low t);
  high_moving = λ t. rw (one_times t, times_one t) (high_side c high t);
  low_still = low_still c low;
  high_still = high_still c high;
}
