-- ===== src/Scan/Kernel/Product.antt =====
-- `convolve` is the product of the kernels, as polynomials, cut to 16 bits.
use tuw_spike.Base.{
  ℕ, zero, suc, ◌+◌, ◌-◌, ◌^◌, ◌≤◌, ◌<◌, ◌≡◌, refl, sym, ap, ◌∙◌, List, [], ◌∷◌, some, length,
  get_or, get_elem?, arith,
}
use tuw_spike.Base.Int.{ℤ, pos, ◌+ℤ◌, ◌*ℤ◌}
use tuw_spike.Base.Words.{wrap16}
use tuw_spike.Scan.Kernel.{sub_size, tap, convolve_at, convolve_from, convolve}

wrap16-add : (x y : ℤ) → wrap16 (wrap16 x +ℤ y) ≡ wrap16 (x +ℤ y)
unfolding wrap16 ◌+ℤ◌
wrap16-add x y = ground arith

add_assoc : (x y z : ℤ) → (x +ℤ y) +ℤ z ≡ x +ℤ (y +ℤ z)
unfolding ◌+ℤ◌
add_assoc x y z = ground arith

add_zero : (x : ℤ) → x +ℤ pos 0 ≡ x
unfolding ◌+ℤ◌
add_zero x = ground arith

zero_mul : (x : ℤ) → pos 0 *ℤ x ≡ pos 0
unfolding ◌*ℤ◌
zero_mul x = ground arith

zero_add : (y : ℤ) → pos 0 +ℤ y ≡ y
unfolding ◌+ℤ◌
zero_add y = ground arith

-- The coefficient `i` of the product: the sum of `a[i - j] * b[j]` over the `j` up to `i`, without bounds.
unfoldable pub coefficient : List ℤ → List ℤ → ℕ → ℤ
coefficient a [] i = pos 0
coefficient a (c ∷ b) zero = tap a 0 *ℤ c
coefficient a (c ∷ b) (suc i) = tap a (suc i) *ℤ c +ℤ coefficient a b i

get_or-past : (xs : List ℤ) (i : ℕ) → length xs ≤ i → get_or xs i (pos 0) ≡ pos 0
get_or-past [] i h = refl
get_or-past (x ∷ xs) zero h = absurd (omega arith)
get_or-past (x ∷ xs) (suc i) h = get_or-past xs i (omega arith)

-- One round of the inner loop.
convolve_at-step :
    (a b : List ℤ) (c x t : ℤ) (i j : ℕ)
    → tap a (sub_size i j) ≡ t
    → convolve_at a (c ∷ b) i j (wrap16 x) ≡ convolve_at a b i (suc j) (wrap16 (x +ℤ t *ℤ c))
unfolding convolve_at
convolve_at-step a b c x t i j e =
    ap (λ u. convolve_at a b i (suc j) (wrap16 (wrap16 x +ℤ u *ℤ c))) e
    ∙ ap (convolve_at a b i (suc j)) (wrap16-add x (t *ℤ c))

-- The rounds whose `i - j` wraps add nothing.
convolve_at-wrapped :
    (a b : List ℤ) (i j : ℕ) (x : ℤ)
    → i < j
    → length a + j + length b ≤ 2 ^ 64
    → convolve_at a b i j (wrap16 x) ≡ wrap16 x
convolve_at-wrapped a [] i j x h s = unfold convolve_at in refl
convolve_at-wrapped a (c ∷ b) i j x h s =
    let past = get_or-past a (sub_size i j) (omega arith) in
    convolve_at-step a b c x (pos 0) i j past
    ∙ ap (λ u. convolve_at a b i (suc j) (wrap16 u)) (ap (λ u. x +ℤ u) (zero_mul c) ∙ add_zero x)
    ∙ convolve_at-wrapped a b i (suc j) x (omega arith) (omega arith)

-- The rounds from `j` on, at the element `j + i`.
convolve_at-coefficient :
    (a b : List ℤ) (i j : ℕ) (x : ℤ)
    → j + i < 2 ^ 64
    → length a + j + length b ≤ 2 ^ 64
    → convolve_at a b (j + i) j (wrap16 x) ≡ wrap16 (x +ℤ coefficient a b i)
convolve_at-coefficient a [] i j x h s =
    unfold convolve_at coefficient in ap wrap16 (sym (add_zero x))
convolve_at-coefficient a (c ∷ b) zero j x h s =
    let index : sub_size (j + 0) j ≡ 0 = omega arith in
    convolve_at-step a b c x (tap a 0) (j + 0) j (ap (tap a) index)
    ∙ convolve_at-wrapped a b (j + 0) (suc j) (x +ℤ tap a 0 *ℤ c) (omega arith) (omega arith)
    ∙ unfold coefficient in refl
convolve_at-coefficient a (c ∷ b) (suc i) j x h s =
    let index : sub_size (j + suc i) j ≡ suc i = omega arith in
    let next : j + suc i ≡ suc j + i = omega arith in
    let t = tap a (suc i) *ℤ c in
    convolve_at-step a b c x (tap a (suc i)) (j + suc i) j (ap (tap a) index)
    ∙ ap (λ k. convolve_at a b k (suc j) (wrap16 (x +ℤ t))) next
    ∙ convolve_at-coefficient a b i (suc j) (x +ℤ t) (omega arith) (omega arith)
    ∙ unfold coefficient in ap wrap16 (add_assoc x t (coefficient a b i))

length-convolve_from : (a b : List ℤ) (i n : ℕ) → length (convolve_from a b i n) ≡ n
unfolding convolve_from
length-convolve_from a b i zero = refl
length-convolve_from a b i (suc n) = ap suc (length-convolve_from a b (suc i) n)

get-convolve_from :
    (a b : List ℤ) (i n k : ℕ)
    → k < n
    → get_elem? (convolve_from a b i n) k ≡ some (convolve_at a b (i + k) 0 (pos 0))
unfolding convolve_from
get-convolve_from a b i zero k h = absurd (omega arith)
get-convolve_from a b i (suc n) zero h =
    let e : i ≡ i + 0 = omega arith in ap (λ m. some (convolve_at a b m 0 (pos 0))) e
get-convolve_from a b i (suc n) (suc k) h =
    let e : suc i + k ≡ i + suc k = omega arith in
    get-convolve_from a b (suc i) n k (omega arith) ∙ ap (λ m. some (convolve_at a b m 0 (pos 0))) e

-- `convolve` on arrays of N1 and N2 elements, which together fit a size_t, has N1 + N2 - 1 elements,
-- and the element `i` is the coefficient `i` of the product of `a` and `b` as polynomials over the
-- integers, reduced to an int16_t once: neither the wrap-around of `i - j` nor that of the sum in each
-- round shows.
pub convolve-coefficient :
    (a b : List ℤ) (i : ℕ)
    → length a + length b ≤ 2 ^ 64
    → i < length a + length b - 1
    → (length (convolve a b) ≡ length a + length b - 1)
      × (get_elem? (convolve a b) i ≡ some (wrap16 (coefficient a b i)))
unfolding convolve
convolve-coefficient a b i s h =
    let start : wrap16 (pos 0) ≡ pos 0 = unfold wrap16 in refl in
    (
      length-convolve_from a b 0 (length a + length b - 1),
      get-convolve_from a b 0 (length a + length b - 1) i h
          ∙ ap some (
              ap (convolve_at a b (0 + i) 0) (sym start)
              ∙ convolve_at-coefficient a b i 0 (pos 0) (omega arith) (omega arith)
              ∙ ap wrap16 (zero_add (coefficient a b i))),
    )
