-- ===== src/Scan/Kernel/Gaussian.antt =====
-- `gaussian` and `constexpr_exp` of filter_kernel.hpp, and the kernel of ray_localizer.cpp.
use tuw_spike.Base.{ℕ, zero, suc, ◌+◌, ◌-◌, ◌/◌, ◌≡◌, refl, ap, ◌∙◌, List, [], ◌∷◌, length}
use tuw_spike.Base.Int.{ℤ, pos, negsuc, ◌-ℤ◌}
use tuw_spike.Scan.Scalar.{Scalar}
use tuw_spike.Scan.Kernel.{convolve, convolve_from}

module _ (s : Scalar) where
  open s use {D, of_int, neg, add, mul, div}

  -- The loop of `constexpr_exp` in a constant expression, for the rounds from `i` on that are left.
  unfoldable pub exp_from : D → ℕ → ℕ → D → D → D
  exp_from x zero i accum result = result
  exp_from x (suc n) i accum result =
      exp_from x n (suc i) (mul accum (div x (of_int (pos i)))) (add result accum)

  abbrev pub constexpr_exp : ℕ → D → D
  constexpr_exp iterations x = exp_from x iterations 1 (of_int (pos 1)) (of_int (pos 0))

  -- `gaussian[i]`
  abbrev pub bell : ℕ → D → ℕ → D
  bell n sigma i =
      let x = of_int (pos i -ℤ pos (n / 2)) in
      constexpr_exp 100
        (div (mul (mul (neg (div (of_int (pos 1)) (of_int (pos 2)))) x) x) (mul sigma sigma))

  -- `sum`, for the elements from `i` on that are left.
  unfoldable pub bell_sum : ℕ → D → ℕ → ℕ → D → D
  bell_sum n sigma zero i sum = sum
  bell_sum n sigma (suc m) i sum = bell_sum n sigma m (suc i) (add sum (bell n sigma i))

  -- The second loop.
  unfoldable pub bells : ℕ → D → ℤ → D → ℕ → ℕ → List ℤ
  bells n sigma area sum zero i = []
  bells n sigma area sum (suc m) i =
      s.to_int (div (mul (of_int area) (bell n sigma i)) sum) ∷ bells n sigma area sum m (suc i)

  -- `gaussian` for int16_t.
  abbrev pub gaussian : ℕ → ℤ → D → List ℤ
  gaussian n area sigma = bells n sigma area (bell_sum n sigma n 0 (of_int (pos 0))) n 0

  -- `KERNEL_DIFF`, `KERNEL_GAUSS` and `KERNEL`; 0.8 is 4 / 5.
  abbrev pub kernel_diff : List ℤ
  kernel_diff = pos 1 ∷ pos 0 ∷ negsuc 0 ∷ []

  abbrev pub kernel_gauss : List ℤ
  kernel_gauss = gaussian 5 (pos 100) (div (of_int (pos 4)) (of_int (pos 5)))

  abbrev pub scan_kernel : List ℤ
  scan_kernel = convolve kernel_diff kernel_gauss

  length-bells :
      (n : ℕ) (sigma : D) (area : ℤ) (sum : D) (m i : ℕ) → length (bells n sigma area sum m i) ≡ m
  unfolding bells
  length-bells n sigma area sum zero i = refl
  length-bells n sigma area sum (suc m) i = ap suc (length-bells n sigma area sum m (suc i))

length-convolve_from : (a b : List ℤ) (i n : ℕ) → length (convolve_from a b i n) ≡ n
unfolding convolve_from
length-convolve_from a b i zero = refl
length-convolve_from a b i (suc n) = ap suc (length-convolve_from a b (suc i) n)

pub length-convolve : (a b : List ℤ) → length (convolve a b) ≡ length a + length b - 1
unfolding convolve
length-convolve a b = length-convolve_from a b 0 (length a + length b - 1)

pub length-scan_kernel : (s : Scalar) → length (scan_kernel s) ≡ 7
length-scan_kernel s =
    length-convolve (kernel_diff s) (kernel_gauss s)
    ∙ ap (λ n. length (kernel_diff s) + n - 1)
        (length-bells s 5 (s.div (s.of_int (pos 4)) (s.of_int (pos 5))) (pos 100) _ 5 0)
