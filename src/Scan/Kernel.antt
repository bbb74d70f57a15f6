-- ===== src/Scan/Kernel.antt =====
-- tuw_camera_laserscan/include/tuw_camera_laserscan/filter_kernel.hpp: the convolution of kernels,
-- and the filter along a line of an image.
pub mod Window
pub mod Product
pub mod Visits
pub mod Gaussian
use tuw_spike.Base.{
  ℕ, zero, suc, ◌+◌, ◌-◌, ◌*◌, ◌/◌, ◌%◌, ◌^◌, Bool, true, false, List, [], ◌∷◌, ◌==◌, ltb, leb,
  if◌then◌else◌, length, get_or, set, replicate,
}
use tuw_spike.Base.Int.{ℤ, pos, ◌+ℤ◌, ◌*ℤ◌}
use tuw_spike.Base.Words.{wrap16, saturate16}
use tuw_spike.Base.Result.{runtime_error, Result, ok, throws}

-- `a - b` on size_t.
abbrev pub sub_size : ℕ → ℕ → ℕ
sub_size a b = (a + 2 ^ 64 - b) % 2 ^ 64

-- `(k < N1) ? a[k] : 0`
abbrev pub tap : List ℤ → ℕ → ℤ
tap a k = get_or a k (pos 0)

-- The inner loop of `convolve`, from `j` on: it adds up an int16_t.
unfoldable pub convolve_at : List ℤ → List ℤ → ℕ → ℕ → ℤ → ℤ
convolve_at a [] i j acc = acc
convolve_at a (c ∷ b) i j acc =
    convolve_at a b i (suc j) (wrap16 (acc +ℤ tap a (sub_size i j) *ℤ c))

-- The outer loop, for the elements from `i` on that are left.
unfoldable pub convolve_from : List ℤ → List ℤ → ℕ → ℕ → List ℤ
convolve_from a b i zero = []
convolve_from a b i (suc n) = convolve_at a b i 0 (pos 0) ∷ convolve_from a b (suc i) n

-- `convolve` for int16_t, of arrays that are not empty.
unfoldable pub convolve : List ℤ → List ℤ → List ℤ
convolve a b = convolve_from a b 0 (length a + length b - 1)

-- A pixel of the line: its position and its value.
pub record Pixel (P : Type 0) : Type 0 where
  pub place : P
  pub value : ℕ

-- `FilterLineIterator`. `cv::LineIterator` is the pixel at each step and the count of pixels; `line`
-- is the number of its steps.
pub record FilterLine (P : Type 0) : Type 0 where
  pub pixel : ℕ → Pixel P
  pub count : ℕ
  pub line : ℕ
  pub kernel : List ℤ
  pub history : List (Pixel P)
  pub index : ℕ
  pub filter_value : ℤ

module _ {P : Type 0} where
  -- The constructor.
  unfoldable pub create_line : (ℕ → Pixel P) → ℕ → List ℤ → Result (FilterLine P)
  create_line pixel count kernel =
      if length kernel % 2 == 0
      then throws runtime_error
      else ok (record {
        pixel = pixel;
        count = count;
        line = 0;
        kernel = kernel;
        history = replicate (length kernel) (pixel 0);
        index = 0;
        filter_value = pos 0;
      })

  abbrev pub history_idx : FilterLine P → ℕ → ℕ
  history_idx f offset = sub_size f.index offset % length f.history

  -- `history.at(history_idx(offset))`; the index is always within the history.
  abbrev pub history_val : FilterLine P → ℕ → Pixel P
  history_val f offset = get_or f.history (history_idx f offset) (f.pixel 0)

  -- `operator*`
  unfoldable pub dereference : FilterLine P → P × ℤ
  dereference f = ((history_val f (length f.history / 2 + 1)).place, f.filter_value)

  -- The loop over the kernel, from `j` on.
  unfoldable pub apply_kernel : FilterLine P → List ℤ → ℕ → ℤ → ℤ
  apply_kernel f [] j acc = acc
  apply_kernel f (k ∷ ks) j acc =
      apply_kernel f ks (suc j) (saturate16 (acc +ℤ pos (history_val f (suc j)).value *ℤ k))

  -- The sample is saved, and both counts go on.
  abbrev pub save_sample : FilterLine P → FilterLine P
  save_sample f = record f {
    history = set f.history (history_idx f 0) (f.pixel f.line);
    index = (f.index + 1) % 2 ^ 64;
    line = f.line + 1;
  }

  -- `operator++`
  unfoldable pub increment : FilterLine P → FilterLine P
  increment f =
      let g = save_sample f in
      if leb (length g.history) g.index
      then record g { filter_value = apply_kernel g g.kernel 0 (pos 0) }
      else g

  -- `operator bool`
  abbrev pub in_line : FilterLine P → Bool
  in_line f = leb f.index f.count

  -- `while (++line)`: what `*line` is in each round. The loop takes fuel; each round raises the index.
  unfoldable pub visits : ℕ → FilterLine P → List (P × ℤ)
  visits zero f = []
  visits (suc fuel) f = elim (in_line (increment f)) [
    | false ↦ []
    | true ↦ dereference (increment f) ∷ visits fuel (increment f)
  ]
