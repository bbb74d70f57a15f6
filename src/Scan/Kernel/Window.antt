-- ===== src/Scan/Kernel/Window.antt =====
-- The ring of the filter is the window of the last samples.
use tuw_spike.Base.{
  ℕ, zero, suc, ◌+◌, ◌-◌, ◌*◌, ◌/◌, ◌%◌, ◌^◌, ◌≤◌, ◌<◌, ◌≡◌, ◌≢◌, refl, sym, ap, ◌∙◌, List, [], ◌∷◌,
  ◌==◌, leb, length, get_or, set, length-set, arith, Bool-cases, ==_iff, inl, inr,
}
use native.Mathlib.Nat.{mod-lt, mod-add-div}
use tuw_spike.Base.Int.{ℤ, pos, ◌+ℤ◌, ◌*ℤ◌}
use tuw_spike.Base.Words.{saturate16}
use tuw_spike.Scan.Kernel.{
  Pixel, FilterLine, sub_size, history_idx, history_val, apply_kernel, save_sample, increment,
}

module _ {P : Type 0} where
  -- The filter as a sum over the samples before `n`, the newest first.
  unfoldable pub filtered : (ℕ → Pixel P) → List ℤ → ℕ → ℤ → ℤ
  filtered pixel [] n acc = acc
  filtered pixel (k ∷ ks) n acc =
      filtered pixel ks (n - 1) (saturate16 (acc +ℤ pos (pixel (n - 1)).value *ℤ k))

  -- What holds after `n` increments: the history has the sample `m` in its place, for each of the
  -- last `length kernel` samples.
  pub record IsWindow (pixel : ℕ → Pixel P) (kernel : List ℤ) (count n : ℕ) (f : FilterLine P)
      : Type 0 where
    pub same_pixel : f.pixel ≡ pixel
    pub same_kernel : f.kernel ≡ kernel
    pub same_count : f.count ≡ count
    pub same_line : f.line ≡ n
    pub same_index : f.index ≡ n
    pub full : length f.history ≡ length kernel
    pub samples :
        (m : ℕ)
        → m < n
        → n ≤ m + length kernel
        → get_or f.history (m % length kernel) (pixel 0) ≡ pixel m

multiples : (n a b d : ℕ) → n * b ≡ n * a + d → 0 < d → d < n → ⊥
multiples n zero zero d e p q = grind arith
multiples n zero (suc b) d e p q = grind arith
multiples n (suc a) zero d e p q = grind arith
multiples n (suc a) (suc b) d e p q = multiples n a b d (omega arith) p q

-- Fewer than `k` steps round a ring of `k` do not come back.
mod-ne : (k m n : ℕ) → m < n → n < m + k → m % k ≢ n % k
mod-ne k m n p q e =
    multiples k (m / k) (n / k) (n - m) (omega (arith, mod-add-div m k, mod-add-div n k, e))
      (omega arith) (omega arith)

-- The subtraction of size_t where it does not wrap.
sub_size-eq : (a b : ℕ) → b ≤ a → a < 2 ^ 64 → sub_size a b ≡ a - b
sub_size-eq a b p q = omega arith

get_or-set_self :
    {A : Type 0} (xs : List A) (i : ℕ) (v d : A) → i < length xs → get_or (set xs i v) i d ≡ v
get_or-set_self [] i v d h = elim h [ ]
get_or-set_self (x ∷ xs) zero v d h = refl
get_or-set_self (x ∷ xs) (suc i) v d h = get_or-set_self xs i v d (omega arith)

get_or-set_ne :
    {A : Type 0} (xs : List A) (i j : ℕ) (v d : A) → i ≢ j → get_or (set xs i v) j d ≡ get_or xs j d
get_or-set_ne [] i j v d h = refl
get_or-set_ne (x ∷ xs) zero zero v d h = absurd (h refl)
get_or-set_ne (x ∷ xs) zero (suc j) v d h = refl
get_or-set_ne (x ∷ xs) (suc i) zero v d h = refl
get_or-set_ne (x ∷ xs) (suc i) (suc j) v d h = get_or-set_ne xs i j v d (λ e. h (ap suc e))

module _ {P : Type 0} (pixel : ℕ → Pixel P) (kernel : List ℤ) (count : ℕ)
    (some_taps : 0 < length kernel) where
  abbrev pub Window : ℕ → FilterLine P → Type 0
  Window = IsWindow pixel kernel count

  -- A write to the slot of the sample `n` keeps the younger ones.
  set-sample :
      (hs : List (Pixel P)) (n i m : ℕ) (v : Pixel P)
      → length hs ≡ length kernel
      → i ≡ n % length kernel
      → v ≡ pixel n
      → (m < n → n ≤ m + length kernel → get_or hs (m % length kernel) (pixel 0) ≡ pixel m)
      → m < n + 1
      → n + 1 ≤ m + length kernel
      → get_or (set hs i v) (m % length kernel) (pixel 0) ≡ pixel m
  set-sample hs n i m v full slot new old p q = elim (Bool-cases (m == n)) [
    | inl e ↦
        let same : m ≡ n = (==_iff m n).0 e in
        let inside : n % length kernel < length hs =
          omega (arith, mod-lt n {m = length kernel} some_taps, full) in
        rw (same, slot) (get_or-set_self hs (n % length kernel) v (pixel 0) inside ∙ new)
    | inr e ↦
        let other : n % length kernel ≢ m % length kernel =
          λ x. mod-ne (length kernel) m n (ground arith) (omega arith) (sym x) in
        rw slot (
          get_or-set_ne hs (n % length kernel) (m % length kernel) v (pixel 0) other
          ∙ old (ground arith) (omega arith))
  ]

  slot-index :
      (n offset : ℕ) (f : FilterLine P)
      → f.index ≡ n
      → length f.history ≡ length kernel
      → offset ≤ n
      → n < 2 ^ 64
      → history_idx f offset ≡ (n - offset) % length kernel
  slot-index n offset f e full p b =
      ap (λ i. sub_size i offset % length f.history) e
      ∙ ap (λ k. sub_size n offset % k) full
      ∙ ap (λ i. i % length kernel) (sub_size-eq n offset p b)

  pub save_sample-IsWindow :
      (n : ℕ) (f : FilterLine P) → n + 1 < 2 ^ 64 → Window n f → Window (n + 1) (save_sample f)
  save_sample-IsWindow n f b w = record {
    same_pixel = w.same_pixel;
    same_kernel = w.same_kernel;
    same_count = w.same_count;
    same_line = omega (arith, w.same_line);
    same_index = omega (arith, w.same_index);
    full = length-set f.history _ _ ∙ w.full;
    samples = λ m p q.
        set-sample f.history n (history_idx f 0) m (f.pixel f.line) w.full
          (slot-index n 0 f w.same_index w.full (omega arith) (omega arith)
            ∙ ap (λ i. i % length kernel) (omega arith))
          (ap (λ (g : ℕ → Pixel P). g f.line) w.same_pixel ∙ ap pixel w.same_line) (w.samples m) p
          q;
  }

  -- The filter value does not matter to the window.
  value-IsWindow :
      (n : ℕ) (f : FilterLine P) (v : ℤ) → Window n f → Window n (record f { filter_value = v })
  value-IsWindow n f v w = record {
    same_pixel = w.same_pixel;
    same_kernel = w.same_kernel;
    same_count = w.same_count;
    same_line = w.same_line;
    same_index = w.same_index;
    full = w.full;
    samples = w.samples;
  }

  pub increment-IsWindow :
      (n : ℕ) (f : FilterLine P) → n + 1 < 2 ^ 64 → Window n f → Window (n + 1) (increment f)
  unfolding increment
  increment-IsWindow n f b w =
      elim (Bool-cases (leb (length (save_sample f).history) (save_sample f).index)) [
        | inl e ↦ rw e (value-IsWindow (n + 1) (save_sample f) _ (save_sample-IsWindow n f b w))
        | inr e ↦ rw e (save_sample-IsWindow n f b w)
      ]

  -- A read behind the index is a read of the window.
  pub history_val-sample :
      (n offset : ℕ) (f : FilterLine P)
      → Window n f
      → n < 2 ^ 64
      → 0 < offset
      → offset ≤ n
      → offset ≤ length kernel
      → history_val f offset ≡ pixel (n - offset)
  history_val-sample n offset f w b p q r =
      ap (λ (g : ℕ → Pixel P). get_or f.history (history_idx f offset) (g 0)) w.same_pixel
      ∙ ap (λ i. get_or f.history i (pixel 0)) (slot-index n offset f w.same_index w.full q b)
      ∙ w.samples (n - offset) (omega arith) (omega arith)

  -- The loop over the kernel is the sum over the samples.
  pub apply_kernel-filtered :
      (n j : ℕ) (ks : List ℤ) (f : FilterLine P) (acc : ℤ)
      → Window n f
      → n < 2 ^ 64
      → j + length ks ≤ length kernel
      → length kernel ≤ n
      → apply_kernel f ks j acc ≡ filtered pixel ks (n - j) acc
  unfolding apply_kernel filtered
  apply_kernel-filtered n j [] f acc w b p q = refl
  apply_kernel-filtered n j (k ∷ ks) f acc w b p q =
      let sample = history_val-sample n (suc j) f w b (omega arith) (omega arith) (omega arith) in
      let before : n - suc j ≡ n - j - 1 = omega arith in
      rw (sample, before) (apply_kernel-filtered n (suc j) ks f _ w b (omega arith) q ∙ rw before)
