-- ===== src/Scan/Kernel/Visits.antt =====
-- What the filter yields along a line.
use tuw_spike.Base.{
  ℕ, zero, suc, ◌+◌, ◌-◌, ◌/◌, ◌%◌, ◌^◌, ◌≤◌, ◌<◌, ◌≡◌, ◌≢◌, refl, sym, ap, ◌∙◌, false, Option,
  some, List, ◌∷◌, ◌==◌, leb, if◌then◌else◌, length, get_elem?, replicate, length-replicate, arith,
  ◌⊎◌, ==_iff, Bool-cases, leb→le, le→leb, inl, inr,
}
use tuw_spike.Base.Int.{ℤ, pos}
use tuw_spike.Base.Result.{runtime_error, Result, ok, throws}
use tuw_spike.Scan.Kernel.{
  Pixel, FilterLine, create_line, history_val, dereference, apply_kernel, save_sample, increment,
  in_line, visits,
}
use tuw_spike.Scan.Kernel.Window.{
  IsWindow, filtered, save_sample-IsWindow, increment-IsWindow, history_val-sample,
  apply_kernel-filtered,
}

module _ {P : Type 0} where
  -- `n` calls of `operator++`.
  unfoldable pub steps : ℕ → FilterLine P → FilterLine P
  steps zero f = f
  steps (suc n) f = increment (steps n f)

  -- What the filter holds after `n` samples: 0 until the kernel is covered.
  abbrev pub expected : (ℕ → Pixel P) → List ℤ → ℕ → ℤ
  expected pixel kernel n = if leb (length kernel) n then filtered pixel kernel n (pos 0) else pos 0

cons-get :
    {A : Type 0} (x : A) (xs : List A) (g : ℕ → A) (m : ℕ)
    → x ≡ g 0
    → ((k : ℕ) → k < m → get_elem? xs k ≡ some (g (suc k)))
    → (k : ℕ) → k < suc m
    → get_elem? (x ∷ xs) k ≡ some (g k)
cons-get x xs g m e h zero r = ap some e
cons-get x xs g m e h (suc k) r = h k (omega arith)

module _ {P : Type 0} (pixel : ℕ → Pixel P) (kernel : List ℤ) (count : ℕ)
    (some_taps : 0 < length kernel) where
  abbrev Held : ℕ → FilterLine P → Type 0
  Held n f = IsWindow pixel kernel count n f × (f.filter_value ≡ expected pixel kernel n)

  covered :
      (n : ℕ) (f : FilterLine P)
      → IsWindow pixel kernel count n (save_sample f)
      → leb (length (save_sample f).history) (save_sample f).index ≡ leb (length kernel) n
  covered n f w =
      ap (λ k. leb k (save_sample f).index) w.full ∙ ap (λ i. leb (length kernel) i) w.same_index

  increment-value :
      (n : ℕ) (f : FilterLine P)
      → n + 1 < 2 ^ 64
      → Held n f
      → (increment f).filter_value ≡ expected pixel kernel (n + 1)
  unfolding increment
  increment-value n f b h =
      let g = save_sample f in
      let w = save_sample-IsWindow pixel kernel count some_taps n f b h.0 in
      elim (Bool-cases (leb (length kernel) (n + 1))) [
        | inl e ↦
            rw (covered (n + 1) f w ∙ e, e)
              (ap (λ ks. apply_kernel g ks 0 (pos 0)) w.same_kernel
                ∙ apply_kernel-filtered pixel kernel count some_taps (n + 1) 0 kernel g (pos 0) w b
                    (omega arith) (leb→le (length kernel) (n + 1) e)
                ∙ ap (λ m. filtered pixel kernel m (pos 0)) (omega arith))
        | inr e ↦
            let early : leb (length kernel) n ≡ false = ground arith in
            rw (covered (n + 1) f w ∙ e, e) (h.1 ∙ rw early)
      ]

  steps-Held : (n : ℕ) (f : FilterLine P) → n < 2 ^ 64 → Held 0 f → Held n (steps n f)
  unfolding steps
  steps-Held zero f b h = h
  steps-Held (suc n) f b h =
      let held = steps-Held n f (omega arith) h in
      let next : n + 1 ≡ suc n = omega arith in
      rw (sym next) (
        increment-IsWindow pixel kernel count some_taps n (steps n f) (omega arith) held.0,
        increment-value n (steps n f) (omega arith) held,
      )

  in_line-steps :
      (n : ℕ) (f : FilterLine P) → IsWindow pixel kernel count n f → in_line f ≡ leb n count
  in_line-steps n f w = ap (λ i. leb i f.count) w.same_index ∙ ap (λ c. leb n c) w.same_count

  -- The loop, from the state after `n` increments on.
  visits-steps :
      (fuel n : ℕ) (f : FilterLine P)
      → count + 1 < 2 ^ 64
      → n ≤ count
      → count < n + fuel
      → Held 0 f
      → (length (visits fuel (steps n f)) ≡ count - n)
        × ((k : ℕ)
            → k < count - n
            → get_elem? (visits fuel (steps n f)) k ≡ some (dereference (steps (n + k + 1) f)))
  unfolding visits steps
  visits-steps zero n f b p q h = absurd (omega arith)
  visits-steps (suc fuel) n f b p q h =
      let held = steps-Held (suc n) f (omega arith) h in
      let test : in_line (increment (steps n f)) ≡ leb (suc n) count =
        in_line-steps (suc n) (increment (steps n f)) held.0 in
      elim (Bool-cases (leb (suc n) count)) [
        | inl e ↦
            let ih = visits-steps fuel (suc n) f b (leb→le (suc n) count e) (omega arith) h in
            let low = leb→le (suc n) count e in
            let same = λ (i j : ℕ) (x : i ≡ j). ap {B = P × ℤ} (λ m. dereference (steps m f)) x in
            rw (visits, test ∙ e)
              (
                omega (arith, ih.0, low),
                λ k r.
                    cons-get (dereference (steps (suc n) f)) (visits fuel (steps (suc n) f))
                      (λ i. dereference (steps (n + i + 1) f)) (count - suc n)
                      (same (suc n) (n + 0 + 1) (omega arith))
                      (λ i t.
                        ih.1 i t ∙ ap some (same (suc n + i + 1) (n + suc i + 1) (omega arith)))
                      k (omega arith),
              )
        | inr e ↦
            let high : count < suc n = ground arith in
            rw (visits, test ∙ e) (omega arith, λ k r. absurd (omega arith))
      ]

  visits-whole :
      (fuel : ℕ) (f : FilterLine P)
      → count + 1 < 2 ^ 64
      → count < fuel
      → Held 0 f
      → (length (visits fuel f) ≡ count)
        × ((k : ℕ) → k < count → get_elem? (visits fuel f) k ≡ some (dereference (steps (k + 1) f)))
  unfolding steps
  visits-whole fuel f b q h =
      let loop = visits-steps fuel 0 f b (omega arith) (omega arith) h in
      (
        loop.0 ∙ omega arith,
        λ k r.
            loop.1 k (omega arith)
            ∙ ap {B = Option (P × ℤ)} (λ i. some (dereference (steps i f))) (omega arith),
      )

  -- What `operator*` is once the kernel is covered: the pixel in the middle of the window.
  dereference-Held :
      (n : ℕ) (f : FilterLine P)
      → n < 2 ^ 64
      → length kernel ≤ n
      → Held n f
      → length kernel % 2 ≢ 0
      → dereference f
        ≡ ((pixel (n - (length kernel / 2 + 1))).place, filtered pixel kernel n (pos 0))
  unfolding dereference
  dereference-Held n f b q h odd =
      let middle =
        history_val-sample pixel kernel count some_taps n (length kernel / 2 + 1) f h.0 b
          (omega arith) (omega arith) (omega arith) in
      let place : (history_val f (length f.history / 2 + 1)).place
          ≡ (pixel (n - (length kernel / 2 + 1))).place =
        ap (λ k. (history_val f (k / 2 + 1)).place) h.0.full
        ∙ ap (λ (x : Pixel P). x.place) middle in
      let value : f.filter_value ≡ filtered pixel kernel n (pos 0) =
        h.1 ∙ rw (le→leb (length kernel) n q) refl in
      rw (place, value) refl

module _ {P : Type 0} (pixel : ℕ → Pixel P) (kernel : List ℤ) (count : ℕ) where
  abbrev pub fresh : FilterLine P
  fresh = record {
    pixel = pixel;
    count = count;
    line = 0;
    kernel = kernel;
    history = replicate (length kernel) (pixel 0);
    index = 0;
    filter_value = pos 0;
  }

  quiet : (f : FilterLine P) → f.filter_value ≡ pos 0 → dereference f ≡ ((dereference f).0, pos 0)
  unfolding dereference
  quiet f e = ap {B = P × ℤ} (λ v. ((dereference f).0, v)) e

  create_line-ok :
      (f : FilterLine P)
      → create_line pixel count kernel ≡ ok f
      → (length kernel % 2 ≢ 0) × (fresh ≡ f)
  unfolding create_line
  create_line-ok f e = elim (Bool-cases (length kernel % 2 == 0)) [
    | inl even ↦
        cc (
          e,
          ap {B = Result (FilterLine P)} (λ b. if b then throws runtime_error else ok fresh) even,
        )
    | inr odd ↦ (λ z. cc (odd, (==_iff (length kernel % 2) 0).1 z), cc (e, odd))
  ]

  fresh-Held : (taps : 0 < length kernel) → Held pixel kernel count taps 0 fresh
  fresh-Held taps =
      let early : leb (length kernel) 0 ≡ false = ground arith in
      (
        record {
          same_pixel = refl;
          same_kernel = refl;
          same_count = refl;
          same_line = refl;
          same_index = refl;
          full = length-replicate (length kernel) (pixel 0);
          samples = λ m p q. absurd (omega arith);
        },
        rw early refl,
      )

  -- `FilterLineIterator` in the loop `while (++line)`: if the constructor accepts the kernel, fewer
  -- than 2^64 - 1 pixels are on the line and the fuel exceeds their number, then the loop has a round
  -- for each pixel. In round `k`, counted from 0, once the kernel is covered, `*line` is the position
  -- of the pixel half a kernel before and the saturated sum of the kernel over the last samples, the
  -- newest first; in the rounds before, the value is 0.
  pub visits-line :
      (f : FilterLine P) (fuel k : ℕ)
      → create_line pixel count kernel ≡ ok f
      → count + 1 < 2 ^ 64
      → count < fuel
      → k < count
      → (length (visits fuel f) ≡ count)
        × (((length kernel ≤ k + 1)
              × (get_elem? (visits fuel f) k
                  ≡ some (
                    (pixel (k - length kernel / 2)).place,
                    filtered pixel kernel (k + 1) (pos 0),
                  )))
            ⊎ ((k + 1 < length kernel) × (p : P) × (get_elem? (visits fuel f) k ≡ some (p, pos 0))))
  visits-line f fuel k e b q r =
      let (odd, same) = create_line-ok f e in
      let taps : 0 < length kernel = omega (arith, odd) in
      let start = fresh-Held taps in
      let loop = visits-whole pixel kernel count taps fuel fresh b q start in
      let held = steps-Held pixel kernel count taps (k + 1) fresh (omega arith) start in
      let round = loop.1 k r in
      rw (sym same) (
        loop.0,
        elim (Bool-cases (leb (length kernel) (k + 1))) [
          | inl c ↦
              let far = leb→le (length kernel) (k + 1) c in
              inl (
                far,
                round
                    ∙ ap some (
                        dereference-Held pixel kernel count taps (k + 1) (steps (k + 1) fresh)
                          (omega arith) far held odd)
                    ∙ ap (λ i. some ((pixel i).place, filtered pixel kernel (k + 1) (pos 0)))
                        (omega arith),
              )
          | inr c ↦ inr (
            ground arith,
            (dereference (steps (k + 1) fresh)).0,
            round ∙ ap some (quiet (steps (k + 1) fresh) (held.1 ∙ rw c refl)),
          )
        ],
      )
