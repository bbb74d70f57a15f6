-- ===== src/Control/Status/Lines.antt =====
-- What `fields` takes from a status line.
use tuw_spike.Base.{
  ℕ, zero, suc, ◌+◌, ◌^◌, ◌≤◌, ◌<◌, ◌≡◌, ◌≢◌, refl, sym, ap, ◌∙◌, [], ◌∷◌, ◌++◌, some, take, drop,
  length, arith, All, length-append, append_assoc,
}
use tuw_spike.Base.Text.{Bytes}
use tuw_spike.Control.Status.{add_size, sub_size, find_from, find, substr, cut, fields}

abbrev pub NoSpace : Bytes → Type 0
NoSpace = All (λ c. c ≢ b' ')

-- A run without the character is passed over.
find_from-skip :
    (c i : ℕ) (xs ys : Bytes) (pos : ℕ)
    → All (λ x. x ≢ c) xs
    → find_from c i (xs ++ ys) pos ≡ find_from c (i + length xs) ys pos
unfolding find_from
find_from-skip c i [] ys pos h = ap (λ (k : ℕ). find_from c k ys pos) (omega arith)
find_from-skip c i (x ∷ xs) ys pos h = ground (
  arith,
  find_from-skip c (i + 1) xs ys pos h.1,
  ap (λ (k : ℕ). find_from c k ys pos) (add_suc i (length xs)),
)
  where
    add_suc : (a b : ℕ) → a + 1 + b ≡ a + suc b
    add_suc a b = omega arith

-- So is whatever stands before the position.
find_from-before :
    (c i : ℕ) (xs ys : Bytes) (pos : ℕ)
    → i + length xs ≤ pos
    → find_from c i (xs ++ ys) pos ≡ find_from c (i + length xs) ys pos
unfolding find_from
find_from-before c i [] ys pos h = ap (λ (k : ℕ). find_from c k ys pos) (omega arith)
find_from-before c i (x ∷ xs) ys pos h = ground (
  arith,
  find_from-before c (i + 1) xs ys pos (omega arith),
  ap (λ (k : ℕ). find_from c k ys pos) (add_suc i (length xs)),
)
  where
    add_suc : (a b : ℕ) → a + 1 + b ≡ a + suc b
    add_suc a b = omega arith

find_from-hit : (c i : ℕ) (ys : Bytes) (pos : ℕ) → pos ≤ i → find_from c i (c ∷ ys) pos ≡ i
unfolding find_from
find_from-hit c i ys pos h = ground arith

-- The first space from a position in a word on is the one behind the word.
next_space :
    (before word after : Bytes) (pos : ℕ)
    → NoSpace word
    → length before ≤ pos
    → pos ≤ length before + length word
    → find b' ' (before ++ (word ++ b' ' ∷ after)) pos ≡ length before + length word
next_space before word after pos h lo hi =
    find_from-before b' ' 0 before (word ++ b' ' ∷ after) pos (omega arith)
    ∙ find_from-skip b' ' (0 + length before) word (b' ' ∷ after) pos h
    ∙ find_from-hit b' ' (0 + length before + length word) after pos (omega arith)
    ∙ omega arith

take-length : (xs ys : Bytes) → take (length xs) (xs ++ ys) ≡ xs
take-length [] ys = refl
take-length (x ∷ xs) ys = ap (λ (t : Bytes). x ∷ t) (take-length xs ys)

drop-length : (xs ys : Bytes) → drop (length xs) (xs ++ ys) ≡ ys
drop-length [] ys = refl
drop-length (x ∷ xs) ys = drop-length xs ys

substr-word :
    (before word after : Bytes) (pos n : ℕ)
    → pos ≡ length before
    → n ≡ length word
    → substr (before ++ (word ++ after)) pos n ≡ word
substr-word before word after pos n p q =
    rw (p, q, drop-length before (word ++ after)) (take-length word after)

take-append : (n : ℕ) (xs ys : Bytes) → n ≤ length xs → take n (xs ++ ys) ≡ take n xs
take-append zero xs ys h = refl
take-append (suc n) [] ys h = elim h [ ]
take-append (suc n) (x ∷ xs) ys h = ap (λ (t : Bytes). x ∷ t) (take-append n xs ys (omega arith))

-- `P<n>C0: <speed> <apos> …` as the Build HAT prints it, the first word given whole.
abbrev pub status_line : Bytes → Bytes → Bytes → Bytes → Bytes
status_line word speed apos rest = word ++ b' ' ∷ (speed ++ b' ' ∷ (apos ++ b' ' ∷ rest))

module _ (word speed apos rest : Bytes) where
  line : Bytes
  line = status_line word speed apos rest

  from_speed : line ≡ (word ++ b' ' ∷ []) ++ (speed ++ b' ' ∷ (apos ++ b' ' ∷ rest))
  unfolding line
  from_speed = sym (append_assoc word (b' ' ∷ []) (speed ++ b' ' ∷ (apos ++ b' ' ∷ rest)))

  from_apos : line ≡ (word ++ b' ' ∷ (speed ++ b' ' ∷ [])) ++ (apos ++ b' ' ∷ rest)
  unfolding line
  from_apos =
      ap (λ (t : Bytes). word ++ b' ' ∷ t)
        (sym (append_assoc speed (b' ' ∷ []) (apos ++ b' ' ∷ rest)))
      ∙ sym (append_assoc word (b' ' ∷ (speed ++ b' ' ∷ [])) (apos ++ b' ' ∷ rest))

  length-before_speed : length (word ++ b' ' ∷ []) ≡ length word + 1
  length-before_speed = omega (arith, length-append word (b' ' ∷ []))

  length-before_apos : length (word ++ b' ' ∷ (speed ++ b' ' ∷ [])) ≡ length word + length speed + 2
  length-before_apos =
      omega
        (arith, length-append word (b' ' ∷ (speed ++ b' ' ∷ [])), length-append speed (b' ' ∷ []))

  first_space : NoSpace word → find b' ' line 0 ≡ length word
  unfolding line
  first_space hw =
      next_space [] word (speed ++ b' ' ∷ (apos ++ b' ' ∷ rest)) 0 hw (omega arith) (omega arith)
      ∙ omega arith

  second_space :
      NoSpace speed
      → 1 ≤ length speed
      → find b' ' line (length word + 2) ≡ length word + length speed + 1
  second_space hs ls = rw from_speed (
      next_space (word ++ b' ' ∷ []) speed (apos ++ b' ' ∷ rest) (length word + 2) hs
        (omega (arith, length-before_speed)) (omega (arith, length-before_speed))
      ∙ omega (arith, length-before_speed))

  third_space :
      NoSpace apos
      → 1 ≤ length apos
      → find b' ' line (length word + length speed + 3)
        ≡ length word + length speed + length apos + 2
  third_space ha la = rw from_apos (
      next_space (word ++ b' ' ∷ (speed ++ b' ' ∷ [])) apos rest (length word + length speed + 3) ha
        (omega (arith, length-before_apos)) (omega (arith, length-before_apos))
      ∙ omega (arith, length-before_apos))

  cut-line :
      4 ≤ length word
      → 1 ≤ length speed
      → 1 ≤ length apos
      → length word + length speed + length apos < 2 ^ 40
      → cut line
          (length word)
          (length word + length speed + 1)
          (length word + length speed + length apos + 2)
        ≡ some (record { port = take 4 word; speed = speed; apos = apos })
  unfolding cut
  cut-line lw ls la short = ground (arith, port_part, speed_part, apos_part)
    where
      port_part : substr line 0 4 ≡ take 4 word
      port_part = unfold line in take-append 4 word _ lw

      speed_part :
          substr line
            (add_size (length word) 1)
            (sub_size (sub_size (length word + length speed + 1) (length word)) 1)
          ≡ speed
      speed_part = rw from_speed (
          substr-word (word ++ b' ' ∷ []) speed (b' ' ∷ (apos ++ b' ' ∷ rest)) _ _
            (omega (arith, length-before_speed)) (omega arith))

      apos_part :
          substr line (add_size (length word + length speed + 1) 1) (
            sub_size
              (sub_size
                (length word + length speed + length apos + 2)
                (length word + length speed + 1))
              1)
          ≡ apos
      apos_part = rw from_apos (
          substr-word (word ++ b' ' ∷ (speed ++ b' ' ∷ [])) apos (b' ' ∷ rest) _ _
            (omega (arith, length-before_apos)) (omega arith))

-- The three fields of a status line of ordinary length are found, whatever follows them.
pub fields-status_line :
    (word speed apos rest : Bytes)
    → NoSpace word
    → NoSpace speed
    → NoSpace apos
    → 4 ≤ length word
    → 1 ≤ length speed
    → 1 ≤ length apos
    → length word + length speed + length apos < 2 ^ 40
    → fields (status_line word speed apos rest)
      ≡ some (record { port = take 4 word; speed = speed; apos = apos })
unfolding fields line
fields-status_line word speed apos rest hw hs ha lw ls la short =
    rw
      (
        first_space word speed apos rest hw,
        no_wrap_two,
        second_space word speed apos rest hs ls,
        no_wrap_three,
        third_space word speed apos rest ha la,
      )
      (cut-line word speed apos rest lw ls la short)
  where
    no_wrap_two : add_size (length word) 2 ≡ length word + 2
    no_wrap_two = omega arith

    no_wrap_three : add_size (length word + length speed + 1) 2 ≡ length word + length speed + 3
    no_wrap_three = omega arith
