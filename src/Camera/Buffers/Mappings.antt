-- ===== src/Camera/Buffers/Mappings.antt =====
-- What a mapping covers, and when it ends.
use tuw_spike.Base.{
  ℕ, ◌+◌, ◌%◌, ◌^◌, ◌<◌, ◌≤◌, ◌≡◌, ◌≢◌, refl, not, List, [], ◌∷◌, Option, none, some, ◌==◌, max,
  if◌then◌else◌, All, arith,
}
use tuw_spike.Base.Result.{runtime_error, Result, ok, throws}
use tuw_spike.Camera.Buffers.{
  Plane, Buffer, measure, measured, construct_buffer, unmap, destroy_buffer, move_assign,
}

-- The plane lies in one file with the others, and ends within the size.
pub record IsCovered (invalid fd size : ℕ) (p : Plane) : Type 0 where
  pub same_file : p.fd ≡ fd
  pub valid : p.offset ≢ invalid
  pub within : p.offset + p.plane_length ≤ size

guards :
    (invalid fd d o size : ℕ) (r : Result ℕ)
    → (if not (fd == d)
        then throws runtime_error
        else if o == invalid
        then throws runtime_error
        else r)
      ≡ ok size
    → (d ≡ fd) × (o ≢ invalid) × (r ≡ ok size)
guards invalid fd d o size r e = ground arith

measure-nil : (invalid fd start size : ℕ) → measure invalid fd [] start ≡ ok size → start ≤ size
unfolding measure
measure-nil invalid fd start size e = ground arith

measure-cons :
    (invalid fd : ℕ) (p : Plane) (ps : List Plane) (start size : ℕ)
    → measure invalid fd (p ∷ ps) start ≡ ok size
    → (p.fd ≡ fd)
      × (p.offset ≢ invalid)
      × (measure invalid fd ps (max start ((p.offset + p.plane_length) % 2 ^ 32)) ≡ ok size)
unfolding measure
measure-cons invalid fd p ps start size e = guards invalid fd p.fd p.offset size _ e

measure-IsCovered :
    (invalid fd : ℕ) (ps : List Plane) (start size : ℕ)
    → All (λ (p : Plane). p.offset + p.plane_length < 2 ^ 32) ps
    → measure invalid fd ps start ≡ ok size
    → (start ≤ size) × All (IsCovered invalid fd size) ps
measure-IsCovered invalid fd [] start size b e = (measure-nil invalid fd start size e, tt)
measure-IsCovered invalid fd (p ∷ ps) start size b e =
    let (file, valid, more) = measure-cons invalid fd p ps start size e in
    let (above, all) =
      measure-IsCovered invalid fd ps (max start ((p.offset + p.plane_length) % 2 ^ 32)) size b.1
        more in
    (
      omega (arith, above, b.0),
      (record { same_file = file; valid = valid; within = omega (arith, above, b.0) }, all),
    )

measured-ok :
    (stream : ℕ) (address : Option ℕ) (r : Result ℕ) (live : List ℕ) (b : Buffer)
    → (measured stream address r live).0 ≡ ok b
    → (a : ℕ) × (r ≡ ok b.size) × (b.mem ≡ some a) × ((measured stream address r live).1 ≡ a ∷ live)
measured-ok stream address (throws x) live b e = cc
measured-ok stream none (ok size) live b e = cc
measured-ok stream (some a) (ok size) live b e = (a, ground arith, ground arith, refl)

-- If the constructor returns a context and no plane ends beyond an unsigned int, then all planes lie
-- in one file, with valid offsets, and end within the mapping, which is one more that lives.
pub construct_buffer-IsCovered :
    (invalid : ℕ) (front : Plane) (planes : List Plane) (stream : ℕ) (address : Option ℕ)
    (live : List ℕ) (b : Buffer)
    → All (λ (p : Plane). p.offset + p.plane_length < 2 ^ 32) (front ∷ planes)
    → (construct_buffer invalid front planes stream address live).0 ≡ ok b
    → All (IsCovered invalid front.fd b.size) (front ∷ planes)
      × ((a : ℕ) × (b.mem ≡ some a)
          × ((construct_buffer invalid front planes stream address live).1 ≡ a ∷ live))
unfolding construct_buffer
construct_buffer-IsCovered invalid front planes stream address live b small e =
    let (a, found, mem, lives) =
      measured-ok stream address (measure invalid front.fd (front ∷ planes) 0) live b e in
    ((measure-IsCovered invalid front.fd (front ∷ planes) 0 b.size small found).1, (a, mem, lives))

unmap-other : (a b : ℕ) (live : List ℕ) → a ≢ b → unmap b (a ∷ live) ≡ a ∷ unmap b live
unfolding unmap
unmap-other a b live h = ground arith

-- A move onto a context with another mapping leaks that mapping: it is still there when both
-- contexts are destroyed.
pub move_assign-leaks :
    (this other : Buffer) (a b : ℕ) (live : List ℕ)
    → this.mem ≡ some a
    → other.mem ≡ some b
    → a ≢ b
    → let (new, old) = move_assign this other in
      destroy_buffer new (destroy_buffer old (a ∷ live)) ≡ a ∷ destroy_buffer other live
unfolding move_assign destroy_buffer
move_assign-leaks this other a b live e f h = rw (f, unmap-other a b live h)
