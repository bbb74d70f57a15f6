-- ===== src/Control/Motor/Setup.antt =====
-- What `on_init` leaves behind, and that the later calls keep it.
use tuw_spike.Base.{
  ℕ, ◌≤◌, ◌≡◌, refl, ◌⊎◌, inl, inr, List, [], ◌∷◌, ◌++◌, some, length, length-append, arith, Bool,
  false,
}
use tuw_spike.Base.Text.{Bytes, bytes}
use tuw_spike.Base.Result.{runtime_error, Result, ok, throws, Outcome, done, failed}
use tuw_spike.Control.Params.{
  Params, read_param, read_bool, read_integer, read_param-bool, read_param-integer,
}
use tuw_spike.Control.Machine.{Real, Interface, returns}
use tuw_spike.Control.Motor.{
  CallbackReturn, success, failure, error, zero_real, set_members, init_members, on_init, caught,
}

-- Every element that the later calls index is there, and the ports are `uint8_t`.
pub record IsReady {R : Type 0} (s : Interface R) : Type 0 where
  pub reverse_both : 2 ≤ length s.reverse
  pub command_both : 2 ≤ length s.command_motor_velocity
  pub velocity_both : 2 ≤ length s.state_motor_velocity
  pub position_both : 2 ≤ length s.state_motor_position
  pub left_port_byte : s.left_wheel_port ≤ 255
  pub right_port_byte : s.right_wheel_port ≤ 255

module _ (real : Real) where
  open real use {R}

  abbrev Settled : Outcome (Interface R) → Type 0
  Settled (done s) = IsReady s
  Settled (failed e s) = e ≡ runtime_error

  -- A read that throws, throws `std::runtime_error`; one that does not, yields a value with `P`.
  abbrev Reads : {A : Type 0} → (A → Type 0) → Result A → Type 0
  Reads P (ok v) = P v
  Reads P (throws e) = e ≡ runtime_error

  two_more : {A : Type 0} (xs : List A) (a b : A) → 2 ≤ length (xs ++ a ∷ b ∷ [])
  two_more xs a b = omega (arith, length-append xs (a ∷ b ∷ []))

  one_and_one : {A : Type 0} (xs : List A) (a b : A) → 2 ≤ length ((xs ++ a ∷ []) ++ b ∷ [])
  one_and_one xs a b =
      omega (arith, length-append (xs ++ a ∷ []) (b ∷ []), length-append xs (a ∷ []))

  set_members-Settled :
      (lr rr : Result Bool) (lp rp : Result ℕ) (s : Interface R)
      → Reads (λ b. Unit {0}) lr
      → Reads (λ b. Unit {0}) rr
      → Reads (λ n. n ≤ 255) lp
      → Reads (λ n. n ≤ 255) rp
      → Settled (set_members real lr rr lp rp s)
  unfolding set_members
  set_members-Settled (throws e) rr lp rp s h1 h2 h3 h4 = h1
  set_members-Settled (ok a) (throws e) lp rp s h1 h2 h3 h4 = h2
  set_members-Settled (ok a) (ok b) (throws e) rp s h1 h2 h3 h4 = h3
  set_members-Settled (ok a) (ok b) (ok m) (throws e) s h1 h2 h3 h4 = h4
  set_members-Settled (ok a) (ok b) (ok m) (ok n) s h1 h2 h3 h4 = record {
    reverse_both = one_and_one s.reverse a b;
    command_both = two_more s.command_motor_velocity (zero_real real) (zero_real real);
    velocity_both = two_more s.state_motor_velocity (zero_real real) (zero_real real);
    position_both = two_more s.state_motor_position (zero_real real) (zero_real real);
    left_port_byte = h3;
    right_port_byte = h4;
  }

  bool-Reads :
      (params : Params) (param : Bytes) (def : Bool)
      → Reads (λ b. Unit {0}) (read_param read_bool params param (some def))
  bool-Reads params param def = elim (read_param-bool params param def) [
    | inl e ↦ rw e refl
    | inr (v, e) ↦ rw e tt
  ]

  port-Reads :
      (params : Params) (param : Bytes) (def : ℕ)
      → def ≤ 255
      → Reads (λ n. n ≤ 255) (read_param (read_integer 255) params param (some def))
  port-Reads params param def h = elim (read_param-integer 255 params param def h) [
    | inl (_, e) ↦ rw e h
    | inr (inl e) ↦ rw e refl
    | inr (inr (v, e, le)) ↦ rw e le
  ]

  init_members-Settled :
      (left right : Params) (s : Interface R) → Settled (init_members real left right s)
  unfolding init_members
  init_members-Settled left right s =
      set_members-Settled _ _ _ _ s (bool-Reads left (bytes "reverse") false)
        (bool-Reads right (bytes "reverse") false) (port-Reads left (bytes "Port") 1 (omega arith))
        (port-Reads right (bytes "Port") 0 (omega arith))

  caught-Settled :
      (o : Outcome (Interface R))
      → Settled o
      → ((caught real o).0 ≡ returns error)
        ⊎ (((caught real o).0 ≡ returns success) × IsReady (caught real o).1)
  caught-Settled (done s) h = inr (refl, h)
  caught-Settled (failed e s) h = inl (rw h refl)

  -- On every input `on_init` returns and never throws: either ERROR, or SUCCESS with all vectors of
  -- at least the two elements that the other calls index, and with ports that are bytes.
  pub on_init-IsReady :
      (base : CallbackReturn) (joints : List Params) (s : Interface R)
      → ((on_init real base joints s).0 ≡ returns error)
        ⊎ (((on_init real base joints s).0 ≡ returns success)
            × IsReady (on_init real base joints s).1)
  unfolding on_init
  on_init-IsReady error joints s = inl refl
  on_init-IsReady success [] s = inl refl
  on_init-IsReady success (a ∷ []) s = inl refl
  on_init-IsReady success (a ∷ b ∷ []) s = caught-Settled _ (init_members-Settled a b s)
  on_init-IsReady success (a ∷ b ∷ c ∷ more) s = inl refl
  on_init-IsReady failure [] s = inl refl
  on_init-IsReady failure (a ∷ []) s = inl refl
  on_init-IsReady failure (a ∷ b ∷ []) s = caught-Settled _ (init_members-Settled a b s)
  on_init-IsReady failure (a ∷ b ∷ c ∷ more) s = inl refl
