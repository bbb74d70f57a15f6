-- ===== src/Control/Demo.antt =====
-- tuw_spike_control/src/demo.cpp: the program that spins both wheels and stops them. Output and
-- waits are left out.
pub mod Spin
use tuw_spike.Base.{
  ℕ, zero, suc, ◌≡◌, Bool, true, false, List, [], ◌∷◌, Option, none, some, if◌then◌else◌,
}
use tuw_spike.Base.Int.{ℤ, pos}
use tuw_spike.Base.Result.{Exception}
use tuw_spike.Control.Machine.{
  Real, Serial, Interface, World, Stop, returns, raises, waiting, M, continue_with, ◌>>=◌, ◌>>◌,
  return,
}
use tuw_spike.Control.Motor.{
  CallbackReturn, success, failure, error, export_command_interfaces, write, zero_real,
}
use tuw_spike.Control.Firmware.{Files}
use tuw_spike.Control.Lifecycle.{on_configure, on_activate, destroy}
use tuw_spike.Control.DiffDrive.{Wheels, no_wheels, pick_wheels, both, init_call, set_value}

module _ (real : Real) (serial : Serial) where
  open real use {R, of_int}

  abbrev Call : Type 0 → Type 0
  Call A = M (World R serial.Port) A

  -- `target_velocity`
  abbrev pub target_velocity : R
  target_velocity = of_int (pos 2)

  -- `set_value` of the two handles, and `write`.
  abbrev pub command : Wheels → R → Call (Unit {0})
  command ws v w = write real serial (record w {
    self = set_value real serial ws.right v (set_value real serial ws.left v w.self);
  })

  -- `for (int i = 0; i < 150; ++i)`, over the rounds that are left.
  unfoldable pub spin : ℕ → Wheels → Call (Unit {0})
  spin zero ws = return tt
  spin (suc n) ws = command ws target_velocity >> spin n ws

  -- `catch (const std::exception & e)`: the exit code.
  abbrev pub exit_code : Stop (Unit {0}) × World R serial.Port → Stop ℕ × World R serial.Port
  exit_code (returns t, w) = (returns 0, w)
  exit_code (raises e, w) = (returns 1, w)
  exit_code (waiting, w) = (waiting, w)

  unfoldable pub drive : Wheels → Call ℕ
  drive ws w = exit_code ((spin 150 ws >> command ws (zero_real real)) w)

  abbrev pub on_success : Call ℕ → CallbackReturn → Call ℕ
  on_success next success = next
  on_success next failure = return 1
  on_success next error = return 1

  abbrev pub with_wheels : Wheels → Call ℕ
  with_wheels ws = if both ws then drive ws else return 1

  -- The body of `main`: its exit code.
  unfoldable pub body : CallbackReturn → Files → Call ℕ
  body base files =
      init_call real serial base
      >>= on_success (
          on_configure R serial files
          >>= on_success (
              on_activate R serial
              >>= on_success (with_wheels (pick_wheels export_command_interfaces no_wheels))))

  -- `main`: at its end the interface is destroyed.
  unfoldable pub main : CallbackReturn → Files → Call ℕ
  main base files = body base files >>= λ code. destroy R serial >> return code
