-- ===== src/Control/DiffDrive.antt =====
-- tuw_spike_control/src/diffdrive_node.cpp: the node that turns twists into wheel speeds, and the
-- calls of the hardware interface that it makes.
pub mod Drive
use tuw_spike.Base.{ℕ, ◌≡◌, Bool, true, false, List, [], ◌∷◌, Option, none, some, if◌then◌else◌}
use tuw_spike.Base.Int.{ℤ, pos}
use tuw_spike.Base.Text.{Bytes, bytes_eq}
use tuw_spike.Control.Params.{Params}
use tuw_spike.Control.Machine.{
  Real, Serial, Interface, World, Stop, returns, raises, waiting, M, ◌>>=◌, ◌>>◌, return,
}
use tuw_spike.Control.Motor.{
  CallbackReturn, success, failure, error, left_joint, right_joint, on_init, InterfaceName,
  position, velocity, Handle, export_command_interfaces, write, set_command,
}
use tuw_spike.Control.Firmware.{Files}
use tuw_spike.Control.Lifecycle.{on_configure, on_activate}

-- The two pointers into `command_interfaces_`, as the element that the handle sets; null is `none`.
pub record Wheels : Type 0 where
  pub left : Option ℕ
  pub right : Option ℕ

abbrev pub no_wheels : Wheels
no_wheels = record { left = none; right = none }

abbrev pub is_velocity : InterfaceName → Bool
is_velocity position = false
is_velocity velocity = true

abbrev pub pick : Handle → Wheels → Wheels
pick c ws =
    if is_velocity c.name
    then if bytes_eq c.joint left_joint
      then record ws { left = some c.index }
      else if bytes_eq c.joint right_joint
      then record ws { right = some c.index }
      else ws
    else ws

-- `for (auto &command_interface : command_interfaces_)`
unfoldable pub pick_wheels : List Handle → Wheels → Wheels
pick_wheels [] ws = ws
pick_wheels (c ∷ cs) ws = pick_wheels cs (pick c ws)

-- `left_wheel_velocity_ == nullptr || right_wheel_velocity_ == nullptr`
abbrev pub both : Wheels → Bool
both ws = elim ws.left [ none ↦ false | some l ↦ elim ws.right [ none ↦ false | some r ↦ true ] ]

-- The members of `DiffDriveNode` other than the hardware interface.
pub record Node (R : Type 0) : Type 0 where
  pub wheel_separation : R
  pub wheel_radius : R
  pub hardware_ready : Bool
  pub wheels : Wheels

module _ (real : Real) (serial : Serial) where
  open real use {R, of_int, mul, div, add, sub, neg}

  abbrev Call : Type 0 → Type 0
  Call A = M (World R serial.Port) A

  -- `lifecycle_.on_init(init_params)` with two joints without parameters.
  abbrev pub init_call : CallbackReturn → Call CallbackReturn
  init_call base w =
      let r = on_init real base ([] ∷ [] ∷ []) w.self in (r.0, record w { self = r.1 })

  abbrev pub on_success : Call (Bool × Wheels) → CallbackReturn → Call (Bool × Wheels)
  on_success next success = next
  on_success next failure = return (false, no_wheels)
  on_success next error = return (false, no_wheels)

  -- `init_hardware_interface`: whether it succeeded, and the pointers.
  unfoldable pub init_hardware_interface : CallbackReturn → Files → Call (Bool × Wheels)
  init_hardware_interface base files =
      init_call base
      >>= on_success (
          on_configure R serial files
          >>= on_success (
              on_activate R serial
              >>= on_success (
                  let ws = pick_wheels export_command_interfaces no_wheels in
                  return (both ws, ws))))

  -- The constructor; an exception leaves it.
  unfoldable pub construct : R → R → CallbackReturn → Files → Call (Node R)
  construct separation radius base files = init_hardware_interface base files >>= λ r.
      return (record {
        wheel_separation = separation;
        wheel_radius = radius;
        hardware_ready = r.0;
        wheels = r.1;
      })

  -- The wheel speeds of a twist, `v` forward and `w` about the vertical axis.
  abbrev pub omega_left : Node R → R → R → R
  omega_left node v w =
      div (sub v (div (mul w node.wheel_separation) (of_int (pos 2)))) node.wheel_radius

  abbrev pub omega_right : Node R → R → R → R
  omega_right node v w =
      div (add v (div (mul w node.wheel_separation) (of_int (pos 2)))) node.wheel_radius

  -- `set_value` through a pointer. The code calls it on both, which are not null when the hardware
  -- is ready.
  abbrev pub set_value : Option ℕ → R → Interface R → Interface R
  set_value none v s = s
  set_value (some i) v s = set_command real i v s

  -- `on_cmd_vel`; `write` reads neither the time nor the period.
  unfoldable pub on_cmd_vel : Node R → R → R → Call (Unit {0})
  on_cmd_vel node v w world =
      if node.hardware_ready
      then write real serial (record world {
        self =
            set_value node.wheels.right (omega_right node v w)
              (set_value node.wheels.left (neg (omega_left node v w)) world.self);
      })
      else (returns tt, world)
