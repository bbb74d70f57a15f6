-- ===== src/Control/Motor.antt =====
-- `on_init`, `export_state_interfaces`, `export_command_interfaces`, `read` and `write` of
-- tuw_spike_control/src/tuw_spike_control_interface.cpp.
pub mod Reports
pub mod Setup
pub mod Cycle
use tuw_spike.Base.{
  ℕ, zero, suc, ◌-◌, ◌^◌, ◌≡◌, Bool, true, false, not, ◌&&◌, List, [], ◌∷◌, ◌++◌, Option, none,
  some, ◌==◌, if◌then◌else◌, get_or, set, length,
}
use tuw_spike.Base.Int.{ℤ, pos, eqb_ℤ}
use tuw_spike.Base.Words.{int32_max, neg32, sub32, abs32}
use tuw_spike.Base.Text.{Bytes, bytes, bytes_eq}
use tuw_spike.Base.Result.{
  Exception, is_runtime_error, Result, ok, throws, Outcome, done, failed, and_then,
}
use tuw_spike.Base.Decimal.{to_string}
use tuw_spike.Control.Params.{Params, read_param, read_bool, read_integer}
use tuw_spike.Control.Status.{
  Fields, Handler, Chunk, fresh_buffer, Ended, ended, waits, read_loop, stoi_into,
}
use tuw_spike.Control.Machine.{
  Real, Serial, Interface, World, Stop, returns, raises, waiting, M, ◌>>=◌, ◌>>◌, return, on_port,
}

-- `CallbackReturn`
pub data CallbackReturn : Type 0 where
  success failure error : CallbackReturn

abbrev pub left_joint : Bytes
left_joint = bytes "left_wheel_joint"

abbrev pub right_joint : Bytes
right_joint = bytes "right_wheel_joint"

module _ (real : Real) where
  open real use {R}

  -- The double 0.0.
  abbrev pub zero_real : R
  zero_real = real.of_int (pos 0)

  -- A member set from a parameter; if reading it throws, the members stay as they are.
  abbrev assign : {A : Type 0} → Result A → (A → Interface R) → Interface R → Outcome (Interface R)
  assign (ok a) f s = done (f a)
  assign (throws e) f s = failed e s

  -- The members in the order in which `on_init` sets them, over what the four reads give.
  unfoldable pub set_members :
      Result Bool → Result Bool → Result ℕ → Result ℕ → Interface R → Outcome (Interface R)
  set_members left_reverse right_reverse left_port right_port s =
      and_then
        (and_then
          (and_then
            (and_then (assign left_reverse (λ b. record s { reverse = s.reverse ++ b ∷ [] }) s)
              (λ s. assign right_reverse (λ b. record s { reverse = s.reverse ++ b ∷ [] }) s))
            (λ s. assign left_port (λ n. record s { left_wheel_port = n }) s))
          (λ s. assign right_port (λ n. record s { right_wheel_port = n }) s))
        (λ s. done (record s {
          command_motor_velocity = s.command_motor_velocity ++ zero_real ∷ zero_real ∷ [];
          state_motor_position = s.state_motor_position ++ zero_real ∷ zero_real ∷ [];
          state_motor_velocity = s.state_motor_velocity ++ zero_real ∷ zero_real ∷ [];
        }))

  -- The body of the `try` in `on_init`, over the parameters of the two joints.
  unfoldable pub init_members : Params → Params → Interface R → Outcome (Interface R)
  init_members left right =
      set_members (read_param read_bool left (bytes "reverse") (some false))
        (read_param read_bool right (bytes "reverse") (some false))
        (read_param (read_integer 255) left (bytes "Port") (some 1))
        (read_param (read_integer 255) right (bytes "Port") (some 0))

  -- `catch (std::runtime_error &e)`; another exception leaves `on_init`.
  abbrev pub caught : Outcome (Interface R) → Stop CallbackReturn × Interface R
  caught (done s) = (returns success, s)
  caught (failed e s) = if is_runtime_error e then (returns error, s) else (raises e, s)

  -- `on_init`; the first argument is what `SystemInterface::on_init` of ros2_control returned.
  unfoldable pub on_init :
      CallbackReturn → List Params → Interface R → Stop CallbackReturn × Interface R
  on_init error joints s = (returns error, s)
  on_init base (left ∷ right ∷ []) s = caught (init_members left right s)
  on_init base joints s = (returns error, s)

-- `HW_IF_POSITION` and `HW_IF_VELOCITY` of ros2_control.
pub data InterfaceName : Type 0 where
  position velocity : InterfaceName

-- A handle: joint, interface, and the index of the element that it points to in that vector.
pub record Handle : Type 0 where
  pub joint : Bytes
  pub name : InterfaceName
  pub index : ℕ

unfoldable pub export_state_interfaces : List Handle
export_state_interfaces =
    record { joint = left_joint; name = position; index = 0 }
    ∷ record { joint = left_joint; name = velocity; index = 0 }
    ∷ record { joint = right_joint; name = position; index = 1 }
    ∷ record { joint = right_joint; name = velocity; index = 1 }
    ∷ []

unfoldable pub export_command_interfaces : List Handle
export_command_interfaces =
    record { joint = left_joint; name = velocity; index = 0 }
    ∷ record { joint = right_joint; name = velocity; index = 1 }
    ∷ []

-- The locals of `read`.
pub record Readings : Type 0 where
  pub left_speed : ℤ
  pub left_apos : ℤ
  pub right_speed : ℤ
  pub right_apos : ℤ

abbrev pub nothing_read : Readings
nothing_read = record {
  left_speed = int32_max;
  left_apos = int32_max;
  right_speed = int32_max;
  right_apos = int32_max;
}

-- "P" + std::to_string(port) + "C0"
unfoldable pub port_string : ℕ → Bytes
port_string n = b'P' ∷ (to_string n ++ bytes "C0")

abbrev pub set_from : {S : Type 0} → Result ℤ → (ℤ → S) → S → Outcome S
set_from (ok v) f s = done (f v)
set_from (throws e) f s = failed e s

-- What `read` does with the fields of a line.
unfoldable pub read_fields : ℕ → ℕ → Handler Readings
read_fields left right f r =
    if not (length f.speed == 0) && not (length f.apos == 0)
    then if bytes_eq f.port (port_string left)
      then and_then (set_from (stoi_into f.speed r.left_speed) (λ v. record r { left_speed = v }) r)
          (λ r. set_from (stoi_into f.apos r.left_apos) (λ v. record r { left_apos = v }) r)
      else if bytes_eq f.port (port_string right)
      then and_then
          (set_from (stoi_into f.speed r.right_speed) (λ v. record r { right_speed = v }) r)
          (λ r. set_from (stoi_into f.apos r.right_apos) (λ v. record r { right_apos = v }) r)
      else done r
    else done r

-- `if (reverse[0])`, `if (reverse[1])`
unfoldable pub apply_reverse : List Bool → Readings → Readings
apply_reverse rev r =
    let r' =
      if get_or rev 0 false
      then record r { left_apos = neg32 r.left_apos; left_speed = neg32 r.left_speed }
      else r in
    if get_or rev 1 false
    then record r' { right_apos = neg32 r'.right_apos; right_speed = neg32 r'.right_speed }
    else r'

module _ (real : Real) where
  open real use {R, of_int, mul, div, pi}

  -- 2.0 * M_PI * speed / 33
  abbrev pub velocity_of : ℤ → R
  velocity_of speed = div (mul (mul (of_int (pos 2)) pi) (of_int speed)) (of_int (pos 33))

  -- 1.0 * (apos - offset) / 180.0 * M_PI
  abbrev pub position_of : ℤ → ℤ → R
  position_of apos offset =
      mul (div (mul (of_int (pos 1)) (of_int (sub32 apos offset))) (of_int (pos 180))) pi

  -- `abs(speed) != INT32_MAX`
  abbrev pub is_new : ℤ → Bool
  is_new speed = not (eqb_ℤ (abs32 speed) int32_max)

  unfoldable pub store_left : Readings → Interface R → Interface R
  store_left r s =
      if is_new r.left_speed
      then record s {
        state_motor_velocity = set s.state_motor_velocity 0 (velocity_of r.left_speed);
        state_motor_position =
            set s.state_motor_position 0 (position_of r.left_apos s.left_wheel_offset);
      }
      else s

  unfoldable pub store_right : Readings → Interface R → Interface R
  store_right r s =
      if is_new r.right_speed
      then record s {
        state_motor_velocity = set s.state_motor_velocity 1 (velocity_of r.right_speed);
        state_motor_position =
            set s.state_motor_position 1 (position_of r.right_apos s.right_wheel_offset);
      }
      else s

  -- What `read` does once its loop has ended.
  unfoldable pub finish_read : {Port : Type 0} → Ended Readings → M (World R Port) (Unit {0})
  finish_read (ended (done r) more) w = (
    returns tt,
    record w {
      incoming = more;
      self =
          store_right (apply_reverse w.self.reverse r)
            (store_left (apply_reverse w.self.reverse r) w.self);
    },
  )
  finish_read (ended (failed e r) more) w = (raises e, record w { incoming = more })
  finish_read (waits r) w = (waiting, record w { incoming = [] })

  -- `read`. It returns `return_type::OK` whenever it returns.
  unfoldable pub read : {Port : Type 0} → M (World R Port) (Unit {0})
  read w =
      finish_read
        (read_loop (read_fields w.self.left_wheel_port w.self.right_wheel_port) w.incoming
          fresh_buffer nothing_read)
        w

  -- The target speed of a motor: the command, negated for a reversed wheel, in turns per second.
  abbrev pub target : Bool → R → R
  target reversed command =
      div (if reversed then real.neg command else command) (mul (of_int (pos 2)) pi)

  unfoldable pub message : Interface R → Bytes
  message s =
      bytes "port "
      ++ (to_string s.left_wheel_port
          ++ (bytes "; set "
              ++ (real.to_string (
                    target (get_or s.reverse 0 false)
                      (get_or s.command_motor_velocity 0 (zero_real real)))
                  ++ (bytes "; port "
                      ++ (to_string s.right_wheel_port
                          ++ (bytes "; set "
                              ++ (real.to_string (
                                    target (get_or s.reverse 1 false)
                                      (get_or s.command_motor_velocity 1 (zero_real real)))
                                  ++ bytes ";\r")))))))

  -- `write`. It returns `return_type::OK` whenever it returns.
  unfoldable pub write : (serial : Serial) → M (World R serial.Port) (Unit {0})
  write serial w = on_port (serial.write (message w.self)) w

  -- `set_value` on a command handle.
  unfoldable pub set_command : ℕ → R → Interface R → Interface R
  set_command i v s = record s { command_motor_velocity = set s.command_motor_velocity i v }
