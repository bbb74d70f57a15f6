-- ===== src/Control/DiffDrive/Drive.antt =====
-- The node with its hardware: what a twist sends to the motors.
use tuw_spike.Base.{
  ◌≤◌, ◌≡◌, refl, Bool, true, false, List, [], ◌∷◌, ◌++◌, some, arith, length, get_or, set,
  if◌then◌else◌,
}
use tuw_spike.Base.Int.{pos}
use tuw_spike.Base.Text.{Bytes, bytes}
use tuw_spike.Base.Decimal.{to_string}
use tuw_spike.Control.Machine.{
  Real, Serial, PortLaws, Interface, World, Stop, returns, raises, waiting, M, continue_with,
}
use tuw_spike.Control.Motor.{
  CallbackReturn, success, failure, error, message, write, set_command, zero_real,
  export_command_interfaces,
}
use tuw_spike.Control.Motor.Setup.{IsReady}
use tuw_spike.Control.Firmware.{Files}
use tuw_spike.Control.Lifecycle.{on_configure, on_activate}
use tuw_spike.Control.DiffDrive.{
  Wheels, no_wheels, pick_wheels, Node, on_success, init_call, init_hardware_interface, construct,
  on_cmd_vel,
}

-- The left handle sets the first command, the right handle the second.
abbrev pub found_wheels : Wheels
found_wheels = record { left = some 0; right = some 1 }

pick_wheels-export : pick_wheels export_command_interfaces no_wheels ≡ found_wheels
unfolding pick_wheels export_command_interfaces
pick_wheels-export = refl

pub two_set :
    {R : Type 0} (xs : List R) (a b d : R)
    → 2 ≤ length xs
    → (get_or (set (set xs 0 a) 1 b) 0 d ≡ a) × (get_or (set (set xs 0 a) 1 b) 1 d ≡ b)
two_set [] a b d h = absurd (omega arith)
two_set (x ∷ []) a b d h = absurd (omega arith)
two_set (x ∷ y ∷ xs) a b d h = (refl, refl)

-- A result that leaves both wheels found if it says so.
abbrev Found : Stop (Bool × Wheels) → Type 0
Found (returns r) = r.0 ≡ true → r.1 ≡ found_wheels
Found (raises e) = Unit
Found waiting = Unit

continue-Found :
    {W A : Type 0} (m : Stop A × W) (f : A → M W (Bool × Wheels))
    → ((a : A) (w : W) → Found (f a w).0)
    → Found (continue_with m f).0
continue-Found (returns a, w) f h = h a w
continue-Found (raises e, w) f h = tt
continue-Found (waiting, w) f h = tt

module _ (real : Real) (serial : Serial) where
  open real use {R}

  on_success-Found :
      (next : M (World R serial.Port) (Bool × Wheels))
      → ((w : World R serial.Port) → Found (next w).0)
      → (r : CallbackReturn) (w : World R serial.Port) → Found (on_success real serial next r w).0
  on_success-Found next h success w = h w
  on_success-Found next h failure w = λ q. ground arith
  on_success-Found next h error w = λ q. ground arith

  init_hardware_interface-Found :
      (base : CallbackReturn) (files : Files) (w : World R serial.Port)
      → Found (init_hardware_interface real serial base files w).0
  unfolding init_hardware_interface
  init_hardware_interface-Found base files w = continue-Found (init_call real serial base w) _ (
      on_success-Found _ (λ w. continue-Found (on_configure R serial files w) _ (
        on_success-Found _ (λ w.
          continue-Found (on_activate R serial w) _
            (on_success-Found _ (λ w q. pick_wheels-export))))))

  abbrev WheelsFound : Stop (Node R) → Type 0
  WheelsFound (returns node) = node.hardware_ready ≡ true → node.wheels ≡ found_wheels
  WheelsFound (raises e) = Unit
  WheelsFound waiting = Unit

  made :
      (separation radius : R) (m : Stop (Bool × Wheels) × World R serial.Port)
      → Found m.0
      → WheelsFound
          (continue_with m (λ r w. (
            returns (record {
              wheel_separation = separation;
              wheel_radius = radius;
              hardware_ready = r.0;
              wheels = r.1;
            }),
            w,
          ))).0
  made separation radius (returns r, w) h = h
  made separation radius (raises e, w) h = tt
  made separation radius (waiting, w) h = tt

  construct-WheelsFound :
      (separation radius : R) (base : CallbackReturn) (files : Files) (w : World R serial.Port)
      → WheelsFound (construct real serial separation radius base files w).0
  unfolding construct
  construct-WheelsFound separation radius base files w =
      made separation radius _ (init_hardware_interface-Found base files w)

  -- Whatever `on_init` and `on_configure` do: if the constructor returns a node whose hardware is
  -- ready, then its left pointer leads to the first wheel command and its right one to the second.
  pub construct-found_wheels :
      (separation radius : R) (base : CallbackReturn) (files : Files) (w w' : World R serial.Port)
      (node : Node R)
      → construct real serial separation radius base files w ≡ (returns node, w')
      → node.hardware_ready ≡ true
      → node.wheels ≡ found_wheels
  construct-found_wheels separation radius base files w w' node e =
      let h = construct-WheelsFound separation radius base files w in rw e at h

  -- The turns per second of a motor for a command in radians per second, the other way round for a
  -- reversed motor.
  abbrev pub turns : Bool → R → R
  turns reversed command =
      real.div (if reversed then real.neg command else command)
        (real.mul (real.of_int (pos 2)) real.pi)

  -- The speed of a wheel whose point of contact moves at `v`.
  abbrev pub wheel_speed : Node R → R → R
  wheel_speed node v = real.div v node.wheel_radius

  -- How much faster than the middle the right wheel moves at the yaw rate `w`.
  abbrev pub half_turn : Node R → R → R
  half_turn node w = real.div (real.mul w node.wheel_separation) (real.of_int (pos 2))

  -- The message for two commands.
  unfoldable pub drive_message : Interface R → R → R → Bytes
  drive_message s l r =
      bytes "port "
      ++ (to_string s.left_wheel_port
          ++ (bytes "; set "
              ++ (real.to_string (turns (get_or s.reverse 0 false) l)
                  ++ (bytes "; port "
                      ++ (to_string s.right_wheel_port
                          ++ (bytes "; set "
                              ++ (real.to_string (turns (get_or s.reverse 1 false) r)
                                  ++ bytes ";\r")))))))

  module _ (laws : PortLaws serial) where
    open laws use {is_open, log, write_open}

    -- `on_cmd_vel`: if the hardware is ready, the handles were found, the interface is ready and the
    -- port is open, then it sends one message, which sets the left motor to the negated speed of the
    -- left wheel, (v - w * separation / 2) / radius, and the right motor to that of the right wheel,
    -- (v + w * separation / 2) / radius, each over 2 * pi and negated once more if its parameter
    -- `reverse` says so.
    pub on_cmd_vel-sends :
        (node : Node R) (v w : R) (world : World R serial.Port)
        → node.hardware_ready ≡ true
        → node.wheels ≡ found_wheels
        → IsReady world.self
        → is_open world.port ≡ true
        → let (stop, after) = on_cmd_vel real serial node v w world in
          (stop ≡ returns tt)
          × (is_open after.port ≡ true)
          × (log after.port
              ≡ log world.port
                ++ drive_message world.self
                    (real.neg (wheel_speed node (real.sub v (half_turn node w))))
                    (wheel_speed node (real.add v (half_turn node w)))
                  ∷ [])
    unfolding on_cmd_vel write set_command message drive_message
    on_cmd_vel-sends node v w world ready found r opened =
        let l = real.neg (wheel_speed node (real.sub v (half_turn node w))) in
        let right = wheel_speed node (real.add v (half_turn node w)) in
        let (first, second) =
          two_set world.self.command_motor_velocity l right (zero_real real) r.command_both in
        let (q, sent, still, logged) =
          write_open (drive_message world.self l right) world.port opened in
        rw (ready, found, first, second, sent) (refl, still, logged)
