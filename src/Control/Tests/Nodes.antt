-- ===== src/Control/Tests/Nodes.antt =====
-- The node and the demo of tuw_spike_control at concrete inputs.
use tuw_spike.Base.{◌≡◌, refl, true, false, List, [], ◌∷◌, ◌++◌, none, some, replicate, arith}
use tuw_spike.Base.Int.{ℤ, pos}
use tuw_spike.Base.Text.{bytes, lookup}
use tuw_spike.Control.Tests.{ToyPort, toy_real, toy_serial, toy_laws, robot, world}
use tuw_spike.Control.Machine.{
  World, returns, delivered, continue_with, ◌>>◌, return, read_line_from, getline, contains,
}
use tuw_spike.Control.Params.{read_param}
use tuw_spike.Control.Motor.{success, on_init, init_members, set_members, export_command_interfaces}
use tuw_spike.Control.Motor.Setup.{IsReady}
use tuw_spike.Control.Status.{received, read_loop, process, fresh_buffer}
use tuw_spike.Control.Firmware.{Files}
use tuw_spike.Control.Lifecycle.{
  on_configure, detect, on_line, arm, read_offsets, finish_offsets, reverse_offsets, on_activate,
  destroy, end_message,
}
use tuw_spike.Control.DiffDrive.{Node, init_hardware_interface, pick_wheels, construct, on_cmd_vel}
use tuw_spike.Control.DiffDrive.Drive.{
  found_wheels, construct-found_wheels, drive_message, wheel_speed, half_turn, on_cmd_vel-sends,
}
use tuw_spike.Control.Demo.{drive}
use tuw_spike.Control.Demo.Spin.{spinning, stopping, drive-transcript}

robot-IsReady : IsReady robot
robot-IsReady = record {
  reverse_both = omega arith;
  command_both = omega arith;
  velocity_both = omega arith;
  position_both = omega arith;
  left_port_byte = omega arith;
  right_port_byte = omega arith;
}

abbrev node : Node ℤ
node = record {
  wheel_separation = pos 112;
  wheel_radius = pos 28;
  hardware_ready = true;
  wheels = record { left = some 0; right = some 1 };
}

-- A HAT that runs its firmware.
abbrev running : World ℤ ToyPort
running = world (delivered (bytes "Firmware version: 1" ++ b'\n' ∷ []) ∷ []) (received [] ∷ [])

abbrev files : Files
files = record { firmware = none; signature = none }

construct-found_wheels_example : node.wheels ≡ found_wheels
unfolding construct init_hardware_interface on_init init_members set_members read_param lookup
    on_configure detect read_line_from on_line getline contains arm read_offsets finish_offsets
    read_loop process fresh_buffer reverse_offsets on_activate pick_wheels export_command_interfaces
construct-found_wheels_example =
    construct-found_wheels toy_real toy_serial (pos 112) (pos 28) success files running
      (construct toy_real toy_serial (pos 112) (pos 28) success files running).1 node refl refl

on_cmd_vel-sends_example :
    let (stop, after) = on_cmd_vel toy_real toy_serial node (pos 5) (pos 2) (world [] []) in
    (stop ≡ returns tt)
    × (after.port.opened ≡ true)
    × (after.port.sent
        ≡ drive_message toy_real toy_serial robot
            (toy_real.neg (
              wheel_speed toy_real toy_serial node
                (toy_real.sub (pos 5) (half_turn toy_real toy_serial node (pos 2)))))
            (wheel_speed toy_real toy_serial node
              (toy_real.add (pos 5) (half_turn toy_real toy_serial node (pos 2))))
          ∷ [])
on_cmd_vel-sends_example =
    on_cmd_vel-sends toy_real toy_serial toy_laws node (pos 5) (pos 2) (world [] []) refl refl
      robot-IsReady refl

drive-transcript_example :
    (q : ToyPort) × (cs : List ℤ) × (continue_with
        (drive toy_real toy_serial found_wheels (world [] []))
        (λ code. destroy ℤ toy_serial >> return code)
      ≡ (
        returns 0,
        record (world [] []) { self = record robot { command_motor_velocity = cs }; port = q },
      ))
    × (q.opened ≡ false)
    × (q.sent
        ≡ (replicate 150 (spinning toy_real toy_serial toy_laws robot)
            ++ stopping toy_real toy_serial toy_laws robot ∷ [])
          ++ end_message robot ∷ [])
drive-transcript_example =
    drive-transcript toy_real toy_serial toy_laws (world [] []) robot-IsReady refl
