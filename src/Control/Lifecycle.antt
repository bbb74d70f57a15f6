-- ===== src/Control/Lifecycle.antt =====
-- `on_configure`, `on_cleanup`, `on_shutdown`, `on_activate`, `on_deactivate`, `on_error` and the
-- destructor, of tuw_spike_control/src/tuw_spike_control_interface.cpp. Waits and logging are left
-- out.
pub mod Detect
pub mod Closing
pub mod Offsets
use tuw_spike.Base.{
  ℕ, suc, ◌+◌, ◌≡◌, Bool, true, false, not, List, [], ◌∷◌, ◌++◌, Option, none, some, ltb, ◌==◌,
  if◌then◌else◌, length, get_or,
}
use tuw_spike.Base.Int.{ℤ}
use tuw_spike.Base.Words.{neg32}
use tuw_spike.Base.Text.{Bytes, bytes, bytes_eq}
use tuw_spike.Base.Result.{Exception, is_runtime_error, Result, ok, throws, Outcome, done, failed}
use tuw_spike.Base.Decimal.{to_string}
use tuw_spike.Control.Status.{
  Fields, Handler, Chunk, fresh_buffer, Ended, ended, waits, read_loop, stoi_into,
}
use tuw_spike.Control.Machine.{
  Real, Serial, Interface, World, Reply, Stop, returns, raises, waiting, M, continue_with, ◌>>=◌,
  ◌>>◌, return, on_port, read_line_from, contains,
}
use tuw_spike.Control.Firmware.{Files, cr, send, load_firmware}
use tuw_spike.Control.Motor.{CallbackReturn, success, failure, error, port_string, set_from}

module _ {R : Type 0} where
  -- What `on_configure` does with the fields of a line: it writes the members themselves.
  unfoldable pub offset_fields : ℕ → ℕ → Handler (Interface R)
  offset_fields left right f s =
      if not (length f.apos == 0)
      then if bytes_eq f.port (port_string left)
        then set_from (stoi_into f.apos s.left_wheel_offset)
            (λ v. record s { left_wheel_offset = v }) s
        else if bytes_eq f.port (port_string right)
        then set_from (stoi_into f.apos s.right_wheel_offset)
            (λ v. record s { right_wheel_offset = v }) s
        else done s
      else done s

  -- `if (reverse[0])`, `if (reverse[1])`, at the end of `on_configure`.
  unfoldable pub reverse_offsets : Interface R → Interface R
  reverse_offsets s =
      let s' =
        if get_or s.reverse 0 false
        then record s { left_wheel_offset = neg32 s.left_wheel_offset }
        else s in
      if get_or s.reverse 1 false
      then record s' { right_wheel_offset = neg32 s'.right_wheel_offset }
      else s'

abbrev pub version_command : Bytes
version_command = bytes "version" ++ cr

abbrev pid_parameters : Bytes
pid_parameters = bytes " 0 5 s2 0.0027777778 1 0.1 2.5 0 .4 0.01;" ++ cr

abbrev pub left_setup : ℕ → Bytes
left_setup n =
    bytes "plimit 1; port "
    ++ (to_string n
        ++ (bytes "; combi 0 1 0 2 0 3 0; select 0 ; selrate 10; pid_diff "
            ++ (to_string n ++ pid_parameters)))

abbrev pub right_setup : ℕ → Bytes
right_setup n =
    bytes "port "
    ++ (to_string n
        ++ (bytes "; combi 0 1 0 2 0 3 0; select 0; selrate 10; pid_diff "
            ++ (to_string n ++ pid_parameters)))

abbrev pub end_message : {R : Type 0} → Interface R → Bytes
end_message s =
    bytes "port "
    ++ (to_string s.left_wheel_port
        ++ (bytes "; select; set 0; port "
            ++ (to_string s.right_wheel_port ++ (bytes "; select; set 0;" ++ cr))))

module _ (R : Type 0) (serial : Serial) where
  abbrev pub Call : Type 0 → Type 0
  Call = M (World R serial.Port)

  -- The body of the loop that asks the HAT for its state, on the line read: `true` goes on with the
  -- configuration, `false` is the return of ERROR. The loop goes on as `after_empty` or
  -- `after_unknown`; `emptydata` and `incdata` are the counts before this round.
  unfoldable pub on_line : Call (Unit {0}) → Call Bool → Call Bool → ℕ → ℕ → Bytes → Call Bool
  on_line load after_empty after_unknown emptydata incdata line w =
      if length line == 0
      then if ltb 3 (emptydata + 1) then (returns true, w) else after_empty w
      else if contains (bytes "Firmware version: ") line
      then (returns true, w)
      else if contains (bytes "BuildHAT bootloader version") line
      then continue_with (load w) (λ u w'. (returns true, w'))
      else if ltb 5 (incdata + 1)
      then (returns false, w)
      else continue_with (send R serial version_command w) (λ u w'. after_unknown w')

  -- The loop; a round takes one reply.
  unfoldable pub detect : Call (Unit {0}) → List Reply → ℕ → ℕ → Call Bool
  detect load [] emptydata incdata w = (waiting, w)
  detect load (r ∷ more) emptydata incdata w = continue_with (read_line_from (r ∷ more) w) (
      on_line load (detect load more (emptydata + 1) incdata)
        (detect load more emptydata (incdata + 1)) emptydata incdata)

  unfoldable pub finish_offsets : Ended (Interface R) → Call (Unit {0})
  finish_offsets (ended (done s) more) w = (returns tt, record w { self = s; incoming = more })
  finish_offsets (ended (failed e s) more) w = (raises e, record w { self = s; incoming = more })
  finish_offsets (waits s) w = (waiting, record w { self = s; incoming = [] })

  unfoldable pub read_offsets : Call (Unit {0})
  read_offsets w =
      finish_offsets
        (read_loop (offset_fields w.self.left_wheel_port w.self.right_wheel_port) w.incoming
          fresh_buffer w.self)
        w

  -- What follows the detection.
  unfoldable pub arm : Call CallbackReturn
  arm w =
      (do
        send R serial (bytes "echo 0;" ++ cr)
        send R serial (left_setup w.self.left_wheel_port)
        send R serial (right_setup w.self.right_wheel_port)
        read_offsets
        λ w. (returns success, record w { self = reverse_offsets w.self }))
        w

  -- `catch (std::runtime_error &e)`
  abbrev pub catch_runtime :
      Stop CallbackReturn × World R serial.Port → Stop CallbackReturn × World R serial.Port
  catch_runtime (returns r, w) = (returns r, w)
  catch_runtime (raises e, w) = if is_runtime_error e then (returns error, w) else (raises e, w)
  catch_runtime (waiting, w) = (waiting, w)

  abbrev pub proceed : Bool → Call CallbackReturn
  proceed true = arm
  proceed false = return error

  abbrev pub detect_now : Files → Call Bool
  detect_now files w = detect (load_firmware R serial files) w.replies 0 0 w

  unfoldable pub on_configure : Files → Call CallbackReturn
  on_configure files w = catch_runtime (
      (do
        on_port (serial.open_port (bytes "/dev/ttyAMA0"))
        on_port (serial.set_baud_rate 115200)
        send R serial version_command
        go ← detect_now files
        proceed go)
        w)

  unfoldable pub on_cleanup : Call CallbackReturn
  on_cleanup w = (do send R serial (end_message w.self); on_port serial.close; return success) w

  unfoldable pub on_shutdown : Call CallbackReturn
  on_shutdown = on_cleanup

  unfoldable pub on_activate : Call CallbackReturn
  on_activate = return success

  unfoldable pub on_deactivate : Call CallbackReturn
  on_deactivate = on_cleanup

  unfoldable pub on_error : Call CallbackReturn
  on_error = on_cleanup

  -- The destructor of `TuwSpikeSystemInterface`; what its body throws ends the program.
  unfoldable pub destroy : Call (Unit {0})
  destroy = do result ← on_deactivate; return tt
