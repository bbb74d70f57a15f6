-- ===== src/Control/Tests.antt =====
-- The theorems about tuw_spike_control at concrete inputs, over a port that records what is sent.
mod Nodes
use tuw_spike.Base.{
  ℕ, ◌<◌, ◌≤◌, ◌≡◌, ◌≢◌, refl, All, ◌⊎◌, Bool, true, false, List, [], ◌∷◌, ◌++◌, some, replicate,
  arith, if◌then◌else◌,
}
use tuw_spike.Base.Int.{ℤ, pos, negsuc, neg, ◌+ℤ◌, ◌-ℤ◌}
use tuw_spike.Base.Words.{neg32}
use tuw_spike.Base.Text.{Bytes, bytes, lookup}
use tuw_spike.Base.Decimal.{to_string, digits, digit_value, span_digits, from_digits}
use tuw_spike.Base.Result.{system_error, out_of_range, runtime_error, Result, ok, throws}
use tuw_spike.Control.Checksum.{
  checksum, checksum_from, round, advance, checksum-append, checksum_detects_byte,
}
use tuw_spike.Control.Params.{Params, read_integer, read_integer-to_string, read_integer-cases}
use tuw_spike.Control.Status.{
  fields, cut, find_from, process, line_complete, Chunk, received, stoi, stoi_into, skip_space,
  int_to_string, stoi-int_to_string,
}
use tuw_spike.Control.Status.Lines.{status_line, fields-status_line}
use tuw_spike.Control.Machine.{
  Real, Serial, PortLaws, Interface, World, Reply, delivered, Stop, returns, raises, continue_with,
  contains,
}
use tuw_spike.Control.Motor.{
  CallbackReturn, success, error, on_init, read, read_fields, port_string, nothing_read,
}
use tuw_spike.Control.Motor.Reports.{Report, IsReport, render_all, note_all}
use tuw_spike.Control.Motor.Cycle.{updated, read-reports, read-stale}
use tuw_spike.Control.Motor.Setup.{IsReady, on_init-IsReady}
use tuw_spike.Control.Firmware.{load_firmware}
use tuw_spike.Control.Firmware.Upload.{
  Answer, IsAnswer, answers, transcript, load_firmware-transcript,
}
use tuw_spike.Control.Lifecycle.{
  detect_now, arm, reverse_offsets, catch_runtime, end_message, on_cleanup, on_shutdown,
  on_deactivate, on_error, destroy, detect,
}
use tuw_spike.Control.Lifecycle.Detect.{Settles, detect_now-Settles}
use tuw_spike.Control.Lifecycle.Closing.{on_cleanup-open, destroy-closed}
use tuw_spike.Control.Lifecycle.Offsets.{
  arming, turned_offsets, wrong_line, arm-no_line, arm-out_of_range,
}

-- Integers in place of doubles.
abbrev toy_real : Real
toy_real = record {
  R = ℤ;
  of_int = λ z. z;
  neg = neg;
  add = ◌+ℤ◌;
  sub = ◌-ℤ◌;
  mul = λ a b. a;
  div = λ a b. a;
  pi = pos 3;
  to_string = int_to_string;
}

record ToyPort : Type 0 where
  opened : Bool
  sent : List Bytes

abbrev toy_write : Bytes → ToyPort → Result ToyPort
toy_write m p = if p.opened then ok (record p { sent = p.sent ++ m ∷ [] }) else throws system_error

abbrev toy_shut : ToyPort → Result ToyPort
toy_shut p = ok (record p { opened = false })

abbrev toy_serial : Serial
toy_serial = record {
  Port = ToyPort;
  open_port = λ name p. ok (record p { opened = true });
  set_baud_rate = λ rate p. ok p;
  write = toy_write;
  close = toy_shut;
}

toy_write_open :
    (m : Bytes) (p : ToyPort)
    → p.opened ≡ true
    → (q : ToyPort) × (toy_write m p ≡ ok q) × (q.opened ≡ true) × (q.sent ≡ p.sent ++ m ∷ [])
toy_write_open m p h = (record p { sent = p.sent ++ m ∷ [] }, ground arith, ground arith, refl)

toy_write_closed :
    (m : Bytes) (p : ToyPort) → p.opened ≡ false → toy_write m p ≡ throws system_error
toy_write_closed m p h = ground arith

toy_close :
    (p : ToyPort)
    → p.opened ≡ true
    → (q : ToyPort) × (toy_shut p ≡ ok q) × (q.opened ≡ false) × (q.sent ≡ p.sent)
toy_close p h = (record p { opened = false }, refl, refl, refl)

abbrev toy_laws : PortLaws toy_serial
toy_laws = record {
  is_open = λ p. p.opened;
  log = λ p. p.sent;
  write_open = toy_write_open;
  write_closed = toy_write_closed;
  close_open = toy_close;
}

-- The robot with its default ports, its right wheel reversed, and an offset of 7 degrees on it.
abbrev robot : Interface ℤ
robot = record {
  state_motor_position = pos 0 ∷ pos 0 ∷ [];
  state_motor_velocity = pos 0 ∷ pos 0 ∷ [];
  command_motor_velocity = pos 0 ∷ pos 0 ∷ [];
  reverse = false ∷ true ∷ [];
  left_wheel_port = 1;
  right_wheel_port = 0;
  left_wheel_offset = pos 0;
  right_wheel_offset = pos 7;
}

abbrev world : List Reply → List Chunk → World ℤ ToyPort
world replies incoming = record {
  self = robot;
  port = record { opened = true; sent = [] };
  streambuf = [];
  replies = replies;
  incoming = incoming;
}

abbrev left_report : ℕ → Report
left_report speed = record { port = 1; speed = pos speed; apos = negsuc 44; third = pos 3 }

left_report-IsReport : (speed : ℕ) → speed < 100 → IsReport (left_report speed)
left_report-IsReport speed h = record {
  one_digit = omega arith;
  speed_int = omega arith;
  apos_int = omega arith;
}

checksum_abc : checksum (1 ∷ 2 ∷ 255 ∷ []) ≡ 247
unfolding checksum checksum_from round advance
checksum_abc = refl

checksum_detects_byte_example : checksum (bytes "firmware") ≢ checksum (bytes "firmw4re")
checksum_detects_byte_example =
    checksum_detects_byte (bytes "firmw") (bytes "re") b'a' b'4' (omega arith) (omega arith)
      (omega arith) (omega arith)

abbrev port_params : Params
port_params = (bytes "Port", bytes "3") ∷ []

read_integer-to_string_example : read_integer 255 port_params (bytes "Port") ≡ ok 3
unfolding lookup to_string digits
read_integer-to_string_example =
    read_integer-to_string 255 3 port_params (bytes "Port") (omega arith) refl

fields-status_line_example :
    fields (status_line (bytes "P1C0:") (bytes "12") (bytes "-45") (bytes "3"))
    ≡ some (record { port = bytes "P1C0"; speed = bytes "12"; apos = bytes "-45" })
fields-status_line_example =
    fields-status_line (bytes "P1C0:") (bytes "12") (bytes "-45") (bytes "3") (omega arith)
      (omega arith) (omega arith) (omega arith) (omega arith) (omega arith) (omega arith)

on_init-IsReady_example :
    ((on_init toy_real success ([] ∷ port_params ∷ []) robot).0 ≡ returns error)
    ⊎ (((on_init toy_real success ([] ∷ port_params ∷ []) robot).0 ≡ returns success)
        × IsReady (on_init toy_real success ([] ∷ port_params ∷ []) robot).1)
on_init-IsReady_example = on_init-IsReady toy_real success ([] ∷ port_params ∷ []) robot

abbrev two_reports : List Report
two_reports = left_report 12 ∷ left_report 15 ∷ []

two_reports-IsReport : All IsReport two_reports
two_reports-IsReport =
    (left_report-IsReport 12 (omega arith), (left_report-IsReport 15 (omega arith), tt))

read-reports_example : read toy_real (world [] (received (render_all two_reports) ∷ [])) ≡ (
  returns tt,
  record (world [] (received (render_all two_reports) ∷ [])) {
    incoming = [];
    self = updated toy_real robot (note_all 1 0 two_reports nothing_read);
  },
)
unfolding port_string to_string digits int_to_string
read-reports_example =
    read-reports toy_real (world [] (received (render_all two_reports) ∷ [])) two_reports []
      (omega arith) (omega arith) two_reports-IsReport (omega arith) refl

-- A full buffer: two reports of one length, and zeros.
abbrev full_buffer : Bytes
full_buffer =
    render_all (left_report 10 ∷ []) ++ (render_all (left_report 11 ∷ []) ++ replicate 98 0)

-- The report of 12 comes last, and the older one of 11 counts.
read-stale_example :
    read toy_real
      (world [] (received full_buffer ∷ received (render_all (left_report 12 ∷ [])) ∷ []))
    ≡ (
      returns tt,
      record (world [] []) {
        self = updated toy_real robot (
            note_all 1 0 (left_report 11 ∷ []) (
              note_all 1 0
                (left_report 12 ∷ [])
                (note_all 1 0 (left_report 11 ∷ []) nothing_read)));
      },
    )
unfolding port_string to_string digits int_to_string process line_complete fields cut find_from
    read_fields stoi stoi_into skip_space span_digits digit_value from_digits
read-stale_example =
    read-stale toy_real
      (world [] (received full_buffer ∷ received (render_all (left_report 12 ∷ [])) ∷ []))
      full_buffer (replicate 98 0) (left_report 12 ∷ []) (left_report 11 ∷ [])
      (note_all 1 0 (left_report 11 ∷ []) nothing_read) [] (omega arith) (omega arith)
      (left_report-IsReport 12 (omega arith), tt) (left_report-IsReport 11 (omega arith), tt)
      (omega arith) refl (omega arith) refl refl refl

-- A HAT that answers each time with a line of noise and the prompt.
abbrev answer : Answer
answer = record { chatter = bytes "noise" ∷ []; prompt = bytes "BHBL> " }

answer-IsAnswer : IsAnswer answer
unfolding contains
answer-IsAnswer = record {
  before = ((omega arith, refl), tt);
  one_line = omega arith;
  ready = refl;
}

load_firmware-transcript_example :
    (q : ToyPort) × (load_firmware ℤ toy_serial
        (record { firmware = some (1 ∷ 2 ∷ []); signature = some (3 ∷ []) })
        (world (answers (answer ∷ answer ∷ answer ∷ []) []) [])
      ≡ (returns tt, record (world [] []) { port = q }))
    × (q.opened ≡ true)
    × (q.sent ≡ [] ++ transcript ℤ toy_serial toy_laws (1 ∷ 2 ∷ []) (3 ∷ []))
load_firmware-transcript_example =
    load_firmware-transcript ℤ toy_serial toy_laws (1 ∷ 2 ∷ []) (3 ∷ []) answer answer answer []
      (world (answers (answer ∷ answer ∷ answer ∷ []) []) []) answer-IsAnswer answer-IsAnswer
      answer-IsAnswer refl refl refl

-- Nine empty lines.
abbrev silence : List Reply
silence = replicate 9 (delivered (b'\n' ∷ []))

detect_now-Settles_example :
    Settles ℤ toy_serial
      (load_firmware ℤ toy_serial
        (record { firmware = some (1 ∷ 2 ∷ []); signature = some (3 ∷ []) }))
      0
      (detect_now ℤ toy_serial
        (record { firmware = some (1 ∷ 2 ∷ []); signature = some (3 ∷ []) })
        (world silence []))
detect_now-Settles_example =
    detect_now-Settles ℤ toy_serial
      (record { firmware = some (1 ∷ 2 ∷ []); signature = some (3 ∷ []) }) 0 (world silence [])
      (omega arith)

abbrev then_destroy : Stop CallbackReturn × World ℤ ToyPort → Stop (Unit {0}) × World ℤ ToyPort
then_destroy r = continue_with r (λ result. destroy ℤ toy_serial)

destroy-closed_example :
    ((then_destroy (on_cleanup ℤ toy_serial (world [] []))).0 ≡ raises system_error)
    × ((then_destroy (on_shutdown ℤ toy_serial (world [] []))).0 ≡ raises system_error)
    × ((then_destroy (on_deactivate ℤ toy_serial (world [] []))).0 ≡ raises system_error)
    × ((then_destroy (on_error ℤ toy_serial (world [] []))).0 ≡ raises system_error)
destroy-closed_example = destroy-closed ℤ toy_serial toy_laws (world [] []) refl

arm-no_line_example :
    (q : ToyPort) × (arm ℤ toy_serial (world [] (received [] ∷ []))
      ≡ (returns success, record (world [] []) { port = q; self = turned_offsets robot }))
    × (q.sent ≡ [] ++ arming ℤ toy_serial toy_laws robot)
arm-no_line_example =
    arm-no_line ℤ toy_serial toy_laws (world [] (received [] ∷ [])) [] [] refl tt (omega arith) refl

-- The offset of the reversed wheel is negated by it.
reverse_offsets-robot : (reverse_offsets robot).right_wheel_offset ≡ negsuc 6
unfolding reverse_offsets neg32 neg
reverse_offsets-robot = refl

-- A position of 2^31.
abbrev wrong_reply : Bytes
wrong_reply = wrong_line 1 (bytes "0") (bytes "2147483648") (bytes "0") ++ b'\n' ∷ []

arm-out_of_range_example :
    (q : ToyPort) × (catch_runtime ℤ toy_serial
        (arm ℤ toy_serial (world [] (received wrong_reply ∷ [])))
      ≡ (raises out_of_range, record (world [] []) { port = q }))
    × (q.opened ≡ true)
unfolding stoi skip_space span_digits digit_value from_digits
arm-out_of_range_example =
    arm-out_of_range ℤ toy_serial toy_laws (world [] (received wrong_reply ∷ [])) (bytes "0")
      (bytes "2147483648") (bytes "0") [] refl (omega arith) (omega arith) (omega arith)
      (omega arith) (omega arith) (omega arith) (omega arith) (omega arith) (omega arith) refl refl
