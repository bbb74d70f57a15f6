-- ===== src/Control/Firmware.antt =====
-- `getPrompt`, `readBinaryFile` and `loadFirmware` of
-- tuw_spike_control/src/tuw_spike_control_interface.cpp. Waits (`sleep_for`) and logging are left out.
pub mod Upload
use tuw_spike.Base.{
  ℕ, ◌≡◌, Bool, true, false, List, [], ◌∷◌, ◌++◌, Option, none, some, if◌then◌else◌, length,
}
use tuw_spike.Base.Text.{Bytes, bytes}
use tuw_spike.Base.Result.{Exception, system_error}
use tuw_spike.Base.Decimal.{to_string}
use tuw_spike.Control.Checksum.{checksum}
use tuw_spike.Control.Machine.{
  Serial, World, Reply, Stop, returns, raises, waiting, M, continue_with, ◌>>=◌, ◌>>◌, return,
  raise, on_port, read_line_from, contains,
}

-- The two files of the package's `firmware` directory; `none` if a file is not there.
pub record Files : Type 0 where
  pub firmware : Option Bytes
  pub signature : Option Bytes

-- `readBinaryFile`: a stream that cannot be opened yields nothing.
abbrev pub read_binary_file : Option Bytes → Bytes
read_binary_file none = []
read_binary_file (some bs) = bs

-- `std::filesystem::file_size` throws `filesystem_error`, a `system_error`, for a missing file.
abbrev pub file_size : {W : Type 0} → Option Bytes → M W ℕ
file_size none = raise system_error
file_size (some bs) = return (length bs)

-- "\r", and "\x02" and "\x03", which frame an upload.
abbrev pub cr : Bytes
cr = 13 ∷ []

abbrev pub stx : Bytes
stx = 2 ∷ []

abbrev pub etx_cr : Bytes
etx_cr = 3 ∷ 13 ∷ []

module _ {R Port : Type 0} where
  -- The loop of `getPrompt`: a round reads a line, and takes one reply for it.
  unfoldable pub prompt_loop : List Reply → M (World R Port) (Unit {0})
  prompt_loop [] w = (waiting, w)
  prompt_loop (r ∷ more) w =
      continue_with (read_line_from (r ∷ more) w)
        (λ line w'. if contains (bytes "BHBL>") line then (returns tt, w') else prompt_loop more w')

  unfoldable pub get_prompt : M (World R Port) (Unit {0})
  get_prompt w = prompt_loop w.replies w

module _ (R : Type 0) (serial : Serial) where
  abbrev pub send : Bytes → M (World R serial.Port) (Unit {0})
  send m = on_port (serial.write m)

  abbrev pub load_command : Bytes → ℕ → Bytes
  load_command firmware size =
      bytes "load " ++ (to_string size ++ (bytes " " ++ (to_string (checksum firmware) ++ cr)))

  abbrev pub signature_command : ℕ → Bytes
  signature_command size = bytes "signature " ++ (to_string size ++ cr)

  -- An upload: the command, the framed bytes, and the prompt after them.
  unfoldable pub upload : Bytes → Bytes → M (World R serial.Port) (Unit {0})
  upload command image = do send command; send stx; send image; send etx_cr; get_prompt

  unfoldable pub load_firmware : Files → M (World R serial.Port) (Unit {0})
  load_firmware files = do
    send (bytes "clear" ++ cr)
    get_prompt
    size ← file_size files.firmware
    upload (load_command (read_binary_file files.firmware) size) (read_binary_file files.firmware)
    signature_size ← file_size files.signature
    upload (signature_command signature_size) (read_binary_file files.signature)
    send (bytes "reboot" ++ cr)
