-- ===== src/Control/Machine.antt =====
-- What the hardware interface of tuw_spike_control works on: the members of
-- `TuwSpikeSystemInterface`, the global serial port with its streambuf, and the calls that block.
use tuw_spike.Base.{ℕ, ◌≡◌, ◌++◌, ◌&&◌, ◌||◌, Bool, true, false, List, [], ◌∷◌, ◌==◌}
use tuw_spike.Base.Int.{ℤ}
use tuw_spike.Base.Text.{Bytes}
use tuw_spike.Base.Result.{Exception, system_error, Result, ok, throws}
use tuw_spike.Control.Status.{Chunk}

-- `double` with the operations that the sources use, left abstract: nothing is assumed of them.
pub record Real : Type 1 where
  pub R : Type 0
  pub of_int : ℤ → R
  pub neg : R → R
  pub add : R → R → R
  pub sub : R → R → R
  pub mul : R → R → R
  pub div : R → R → R
  -- M_PI
  pub pi : R
  -- `std::to_string(double)`
  pub to_string : R → Bytes

-- The calls of Boost.Asio on the serial port: `open`, the baud rate by `set_option`,
-- `boost::asio::write` and `close`. Each throws, or gives the port afterwards.
pub record Serial : Type 1 where
  pub Port : Type 0
  pub open_port : Bytes → Port → Result Port
  pub set_baud_rate : ℕ → Port → Result Port
  pub write : Bytes → Port → Result Port
  pub close : Port → Result Port

-- The members of `TuwSpikeSystemInterface`.
pub record Interface (R : Type 0) : Type 0 where
  pub state_motor_position : List R
  pub state_motor_velocity : List R
  pub command_motor_velocity : List R
  pub reverse : List Bool
  pub left_wheel_port : ℕ
  pub right_wheel_port : ℕ
  pub left_wheel_offset : ℤ
  pub right_wheel_offset : ℤ

-- One return of `boost::asio::read_until`: the bytes that it adds to the streambuf, or its throw.
pub data Reply : Type 0 where
  delivered : Bytes → Reply
  broken : Reply

-- The object, the globals, and what the port will deliver, which the environment chooses.
pub record World (R Port : Type 0) : Type 0 where
  pub self : Interface R
  pub port : Port
  pub streambuf : Bytes
  pub replies : List Reply
  pub incoming : List Chunk

-- How a call ends: it returns, it throws, or it waits for input that does not come.
pub data Stop (A : Type 0) : Type 0 where
  returns : A → Stop A
  raises : Exception → Stop A
  waiting : Stop A

-- What a call does to the world holds also where it throws.
abbrev pub M : Type 0 → Type 0 → Type 0
M W A = W → Stop A × W

abbrev pub continue_with : {W A B : Type 0} → Stop A × W → (A → M W B) → Stop B × W
continue_with (returns a, w) f = f a w
continue_with (raises e, w) f = (raises e, w)
continue_with (waiting, w) f = (waiting, w)

infixl 5 ◌>>=◌ ◌>>◌
abbrev pub ◌>>=◌ : {W A B : Type 0} → M W A → (A → M W B) → M W B
◌>>=◌ m f w = continue_with (m w) f

abbrev pub ◌>>◌ : {W B : Type 0} → M W (Unit {0}) → M W B → M W B
m >> k = m >>= λ _. k

abbrev pub return : {W A : Type 0} → A → M W A
return a w = (returns a, w)

abbrev pub raise : {W A : Type 0} → Exception → M W A
raise e w = (raises e, w)

-- A call on the port.
abbrev pub set_port : {R Port : Type 0} → Result Port → M (World R Port) (Unit {0})
set_port (ok p) w = (returns tt, record w { port = p })
set_port (throws e) w = (raises e, w)

abbrev pub on_port : {R Port : Type 0} → (Port → Result Port) → M (World R Port) (Unit {0})
on_port f w = set_port (f w.port) w

-- `std::getline`: what stands before the first newline, and what stays in the stream behind it.
unfoldable pub getline : Bytes → Bytes × Bytes
getline [] = ([], [])
getline (c ∷ cs) =
    let (line, rest) = getline cs in
    elim (c == b'\n') [ true ↦ ([], cs) | false ↦ (c ∷ line, rest) ]

-- `serialReadLine`
unfoldable pub read_line_from : {R Port : Type 0} → List Reply → M (World R Port) Bytes
read_line_from [] w = (waiting, w)
read_line_from (broken ∷ more) w = (raises system_error, record w { replies = more })
read_line_from (delivered bs ∷ more) w =
    let (line, rest) = getline (w.streambuf ++ bs) in
    (returns line, record w { replies = more; streambuf = rest })

unfoldable pub serial_read_line : {R Port : Type 0} → M (World R Port) Bytes
serial_read_line w = read_line_from w.replies w

-- Documented behaviour of the port that theorems ask for: writing, setting an option and closing
-- work on an open port, a write sends the bytes, and a write on a closed port throws
-- `boost::system::system_error`.
pub record PortLaws (serial : Serial) : Type 0 where
  pub is_open : serial.Port → Bool
  pub log : serial.Port → List Bytes
  pub write_open :
      (m : Bytes) (p : serial.Port)
      → is_open p ≡ true
      → (q : serial.Port) × (serial.write m p ≡ ok q)
        × (is_open q ≡ true)
        × (log q ≡ log p ++ m ∷ [])
  pub write_closed :
      (m : Bytes) (p : serial.Port) → is_open p ≡ false → serial.write m p ≡ throws system_error
  pub close_open :
      (p : serial.Port)
      → is_open p ≡ true
      → (q : serial.Port) × (serial.close p ≡ ok q) × (is_open q ≡ false) × (log q ≡ log p)

-- Whether a text occurs in another: `line.find(text) != std::string::npos`.
abbrev pub starts_with : Bytes → Bytes → Bool
starts_with [] line = true
starts_with (c ∷ text) [] = false
starts_with (c ∷ text) (d ∷ line) = (c == d) && starts_with text line

unfoldable pub contains : Bytes → Bytes → Bool
contains text [] = starts_with text []
contains text (c ∷ line) = starts_with text (c ∷ line) || contains text line
