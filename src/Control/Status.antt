-- ===== src/Control/Status.antt =====
-- The status lines of the Build HAT, as `read` and `on_configure` of
-- tuw_spike_control/src/tuw_spike_control_interface.cpp take them out of the serial buffer.
mod Stoi
pub mod Lines
pub mod Process
use tuw_spike.Base.{
  ℕ, zero, suc, ◌+◌, ◌-◌, ◌%◌, ◌^◌, ◌≡◌, Bool, true, false, not, ◌&&◌, List, [], ◌∷◌, ◌++◌, Option,
  none, some, ltb, leb, ◌==◌, if◌then◌else◌, take, drop, length, replicate,
}
use tuw_spike.Base.Int.{ℤ}
use tuw_spike.Base.Text.{Bytes, bytes, bytes_eq}
use tuw_spike.Base.Result.{
  Exception, invalid_argument, Result, ok, throws, Outcome, done, failed, and_then,
}
unfoldable pub use Stoi.*

abbrev pub npos : ℕ
npos = 2 ^ 64 - 1

-- `size_t` arithmetic.
abbrev pub add_size : ℕ → ℕ → ℕ
add_size a b = (a + b) % 2 ^ 64

abbrev pub sub_size : ℕ → ℕ → ℕ
sub_size a b = (a + 2 ^ 64 - b) % 2 ^ 64

-- `find` over what stands from index `i` on: the first `c` at `pos` or later.
unfoldable pub find_from : ℕ → ℕ → Bytes → ℕ → ℕ
find_from c i [] pos = npos
find_from c i (x ∷ xs) pos = if leb pos i && x == c then i else find_from c (i + 1) xs pos

-- `std::string::find`
abbrev pub find : ℕ → Bytes → ℕ → ℕ
find c s pos = find_from c 0 s pos

-- `std::string::substr` at a position inside the text.
abbrev pub substr : Bytes → ℕ → ℕ → Bytes
substr s pos n = take n (drop pos s)

pub record Fields : Type 0 where
  pub port : Bytes
  pub speed : Bytes
  pub apos : Bytes

-- The parts of a line, if all three spaces were found.
unfoldable pub cut : Bytes → ℕ → ℕ → ℕ → Option Fields
cut current first second third =
    if not (first == npos) && not (second == npos) && not (third == npos)
    then some (record {
      port = substr current 0 4;
      speed = substr current (add_size first 1) (sub_size (sub_size second first) 1);
      apos = substr current (add_size second 1) (sub_size (sub_size third second) 1);
    })
    else none

-- The search for the spaces.
unfoldable pub fields : Bytes → Option Fields
fields current =
    let first = find b' ' current 0 in
    let second = find b' ' current (add_size first 2) in
    let third = find b' ' current (add_size second 2) in cut current first second third

-- What is done with a line, over the variables that it may set.
abbrev pub Handler : Type 0 → Type 0
Handler S = Fields → S → Outcome S

module _ {S : Type 0} (handler : Handler S) where
  -- A complete line.
  unfoldable pub line_complete : Bytes → S → Outcome S
  line_complete current s =
      if leb 5 (length current)
      then elim (fields current) [ none ↦ done s | some f ↦ handler f s ]
      else done s

  -- `for (char c : buffer)`, with the characters read so far of the line.
  unfoldable pub process : Bytes → Bytes → S → Outcome S
  process current [] s = done s
  process current (c ∷ cs) s = elim (c == b'\n') [
    | true ↦ and_then (line_complete current s) (λ s'. process [] cs s')
    | false ↦ process (current ++ c ∷ []) cs s
  ]

-- One return of `serial.read_some`: the bytes written to the front of the buffer, or an error,
-- with which it returns 0.
pub data Chunk : Type 0 where
  received : Bytes → Chunk
  read_error : Chunk

abbrev pub buffer_size : ℕ
buffer_size = 128

-- `std::vector<char> buffer(128)`
unfoldable pub fresh_buffer : Bytes
fresh_buffer = replicate buffer_size 0

-- The buffer after the bytes were written to its front.
abbrev pub overwrite : Bytes → Bytes → Bytes
overwrite bs buffer = bs ++ drop (length bs) buffer

-- How the loop ends: with what is left to read, or waiting in `read_some` for more.
pub data Ended (S : Type 0) : Type 0 where
  ended : Outcome S → List Chunk → Ended S
  waits : S → Ended S

module _ {S : Type 0} (handler : Handler S) where
  -- `while (bytes_read == 128)`; the whole buffer is processed on every round.
  unfoldable pub read_loop : List Chunk → Bytes → S → Ended S
  read_loop [] buffer s = waits s
  read_loop (read_error ∷ chunks) buffer s = ended (done s) chunks
  read_loop (received bs ∷ chunks) buffer s = elim (process handler [] (overwrite bs buffer) s) [
    | failed e s' ↦ ended (failed e s') chunks
    | done s' ↦ elim (length bs == buffer_size) [
      | true ↦ read_loop chunks (overwrite bs buffer) s'
      | false ↦ ended (done s') chunks
    ]
  ]
