-- ===== src/Control/Lifecycle/Offsets.antt =====
-- What `on_configure` makes of the wheel offsets, behind the detection.
use tuw_spike.Base.{
  ℕ, ◌<◌, ◌+◌, ◌≤◌, ◌^◌, ◌≡◌, ◌≢◌, ap, ◌∙◌, List, [], ◌∷◌, ◌++◌, append_assoc, length, take,
  All-append, leb, true, false, refl, get_or, Bool-cases, inl, inr, arith, some,
}
use tuw_spike.Base.Text.{Bytes, bytes, bytes_eq_refl}
use tuw_spike.Base.Result.{out_of_range, throws, Outcome, done, failed, and_then}
use tuw_spike.Control.Status.{
  fields, line_complete, process, Chunk, received, buffer_size, fresh_buffer, overwrite, ended,
  read_loop, stoi, stoi_into,
}
use tuw_spike.Control.Status.Lines.{NoSpace, status_line, fields-status_line}
use tuw_spike.Control.Status.Process.{
  NoNewline, process-line, process-partial, read_loop-short, read_loop-failed, drop-NoNewline,
  fresh_buffer-NoNewline,
}
use tuw_spike.Control.Machine.{Serial, PortLaws, Interface, World, returns, raises}
use tuw_spike.Control.Motor.{success, port_string}
use tuw_spike.Control.Motor.Cycle.{turned}
use tuw_spike.Control.Motor.Reports.{
  port_word-Lines, port_word-length, port_word-take, length-status_line-ge,
}
use tuw_spike.Control.Firmware.{cr}
use tuw_spike.Control.Lifecycle.{
  offset_fields, finish_offsets, read_offsets, reverse_offsets, arm, left_setup, right_setup,
  catch_runtime,
}

process-no_line :
    {R : Type 0} (left right : ℕ) (part : Bytes) (s : Interface R)
    → NoNewline part
    → process (offset_fields left right) [] (overwrite part fresh_buffer) s ≡ done s
process-no_line {R} left right part s h =
    process-partial (offset_fields left right) [] (overwrite part fresh_buffer) s (
      All-append (λ c. c ≢ b'\n') part _ h
        (drop-NoNewline (length part) fresh_buffer fresh_buffer-NoNewline))

-- A status line of the port.
abbrev pub wrong_line : ℕ → Bytes → Bytes → Bytes → Bytes
wrong_line left speed apos rest = status_line (port_string left ++ b':' ∷ []) speed apos rest

-- Such a line of the left wheel with a position out of range.
module _ (left right : ℕ) (speed apos rest : Bytes) (digit : left < 10) (ss : NoSpace speed)
    (sa : NoSpace apos) (ns : NoNewline speed) (na : NoNewline apos) (nr : NoNewline rest)
    (ls : 1 ≤ length speed) (la : 1 ≤ length apos) (short : length speed + length apos < 2 ^ 32)
    (wrong : stoi apos ≡ throws out_of_range) where
  wrong_line-NoNewline : NoNewline (wrong_line left speed apos rest)
  wrong_line-NoNewline =
      glue (port_string left ++ b':' ∷ []) _ (port_word-Lines left digit).1
        (glue speed _ ns (glue apos _ na nr))
    where
      glue : (xs ys : Bytes) → NoNewline xs → NoNewline ys → NoNewline (xs ++ b' ' ∷ ys)
      glue xs ys hx hy = All-append (λ c. c ≢ b'\n') xs (b' ' ∷ ys) hx (omega arith, hy)

  wrong_fields :
      fields (wrong_line left speed apos rest)
      ≡ some (record { port = take 4 (port_string left ++ b':' ∷ []); speed = speed; apos = apos })
  wrong_fields =
      fields-status_line (port_string left ++ b':' ∷ []) speed apos rest
        (port_word-Lines left digit).0 ss sa (omega (arith, port_word-length left digit)) ls la
        (omega (arith, port_word-length left digit))

  handler_throws :
      {R : Type 0} (s : Interface R)
      → offset_fields left right
          (record { port = take 4 (port_string left ++ b':' ∷ []); speed = speed; apos = apos })
          s
        ≡ failed out_of_range s
  unfolding offset_fields stoi_into
  handler_throws s =
      ground (arith, wrong, port_word-take left digit, bytes_eq_refl (port_string left))

  line_throws :
      {R : Type 0} (s : Interface R)
      → line_complete (offset_fields left right) (wrong_line left speed apos rest) s
        ≡ failed out_of_range s
  unfolding line_complete
  line_throws s = rw (long, wrong_fields, line_complete) (handler_throws s)
    where
      long : leb 5 (length (wrong_line left speed apos rest)) ≡ true
      long = ground (
        arith,
        port_word-length left digit,
        length-status_line-ge (port_string left ++ b':' ∷ []) speed apos rest,
      )

  process-out_of_range :
      {R : Type 0} (tail : Bytes) (s : Interface R)
      → process
          (offset_fields left right)
          []
          (((wrong_line left speed apos rest) ++ b'\n' ∷ []) ++ tail)
          s
        ≡ failed out_of_range s
  process-out_of_range {R} tail s =
      ap (λ (t : Bytes). process (offset_fields left right) [] t s)
        (append_assoc (wrong_line left speed apos rest) (b'\n' ∷ []) tail)
      ∙ process-line (offset_fields left right) [] (wrong_line left speed apos rest) tail s
          wrong_line-NoNewline
      ∙ ap
          (λ (t : Outcome (Interface R)).
            and_then t (λ s'. process (offset_fields left right) [] tail s'))
          (line_throws s)

-- The members with both offsets turned, each by its own flag.
abbrev pub turned_offsets : {R : Type 0} → Interface R → Interface R
turned_offsets s = record s {
  left_wheel_offset = turned (get_or s.reverse 0 false) s.left_wheel_offset;
  right_wheel_offset = turned (get_or s.reverse 1 false) s.right_wheel_offset;
}

reverse_offsets-turned : {R : Type 0} (s : Interface R) → reverse_offsets s ≡ turned_offsets s
unfolding reverse_offsets
reverse_offsets-turned s = elim (Bool-cases (get_or s.reverse 0 false)) [
  | inl e ↦ elim (Bool-cases (get_or s.reverse 1 false)) [
    | inl f ↦ rw (e, f) refl
    | inr f ↦ rw (e, f) refl
  ]
  | inr e ↦ elim (Bool-cases (get_or s.reverse 1 false)) [
    | inl f ↦ rw (e, f) refl
    | inr f ↦ rw (e, f) refl
  ]
]

module _ (R : Type 0) (serial : Serial) (laws : PortLaws serial) where
  open laws use {is_open, log, write_open}

  -- What is sent before the offsets are read.
  abbrev pub arming : Interface R → List Bytes
  arming s =
      (bytes "echo 0;" ++ cr) ∷ left_setup s.left_wheel_port ∷ right_setup s.right_wheel_port ∷ []

  -- Where no complete line has arrived when the port is armed, the three commands are sent, and the
  -- offset of each reversed wheel, as it was before, is negated; the other members stay as they are.
  pub arm-no_line :
      (w : World R serial.Port) (part : Bytes) (more : List Chunk)
      → is_open w.port ≡ true
      → NoNewline part
      → length part < buffer_size
      → w.incoming ≡ received part ∷ more
      → (q : serial.Port) × (arm R serial w
          ≡ (returns success, record w { port = q; incoming = more; self = turned_offsets w.self }))
        × (log q ≡ log w.port ++ arming w.self)
  unfolding arm read_offsets finish_offsets
  arm-no_line w part more open_ h short e =
      let (p1, s1, o1, l1) = write_open (bytes "echo 0;" ++ cr) w.port open_ in
      let (p2, s2, o2, l2) = write_open (left_setup w.self.left_wheel_port) p1 o1 in
      let (p3, s3, o3, l3) = write_open (right_setup w.self.right_wheel_port) p2 o2 in
      let loop =
        read_loop-short (offset_fields w.self.left_wheel_port w.self.right_wheel_port) part
          fresh_buffer more w.self w.self short
          (process-no_line w.self.left_wheel_port w.self.right_wheel_port part w.self h) in
      (
        p3,
        rw (s1, s2, s3, e, loop, finish_offsets, reverse_offsets-turned w.self),
        simp (l3, l2, l1, append_assoc),
      )

  -- A status line of the left wheel whose position is a number beyond the range of `int` ends the
  -- configuration by a `std::out_of_range` that no handler of `on_configure` takes, with the port
  -- still open; the text need not be long for that.
  pub arm-out_of_range :
      (w : World R serial.Port) (speed apos rest : Bytes) (more : List Chunk)
      → is_open w.port ≡ true
      → w.self.left_wheel_port < 10
      → NoSpace speed
      → NoSpace apos
      → NoNewline speed
      → NoNewline apos
      → NoNewline rest
      → 1 ≤ length speed
      → 1 ≤ length apos
      → length speed + length apos < 2 ^ 32
      → stoi apos ≡ throws out_of_range
      → w.incoming
        ≡ received (
            status_line (port_string w.self.left_wheel_port ++ b':' ∷ []) speed apos rest
            ++ b'\n' ∷ [])
          ∷ more
      → (q : serial.Port) × (catch_runtime R serial (arm R serial w)
          ≡ (raises out_of_range, record w { port = q; incoming = more }))
        × (is_open q ≡ true)
  unfolding arm read_offsets finish_offsets
  arm-out_of_range w speed apos rest more open_ digit ss sa ns na nr ls la short wrong e =
      let (p1, s1, o1, l1) = write_open (bytes "echo 0;" ++ cr) w.port open_ in
      let (p2, s2, o2, l2) = write_open (left_setup w.self.left_wheel_port) p1 o1 in
      let (p3, s3, o3, l3) = write_open (right_setup w.self.right_wheel_port) p2 o2 in
      (p3, rw (s1, s2, s3, e, loop, finish_offsets), o3)
    where
      open w.self use {left_wheel_port as left, right_wheel_port as right}

      loop :
          read_loop
            (offset_fields left right)
            (received (status_line (port_string left ++ b':' ∷ []) speed apos rest ++ b'\n' ∷ [])
              ∷ more)
            fresh_buffer
            w.self
          ≡ ended (failed out_of_range w.self) more
      loop =
          read_loop-failed (offset_fields left right) _ fresh_buffer more w.self w.self out_of_range
            (process-out_of_range left right speed apos rest digit ss sa ns na nr ls la short wrong
              _ w.self)
