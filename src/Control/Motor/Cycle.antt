-- ===== src/Control/Motor/Cycle.antt =====
-- `read` over a whole call: reports in, motor state out.
use tuw_spike.Base.{
  ℕ, ◌<◌, ◌≡◌, refl, ap, ◌∙◌, Bool, true, false, not, Bool-cases, inl, inr, if◌then◌else◌, List, [],
  ◌∷◌, ◌++◌, length, drop, All, set, get_or,
}
use tuw_spike.Base.Int.{ℤ, pos, eqb_ℤ}
use tuw_spike.Base.Words.{int32_max, neg32, sub32, abs32}
use tuw_spike.Base.Text.{Bytes}
use tuw_spike.Base.Result.{done}
use tuw_spike.Control.Status.{
  process, Chunk, received, buffer_size, fresh_buffer, overwrite, ended, read_loop,
}
use tuw_spike.Control.Status.Process.{
  NoNewline, process-partial, read_loop-short, read_loop-full, drop-NoNewline,
  fresh_buffer-NoNewline, length-fresh_buffer,
}
use tuw_spike.Control.Machine.{Real, Interface, World, returns}
use tuw_spike.Control.Motor.{
  Readings, nothing_read, read_fields, apply_reverse, store_left, store_right, finish_read, read,
}
use tuw_spike.Control.Motor.Reports.{Report, IsReport, render_all, note_all, process-render_all}

-- Reports at the front of the buffer, and no newline behind them.
process-reports :
    (left right : ℕ) (rs : List Report) (tail : Bytes) (s : Readings)
    → left < 10
    → right < 10
    → All IsReport rs
    → NoNewline tail
    → process (read_fields left right) [] (render_all rs ++ tail) s
      ≡ done (note_all left right rs s)
process-reports left right rs tail s hl hr h t =
    process-render_all left right hl hr rs tail s h
    ∙ process-partial (read_fields left right) [] tail (note_all left right rs s) t

loop-reports :
    (left right : ℕ) (rs : List Report) (more : List Chunk)
    → left < 10
    → right < 10
    → All IsReport rs
    → length (render_all rs) < buffer_size
    → read_loop (read_fields left right) (received (render_all rs) ∷ more) fresh_buffer nothing_read
      ≡ ended (done (note_all left right rs nothing_read)) more
loop-reports left right rs more hl hr h short =
    read_loop-short (read_fields left right) (render_all rs) fresh_buffer more nothing_read
      (note_all left right rs nothing_read) short
      (process-reports left right rs _ nothing_read hl hr h
        (drop-NoNewline (length (render_all rs)) fresh_buffer fresh_buffer-NoNewline))

-- A value of a wheel, negated if the wheel is reversed.
abbrev pub turned : Bool → ℤ → ℤ
turned true z = neg32 z
turned false z = z

module _ (real : Real) where
  open real use {R, of_int, mul, div, pi}

  -- A vector whose element `i` is `v`, if there is something new.
  abbrev placed : Bool → ℕ → R → List R → List R
  placed new i v xs = if new then set xs i v else xs

  -- Whether a wheel has reported: its speed, turned, is neither INT32_MAX nor its negative.
  abbrev heard : ℤ → Bool
  heard speed = not (eqb_ℤ (abs32 speed) int32_max)

  -- 33 units of the HAT are a turn in a second, and a position is in degrees from the offset.
  abbrev speed_in_radians : ℤ → R
  speed_in_radians z = div (mul (mul (of_int (pos 2)) pi) (of_int z)) (of_int (pos 33))

  abbrev angle_in_radians : ℤ → R
  angle_in_radians z = mul (div (mul (of_int (pos 1)) (of_int z)) (of_int (pos 180))) pi

  -- The motor state for the last values of both wheels, each negated if its wheel is reversed.
  abbrev motor_state : Interface R → ℤ → ℤ → ℤ → ℤ → Interface R
  motor_state s left_speed left_apos right_speed right_apos = record s {
    state_motor_velocity =
        placed (heard right_speed) 1 (speed_in_radians right_speed)
          (placed (heard left_speed) 0 (speed_in_radians left_speed) s.state_motor_velocity);
    state_motor_position =
        placed (heard right_speed) 1 (angle_in_radians (sub32 right_apos s.right_wheel_offset)) (
          placed (heard left_speed) 0 (angle_in_radians (sub32 left_apos s.left_wheel_offset))
            s.state_motor_position);
  }

  abbrev pub updated : Interface R → Readings → Interface R
  updated s r =
      let left = get_or s.reverse 0 false in
      let right = get_or s.reverse 1 false in
      motor_state s (turned left r.left_speed) (turned left r.left_apos)
        (turned right r.right_speed) (turned right r.right_apos)

  apply_reverse-turned :
      (rev : List Bool) (r : Readings)
      → apply_reverse rev r ≡ record {
        left_speed = turned (get_or rev 0 false) r.left_speed;
        left_apos = turned (get_or rev 0 false) r.left_apos;
        right_speed = turned (get_or rev 1 false) r.right_speed;
        right_apos = turned (get_or rev 1 false) r.right_apos;
      }
  unfolding apply_reverse
  apply_reverse-turned rev r = elim (Bool-cases (get_or rev 0 false)) [
    | inl e ↦ elim (Bool-cases (get_or rev 1 false)) [
      | inl f ↦ rw (e, f) refl
      | inr f ↦ rw (e, f) refl
    ]
    | inr e ↦ elim (Bool-cases (get_or rev 1 false)) [
      | inl f ↦ rw (e, f) refl
      | inr f ↦ rw (e, f) refl
    ]
  ]

  store-motor_state :
      (r : Readings) (s : Interface R)
      → store_right real r (store_left real r s)
        ≡ motor_state s r.left_speed r.left_apos r.right_speed r.right_apos
  unfolding store_left store_right
  store-motor_state r s = elim (Bool-cases (heard r.left_speed)) [
    | inl e ↦ elim (Bool-cases (heard r.right_speed)) [
      | inl f ↦ rw (e, f) refl
      | inr f ↦ rw (e, f) refl
    ]
    | inr e ↦ elim (Bool-cases (heard r.right_speed)) [
      | inl f ↦ rw (e, f) refl
      | inr f ↦ rw (e, f) refl
    ]
  ]

  -- What `read` stores at its end.
  stored-updated :
      (s : Interface R) (r : Readings)
      → store_right real (apply_reverse s.reverse r) (store_left real (apply_reverse s.reverse r) s)
        ≡ updated s r
  stored-updated s r =
      ap (λ x. store_right real x (store_left real x s)) (apply_reverse-turned s.reverse r)
      ∙ store-motor_state _ s

  -- Where what has arrived is a run of whole reports that does not fill the buffer, `read` returns,
  -- takes that one chunk, and sets velocity and position of each wheel that has reported, the left
  -- one at index 0 and the right one at index 1, from its last report: both values are negated for a
  -- reversed wheel, the offset is subtracted from the position modulo 2^32, and both are converted
  -- to radians. A wheel whose last speed is INT32_MAX or its negative keeps its values. Nothing else
  -- changes.
  pub read-reports :
      {Port : Type 0} (w : World R Port) (rs : List Report) (more : List Chunk)
      → w.self.left_wheel_port < 10
      → w.self.right_wheel_port < 10
      → All IsReport rs
      → length (render_all rs) < buffer_size
      → w.incoming ≡ received (render_all rs) ∷ more
      → read real w ≡ (
        returns tt,
        record w {
          incoming = more;
          self =
              updated w.self
                (note_all w.self.left_wheel_port w.self.right_wheel_port rs nothing_read);
        },
      )
  unfolding read finish_read
  read-reports w rs more hl hr h short e = rw (
    e,
    loop-reports w.self.left_wheel_port w.self.right_wheel_port rs more hl hr h short,
    finish_read,
    stored-updated,
  )

  -- Where a full buffer `x` is followed by fewer bytes, `new`, the loop handles the old bytes behind
  -- the new ones once more. So if the rest of `x` from there on holds whole reports, `old`, these
  -- count after the newer ones.
  pub read-stale :
      {Port : Type 0} (w : World R Port) (x tail : Bytes) (new old : List Report) (r : Readings)
      (more : List Chunk)
      → w.self.left_wheel_port < 10
      → w.self.right_wheel_port < 10
      → All IsReport new
      → All IsReport old
      → NoNewline tail
      → length x ≡ buffer_size
      → length (render_all new) < buffer_size
      → drop (length (render_all new)) x ≡ render_all old ++ tail
      → process (read_fields w.self.left_wheel_port w.self.right_wheel_port) [] x nothing_read
        ≡ done r
      → w.incoming ≡ received x ∷ received (render_all new) ∷ more
      → read real w ≡ (
        returns tt,
        record w {
          incoming = more;
          self = updated w.self (
              note_all w.self.left_wheel_port w.self.right_wheel_port old
                (note_all w.self.left_wheel_port w.self.right_wheel_port new r));
        },
      )
  unfolding read finish_read
  read-stale w x tail new old r more hl hr hn ho ht full short behind first e =
      rw (e, loop, finish_read, stored-updated)
    where
      open w.self use {left_wheel_port as left, right_wheel_port as right}

      second :
          process (read_fields left right) [] (overwrite (render_all new) x) r
          ≡ done (note_all left right old (note_all left right new r))
      second =
          ap (λ (t : Bytes). process (read_fields left right) [] (render_all new ++ t) r) behind
          ∙ process-render_all left right hl hr new (render_all old ++ tail) r hn
          ∙ process-reports left right old tail (note_all left right new r) hl hr ho ht

      loop :
          read_loop
            (read_fields left right)
            (received x ∷ received (render_all new) ∷ more)
            fresh_buffer
            nothing_read
          ≡ ended (done (note_all left right old (note_all left right new r))) more
      loop =
          read_loop-full (read_fields left right) x fresh_buffer (received (render_all new) ∷ more)
            nothing_read r full length-fresh_buffer first
          ∙ read_loop-short (read_fields left right) (render_all new) x more r
              (note_all left right old (note_all left right new r)) short second
