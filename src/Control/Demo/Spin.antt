-- ===== src/Control/Demo/Spin.antt =====
-- What the demo sends to the motors.
use tuw_spike.Base.{
  ℕ, zero, suc, ◌≤◌, ◌≡◌, refl, sym, ap, ◌∙◌, true, false, List, [], ◌∷◌, ◌++◌, arith, length,
  length-set, replicate, set, append_assoc, append-nil,
}
use tuw_spike.Base.Int.{pos}
use tuw_spike.Base.Text.{Bytes}
use tuw_spike.Control.Machine.{
  Real, Serial, PortLaws, Interface, World, Stop, returns, M, continue_with, ◌>>◌, return,
}
use tuw_spike.Control.Motor.{success, message, write, set_command, zero_real}
use tuw_spike.Control.Motor.Setup.{IsReady}
use tuw_spike.Control.Lifecycle.{end_message, on_cleanup, on_deactivate, destroy}
use tuw_spike.Control.Lifecycle.Closing.{on_cleanup-open}
use tuw_spike.Control.DiffDrive.Drive.{found_wheels, two_set, drive_message}
use tuw_spike.Control.Demo.{command, target_velocity, spin, exit_code, drive}

module _ (real : Real) (serial : Serial) (laws : PortLaws serial) where
  open real use {R, of_int}
  open laws use {is_open, log, write_open}

  -- Both commands set to one value.
  abbrev commanded : R → Interface R → Interface R
  commanded v s = record s { command_motor_velocity = set (set s.command_motor_velocity 0 v) 1 v }

  abbrev pub Sends : M (World R serial.Port) (Unit {0}) → World R serial.Port → List Bytes → Type 0
  Sends call w ms =
      (q : serial.Port) × (cs : List R) × (call w
        ≡ (returns tt, record w { self = record w.self { command_motor_velocity = cs }; port = q }))
      × (2 ≤ length cs)
      × (is_open q ≡ true)
      × (log q ≡ log w.port ++ ms)

  command-Sends :
      (v : R) (w : World R serial.Port)
      → 2 ≤ length w.self.command_motor_velocity
      → is_open w.port ≡ true
      → Sends (command real serial found_wheels v) w (drive_message real serial w.self v v ∷ [])
  unfolding write set_command message drive_message
  command-Sends v w r opened =
      let (first, second) = two_set w.self.command_motor_velocity v v (zero_real real) r in
      let (q, sent, still, logged) =
        write_open (drive_message real serial w.self v v) w.port opened in
      let size = length-set w.self.command_motor_velocity 0 v in
      let size2 = length-set (set w.self.command_motor_velocity 0 v) 1 v in
      (
        q,
        set (set w.self.command_motor_velocity 0 v) 1 v,
        rw (first, second, sent) refl,
        omega arith,
        still,
        logged,
      )

  then-Sends :
      (first next : M (World R serial.Port) (Unit {0})) (w : World R serial.Port)
      (ms ns : List Bytes)
      → Sends first w ms
      → ((q : serial.Port) (cs : List R)
          → 2 ≤ length cs
          → is_open q ≡ true
          → Sends next
              (record w { self = record w.self { command_motor_velocity = cs }; port = q })
              ns)
      → Sends (first >> next) w (ms ++ ns)
  then-Sends first next w ms ns s h =
      let (q, cs, ran, size, opened, logged) = s in
      let (q', cs', ran', size', opened', logged') = h q cs size opened in
      (
        q',
        cs',
        rw ran ran',
        size',
        opened',
        logged' ∙ ap (λ l. l ++ ns) logged ∙ append_assoc (log w.port) ms ns,
      )

  -- The message for 2 radians a second at both wheels, and for 0.
  abbrev pub spinning : Interface R → Bytes
  spinning s = drive_message real serial s (of_int (pos 2)) (of_int (pos 2))

  abbrev pub stopping : Interface R → Bytes
  stopping s = drive_message real serial s (of_int (pos 0)) (of_int (pos 0))

  reseal :
      (s : Interface R) (cs : List R) (l r : R)
      → drive_message real serial (record s { command_motor_velocity = cs }) l r
        ≡ drive_message real serial s l r
  unfolding drive_message
  reseal s cs l r = refl

  spin-Sends :
      (n : ℕ) (w : World R serial.Port)
      → 2 ≤ length w.self.command_motor_velocity
      → is_open w.port ≡ true
      → Sends (spin real serial n found_wheels) w (replicate n (spinning w.self))
  unfolding spin
  spin-Sends zero w r opened =
      (w.port, w.self.command_motor_velocity, refl, r, opened, sym (append-nil (log w.port)))
  spin-Sends (suc n) w r opened =
      let ih = spin-Sends n in
      then-Sends (command real serial found_wheels (target_velocity real serial))
        (spin real serial n found_wheels) w (spinning w.self ∷ []) (replicate n (spinning w.self))
        (command-Sends (target_velocity real serial) w r opened)
        (λ q cs size still.
          rw (sym (reseal w.self cs (target_velocity real serial) (target_velocity real serial))) (
            ih (record w { self = record w.self { command_motor_velocity = cs }; port = q }) size
              still))

  exit_code-returns :
      (m : Stop (Unit {0}) × World R serial.Port) (w : World R serial.Port)
      → m ≡ (returns tt, w)
      → exit_code real serial m ≡ (returns 0, w)
  exit_code-returns m w e = rw e refl

  destroy-returns :
      (code : ℕ) (w w' : World R serial.Port)
      → on_cleanup R serial w ≡ (returns success, w')
      → (destroy R serial >> return code) w ≡ (returns code, w')
  unfolding destroy on_deactivate
  destroy-returns code w w' e = rw e refl

  two_logs : (l m k ms ns : List Bytes) → m ≡ l ++ ms → k ≡ m ++ ns → k ≡ l ++ (ms ++ ns)
  two_logs l m k ms ns e f = f ∙ ap (λ x. x ++ ns) e ∙ append_assoc l ms ns

  destroyed :
      (m : Stop ℕ × World R serial.Port) (w w' : World R serial.Port)
      → m ≡ (returns 0, w)
      → on_cleanup R serial w ≡ (returns success, w')
      → continue_with m (λ code. destroy R serial >> return code) ≡ (returns 0, w')
  destroyed m w w' e f =
      ap (λ m. continue_with m (λ code. destroy R serial >> return code)) e
      ∙ destroy-returns 0 w w' f

  -- The demo on an open port, with ready members: the driving part exits with 0, and, with the
  -- destructor behind it, has sent the message that sets both motors to 2 rad/s 150 times, then once
  -- the one that sets both to 0, then the one that ends both motors; the port is closed.
  pub drive-transcript :
      (w : World R serial.Port)
      → IsReady w.self
      → is_open w.port ≡ true
      → (q : serial.Port) × (cs : List R) × (continue_with
            (drive real serial found_wheels w)
            (λ code. destroy R serial >> return code)
          ≡ (
            returns 0,
            record w { self = record w.self { command_motor_velocity = cs }; port = q },
          ))
        × (is_open q ≡ false)
        × (log q
            ≡ log w.port
              ++ ((replicate 150 (spinning w.self) ++ stopping w.self ∷ [])
                  ++ end_message w.self ∷ []))
  unfolding drive
  drive-transcript w r opened =
      let (q, cs, ran, size, still, logged) =
        then-Sends (spin real serial 150 found_wheels)
          (command real serial found_wheels (zero_real real)) w (replicate 150 (spinning w.self))
          (stopping w.self ∷ []) (spin-Sends 150 w r.command_both opened)
          (λ q cs size still. rw (sym (reseal w.self cs (zero_real real) (zero_real real))) (
            command-Sends (zero_real real)
              (record w { self = record w.self { command_motor_velocity = cs }; port = q }) size
              still)) in
      let (q', closed, shut, logged') =
        on_cleanup-open R serial laws
          (record w { self = record w.self { command_motor_velocity = cs }; port = q }) still in
      (
        q',
        cs,
        destroyed (drive real serial found_wheels w) _ _ (exit_code-returns _ _ ran) closed,
        shut,
        two_logs (log w.port) (log q) (log q')
            (replicate 150 (spinning w.self) ++ stopping w.self ∷ []) (end_message w.self ∷ [])
            logged logged',
      )
