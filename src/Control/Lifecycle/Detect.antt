-- ===== src/Control/Lifecycle/Detect.antt =====
-- The loop of `on_configure` that asks the HAT for its state ends.
use tuw_spike.Base.{
  ℕ, ◌+◌, ◌-◌, ◌<◌, ◌≤◌, ◌≡◌, ◌⊎◌, inl, inr, refl, List, [], ◌∷◌, length, arith, Bool, true, false,
  ltb, ◌==◌, if◌then◌else◌,
}
use tuw_spike.Base.Text.{Bytes, bytes}
use tuw_spike.Base.Result.{Result, ok, throws}
use tuw_spike.Control.Machine.{
  Serial, World, Reply, delivered, broken, Stop, returns, raises, waiting, continue_with, set_port,
  read_line_from, contains,
}
use tuw_spike.Control.Firmware.{Files, load_firmware}
use tuw_spike.Control.Lifecycle.{Call, on_line, detect, detect_now}

module _ (R : Type 0) (serial : Serial) where
  -- The call returns or throws.
  abbrev pub Ends : {A : Type 0} → Stop A → Type 0
  Ends (returns a) = Unit {0}
  Ends (raises e) = Unit {0}
  Ends waiting = ⊥

  -- With `n` replies left or more the loop has ended by itself, or it has turned to `load`, with
  -- whose return the configuration goes on.
  abbrev pub Settles : Call R serial (Unit {0}) → ℕ → Stop Bool × World R serial.Port → Type 0
  Settles load n m =
      (Ends m.0 × (n ≤ length m.1.replies))
      ⊎ ((v : World R serial.Port) × (n ≤ length v.replies)
          × (m ≡ continue_with (load v) (λ u v'. (returns true, v'))))

  module _ (load : Call R serial (Unit {0})) (n : ℕ) where
    Settles-if :
        (b : Bool) (x y : Stop Bool × World R serial.Port)
        → (b ≡ true → Settles load n x)
        → (b ≡ false → Settles load n y)
        → Settles load n (if b then x else y)
    Settles-if true x y h k = h refl
    Settles-if false x y h k = k refl

    Settles-set_port :
        (r : Result serial.Port) (next : Call R serial Bool) (w : World R serial.Port)
        → n ≤ length w.replies
        → ((v : World R serial.Port) → Settles load n (next v))
        → Settles load n (continue_with (set_port r w) (λ u v. next v))
    Settles-set_port (ok p) next w h k = k _
    Settles-set_port (throws e) next w h k = inl (tt, h)

    Settles-read_line :
        (r : Reply) (more : List Reply) (w : World R serial.Port)
        (next : Bytes → Call R serial Bool)
        → n ≤ length more
        → ((line : Bytes) (v : World R serial.Port)
            → n ≤ length v.replies
            → Settles load n (next line v))
        → Settles load n (continue_with (read_line_from (r ∷ more) w) next)
    unfolding read_line_from
    Settles-read_line (delivered bs) more w next h k = k _ _ h
    Settles-read_line broken more w next h k = inl (tt, h)

    on_line-Settles :
        (after_empty after_unknown : Call R serial Bool) (emptydata incdata : ℕ) (line : Bytes)
        (w : World R serial.Port)
        → n ≤ length w.replies
        → (emptydata < 3 → (v : World R serial.Port) → Settles load n (after_empty v))
        → (incdata < 5 → (v : World R serial.Port) → Settles load n (after_unknown v))
        → Settles load n (on_line R serial load after_empty after_unknown emptydata incdata line w)
    unfolding on_line
    on_line-Settles after_empty after_unknown emptydata incdata line w h he hu =
        Settles-if (length line == 0) _ _
          (λ h1.
            Settles-if (ltb 3 (emptydata + 1)) _ _ (λ h2. inl (tt, h)) (λ h2. he (ground arith) w))
          (λ h1.
            Settles-if (contains (bytes "Firmware version: ") line) _ _ (λ h2. inl (tt, h))
              (λ h2.
                Settles-if (contains (bytes "BuildHAT bootloader version") line) _ _
                  (λ h3. inr (w, h, refl))
                  (λ h3.
                    Settles-if (ltb 5 (incdata + 1)) _ _ (λ h4. inl (tt, h))
                      (λ h4. Settles-set_port _ after_unknown w h (hu (ground arith))))))

    -- A round takes a reply, and a line that tells nothing brings one of the counts nearer its end.
    detect-Settles :
        (replies : List Reply) (emptydata incdata : ℕ) (w : World R serial.Port)
        → n + (3 - emptydata) + (5 - incdata) + 1 ≤ length replies
        → Settles load n (detect R serial load replies emptydata incdata w)
    unfolding detect
    detect-Settles [] emptydata incdata w h = absurd (omega arith)
    detect-Settles (r ∷ more) emptydata incdata w h =
        Settles-read_line r more w _ (omega arith) (λ line v left.
          on_line-Settles _ _ emptydata incdata line v left
            (λ lt u. detect-Settles more (emptydata + 1) incdata u (omega arith))
            (λ lt u. detect-Settles more emptydata (incdata + 1) u (omega arith)))

  -- The detection takes at most nine replies, whatever they are and whether or not the port works:
  -- with nine replies and `n` more at hand, it returns or throws with at least `n` of them left, or
  -- it turns to `load_firmware` with at least `n` left and ends as this call does, the configuration
  -- going on if it returns.
  pub detect_now-Settles :
      (files : Files) (n : ℕ) (w : World R serial.Port)
      → n + 9 ≤ length w.replies
      → Settles (load_firmware R serial files) n (detect_now R serial files w)
  detect_now-Settles files n w h =
      detect-Settles (load_firmware R serial files) n w.replies 0 0 w (omega arith)
