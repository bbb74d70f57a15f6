-- ===== src/Control/Lifecycle/Closing.antt =====
-- How the hardware interface lets go of the serial port.
use tuw_spike.Base.{◌≡◌, ◌∙◌, [], ◌∷◌, ◌++◌, true, false}
use tuw_spike.Base.Result.{system_error}
use tuw_spike.Control.Machine.{Serial, PortLaws, World, returns, raises, continue_with}
use tuw_spike.Control.Motor.{success}
use tuw_spike.Control.Lifecycle.{
  end_message, on_cleanup, on_shutdown, on_deactivate, on_error, destroy,
}

module _ (R : Type 0) (serial : Serial) (laws : PortLaws serial) where
  open laws use {is_open, log, write_open, write_closed, close_open}

  -- On an open port `on_cleanup` succeeds; it has then sent the one message that stops both motors,
  -- and the port is closed; nothing else changes.
  pub on_cleanup-open :
      (w : World R serial.Port)
      → is_open w.port ≡ true
      → (q : serial.Port) × (on_cleanup R serial w ≡ (returns success, record w { port = q }))
        × (is_open q ≡ false)
        × (log q ≡ log w.port ++ end_message w.self ∷ [])
  unfolding on_cleanup
  on_cleanup-open w h =
      let (p, sent, still, logged) = write_open (end_message w.self) w.port h in
      let (q, closed, shut, same) = close_open p still in
      (q, rw (sent, closed), shut, same ∙ logged)

  -- On a closed port it throws and changes nothing.
  on_cleanup-closed :
      (w : World R serial.Port)
      → is_open w.port ≡ false
      → on_cleanup R serial w ≡ (raises system_error, w)
  unfolding on_cleanup
  on_cleanup-closed w h = rw (write_closed (end_message w.self) w.port h)

  -- After `on_cleanup`, `on_shutdown`, `on_deactivate` or `on_error` has succeeded on an open port
  -- the destructor throws, since it writes to the port that the call has closed.
  pub destroy-closed :
      (w : World R serial.Port)
      → is_open w.port ≡ true
      → ((continue_with (on_cleanup R serial w) (λ result. destroy R serial)).0
          ≡ raises system_error)
        × ((continue_with (on_shutdown R serial w) (λ result. destroy R serial)).0
            ≡ raises system_error)
        × ((continue_with (on_deactivate R serial w) (λ result. destroy R serial)).0
            ≡ raises system_error)
        × ((continue_with (on_error R serial w) (λ result. destroy R serial)).0
            ≡ raises system_error)
  unfolding destroy on_shutdown on_deactivate on_error
  destroy-closed w h =
      let (q, ran, shut, logged) = on_cleanup-open w h in
      let again = on_cleanup-closed (record w { port = q }) shut in
      let throws_again : (continue_with (on_cleanup R serial w) (λ result. destroy R serial)).0
          ≡ raises system_error =
        rw (ran, again) in
      (throws_again, throws_again, throws_again, throws_again)
