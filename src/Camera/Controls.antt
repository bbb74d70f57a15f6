-- ===== src/Camera/Controls.antt =====
-- `CameraControlsHandler` of tuw_libcamera/src/capture/camera_controls_handler.cpp: the controls set
-- by parameters, and their way into the requests.
pub mod Updates
pub mod Shapes
pub mod Setup
use tuw_spike.Base.{
  ℕ, ◌+◌, ◌%◌, ◌^◌, ◌≡◌, Bool, true, false, not, ◌||◌, List, [], ◌∷◌, Option, none, some, ◌==◌,
  if◌then◌else◌,
}
use tuw_spike.Base.Text.{Bytes, lookup}
use tuw_spike.Base.Result.{Exception, Result, ok, throws}

-- `libcamera::ControlList`: the value of each control that is set.
abbrev pub ControlList : Type 0 → Type 0
ControlList V = ℕ → Option V

abbrev pub set_control : {V : Type 0} → ℕ → V → ControlList V → ControlList V
set_control id v c = λ j. if j == id then some v else c j

-- `for (const auto &[id, value] : current) controls.set(id, value)`
abbrev pub set_all : {V : Type 0} → ControlList V → ControlList V → ControlList V
set_all current controls = λ id. elim (current id) [ none ↦ controls id | some v ↦ some v ]

-- `rclcpp::Parameter`: its name, and its value, of a type that the conversions take.
pub record Parameter (P : Type 0) : Type 0 where
  pub name : Bytes
  pub value : P

-- An entry of `converters`: the control's id, and `conversion_func` of its type.
pub record Converter (P V : Type 0) : Type 0 where
  pub ctrl_id : ℕ
  pub conversion : P → Result V

pub record Handler (P V : Type 0) : Type 0 where
  pub converters : List (Bytes × Converter P V)
  pub current_controls : ControlList V
  pub update_seq : ℕ

-- What the loop of `parameter_callback` leaves: `updates` or a throw, and the handler.
pub record Applied (P V : Type 0) : Type 0 where
  pub result : Result Bool
  pub handler : Handler P V

module _ {P V : Type 0} where
  -- `for (const auto &param : parameters)`
  unfoldable pub apply_parameters : List (Parameter P) → Bool → Handler P V → Applied P V
  apply_parameters [] updates h = record { result = ok updates; handler = h }
  apply_parameters (p ∷ ps) updates h = elim (lookup p.name h.converters) [
    | none ↦ apply_parameters ps updates h
    | some c ↦ elim (c.conversion p.value) [
      | throws e ↦ record { result = throws e; handler = h }
      | ok v ↦
          apply_parameters ps true
            (record h { current_controls = set_control c.ctrl_id v h.current_controls })
    ]
  ]

  -- `update_seq++` on a uint32_t, if there were updates; a throw leaves the callback before that.
  abbrev pub finish_callback : Result Bool → Handler P V → Result (Unit {0}) × Handler P V
  finish_callback (throws e) h = (throws e, h)
  finish_callback (ok updates) h =
      (ok tt, if updates then record h { update_seq = (h.update_seq + 1) % 2 ^ 32 } else h)

  -- `parameter_callback`; when it returns, `result.successful` is true.
  unfoldable pub parameter_callback :
      List (Parameter P) → Handler P V → Result (Unit {0}) × Handler P V
  parameter_callback ps h =
      let a = apply_parameters ps false h in finish_callback a.result a.handler

  -- `update_request`, over the controls of a request and the update that it has seen.
  unfoldable pub update_request : Handler P V → Bool → ControlList V → ℕ → ControlList V × ℕ
  update_request h force controls req_update_seq =
      if force || not (req_update_seq == h.update_seq)
      then (set_all h.current_controls controls, h.update_seq)
      else (controls, req_update_seq)
