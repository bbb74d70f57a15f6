-- ===== src/Camera/Controls/Setup.antt =====
-- The constructor of `CameraControlsHandler`, over the controls of the camera and the parameters of
-- the node.
pub mod Registered
use tuw_spike.Base.{
  ℕ, ◌%◌, ◌^◌, Bool, true, false, not, ◌||◌, ◌&&◌, List, [], ◌∷◌, ◌++◌, Option, none, some,
  if◌then◌else◌,
}
use tuw_spike.Base.Int.{ℤ, pos, eqb_ℤ}
use tuw_spike.Base.Words.{wrap32}
use tuw_spike.Base.Text.{Bytes, bytes, bytes_eq}
use tuw_spike.Base.Result.{runtime_error, Result, ok, throws, ◌>>=◌}
use tuw_spike.Camera.Controls.{Converter, Handler, set_control}
use tuw_spike.Camera.Controls.Shapes.{
  Rectangle, Size, to_unsigned, rectangle_from_parameter, rectangle_to_parameter,
  size_from_parameter, size_to_parameter,
}

-- `libcamera::ControlType`
pub data ControlType : Type 0 where
  control_bool control_byte control_integer32 control_integer64 control_float control_string
        control_rectangle control_size :
      ControlType
  other_control : ℕ → ControlType

-- A value of a control, and the value of a parameter; `F` is a double.
pub data Value (F : Type 0) : Type 0 where
  value_bool : Bool → Value F
  value_byte : ℕ → Value F
  value_integer32 : ℤ → Value F
  value_integer64 : ℤ → Value F
  value_float : F → Value F
  value_string : Bytes → Value F
  value_rectangle : Rectangle → Value F
  value_size : Size → Value F

pub data Param (F : Type 0) : Type 0 where
  param_bool : Bool → Param F
  param_integer : ℤ → Param F
  param_double : F → Param F
  param_string : Bytes → Param F
  param_integers : List ℤ → Param F

-- `ControlId` and `ControlInfo`; `def` is none for `isNone()`.
pub record Control (F : Type 0) : Type 0 where
  pub id : ℕ
  pub name : Bytes
  pub kind : ControlType
  pub min_is_array : Bool
  pub max_is_array : Bool
  pub def_is_array : Bool
  pub def : Option (Value F)

abbrev pub same_integers : List ℤ → List ℤ → Bool
same_integers [] [] = true
same_integers [] (y ∷ ys) = false
same_integers (x ∷ xs) [] = false
same_integers (x ∷ xs) (y ∷ ys) = eqb_ℤ x y && same_integers xs ys

-- The operations on doubles: `==`, the conversion to float, and 0.
pub record Floats (F : Type 0) : Type 0 where
  pub same_float : F → F → Bool
  pub to_float : F → F
  pub zero_float : F

module _ {F : Type 0} (floats : Floats F) where
  -- `def_value` where the control has no default: `data_type{}`.
  abbrev pub zero_value : ControlType → Value F
  zero_value control_bool = value_bool false
  zero_value control_byte = value_byte 0
  zero_value control_integer32 = value_integer32 (pos 0)
  zero_value control_integer64 = value_integer64 (pos 0)
  zero_value control_float = value_float floats.zero_float
  zero_value control_string = value_string []
  zero_value control_rectangle =
      value_rectangle (record { x = pos 0; y = pos 0; width = 0; height = 0 })
  zero_value control_size = value_size (record { width = 0; height = 0 })
  zero_value (other_control n) = value_bool false

  -- `converter::to_parameter`
  abbrev pub to_parameter : Value F → Param F
  to_parameter (value_bool b) = param_bool b
  to_parameter (value_byte n) = param_integer (pos n)
  to_parameter (value_integer32 z) = param_integer z
  to_parameter (value_integer64 z) = param_integer z
  to_parameter (value_float f) = param_double f
  to_parameter (value_string s) = param_string s
  to_parameter (value_rectangle r) = param_integers (rectangle_to_parameter r)
  to_parameter (value_size s) = param_integers (size_to_parameter s)

  -- `get_value<param_type>`: a parameter of another type throws.
  abbrev pub get_value : ControlType → Param F → Result (Param F)
  get_value control_bool (param_bool b) = ok (param_bool b)
  get_value control_byte (param_integer z) = ok (param_integer (pos (to_unsigned z % 2 ^ 8)))
  get_value control_integer32 (param_integer z) = ok (param_integer (wrap32 z))
  get_value control_integer64 (param_integer z) = ok (param_integer z)
  get_value control_float (param_double f) = ok (param_double (floats.to_float f))
  get_value control_string (param_string s) = ok (param_string s)
  get_value control_rectangle (param_integers l) = ok (param_integers l)
  get_value control_size (param_integers l) = ok (param_integers l)
  get_value kind param = throws runtime_error

  -- `converter::from_parameter`, on a parameter of its type.
  abbrev pub from_parameter : ControlType → Param F → Result (Value F)
  from_parameter control_bool (param_bool b) = ok (value_bool b)
  from_parameter control_byte (param_integer z) = ok (value_byte (to_unsigned z))
  from_parameter control_integer32 (param_integer z) = ok (value_integer32 z)
  from_parameter control_integer64 (param_integer z) = ok (value_integer64 z)
  from_parameter control_float (param_double f) = ok (value_float f)
  from_parameter control_string (param_string s) = ok (value_string s)
  from_parameter control_rectangle (param_integers l) =
      rectangle_from_parameter l >>= λ r. ok (value_rectangle r)
  from_parameter control_size (param_integers l) = size_from_parameter l >>= λ s. ok (value_size s)
  from_parameter kind param = throws runtime_error

  unfoldable pub conversion_func : ControlType → Param F → Result (Value F)
  conversion_func kind param = get_value kind param >>= from_parameter kind

  -- `param == def_param`
  abbrev pub same_param : Param F → Param F → Bool
  same_param (param_bool a) (param_bool b) = if a then b else not b
  same_param (param_integer a) (param_integer b) = eqb_ℤ a b
  same_param (param_double a) (param_double b) = floats.same_float a b
  same_param (param_string a) (param_string b) = bytes_eq a b
  same_param (param_integers a) (param_integers b) = same_integers a b
  same_param a b = false

  abbrev pub param_id : Control F → Bytes
  param_id c = bytes "controls." ++ c.name

  abbrev pub def_param : Control F → Param F
  def_param c = elim c.def [ none ↦ to_parameter (zero_value c.kind) | some v ↦ to_parameter v ]

  abbrev pub register : Control F → Handler (Param F) (Value F) → Handler (Param F) (Value F)
  register c h = record h {
    converters =
        (param_id c, record { ctrl_id = c.id; conversion = conversion_func c.kind }) ∷ h.converters;
  }

  -- The value of a parameter that is not the default. What is compared is the 64-bit integer or
  -- double that `declare_parameter` returns; `param` is the same converted for `from_parameter`.
  abbrev pub override :
      Control F
      → Param F
      → Param F
      → Handler (Param F) (Value F)
      → Result (Handler (Param F) (Value F))
  override c value param h =
      if same_param value (def_param c)
      then ok h
      else (from_parameter c.kind param >>= λ v.
          ok (record h { current_controls = set_control c.id v h.current_controls }))

  -- `handle_parameter`, over what `declare_parameter` returns for a name and a default.
  unfoldable pub handle_parameter :
      (Bytes → Param F → Result (Param F))
      → Control F
      → Handler (Param F) (Value F)
      → Result (Handler (Param F) (Value F))
  handle_parameter declare c h = do
    value ← declare (param_id c) (def_param c)
    param ← get_value c.kind value
    overridden ← override c value param h
    ok (register c overridden)

  -- The `switch`.
  abbrev pub handle_kind :
      (Bytes → Param F → Result (Param F))
      → ControlType
      → Control F
      → Handler (Param F) (Value F)
      → Result (Handler (Param F) (Value F))
  handle_kind declare (other_control n) c h = throws runtime_error
  handle_kind declare kind c h = handle_parameter declare c h

  -- The loop over the controls.
  unfoldable pub handle_controls :
      (Bytes → Param F → Result (Param F))
      → List (Control F)
      → Handler (Param F) (Value F)
      → Result (Handler (Param F) (Value F))
  handle_controls declare [] h = ok h
  handle_controls declare (c ∷ cs) h = elim (c.min_is_array || c.max_is_array || c.def_is_array) [
    | true ↦ handle_controls declare cs h
    | false ↦ handle_kind declare c.kind c h >>= handle_controls declare cs
  ]

  -- The constructor.
  abbrev pub create_controls :
      (Bytes → Param F → Result (Param F)) → List (Control F) → Result (Handler (Param F) (Value F))
  create_controls declare controls =
      handle_controls declare controls
        (record { converters = []; current_controls = λ id. none; update_seq = 0 })
