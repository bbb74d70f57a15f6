-- ===== src/Camera/Tests/Controls.antt =====
-- A camera with an exposure time, a list of gains and a crop, and no parameters of the node.
use tuw_spike.Base.{◌≡◌, refl, true, false, [], ◌∷◌, none, some}
use tuw_spike.Base.Int.{ℤ, pos, eqb_ℤ}
use tuw_spike.Base.Text.{Bytes, bytes}
use tuw_spike.Base.Result.{Result, ok}
use tuw_spike.Camera.Controls.{Handler, parameter_callback, update_request}
use tuw_spike.Camera.Controls.Shapes.{size_from_parameter, size_to_parameter}
use tuw_spike.Camera.Controls.Setup.{
  Control, Floats, Param, Value, control_integer32, control_float, control_size, value_size,
  param_integers, conversion_func, param_id, handle_parameter, handle_controls, create_controls,
}
use tuw_spike.Camera.Controls.Setup.Registered.{create_controls-reaches}

-- Whole numbers for doubles.
abbrev whole : Floats ℤ
whole = record { same_float = eqb_ℤ; to_float = λ x. x; zero_float = pos 0 }

abbrev declare : Bytes → Param ℤ → Result (Param ℤ)
declare name default = ok default

abbrev exposure : Control ℤ
exposure = record {
  id = 3;
  name = bytes "ExposureTime";
  kind = control_integer32;
  min_is_array = false;
  max_is_array = false;
  def_is_array = false;
  def = none;
}

abbrev gains : Control ℤ
gains = record exposure {
  id = 4;
  name = bytes "ColourGains";
  kind = control_float;
  def_is_array = true;
}

abbrev crop : Control ℤ
crop = record exposure { id = 5; name = bytes "CropSize"; kind = control_size }

abbrev created : Result (Handler (Param ℤ) (Value ℤ))
created = create_controls whole declare (exposure ∷ crop ∷ gains ∷ [])

abbrev registered : Handler (Param ℤ) (Value ℤ)
registered = record {
  converters =
      (param_id whole crop, record { ctrl_id = 5; conversion = conversion_func whole control_size })
      ∷ (
        param_id whole exposure,
        record { ctrl_id = 3; conversion = conversion_func whole control_integer32 },
      )
      ∷ [];
  current_controls = λ id. none;
  update_seq = 0;
}

abbrev vga : Value ℤ
vga = value_size (record { width = 640; height = 480 })

create_controls-reaches_example :
    let out =
      parameter_callback
        (record { name = param_id whole crop; value = param_integers (pos 640 ∷ pos 480 ∷ []) }
          ∷ [])
        registered in
    (out.0 ≡ ok tt) × ((update_request out.1 false (λ id. none) 0).0 5 ≡ some vga)
unfolding handle_controls handle_parameter conversion_func size_from_parameter size_to_parameter
create_controls-reaches_example =
    create_controls-reaches whole declare (exposure ∷ []) (gains ∷ []) crop registered
      (param_integers (pos 640 ∷ pos 480 ∷ [])) vga (λ id. none) refl ((λ e. cc e), tt) refl refl
