-- ===== src/Camera/Controls/Setup/Registered.antt =====
-- The parameters that the constructor registers set their controls.
use tuw_spike.Base.{
  ◌≡◌, ◌≢◌, refl, sym, ap, ◌∙◌, Bool, true, false, ◌||◌, List, [], ◌∷◌, ◌++◌, some, arith, All,
  Bool-cases, ◌⊎◌, inl, inr,
}
use tuw_spike.Base.Text.{Bytes, bytes_eq, bytes_eq_refl, bytes_eq→eq, lookup}
use tuw_spike.Base.Result.{bind-ok, ok-injective, Result, ok}
use tuw_spike.Camera.Controls.{
  ControlList, Parameter, Converter, Handler, apply_parameters, finish_callback, parameter_callback,
  update_request,
}
use tuw_spike.Camera.Controls.Updates.{Sets, apply-ok, callback_reaches_requests}
use tuw_spike.Camera.Controls.Setup.{
  ControlType, other_control, control_bool, control_byte, control_integer32, control_integer64,
  control_float, control_string, control_rectangle, control_size, Value, Param, Control, Floats,
  get_value, conversion_func, same_param, param_id, def_param, override, from_parameter,
  handle_parameter, handle_kind, handle_controls, create_controls,
}

bytes_eq-ne : (a b : Bytes) → a ≢ b → bytes_eq a b ≡ false
bytes_eq-ne a b h = elim (Bool-cases (bytes_eq a b)) [
  | inl e ↦ absurd (h (bytes_eq→eq a b e))
  | inr e ↦ e
]

lookup-head :
    {V : Type 0} (k : Bytes) (v : V) (m : List (Bytes × V)) → lookup k ((k, v) ∷ m) ≡ some v
unfolding lookup
lookup-head k v m = rw (bytes_eq_refl k) refl

lookup-tail :
    {V : Type 0} (j k : Bytes) (v : V) (m : List (Bytes × V))
    → bytes_eq j k ≡ false
    → lookup k ((j, v) ∷ m) ≡ lookup k m
unfolding lookup
lookup-tail j k v m e = rw e refl

-- A parameter with a converter, alone.
callback-returns :
    {P V : Type 0} (p : Parameter P) (h : Handler P V) (c : Converter P V) (v : V)
    → lookup p.name h.converters ≡ some c
    → c.conversion p.value ≡ ok v
    → (parameter_callback (p ∷ []) h).0 ≡ ok tt
unfolding parameter_callback apply_parameters
callback-returns p h c v e f =
    ap (λ a. (finish_callback a.result a.handler).0) (apply-ok p [] false h c v e f)

module _ {F : Type 0} (floats : Floats F) (declare : Bytes → Param F → Result (Param F)) where
  abbrev converter_of : Control F → Converter (Param F) (Value F)
  converter_of c = record { ctrl_id = c.id; conversion = conversion_func floats c.kind }

  -- What a control that is handled adds.
  abbrev Adds : Control F → Handler (Param F) (Value F) → Handler (Param F) (Value F) → Type 0
  Adds c h g =
      (g.converters ≡ (param_id floats c, converter_of c) ∷ h.converters)
      × (g.update_seq ≡ h.update_seq)

  override-ok :
      (c : Control F) (value param : Param F) (h g : Handler (Param F) (Value F))
      → override floats c value param h ≡ ok g
      → (g.converters ≡ h.converters) × (g.update_seq ≡ h.update_seq)
  override-ok c value param h g e =
      elim (Bool-cases (same_param floats value (def_param floats c))) [
        | inl t ↦
            let same : h ≡ g = ok-injective (rw t at e) in
            (ap (λ x. x.converters) (sym same), ap (λ x. x.update_seq) (sym same))
        | inr f ↦
            let (v, made, same) = bind-ok (from_parameter floats c.kind param) _ g (rw f at e) in
            let written = ok-injective same in
            (ap (λ x. x.converters) (sym written), ap (λ x. x.update_seq) (sym written))
      ]

  handle_parameter-Adds :
      (c : Control F) (h g : Handler (Param F) (Value F))
      → handle_parameter floats declare c h ≡ ok g
      → Adds c h g
  unfolding handle_parameter
  handle_parameter-Adds c h g e =
      let (value, d, e1) = bind-ok (declare (param_id floats c) (def_param floats c)) _ g e in
      let (param, p, e2) = bind-ok (get_value floats c.kind value) _ g e1 in
      let (o, w, e3) = bind-ok (override floats c value param h) _ g e2 in
      let (convs, seq) = override-ok c value param h o w in
      let same = ok-injective e3 in
      (
        ap (λ x. x.converters) (sym same) ∙ ap (λ l. (param_id floats c, converter_of c) ∷ l) convs,
        ap (λ x. x.update_seq) (sym same) ∙ seq,
      )

  handle_kind-Adds :
      (k : ControlType) (c : Control F) (h g : Handler (Param F) (Value F))
      → handle_kind floats declare k c h ≡ ok g
      → Adds c h g
  handle_kind-Adds (other_control n) c h g e = cc e
  handle_kind-Adds control_bool c h g e = handle_parameter-Adds c h g e
  handle_kind-Adds control_byte c h g e = handle_parameter-Adds c h g e
  handle_kind-Adds control_integer32 c h g e = handle_parameter-Adds c h g e
  handle_kind-Adds control_integer64 c h g e = handle_parameter-Adds c h g e
  handle_kind-Adds control_float c h g e = handle_parameter-Adds c h g e
  handle_kind-Adds control_string c h g e = handle_parameter-Adds c h g e
  handle_kind-Adds control_rectangle c h g e = handle_parameter-Adds c h g e
  handle_kind-Adds control_size c h g e = handle_parameter-Adds c h g e

  abbrev pub is_array : Control F → Bool
  is_array c = c.min_is_array || c.max_is_array || c.def_is_array

  -- The first round of the loop.
  handle_controls-step :
      (c : Control F) (cs : List (Control F)) (h g : Handler (Param F) (Value F))
      → handle_controls floats declare (c ∷ cs) h ≡ ok g
      → ((is_array c ≡ true) × (handle_controls floats declare cs h ≡ ok g))
        ⊎ ((o : Handler (Param F) (Value F)) × Adds c h o
            × (handle_controls floats declare cs o ≡ ok g))
  unfolding handle_controls
  handle_controls-step c cs h g e = elim (Bool-cases (is_array c)) [
    | inl t ↦ inl (t, rw (handle_controls, t) at e)
    | inr f ↦
        let (o, made, rest) =
          bind-ok (handle_kind floats declare c.kind c h) (handle_controls floats declare cs) g
            (rw (handle_controls, f) at e) in
        inr (o, handle_kind-Adds c.kind c h o made, rest)
  ]

  abbrev Finds : Control F → Handler (Param F) (Value F) → Type 0
  Finds c h = lookup (param_id floats c) h.converters ≡ some (converter_of c)

  -- A control of another name does not hide a converter.
  Adds-Finds :
      (c d : Control F) (h g : Handler (Param F) (Value F))
      → d.name ≢ c.name
      → Adds d h g
      → Finds c h
      → Finds c g
  Adds-Finds c d h g ne a f =
      ap (lookup (param_id floats c)) a.0
      ∙ lookup-tail (param_id floats d) (param_id floats c) (converter_of d) h.converters
          (bytes_eq-ne d.name c.name ne)
      ∙ f

  handle_controls-seq :
      (cs : List (Control F)) (h g : Handler (Param F) (Value F))
      → handle_controls floats declare cs h ≡ ok g
      → g.update_seq ≡ h.update_seq
  handle_controls-seq [] h g e =
      unfold handle_controls in ap (λ x. x.update_seq) (sym (ok-injective e))
  handle_controls-seq (c ∷ cs) h g e = elim (handle_controls-step c cs h g e) [
    | inl (t, rest) ↦ handle_controls-seq cs h g rest
    | inr (o, a, rest) ↦ handle_controls-seq cs o g rest ∙ a.1
  ]

  handle_controls-keeps :
      (c : Control F) (cs : List (Control F)) (h g : Handler (Param F) (Value F))
      → All (λ (d : Control F). d.name ≢ c.name) cs
      → Finds c h
      → handle_controls floats declare cs h ≡ ok g
      → Finds c g
  handle_controls-keeps c [] h g n f e =
      unfold handle_controls in
      ap (λ x. lookup (param_id floats c) x.converters) (sym (ok-injective e)) ∙ f
  handle_controls-keeps c (d ∷ cs) h g n f e = elim (handle_controls-step d cs h g e) [
    | inl (t, rest) ↦ handle_controls-keeps c cs h g n.1 f rest
    | inr (o, a, rest) ↦ handle_controls-keeps c cs o g n.1 (Adds-Finds c d h o n.0 a f) rest
  ]

  handle_controls-Finds :
      (before after : List (Control F)) (c : Control F) (h g : Handler (Param F) (Value F))
      → is_array c ≡ false
      → All (λ (d : Control F). d.name ≢ c.name) after
      → handle_controls floats declare (before ++ c ∷ after) h ≡ ok g
      → Finds c g
  handle_controls-Finds [] after c h g s n e = elim (handle_controls-step c after h g e) [
    | inl (t, rest) ↦ cc (s, t)
    | inr (o, a, rest) ↦
        handle_controls-keeps c after o g n
          (ap (lookup (param_id floats c)) a.0
            ∙ lookup-head (param_id floats c) (converter_of c) h.converters)
          rest
  ]
  handle_controls-Finds (b ∷ bs) after c h g s n e =
      elim (handle_controls-step b (bs ++ c ∷ after) h g e) [
        | inl (t, rest) ↦ handle_controls-Finds bs after c h g s n rest
        | inr (o, a, rest) ↦ handle_controls-Finds bs after c o g s n rest
      ]

  -- A control of the camera from the constructor to a request: if the constructor returns, the control
  -- is not an array, no later control has its name, and the value of a parameter `controls.<name>`
  -- converts, then `parameter_callback` with this parameter returns, and a request that had seen no
  -- update takes the converted value at its next `update_request`.
  pub create_controls-reaches :
      (before after : List (Control F)) (c : Control F) (h : Handler (Param F) (Value F))
      (param : Param F) (v : Value F) (controls : ControlList (Value F))
      → is_array c ≡ false
      → All (λ (d : Control F). d.name ≢ c.name) after
      → create_controls floats declare (before ++ c ∷ after) ≡ ok h
      → conversion_func floats c.kind param ≡ ok v
      → let out = parameter_callback (record { name = param_id floats c; value = param } ∷ []) h in
        (out.0 ≡ ok tt) × ((update_request out.1 false controls 0).0 c.id ≡ some v)
  create_controls-reaches before after c h param v controls s n e k =
      let p : Parameter (Param F) = record { name = param_id floats c; value = param } in
      let found = handle_controls-Finds before after c _ h s n e in
      let seq : h.update_seq ≡ 0 = handle_controls-seq (before ++ c ∷ after) _ h e in
      let returned = callback-returns p h (converter_of c) v found k in
      let sets : Sets h p c.id v = record {
        converter = converter_of c;
        found = found;
        at_id = refl;
        converted = k;
      } in
      let reached =
        callback_reaches_requests [] p [] h c.id v controls sets tt (omega (arith, seq)) returned in
      (
        returned,
        ap (λ n. (update_request (parameter_callback (p ∷ []) h).1 false controls n).0 c.id)
              (sym seq)
            ∙ reached.0,
      )
