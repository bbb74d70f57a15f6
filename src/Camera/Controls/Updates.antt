-- ===== src/Camera/Controls/Updates.antt =====
-- How updates of the controls reach a request.
use tuw_spike.Base.{
  ℕ, ◌^◌, ◌<◌, ◌≡◌, ◌≢◌, refl, sym, ap, ◌∙◌, Bool, true, false, List, [], ◌∷◌, ◌++◌, none, some,
  arith, Option-cases, ne→==, ==_iff, All, inl, inr,
}
use tuw_spike.Base.Text.{lookup}
use tuw_spike.Base.Result.{Exception, Result, ok, throws, Result-cases}
use tuw_spike.Camera.Controls.{
  ControlList, set_control, Parameter, Converter, Handler, Applied, apply_parameters,
  finish_callback, parameter_callback, update_request,
}

module _ {P V : Type 0} where
  -- The parameter sets no control with this id.
  abbrev pub Misses : Handler P V → ℕ → Parameter P → Type 0
  Misses h id p = (c : Converter P V) → lookup p.name h.converters ≡ some c → c.ctrl_id ≢ id

  -- The parameter sets the control to the value.
  pub record Sets (h : Handler P V) (p : Parameter P) (id : ℕ) (v : V) : Type 0 where
    pub converter : Converter P V
    pub found : lookup p.name h.converters ≡ some converter
    pub at_id : converter.ctrl_id ≡ id
    pub converted : converter.conversion p.value ≡ ok v

  abbrev stored : Handler P V → ℕ → V → Handler P V
  stored h id v = record h { current_controls = set_control id v h.current_controls }

  -- One round, by what it finds.
  apply-none :
      (p : Parameter P) (ps : List (Parameter P)) (updates : Bool) (h : Handler P V)
      → lookup p.name h.converters ≡ none
      → apply_parameters (p ∷ ps) updates h ≡ apply_parameters ps updates h
  unfolding apply_parameters
  apply-none p ps updates h e = rw (e, apply_parameters)

  pub apply-ok :
      (p : Parameter P) (ps : List (Parameter P)) (updates : Bool) (h : Handler P V)
      (c : Converter P V) (v : V)
      → lookup p.name h.converters ≡ some c
      → c.conversion p.value ≡ ok v
      → apply_parameters (p ∷ ps) updates h ≡ apply_parameters ps true (stored h c.ctrl_id v)
  unfolding apply_parameters
  apply-ok p ps updates h c v e f = rw (e, f, apply_parameters)

  apply-throws :
      (p : Parameter P) (ps : List (Parameter P)) (updates : Bool) (h : Handler P V)
      (c : Converter P V) (x : Exception)
      → lookup p.name h.converters ≡ some c
      → c.conversion p.value ≡ throws x
      → apply_parameters (p ∷ ps) updates h ≡ record { result = throws x; handler = h }
  unfolding apply_parameters
  apply-throws p ps updates h c x e f = rw (e, f, apply_parameters)

  -- The loop changes neither the converters nor the count.
  apply-keeps :
      (ps : List (Parameter P)) (updates : Bool) (h : Handler P V)
      → ((apply_parameters ps updates h).handler.converters ≡ h.converters)
        × ((apply_parameters ps updates h).handler.update_seq ≡ h.update_seq)
  apply-keeps [] updates h = unfold apply_parameters in (refl, refl)
  apply-keeps (p ∷ ps) updates h = elim (Option-cases (lookup p.name h.converters)) [
    | inl e ↦ rw (apply-none p ps updates h e) (apply-keeps ps updates h)
    | inr (c, e) ↦ elim (Result-cases (c.conversion p.value)) [
      | inl (v, f) ↦
          rw (apply-ok p ps updates h c v e f) (apply-keeps ps true (stored h c.ctrl_id v))
      | inr (x, f) ↦ rw (apply-throws p ps updates h c x e f) (refl, refl)
    ]
  ]

  -- Once there was an update, the loop does not forget it.
  apply-updates :
      (ps : List (Parameter P)) (h : Handler P V) (u : Bool)
      → (apply_parameters ps true h).result ≡ ok u
      → u ≡ true
  apply-updates [] h u q = unfold apply_parameters in cc
  apply-updates (p ∷ ps) h u q = elim (Option-cases (lookup p.name h.converters)) [
    | inl e ↦ apply-updates ps h u (rw (apply-none p ps true h e) at q)
    | inr (c, e) ↦ elim (Result-cases (c.conversion p.value)) [
      | inl (v, f) ↦
          apply-updates ps (stored h c.ctrl_id v) u (rw (apply-ok p ps true h c v e f) at q)
      | inr (x, f) ↦ cc (ap (λ (a : Applied P V). a.result) (apply-throws p ps true h c x e f))
    ]
  ]

  -- A control that no parameter sets keeps its value.
  apply-Misses :
      (ps : List (Parameter P)) (updates : Bool) (h : Handler P V) (id : ℕ)
      → All (Misses h id) ps
      → (apply_parameters ps updates h).handler.current_controls id ≡ h.current_controls id
  apply-Misses [] updates h id m = unfold apply_parameters in refl
  apply-Misses (p ∷ ps) updates h id m = elim (Option-cases (lookup p.name h.converters)) [
    | inl e ↦ rw (apply-none p ps updates h e) (apply-Misses ps updates h id m.1)
    | inr (c, e) ↦ elim (Result-cases (c.conversion p.value)) [
      | inl (v, f) ↦ rw (apply-ok p ps updates h c v e f) (
          apply-Misses ps true (stored h c.ctrl_id v) id m.1
          ∙ rw (ne→== id c.ctrl_id (λ q. m.0 c e (sym q))))
      | inr (x, f) ↦ rw (apply-throws p ps updates h c x e f)
    ]
  ]

  -- If the loop ends without a throw, a control has the value of the last parameter that sets it.
  apply-Sets :
      (before : List (Parameter P)) (p : Parameter P) (after : List (Parameter P)) (updates : Bool)
      (h : Handler P V) (id : ℕ) (v : V) (u : Bool)
      → Sets h p id v
      → All (Misses h id) after
      → (apply_parameters (before ++ p ∷ after) updates h).result ≡ ok u
      → (u ≡ true)
        × ((apply_parameters (before ++ p ∷ after) updates h).handler.current_controls id ≡ some v)
  apply-Sets [] p after updates h id v u s m q =
      let step = apply-ok p after updates h s.converter v s.found s.converted in
      (
        apply-updates after (stored h s.converter.ctrl_id v) u (rw step at q),
        rw step (
            apply-Misses after true (stored h s.converter.ctrl_id v) id m
            ∙ rw ((==_iff id s.converter.ctrl_id).1 (sym s.at_id))),
      )
  apply-Sets (b ∷ bs) p after updates h id v u s m q =
      elim (Option-cases (lookup b.name h.converters)) [
        | inl e ↦
            let step = apply-none b (bs ++ p ∷ after) updates h e in
            rw step (apply-Sets bs p after updates h id v u s m (rw step at q))
        | inr (c, e) ↦ elim (Result-cases (c.conversion b.value)) [
          | inl (w, f) ↦
              let step = apply-ok b (bs ++ p ∷ after) updates h c w e f in
              rw step (
                apply-Sets bs p after true (stored h c.ctrl_id w) id v u
                  (record {
                    converter = s.converter;
                    found = s.found;
                    at_id = s.at_id;
                    converted = s.converted;
                  })
                  m (rw step at q))
          | inr (x, f) ↦ cc (
            q,
            ap (λ (a : Applied P V). a.result) (apply-throws b (bs ++ p ∷ after) updates h c x e f),
          )
        ]
      ]

  finish-ok :
      (r : Result Bool) (h : Handler P V)
      → (finish_callback r h).0 ≡ ok tt
      → (u : Bool) × (r ≡ ok u)
  finish-ok (ok u) h q = (u, refl)
  finish-ok (throws x) h q = cc

  -- If `parameter_callback` returns, then a request that had seen all earlier updates takes, at its
  -- next `update_request`, for each control the value of the last parameter in the call that sets it,
  -- and has then seen this update too.
  pub callback_reaches_requests :
      (before : List (Parameter P)) (p : Parameter P) (after : List (Parameter P)) (h : Handler P V)
      (id : ℕ) (v : V) (controls : ControlList V)
      → Sets h p id v
      → All (Misses h id) after
      → h.update_seq < 2 ^ 32
      → (parameter_callback (before ++ p ∷ after) h).0 ≡ ok tt
      → let h' = (parameter_callback (before ++ p ∷ after) h).1 in
        ((update_request h' false controls h.update_seq).0 id ≡ some v)
        × ((update_request h' false controls h.update_seq).1 ≡ h'.update_seq)
        × (h'.update_seq ≢ h.update_seq)
  unfolding parameter_callback update_request
  callback_reaches_requests before p after h id v controls s m small q =
      let (u, returned) = finish-ok _ _ q in
      let (updated, value) = apply-Sets before p after false h id v u s m returned in
      let seq = (apply-keeps (before ++ p ∷ after) false h).1 in
      ground (arith, returned, updated, value, seq)

  -- The parameter is no control, or its conversion returns.
  abbrev pub Passes : Handler P V → Parameter P → Type 0
  Passes h p =
      (c : Converter P V)
      → lookup p.name h.converters ≡ some c
      → (v : V) × (c.conversion p.value ≡ ok v)

  -- The loop over parameters that pass goes on with those behind them.
  record Passed (ps rest : List (Parameter P)) (updates : Bool) (h : Handler P V) : Type 0 where
    pub known : Bool
    pub controls : ControlList V
    pub goes_on :
        apply_parameters (ps ++ rest) updates h
        ≡ apply_parameters rest known (record h { current_controls = controls })
    pub kept : (id : ℕ) → All (Misses h id) ps → controls id ≡ h.current_controls id

  apply-Passes :
      (ps rest : List (Parameter P)) (updates : Bool) (h : Handler P V)
      → All (Passes h) ps
      → Passed ps rest updates h
  apply-Passes [] rest updates h a = record {
    known = updates;
    controls = h.current_controls;
    goes_on = refl;
    kept = λ id m. refl;
  }
  apply-Passes (p ∷ ps) rest updates h a = elim (Option-cases (lookup p.name h.converters)) [
    | inl e ↦
        let more = apply-Passes ps rest updates h a.1 in
        record {
          known = more.known;
          controls = more.controls;
          goes_on = apply-none p (ps ++ rest) updates h e ∙ more.goes_on;
          kept = λ id m. more.kept id m.1;
        }
    | inr (c, e) ↦
        let (v, f) = a.0 c e in
        let more = apply-Passes ps rest true (stored h c.ctrl_id v) a.1 in
        record {
          known = more.known;
          controls = more.controls;
          goes_on = apply-ok p (ps ++ rest) updates h c v e f ∙ more.goes_on;
          kept = λ id m. more.kept id m.1 ∙ rw (ne→== id c.ctrl_id (λ q. m.0 c e (sym q)));
        }
  ]

  -- If a conversion throws behind a parameter that was taken, and none between them sets the same
  -- control or throws, nor one before them, then `parameter_callback` throws with the value of that
  -- parameter stored but not announced: a request that has seen all updates so far stays as it is at
  -- its next `update_request`.
  pub callback_throws_midway :
      (before between after : List (Parameter P)) (p q : Parameter P) (h : Handler P V) (id : ℕ)
      (v : V) (c : Converter P V) (x : Exception) (controls : ControlList V)
      → All (Passes h) before
      → Sets h p id v
      → All (Passes h) between
      → All (Misses h id) between
      → lookup q.name h.converters ≡ some c
      → c.conversion q.value ≡ throws x
      → let (result, h') = parameter_callback (before ++ p ∷ (between ++ q ∷ after)) h in
        (result ≡ throws x)
        × (h'.current_controls id ≡ some v)
        × (update_request h' false controls h.update_seq ≡ (controls, h.update_seq))
  unfolding parameter_callback update_request
  callback_throws_midway before between after p q h id v c x controls pb s pm m e f =
      let first = apply-Passes before (p ∷ (between ++ q ∷ after)) false h pb in
      let h1 = record h { current_controls = first.controls } in
      let h2 = stored h1 s.converter.ctrl_id v in
      let mid = apply-Passes between (q ∷ after) true h2 pm in
      let h3 = record h { current_controls = mid.controls } in
      let run : apply_parameters (before ++ p ∷ (between ++ q ∷ after)) false h
          ≡ record { result = throws x; handler = h3 } =
        first.goes_on
        ∙ apply-ok p (between ++ q ∷ after) first.known h1 s.converter v s.found s.converted
        ∙ mid.goes_on
        ∙ apply-throws q after mid.known h3 c x e f in
      rw run (
        refl,
        mid.kept id m ∙ rw ((==_iff id s.converter.ctrl_id).1 (sym s.at_id)),
        rw ((==_iff h.update_seq h.update_seq).1 refl),
      )
