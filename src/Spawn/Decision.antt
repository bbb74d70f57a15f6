-- ===== src/Spawn/Decision.antt =====
-- When the robot is created.
use tuw_spike.Base.{
  ℕ, ◌≡◌, ◌≢◌, ◌⊎◌, inl, inr, refl, sym, ap, ◌∙◌, Bool, true, false, List, [], ◌∷◌, ◌++◌, none,
  some, All, Bool-cases,
}
use tuw_spike.Base.Text.{Bytes, bytes_eq, bytes_eq_refl, bytes_eq→eq}
use tuw_spike.Base.Result.{ok, ◌>>=◌}
use tuw_spike.Spawn.{
  Reply, timed_out, call_failed, answered, EntityFactory, Flags, Spawned, robot_name, scan_models,
  scan_scene, exit_of, created, create_entity, main,
}

abbrev found : Flags
found = record { exists = true; success = false }

abbrev clear : Flags
clear = record { exists = false; success = true }

scan_models-found : (name : Bytes) (ms : List Bytes) → scan_models name ms found ≡ found
unfolding scan_models
scan_models-found name [] = refl
scan_models-found name (m ∷ ms) = elim (Bool-cases (bytes_eq name m)) [
  | inl e ↦ rw (scan_models, e) (scan_models-found name ms)
  | inr e ↦ rw (scan_models, e) (scan_models-found name ms)
]

differs : (a b : Bytes) → bytes_eq a b ≡ false → b ≢ a
differs a b e z = cc (e, ap (bytes_eq a) z, bytes_eq_refl a)

-- A model of the name is in the scene, or none is.
scan_models-cases :
    (name : Bytes) (ms : List Bytes)
    → ((scan_models name ms clear ≡ found)
        × (before : List Bytes) × (after : List Bytes) × (ms ≡ before ++ name ∷ after))
      ⊎ ((scan_models name ms clear ≡ clear) × All (λ m. m ≢ name) ms)
unfolding scan_models
scan_models-cases name [] = inr (refl, tt)
scan_models-cases name (m ∷ ms) = elim (Bool-cases (bytes_eq name m)) [
  | inl e ↦ inl (
    rw (scan_models, e) (scan_models-found name ms),
    [],
    ms,
    ap (λ x. x ∷ ms) (sym (bytes_eq→eq name m e)),
  )
  | inr e ↦ elim (scan_models-cases name ms) [
    | inl (f, before, after, same) ↦
        inl (rw (scan_models, e) f, m ∷ before, after, ap (λ l. m ∷ l) same)
    | inr (c, all) ↦ inr (rw (scan_models, e) c, (differs name m e, all))
  ]
]

-- Why no robot is created.
abbrev pub Refuses : Bytes → Reply (List Bytes) → Type 0
Refuses name scene =
    (scene ≡ timed_out)
    ⊎ (scene ≡ call_failed)
    ⊎ ((before : List Bytes) × (after : List Bytes) × (scene ≡ answered (before ++ name ∷ after)))

-- What the reply to the second call means for the exit code.
abbrev pub Exits : Reply Bool → ℕ → Type 0
Exits reply code =
    ((code ≡ 0) × (done : Bool) × (reply ≡ answered done))
    ⊎ ((code ≡ 1) × ((reply ≡ timed_out) ⊎ (reply ≡ call_failed)))

exit_of-Exits : (reply : Reply Bool) → Exits reply (exit_of (created reply))
exit_of-Exits timed_out = inr (refl, inl refl)
exit_of-Exits call_failed = inr (refl, inr refl)
exit_of-Exits (answered done) = inl (refl, done, refl)

module _ {D : Type 0} (create : EntityFactory D → Reply Bool) where
  abbrev refused : Spawned D
  refused = record { sent = none; exit_code = 1 }

  -- The exit code by the reply to the second call.
  abbrev tried : EntityFactory D → Spawned D
  tried req = record { sent = some req; exit_code = exit_of (created (create req)) }

  create_entity-cases :
      (req : EntityFactory D) (scene : Reply (List Bytes))
      → ((create_entity req create (scan_scene req.name scene) ≡ refused) × Refuses req.name scene)
        ⊎ ((create_entity req create (scan_scene req.name scene) ≡ tried req)
            × (models : List Bytes) × (scene ≡ answered models)
            × All (λ m. m ≢ req.name) models)
  create_entity-cases req timed_out = inl (refl, inl refl)
  create_entity-cases req call_failed = inl (refl, inr (inl refl))
  create_entity-cases req (answered ms) = elim (scan_models-cases req.name ms) [
    | inl (f, before, after, same) ↦
        inl (ap (create_entity req create) f, inr (inr (before, after, ap answered same)))
    | inr (c, all) ↦ inr (ap (create_entity req create) c, ms, refl, all)
  ]

  -- `main` of the spawner, for a namespace with a name: either nothing is sent and the exit code is 1,
  -- and the scene was not told or has a model of the name, or the scene was told and has no model of
  -- the name, the entity with the name, the description and the pose is requested, and the exit code
  -- is 0 if that call is answered, whatever the answer, and 1 if it times out or fails.
  pub main-decides :
      (namespace description name : Bytes) (x y z : D) (scene : Reply (List Bytes))
      → robot_name namespace ≡ ok name
      → let req : EntityFactory D = record {
        sdf = description;
        name = name;
        x = x;
        y = y;
        z = z;
      } in
        ((main namespace description x y z scene create
            ≡ ok (record { sent = none; exit_code = 1 }))
          × Refuses name scene)
        ⊎ ((code : ℕ) × (main namespace description x y z scene create
              ≡ ok (record { sent = some req; exit_code = code }))
            × Exits (create req) code
            × (models : List Bytes) × (scene ≡ answered models)
            × All (λ m. m ≢ name) models)
  unfolding main
  main-decides namespace description name x y z scene e =
      let req : EntityFactory D = record { sdf = description; name = name; x = x; y = y; z = z } in
      let run : main namespace description x y z scene create
          ≡ ok (create_entity req create (scan_scene name scene)) =
        ap
          (λ n. n >>= λ k. ok (
            create_entity (record { sdf = description; name = k; x = x; y = y; z = z }) create
              (scan_scene k scene)))
          e in
      elim (create_entity-cases req scene) [
        | inl (r, why) ↦ inl (run ∙ ap ok r, why)
        | inr (r, models, told, all) ↦ inr (
          exit_of (created (create req)),
          run ∙ ap ok r,
          exit_of-Exits (create req),
          models,
          told,
          all,
        )
      ]
