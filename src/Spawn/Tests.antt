-- ===== src/Spawn/Tests.antt =====
-- A robot that is there already.
use tuw_spike.Base.{ℕ, ◌≡◌, ◌≢◌, ◌⊎◌, refl, Bool, false, List, [], ◌∷◌, none, some, All}
use tuw_spike.Base.Text.{Bytes, bytes}
use tuw_spike.Base.Result.{ok}
use tuw_spike.Spawn.{Reply, answered, EntityFactory, main}
use tuw_spike.Spawn.Decision.{Refuses, Exits, main-decides}

abbrev create : EntityFactory ℕ → Reply Bool
create req = answered false

abbrev scene : Reply (List Bytes)
scene = answered (bytes "ground" ∷ bytes "r1" ∷ [])

abbrev robot : EntityFactory ℕ
robot = record { sdf = bytes "sdf"; name = bytes "r1"; x = 1; y = 2; z = 0 }

main-decides_example :
    ((main (bytes "/r1") (bytes "sdf") 1 2 0 scene create
        ≡ ok (record { sent = none; exit_code = 1 }))
      × Refuses (bytes "r1") scene)
    ⊎ ((code : ℕ) × (main (bytes "/r1") (bytes "sdf") 1 2 0 scene create
          ≡ ok (record { sent = some robot; exit_code = code }))
        × Exits (create robot) code
        × (models : List Bytes) × (scene ≡ answered models)
        × All (λ m. m ≢ bytes "r1") models)
main-decides_example = main-decides create (bytes "/r1") (bytes "sdf") (bytes "r1") 1 2 0 scene refl
