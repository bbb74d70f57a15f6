-- ===== src/Spawn.antt =====
-- tuw_spike_simulation/src/spawn_robot.cpp: whether the robot is created, and the exit code. The
-- wait for the description is over; the services of the simulator are parameters.
pub mod Decision
mod Tests
use tuw_spike.Base.{
  ℕ, Bool, true, false, not, ◌&&◌, List, [], ◌∷◌, Option, none, some, if◌then◌else◌,
}
use tuw_spike.Base.Text.{Bytes, bytes, bytes_eq}
use tuw_spike.Base.Result.{out_of_range, Result, ok, throws, ◌>>=◌}

-- What `Request` and its `result` say: a time-out, a failed call, or the answer.
pub data Reply (A : Type 0) : Type 0 where
  timed_out : Reply A
  call_failed : Reply A
  answered : A → Reply A

-- `ignition::msgs::EntityFactory`; `D` is a double.
pub record EntityFactory (D : Type 0) : Type 0 where
  pub sdf : Bytes
  pub name : Bytes
  pub x : D
  pub y : D
  pub z : D

-- `exists` and `success`.
pub record Flags : Type 0 where
  pub exists : Bool
  pub success : Bool

-- The request that was sent, if any, and the exit code.
pub record Spawned (D : Type 0) : Type 0 where
  pub sent : Option (EntityFactory D)
  pub exit_code : ℕ

-- `name.substr(1)`, and the default.
abbrev pub robot_name : Bytes → Result Bytes
robot_name [] = throws out_of_range
robot_name (slash ∷ []) = ok (bytes "robot0")
robot_name (slash ∷ c ∷ rest) = ok (c ∷ rest)

-- The loop over the models of the scene.
unfoldable pub scan_models : Bytes → List Bytes → Flags → Flags
scan_models name [] f = f
scan_models name (m ∷ ms) f =
    scan_models name ms (if bytes_eq name m then record { exists = true; success = false } else f)

abbrev pub scan_scene : Bytes → Reply (List Bytes) → Flags
scan_scene name timed_out = record { exists = false; success = false }
scan_scene name call_failed = record { exists = false; success = false }
scan_scene name (answered models) =
    scan_models name models (record { exists = false; success = true })

abbrev pub exit_of : Bool → ℕ
exit_of success = if success then 0 else 1

-- `success` behind the second call; what the answer says is only printed.
abbrev pub created : Reply Bool → Bool
created timed_out = false
created call_failed = false
created (answered done) = true

abbrev pub create_entity :
    {D : Type 0} → EntityFactory D → (EntityFactory D → Reply Bool) → Flags → Spawned D
create_entity req create f =
    if not f.exists && f.success
    then record { sent = some req; exit_code = exit_of (created (create req)) }
    else record { sent = none; exit_code = exit_of f.success }

-- `main`, over the effective namespace, the description, the pose (`z` is 0.1), and what the two
-- services reply.
unfoldable pub main :
    {D : Type 0}
    → Bytes
    → Bytes
    → D
    → D
    → D
    → Reply (List Bytes)
    → (EntityFactory D → Reply Bool)
    → Result (Spawned D)
main namespace description x y z scene create = do
  name ← robot_name namespace
  ok (
      create_entity (record { sdf = description; name = name; x = x; y = y; z = z }) create
        (scan_scene name scene))
