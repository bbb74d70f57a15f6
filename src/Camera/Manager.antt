-- ===== src/Camera/Manager.antt =====
-- `init_camera_manager` of tuw_libcamera/src/capture/capture_node.cpp, and the camera managers of the
-- nodes of a process. The mutex makes each call of it one step.
pub mod Single
use tuw_spike.Base.{
  ℕ, suc, zero, ◌==◌, Bool, true, false, List, [], ◌∷◌, Option, none, some, if◌then◌else◌,
}

-- `cam_manager_instance`, the managers that the nodes hold as `cam_manager`, one for each node, and how
-- many managers were started. A manager is its number.
pub record Process : Type 0 where
  pub cam_manager_instance : Option ℕ
  pub owners : List ℕ
  pub started : ℕ

-- Whether a node still holds the manager.
unfoldable pub alive : ℕ → List ℕ → Bool
alive m [] = false
alive m (o ∷ os) = let rest = alive m os in if o == m then true else rest

-- `cam_manager_instance.lock()`
abbrev pub lock : Option ℕ → List ℕ → Option ℕ
lock none owners = none
lock (some m) owners = if alive m owners then some m else none

-- The manager that was found, or a new one.
abbrev pub share_or_start : Process → Option ℕ → Process
share_or_start p (some m) = record p { owners = m ∷ p.owners }
share_or_start p none = record {
  cam_manager_instance = some p.started;
  owners = p.started ∷ p.owners;
  started = suc p.started;
}

-- `cam_manager = init_camera_manager()` of a node.
abbrev pub init_camera_manager : Process → Process
init_camera_manager p = share_or_start p (lock p.cam_manager_instance p.owners)

-- The end of the node `k`, which lets its manager go.
unfoldable pub let_go : ℕ → List ℕ → List ℕ
let_go k [] = []
let_go zero (o ∷ os) = os
let_go (suc k) (o ∷ os) = o ∷ let_go k os

-- Nodes of a process come and go.
pub data Event : Type 0 where
  construct_node : Event
  destroy_node : ℕ → Event

abbrev pub on_event : Event → Process → Process
on_event construct_node p = init_camera_manager p
on_event (destroy_node k) p = record p { owners = let_go k p.owners }

unfoldable pub run : List Event → Process → Process
run [] p = p
run (e ∷ es) p = run es (on_event e p)

-- A process before its first node.
abbrev pub no_managers : Process
no_managers = record { cam_manager_instance = none; owners = []; started = 0 }
