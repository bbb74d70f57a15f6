-- ===== src/Camera/Manager/Single.antt =====
-- One camera manager per process.
use tuw_spike.Base.{
  ℕ, zero, suc, ◌==◌, ◌≡◌, refl, sym, ap, ◌∙◌, true, List, [], ◌∷◌, Option, none, some, All, arith,
  length, ltb, ◌-◌, ◌+◌, if◌then◌else◌, ==_iff,
}
use mathlib.Core.Path.{subst}
use tuw_spike.Camera.Manager.{
  Process, alive, lock, share_or_start, init_camera_manager, let_go, Event, construct_node,
  destroy_node, on_event, run,
}

-- All nodes hold the manager of the weak pointer.
abbrev pub IsSingle : Process → Type 0
IsSingle p = All (λ (o : ℕ). p.cam_manager_instance ≡ some o) p.owners

-- A node that comes to `n` others starts a manager if there are none.
abbrev pub starts_with : ℕ → ℕ
starts_with n = if n == 0 then 1 else 0

-- How many managers are started when nodes come and go, by the number of nodes alone.
unfoldable pub starts : ℕ → List Event → ℕ
starts n [] = 0
starts n (construct_node ∷ es) = starts_with n + starts (suc n) es
starts n (destroy_node k ∷ es) = starts (if ltb k n then n - 1 else n) es

lock-empty : (w : Option ℕ) → lock w [] ≡ none
unfolding alive
lock-empty none = refl
lock-empty (some m) = refl

lock-held : (w : Option ℕ) (o : ℕ) (os : List ℕ) → w ≡ some o → lock w (o ∷ os) ≡ some o
unfolding alive
lock-held w o os e =
    let same : (o == o) ≡ true = (==_iff o o).1 refl in ap (λ x. lock x (o ∷ os)) e ∙ rw same refl

let_go-All : (P : ℕ → Type 0) (k : ℕ) (owners : List ℕ) → All P owners → All P (let_go k owners)
unfolding let_go
let_go-All P k [] h = tt
let_go-All P zero (o ∷ os) h = h.1
let_go-All P (suc k) (o ∷ os) h = (h.0, let_go-All P k os h.1)

length-let_go :
    (k : ℕ) (owners : List ℕ)
    → length (let_go k owners)
      ≡ (if ltb k (length owners) then length owners - 1 else length owners)
unfolding let_go
length-let_go k [] = ground arith
length-let_go zero (o ∷ os) = ground arith
length-let_go (suc k) (o ∷ os) = let ih = length-let_go k os in ground arith

abbrev process : Option ℕ → List ℕ → ℕ → Process
process w owners n = record { cam_manager_instance = w; owners = owners; started = n }

-- What a constructor leaves.
record Joined (p q : Process) : Type 0 where
  pub single : IsSingle q
  pub nodes : length q.owners ≡ suc (length p.owners)
  pub count : q.started ≡ p.started + starts_with (length p.owners)

init_camera_manager-Joined :
    (w : Option ℕ) (owners : List ℕ) (n : ℕ)
    → IsSingle (process w owners n)
    → Joined (process w owners n) (init_camera_manager (process w owners n))
init_camera_manager-Joined w [] n h =
    subst (λ l. Joined (process w [] n) (share_or_start (process w [] n) l)) (sym (lock-empty w))
      (record { single = (refl, tt); nodes = refl; count = omega arith })
init_camera_manager-Joined w (o ∷ os) n h =
    subst (λ l. Joined (process w (o ∷ os) n) (share_or_start (process w (o ∷ os) n) l))
      (sym (lock-held w o os h.0))
      (record { single = (h.0, h); nodes = refl; count = ground arith })

-- In a process in which nodes come and go in any order, from none on, all nodes hold one camera manager,
-- that of the weak pointer; and as many managers are started as nodes come to a process without another,
-- so none is started while another one lives.
pub run-IsSingle :
    (es : List Event) (p : Process)
    → IsSingle p
    → IsSingle (run es p) × ((run es p).started ≡ p.started + starts (length p.owners) es)
unfolding run starts
run-IsSingle [] p h = (h, omega arith)
run-IsSingle (construct_node ∷ es) p h =
    let j = init_camera_manager-Joined p.cam_manager_instance p.owners p.started h in
    let (single, count) = run-IsSingle es (init_camera_manager p) j.single in
    let nodes = ap (λ n. starts n es) j.nodes in (single, omega (arith, count, nodes, j.count))
run-IsSingle (destroy_node k ∷ es) p h =
    let (single, count) =
      run-IsSingle es (on_event (destroy_node k) p) (let_go-All _ k p.owners h) in
    let nodes = ap (λ n. starts n es) (length-let_go k p.owners) in
    (single, omega (arith, count, nodes))
