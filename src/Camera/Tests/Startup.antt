-- ===== src/Camera/Tests/Startup.antt =====
-- The start of the capture node, and buffers, at concrete inputs.
use tuw_spike.Base.{List, true, false, ℕ, ◌≡◌, refl, [], ◌∷◌, none, some, All, arith}
use tuw_spike.Camera.Buffers.{Plane, Buffer, measure, construct_buffer, destroy_buffer, move_assign}
use tuw_spike.Camera.Buffers.Vector.{Emplace, emplace_all, destroy_all}
use tuw_spike.Camera.Buffers.Vector.Balance.{emplace_all-balance}
use tuw_spike.Camera.Requests.Interleaving.{count}
use tuw_spike.Camera.Buffers.Mappings.{IsCovered, construct_buffer-IsCovered, move_assign-leaks}

-- The two planes of an image.
abbrev luma : Plane
luma = record { fd = 5; offset = 0; plane_length = 640 }

abbrev chroma : Plane
chroma = record { fd = 5; offset = 640; plane_length = 320 }

abbrev image : Buffer
image = record { mem = some 77; size = 960; stream_index = 1 }

abbrev thumbnail : Buffer
thumbnail = record { mem = some 78; size = 100; stream_index = 0 }

construct_buffer-IsCovered_example :
    All (IsCovered 4294967295 5 960) (luma ∷ chroma ∷ [])
    × ((a : ℕ) × (some 77 ≡ some a)
        × ((construct_buffer 4294967295 luma (chroma ∷ []) 1 (some 77) []).1 ≡ a ∷ []))
unfolding measure construct_buffer
construct_buffer-IsCovered_example =
    construct_buffer-IsCovered 4294967295 luma (chroma ∷ []) 1 (some 77) [] image
      (omega arith, (omega arith, tt)) refl

move_assign-leaks_example :
    let (new, old) = move_assign thumbnail image in
    destroy_buffer new (destroy_buffer old (78 ∷ 77 ∷ [])) ≡ 78 ∷ destroy_buffer image (77 ∷ [])
move_assign-leaks_example =
    move_assign-leaks thumbnail image 78 77 (77 ∷ []) refl refl (omega arith)

-- A buffer, one for which the vector grows, and one that cannot be mapped.
abbrev emplaces : List Emplace
emplaces =
    record { front = luma; planes = chroma ∷ []; stream = 0; address = some 77; full = false }
    ∷ record { front = luma; planes = chroma ∷ []; stream = 0; address = some 78; full = true }
    ∷ record { front = luma; planes = chroma ∷ []; stream = 1; address = none; full = false }
    ∷ []

emplace_all-balance_example :
    let r = emplace_all 4294967295 image emplaces [] (5 ∷ []) in
    count 77 (destroy_all r.buffers r.live) ≡ count 77 (5 ∷ [])
unfolding count
emplace_all-balance_example =
    emplace_all-balance 4294967295 image emplaces (5 ∷ []) 77 (refl, (refl, (tt, tt)))
