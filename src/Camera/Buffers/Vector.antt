-- ===== src/Camera/Buffers/Vector.antt =====
-- `buffer_ctx` of `RequestHandler`, a `std::vector<BufferContext>`: `emplace_back` constructs a context
-- and, where the vector is full, moves the others to a new place and destroys the old ones.
pub mod Balance
use tuw_spike.Base.{ℕ, Bool, true, false, List, [], ◌∷◌, ◌++◌, Option, none, some, if◌then◌else◌}
use tuw_spike.Base.Result.{Exception, Result, ok, throws}
use tuw_spike.Camera.Buffers.{Plane, Buffer, construct_buffer, destroy_buffer, move_construct}

-- An `emplace_back`: the planes of the buffer, the index of its stream, the address that `mmap` gives,
-- and whether the vector is full.
pub record Emplace : Type 0 where
  pub front : Plane
  pub planes : List Plane
  pub stream : ℕ
  pub address : Option ℕ
  pub full : Bool

-- The vector with the mappings that live, and what was thrown.
pub record Held : Type 0 where
  pub thrown : Option Exception
  pub buffers : List Buffer
  pub live : List ℕ

-- The moves to the new place, over what is there, and the ends of the old contexts.
unfoldable pub relocate : Buffer → List Buffer → List ℕ → List Buffer × List ℕ
relocate uninitialised [] live = ([], live)
relocate uninitialised (b ∷ bs) live =
    let r = move_construct uninitialised b in
    let rest = relocate uninitialised bs live in (r.0 ∷ rest.0, destroy_buffer r.1 rest.1)

abbrev pub append_buffer : Buffer → Buffer → Bool → List Buffer → List ℕ → List Buffer × List ℕ
append_buffer uninitialised b full bs live =
    let r = if full then relocate uninitialised bs live else (bs, live) in (r.0 ++ b ∷ [], r.1)

-- The new context is constructed first, so the vector stays as it is if that throws.
abbrev pub emplaced : Buffer → Bool → List Buffer → Result Buffer × List ℕ → Held
emplaced uninitialised full bs (throws e, live) = record {
  thrown = some e;
  buffers = bs;
  live = live;
}
emplaced uninitialised full bs (ok b, live) =
    let r = append_buffer uninitialised b full bs live in
    record { thrown = none; buffers = r.0; live = r.1 }

abbrev pub emplace_back : ℕ → Buffer → Emplace → List Buffer → List ℕ → Held
emplace_back invalid uninitialised o bs live =
    emplaced uninitialised o.full bs
      (construct_buffer invalid o.front o.planes o.stream o.address live)

-- One `emplace_back` after the other, until one throws.
unfoldable pub emplace_all : ℕ → Buffer → List Emplace → List Buffer → List ℕ → Held
emplace_all invalid uninitialised [] bs live = record { thrown = none; buffers = bs; live = live }
emplace_all invalid uninitialised (o ∷ more) bs live =
    let r = emplace_back invalid uninitialised o bs live in
    elim r.thrown [ some e ↦ r | none ↦ emplace_all invalid uninitialised more r.buffers r.live ]

-- The end of the vector.
unfoldable pub destroy_all : List Buffer → List ℕ → List ℕ
destroy_all [] live = live
destroy_all (b ∷ bs) live = destroy_all bs (destroy_buffer b live)
