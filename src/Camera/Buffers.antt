-- ===== src/Camera/Buffers.antt =====
-- `BufferContext` of tuw_libcamera/src/capture/buffer_context.cpp, over the mappings that live.
pub mod Mappings
pub mod Vector
use tuw_spike.Base.{
  ℕ, ◌+◌, ◌%◌, ◌^◌, ◌≡◌, Bool, true, false, not, List, [], ◌∷◌, Option, none, some, ◌==◌, max,
  if◌then◌else◌,
}
use tuw_spike.Base.Int.{ℤ}
use tuw_spike.Base.Words.{signed32}
use tuw_spike.Base.Result.{Exception, runtime_error, Result, ok, throws}

-- `libcamera::FrameBuffer::Plane`
pub record Plane : Type 0 where
  pub fd : ℕ
  pub offset : ℕ
  pub plane_length : ℕ

-- `mem` is null for `none`, and else the address of a mapping.
pub record Buffer : Type 0 where
  pub mem : Option ℕ
  pub size : ℕ
  pub stream_index : ℕ

-- The loop of the constructor; `invalid` is libcamera's `kInvalidOffset`, and the sum is one of two
-- unsigned ints.
unfoldable pub measure : ℕ → ℕ → List Plane → ℕ → Result ℕ
measure invalid fd [] size = ok size
measure invalid fd (p ∷ ps) size =
    let rest = measure invalid fd ps (max size ((p.offset + p.plane_length) % 2 ^ 32)) in
    if not (fd == p.fd)
    then throws runtime_error
    else if p.offset == invalid
    then throws runtime_error
    else rest

-- `mmap`, with the address that it gives, or none if it fails.
abbrev pub mapped : ℕ → ℕ → Option ℕ → List ℕ → Result Buffer × List ℕ
mapped stream size none live = (throws runtime_error, live)
mapped stream size (some a) live =
    (ok (record { mem = some a; size = size; stream_index = stream }), a ∷ live)

abbrev pub measured : ℕ → Option ℕ → Result ℕ → List ℕ → Result Buffer × List ℕ
measured stream address (throws e) live = (throws e, live)
measured stream address (ok size) live = mapped stream size address live

-- The constructor on a buffer of at least one plane.
unfoldable pub construct_buffer :
    ℕ → Plane → List Plane → ℕ → Option ℕ → List ℕ → Result Buffer × List ℕ
construct_buffer invalid front planes stream address live =
    measured stream address (measure invalid front.fd (front ∷ planes) 0) live

-- `munmap`
unfoldable pub unmap : ℕ → List ℕ → List ℕ
unmap a [] = []
unmap a (b ∷ live) = let rest = unmap a live in if a == b then rest else b ∷ rest

-- The destructor.
unfoldable pub destroy_buffer : Buffer → List ℕ → List ℕ
destroy_buffer b live = elim b.mem [ none ↦ live | some a ↦ unmap a live ]

-- `operator=(BufferContext &&)`: what the two hold afterwards. It neither maps nor unmaps.
unfoldable pub move_assign : Buffer → Buffer → Buffer × Buffer
move_assign this other = (
  record { mem = other.mem; size = other.size; stream_index = other.stream_index },
  record { mem = none; size = 0; stream_index = 0 },
)

-- `BufferContext(BufferContext &&other)`, over what its members hold before they are set.
abbrev pub move_construct : Buffer → Buffer → Buffer × Buffer
move_construct uninitialised other = move_assign uninitialised other

-- `data()`, and `mat()` by its columns and its address.
abbrev pub data_span : Buffer → Option ℕ × ℕ
data_span b = (b.mem, b.size)

abbrev pub mat : Buffer → ℤ × Option ℕ
mat b = (signed32 b.size, b.mem)

-- `stream_idx`
abbrev pub stream_idx : Buffer → ℕ
stream_idx b = b.stream_index
