-- ===== src/Camera/Buffers/Vector/Balance.antt =====
-- Every mapping of the vector ends with it, and no other.
use tuw_spike.Base.{
  ℕ, ◌≡◌, refl, sym, ap, ◌∙◌, Bool, true, false, List, [], ◌∷◌, ◌++◌, Option, none, some, ◌==◌,
  ◌||◌, if◌then◌else◌, All, arith, inl, inr, ◌⊎◌,
}
use mathlib.Core.Path.{subst}
use tuw_spike.Base.Result.{Exception, Result, ok, throws}
use tuw_spike.Camera.Requests.Interleaving.{count}
use tuw_spike.Camera.Buffers.{
  Buffer, measure, measured, construct_buffer, unmap, destroy_buffer, move_assign,
}
use tuw_spike.Camera.Buffers.Vector.{
  Emplace, Held, relocate, append_buffer, emplaced, emplace_all, destroy_all,
}

relocate-same : (u : Buffer) (bs : List Buffer) (live : List ℕ) → relocate u bs live ≡ (bs, live)
unfolding relocate move_assign destroy_buffer
relocate-same u [] live = refl
relocate-same u (b ∷ bs) live =
    let ih = relocate-same u bs live in ap {B = List Buffer × List ℕ} (λ r. (b ∷ r.0, r.1)) ih

abbrev is_at : ℕ → Option ℕ → Bool
is_at a none = false
is_at a (some m) = a == m

-- A context of the vector has the mapping.
unfoldable has : ℕ → List Buffer → Bool
has a [] = false
has a (b ∷ bs) = is_at a b.mem || has a bs

has-snoc :
    (a : ℕ) (bs : List Buffer) (b : Buffer) → has a (bs ++ b ∷ []) ≡ (has a bs || is_at a b.mem)
unfolding has
has-snoc a [] b = ground arith
has-snoc a (x ∷ bs) b = let ih = has-snoc a bs b in ground arith

count-unmap :
    (a b : ℕ) (live : List ℕ) → count a (unmap b live) ≡ (if a == b then 0 else count a live)
unfolding count unmap
count-unmap a b [] = ground arith
count-unmap a b (x ∷ live) = let ih = count-unmap a b live in ground arith

count-destroy_buffer :
    (a : ℕ) (m : Option ℕ) (size stream : ℕ) (live : List ℕ)
    → count a (destroy_buffer (record { mem = m; size = size; stream_index = stream }) live)
      ≡ (if is_at a m then 0 else count a live)
unfolding destroy_buffer
count-destroy_buffer a none size stream live = refl
count-destroy_buffer a (some m) size stream live = count-unmap a m live

if_or : (p q : Bool) (n : ℕ) → (if q then 0 else if p then 0 else n) ≡ (if p || q then 0 else n)
if_or true true n = refl
if_or true false n = refl
if_or false true n = refl
if_or false false n = refl

count-destroy_all :
    (a : ℕ) (bs : List Buffer) (live : List ℕ)
    → count a (destroy_all bs live) ≡ (if has a bs then 0 else count a live)
unfolding destroy_all has
count-destroy_all a [] live = refl
count-destroy_all a (b ∷ bs) live =
    count-destroy_all a bs (destroy_buffer b live)
    ∙ ap (λ n. if has a bs then 0 else n) (count-destroy_buffer a b.mem b.size b.stream_index live)
    ∙ if_or (is_at a b.mem) (has a bs) (count a live)

-- The mapping `a` lives as often as before, unless the vector has it, and then it did not live before.
Balanced : List ℕ → ℕ → List Buffer → List ℕ → Type 0
Balanced before a bs live =
    ((has a bs ≡ true) × (count a before ≡ 0))
    ⊎ ((has a bs ≡ false) × (count a live ≡ count a before))

-- `mmap` gives an address at which nothing was mapped.
abbrev pub IsNew : List ℕ → Option ℕ → Type 0
IsNew before none = Unit
IsNew before (some a) = count a before ≡ 0

-- What the constructor of a context leaves.
abbrev Constructed : Option ℕ → List ℕ → Result Buffer × List ℕ → Type 0
Constructed address live r =
    ((e : Exception) × (r ≡ (throws e, live)))
    ⊎ ((b : Buffer) × (m : ℕ) × (r ≡ (ok b, m ∷ live)) × (b.mem ≡ some m) × (address ≡ some m))

measured-Constructed :
    (stream : ℕ) (address : Option ℕ) (size : Result ℕ) (live : List ℕ)
    → Constructed address live (measured stream address size live)
measured-Constructed stream address (throws e) live = inl (e, refl)
measured-Constructed stream none (ok size) live = inl (_, refl)
measured-Constructed stream (some m) (ok size) live = inr (_, m, refl, refl, refl)

Balanced-snoc :
    (before : List ℕ) (a m : ℕ) (bs : List Buffer) (b : Buffer) (live : List ℕ)
    → b.mem ≡ some m
    → count m before ≡ 0
    → Balanced before a bs live
    → Balanced before a (bs ++ b ∷ []) (m ∷ live)
unfolding Balanced count
Balanced-snoc before a m bs b live e new h =
    let step = has-snoc a bs b ∙ ap (λ o. has a bs || is_at a o) e in ground arith

appended :
    (u : Buffer) (b : Buffer) (full : Bool) (bs : List Buffer) (live : List ℕ)
    → append_buffer u b full bs live ≡ (bs ++ b ∷ [], live)
appended u b true bs live =
    ap {B = List Buffer × List ℕ} (λ r. (r.0 ++ b ∷ [], r.1)) (relocate-same u bs live)
appended u b false bs live = refl

abbrev follow : ℕ → Buffer → List Emplace → Held → Held
follow invalid u more r = elim r.thrown [
  | some e ↦ r
  | none ↦ emplace_all invalid u more r.buffers r.live
]

emplace_all-follow :
    (invalid : ℕ) (u : Buffer) (o : Emplace) (more : List Emplace) (bs : List Buffer)
    (live : List ℕ) (r : Result Buffer × List ℕ)
    → construct_buffer invalid o.front o.planes o.stream o.address live ≡ r
    → emplace_all invalid u (o ∷ more) bs live ≡ follow invalid u more (emplaced u o.full bs r)
unfolding emplace_all
emplace_all-follow invalid u o more bs live r e =
    ap (λ x. follow invalid u more (emplaced u o.full bs x)) e

construct_buffer-Constructed :
    (invalid : ℕ) (o : Emplace) (live : List ℕ)
    → Constructed o.address live (construct_buffer invalid o.front o.planes o.stream o.address live)
unfolding construct_buffer
construct_buffer-Constructed invalid o live =
    measured-Constructed o.stream o.address (measure invalid o.front.fd (o.front ∷ o.planes) 0) live

abbrev BalancedHeld : List ℕ → ℕ → Held → Type 0
BalancedHeld before a r = Balanced before a r.buffers r.live

emplace_all-Balanced :
    (invalid : ℕ) (u : Buffer) (os : List Emplace) (before : List ℕ) (a : ℕ) (bs : List Buffer)
    (live : List ℕ)
    → All (λ (o : Emplace). IsNew before o.address) os
    → Balanced before a bs live
    → BalancedHeld before a (emplace_all invalid u os bs live)
emplace_all-Balanced invalid u [] before a bs live new h = unfold emplace_all in h
emplace_all-Balanced invalid u (o ∷ more) before a bs live new h =
    elim (construct_buffer-Constructed invalid o live) [
      | inl (e, made) ↦
          subst (BalancedHeld before a) (sym (emplace_all-follow invalid u o more bs live _ made)) h
      | inr (b, m, made, mem, at) ↦
          let fresh : count m before ≡ 0 = subst (IsNew before) at new.0 in
          let ih =
            emplace_all-Balanced invalid u more before a (bs ++ b ∷ []) (m ∷ live) new.1
              (Balanced-snoc before a m bs b live mem fresh h) in
          let run =
            emplace_all-follow invalid u o more bs live _ made
            ∙ ap (λ (r : List Buffer × List ℕ). emplace_all invalid u more r.0 r.1)
                (appended u b o.full bs (m ∷ live)) in
          subst (BalancedHeld before a) (sym run) ih
    ]

-- A vector of buffers over its life: whatever is added, wherever it grows, and also if a constructor
-- throws, destroying what it holds then leaves each mapping as often as before, if `mmap` gives addresses
-- at which nothing was mapped. So no mapping leaks, and none but its own is unmapped.
pub emplace_all-balance :
    (invalid : ℕ) (uninitialised : Buffer) (os : List Emplace) (before : List ℕ) (a : ℕ)
    → All (λ (o : Emplace). IsNew before o.address) os
    → let r = emplace_all invalid uninitialised os [] before in
      count a (destroy_all r.buffers r.live) ≡ count a before
unfolding Balanced has
emplace_all-balance invalid uninitialised os before a new =
    let r = emplace_all invalid uninitialised os [] before in
    let balanced =
      emplace_all-Balanced invalid uninitialised os before a [] before new (inr (refl, refl)) in
    count-destroy_all a r.buffers r.live
    ∙ elim balanced [ inl (t, z) ↦ rw t (sym z) | inr (f, c) ↦ rw f c ]
