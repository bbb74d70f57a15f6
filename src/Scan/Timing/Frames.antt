-- ===== src/Scan/Timing/Frames.antt =====
-- The records keep the order in which a frame pushes its names.
use tuw_spike.Base.{
  ℕ, zero, suc, ◌≡◌, refl, sym, ap, ◌∙◌, true, List, [], ◌∷◌, ◌++◌, append_assoc, take, max, arith,
}
use mathlib.Core.Path.{ap₂}
use tuw_spike.Base.Int.{ℤ, ◌-ℤ◌}
use tuw_spike.Base.Text.{Bytes, bytes_eq, bytes_eq_refl}
use tuw_spike.Scan.Timing.{TimeRecord, Recorder, records, start, note, fresh, push_at, push_time}

unfoldable pub names : List TimeRecord → List Bytes
names [] = []
names (t ∷ ts) = t.name ∷ names ts

-- A push of a name, and its two readings of the clock.
pub record Push : Type 0 where
  pub name : Bytes
  pub now : ℤ
  pub later : ℤ

unfoldable pub push_all : List Push → Recorder → Recorder
push_all [] r = r
push_all (p ∷ ps) r = push_all ps (push_time p.name p.now p.later r)

-- A frame.
unfoldable pub frame : ℤ → List Push → Recorder → Recorder
frame now ps r = push_all ps (start now r)

unfoldable pub pushed : List Push → List Bytes
pushed [] = []
pushed (p ∷ ps) = p.name ∷ pushed ps

names-append : (xs ys : List TimeRecord) → names (xs ++ ys) ≡ names xs ++ names ys
unfolding names
names-append [] ys = refl
names-append (x ∷ xs) ys = ap (λ l. x.name ∷ l) (names-append xs ys)

push_time-step :
    (name : Bytes) (now later : ℤ) (r : Recorder) (x : TimeRecord) (xs : List TimeRecord)
    → push_at name (now -ℤ r.last_time) r.rest ≡ (x, xs)
    → push_time name now later r
      ≡ record { last_time = later; before = r.before ++ x ∷ []; rest = xs }
unfolding push_time
push_time-step name now later r x xs e =
    ap {B = Recorder}
      (λ (p : TimeRecord × List TimeRecord). record {
        last_time = later;
        before = r.before ++ p.0 ∷ [];
        rest = p.1;
      })
      e

push_at-same :
    (name : Bytes) (d : ℤ) (t : TimeRecord) (ts : List TimeRecord)
    → t.name ≡ name
    → push_at name d (t ∷ ts) ≡ (note d t, ts)
push_at-same name d t ts e =
    let same : bytes_eq t.name name ≡ true = ap (λ x. bytes_eq x name) e ∙ bytes_eq_refl name in
    rw same refl

-- The longer of two lists of which one begins the other.
unfoldable pub longer : List Bytes → List Bytes → List Bytes
longer [] ys = ys
longer (x ∷ xs) [] = x ∷ xs
longer (x ∷ xs) (y ∷ ys) = x ∷ longer xs ys

Agrees : List Bytes → List Bytes → Type 0
Agrees [] ys = Unit
Agrees (x ∷ xs) [] = Unit
Agrees (x ∷ xs) (y ∷ ys) = (y ≡ x) × Agrees xs ys

take-Agrees : (ns : List Bytes) (k m : ℕ) → Agrees (take k ns) (take m ns)
unfolding Agrees
take-Agrees [] zero m = tt
take-Agrees [] (suc k) m = tt
take-Agrees (n ∷ ns) zero m = tt
take-Agrees (n ∷ ns) (suc k) zero = tt
take-Agrees (n ∷ ns) (suc k) (suc m) = (refl, take-Agrees ns k m)

take-nil : (k : ℕ) → take {A = Bytes} k [] ≡ []
take-nil zero = refl
take-nil (suc k) = refl

longer-take : (ns : List Bytes) (k m : ℕ) → longer (take k ns) (take m ns) ≡ take (max k m) ns
unfolding longer
longer-take [] k m = ap₂ longer (take-nil k) (take-nil m) ∙ sym (take-nil (max k m))
longer-take (n ∷ ns) zero m = let e : m ≡ max zero m = omega arith in ap (λ i. take i (n ∷ ns)) e
longer-take (n ∷ ns) (suc k) zero =
    let e : suc k ≡ max (suc k) zero = omega arith in ap (λ i. take i (n ∷ ns)) e
longer-take (n ∷ ns) (suc k) (suc m) =
    let e : suc (max k m) ≡ max (suc k) (suc m) = omega arith in
    ap (λ l. n ∷ l) (longer-take ns k m) ∙ ap (λ i. take i (n ∷ ns)) e

abbrev recorder : ℤ → List TimeRecord → List TimeRecord → Recorder
recorder l b rs = record { last_time = l; before = b; rest = rs }

snoc-names :
    (b : List TimeRecord) (x : TimeRecord) (n : Bytes) (l : List Bytes)
    → x.name ≡ n
    → names (b ++ x ∷ []) ++ l ≡ names b ++ n ∷ l
unfolding names
snoc-names b x n l e =
    ap (λ y. y ++ l) (names-append b (x ∷ []))
    ∙ append_assoc (names b) (x.name ∷ []) l
    ∙ ap (λ y. names b ++ y ∷ l) e

Agrees-nil : (xs : List Bytes) → Agrees xs []
unfolding Agrees
Agrees-nil [] = tt
Agrees-nil (x ∷ xs) = tt

longer-nil : (xs : List Bytes) → longer xs [] ≡ xs
unfolding longer
longer-nil [] = refl
longer-nil (x ∷ xs) = refl

-- One push, before the others.
push_all-step :
    (p : Push) (ps : List Push) (l : ℤ) (b rs xs : List TimeRecord) (x : TimeRecord)
    → push_at p.name (p.now -ℤ l) rs ≡ (x, xs)
    → push_all (p ∷ ps) (recorder l b rs) ≡ push_all ps (recorder p.later (b ++ x ∷ []) xs)
unfolding push_all
push_all-step p ps l b rs xs x e =
    ap (push_all ps) (push_time-step p.name p.now p.later (recorder l b rs) x xs e)

Agrees-names-nil : (ps : List Push) → Agrees (pushed ps) (names [])
unfolding names
Agrees-names-nil ps = Agrees-nil (pushed ps)

Agrees-cons :
    (p : Push) (ps : List Push) (t : TimeRecord) (ts : List TimeRecord)
    → Agrees (pushed (p ∷ ps)) (names (t ∷ ts))
    → (t.name ≡ p.name) × Agrees (pushed ps) (names ts)
unfolding Agrees pushed names
Agrees-cons p ps t ts h = h

first-new :
    (b : List TimeRecord) (x : TimeRecord) (p : Push) (ps : List Push)
    → x.name ≡ p.name
    → names (b ++ x ∷ []) ++ longer (pushed ps) (names [])
      ≡ names b ++ longer (pushed (p ∷ ps)) (names [])
unfolding names pushed longer
first-new b x p ps e =
    ap (λ l. names (b ++ x ∷ []) ++ l) (longer-nil (pushed ps))
    ∙ snoc-names b x p.name (pushed ps) e

first-old :
    (b : List TimeRecord) (x t : TimeRecord) (p : Push) (ps : List Push) (ts : List TimeRecord)
    → x.name ≡ p.name
    → names (b ++ x ∷ []) ++ longer (pushed ps) (names ts)
      ≡ names b ++ longer (pushed (p ∷ ps)) (names (t ∷ ts))
unfolding names pushed longer
first-old b x t p ps ts e = snoc-names b x p.name (longer (pushed ps) (names ts)) e

push_all-names :
    (ps : List Push) (l : ℤ) (b rs : List TimeRecord)
    → Agrees (pushed ps) (names rs)
    → names (records (push_all ps (recorder l b rs))) ≡ names b ++ longer (pushed ps) (names rs)
push_all-names [] l b rs h = unfold push_all pushed longer in names-append b rs
push_all-names (p ∷ ps) l b [] h =
    let x = note (p.now -ℤ l) (fresh p.name) in
    ap (λ q. names (records q)) (push_all-step p ps l b [] [] x refl)
    ∙ push_all-names ps p.later (b ++ x ∷ []) [] (Agrees-names-nil ps)
    ∙ first-new b x p ps refl
push_all-names (p ∷ ps) l b (t ∷ ts) h =
    let x = note (p.now -ℤ l) t in
    let (same, more) = Agrees-cons p ps t ts h in
    ap (λ q. names (records q))
      (push_all-step p ps l b (t ∷ ts) ts x (push_at-same p.name (p.now -ℤ l) t ts same))
    ∙ push_all-names ps p.later (b ++ x ∷ []) ts more
    ∙ first-old b x t p ps ts same

-- A frame that pushes the first `k` names, on a recorder that holds the first `m`: it holds the
-- longer of the two afterwards, in their order and each once, so records of later frames are those of
-- the first.
pub frame-names :
    (ns : List Bytes) (k m : ℕ) (now : ℤ) (ps : List Push) (r : Recorder)
    → pushed ps ≡ take k ns
    → names (records r) ≡ take m ns
    → names (records (frame now ps r)) ≡ take (max k m) ns
unfolding frame start
frame-names ns k m now ps r e f =
    push_all-names ps now [] (records r) (rw (e, f) (take-Agrees ns k m))
    ∙ unfold names in (ap₂ longer e f ∙ longer-take ns k m)
