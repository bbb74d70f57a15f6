-- ===== src/Control/Motor/Reports.antt =====
-- What `read` makes of the reports that the Build HAT prints, against the abstract view in which
-- the last report of a wheel counts.
use tuw_spike.Base.{
  ℕ, suc, ◌+◌, ◌≤◌, ◌<◌, ◌^◌, ◌≡◌, ◌≢◌, refl, sym, ap, ◌∙◌, List, [], ◌∷◌, ◌++◌, ◌==◌, leb,
  if◌then◌else◌, append_assoc, append-nil, length, take, All, All-append, arith, true, Option, some,
  length-append, map,
}
use tuw_spike.Base.Int.{ℤ, pos, negsuc}
use tuw_spike.Base.Words.{IsInt32}
use tuw_spike.Base.Text.{Bytes, bytes_eq}
use tuw_spike.Base.Result.{ok, Outcome, done, and_then}
use tuw_spike.Base.Decimal.{
  to_string, digits, digits-small, digits-cons, digits_one, length-to_string-le,
}
use tuw_spike.Control.Status.{
  Fields, fields, line_complete, process, stoi, stoi_into, int_to_string, stoi-int_to_string,
}
use tuw_spike.Control.Status.Lines.{NoSpace, status_line, fields-status_line}
use tuw_spike.Control.Status.Process.{NoNewline, process-line}
use tuw_spike.Control.Motor.{Readings, port_string, read_fields}

-- A status line of the HAT: the port with the values of modes 1, 2 and 3.
pub record Report : Type 0 where
  pub port : ℕ
  pub speed : ℤ
  pub apos : ℤ
  pub third : ℤ

-- `P<port>C0: <speed> <apos> <third>`
abbrev pub render : Report → Bytes
render r =
    status_line (port_string r.port ++ b':' ∷ []) (int_to_string r.speed) (int_to_string r.apos)
      (int_to_string r.third)

-- The lines of the reports, each with its newline.
abbrev pub render_all : List Report → Bytes
render_all [] = []
render_all (r ∷ rs) = render r ++ b'\n' ∷ render_all rs

-- The abstract effect of a report.
abbrev pub note : ℕ → ℕ → Report → Readings → Readings
note left right r s =
    if r.port == left
    then record s { left_speed = r.speed; left_apos = r.apos }
    else if r.port == right
    then record s { right_speed = r.speed; right_apos = r.apos }
    else s

abbrev pub note_all : ℕ → ℕ → List Report → Readings → Readings
note_all left right [] s = s
note_all left right (r ∷ rs) s = note_all left right rs (note left right r s)

-- The HAT has one-digit ports, and its values are ints.
pub record IsReport (r : Report) : Type 0 where
  pub one_digit : r.port < 10
  pub speed_int : IsInt32 r.speed
  pub apos_int : IsInt32 r.apos

-- Printed numbers hold digits and a sign only.
abbrev Plain : Bytes → Type 0
Plain = All (λ c. 45 ≤ c)

to_string-Plain : (n : ℕ) → Plain (to_string n)
unfolding to_string
to_string-Plain n = go (digits n) (digits-small n)
  where
    go : (ds : List ℕ) → All (λ d. d < 10) ds → Plain (map (λ d. 48 + d) ds)
    go [] h = tt
    go (d ∷ ds) h = (omega arith, go ds h.1)

int_to_string-Plain : (z : ℤ) → Plain (int_to_string z)
unfolding int_to_string
int_to_string-Plain (pos n) = to_string-Plain n
int_to_string-Plain (negsuc n) = (omega arith, to_string-Plain (suc n))

Plain-NoSpace : (s : Bytes) → Plain s → NoSpace s
Plain-NoSpace [] h = tt
Plain-NoSpace (c ∷ s) h = (omega arith, Plain-NoSpace s h.1)

Plain-NoNewline : (s : Bytes) → Plain s → NoNewline s
Plain-NoNewline [] h = tt
Plain-NoNewline (c ∷ s) h = (omega arith, Plain-NoNewline s h.1)

to_string-nonempty : (n : ℕ) → 1 ≤ length (to_string n)
unfolding to_string
to_string-nonempty n = go (digits n) (digits-cons n)
  where
    go :
        (ds : List ℕ)
        → (d : ℕ) × (more : List ℕ) × (ds ≡ d ∷ more)
        → 1 ≤ length (map (λ d. 48 + d) ds)
    go ds (d, more, e) = rw e (omega arith)

int_to_string-nonempty : (z : ℤ) → 1 ≤ length (int_to_string z)
unfolding int_to_string
int_to_string-nonempty (pos n) = to_string-nonempty n
int_to_string-nonempty (negsuc n) = omega arith

-- A one-digit port has a name of four characters.
port_string-digit : (n : ℕ) → n < 10 → port_string n ≡ b'P' ∷ (48 + n) ∷ b'C' ∷ b'0' ∷ []
unfolding port_string to_string
port_string-digit n h = rw (digits_one n h)

-- Different one-digit ports have different names.
port_string-eq : (m n : ℕ) → m < 10 → n < 10 → bytes_eq (port_string m) (port_string n) ≡ (m == n)
port_string-eq m n hm hn = rw (port_string-digit m hm, port_string-digit n hn) (ground arith)

stoi_into-int_to_string : (z old : ℤ) → IsInt32 z → stoi_into (int_to_string z) old ≡ ok z
unfolding stoi_into
stoi_into-int_to_string z old h =
    rw (ap stoi (sym (append-nil (int_to_string z))) ∙ stoi-int_to_string z [] h tt, stoi_into)

length-int_to_string-le : (z : ℤ) → IsInt32 z → length (int_to_string z) ≤ 2 ^ 32
unfolding int_to_string
length-int_to_string-le (pos n) h = omega (arith, length-to_string-le n)
length-int_to_string-le (negsuc n) h = omega (arith, length-to_string-le (suc n))

pub port_word-Lines :
    (n : ℕ) → n < 10 → NoSpace (port_string n ++ b':' ∷ []) × NoNewline (port_string n ++ b':' ∷ [])
port_word-Lines n h = rw (port_string-digit n h) (omega arith)

pub port_word-length : (n : ℕ) → n < 10 → length (port_string n ++ b':' ∷ []) ≡ 5
port_word-length n h = rw (port_string-digit n h)

pub port_word-take : (n : ℕ) → n < 10 → take 4 (port_string n ++ b':' ∷ []) ≡ port_string n
port_word-take n h = rw (port_string-digit n h)

pub length-status_line-ge : (w a b c : Bytes) → length w ≤ length (status_line w a b c)
length-status_line-ge w a b c =
    omega (arith, length-append w (b' ' ∷ (a ++ b' ' ∷ (b ++ b' ' ∷ c))))

render-NoNewline : (r : Report) → IsReport r → NoNewline (render r)
render-NoNewline r h =
    glue (port_string r.port ++ b':' ∷ []) _ (port_word-Lines r.port h.one_digit).1 (
      glue (int_to_string r.speed) _ (Plain-NoNewline _ (int_to_string-Plain r.speed)) (
        glue (int_to_string r.apos) _ (Plain-NoNewline _ (int_to_string-Plain r.apos))
          (Plain-NoNewline _ (int_to_string-Plain r.third))))
  where
    glue : (xs ys : Bytes) → NoNewline xs → NoNewline ys → NoNewline (xs ++ b' ' ∷ ys)
    glue xs ys hx hy = All-append (λ c. c ≢ b'\n') xs (b' ' ∷ ys) hx (omega arith, hy)

module _ (left right : ℕ) (hl : left < 10) (hr : right < 10) where
  report_fields : Report → Fields
  report_fields r = record {
    port = port_string r.port;
    speed = int_to_string r.speed;
    apos = int_to_string r.apos;
  }

  -- The handler of `read` does with such fields what the abstract view says.
  read_fields-report :
      (r : Report) (s : Readings)
      → IsReport r
      → read_fields left right (report_fields r) s ≡ done (note left right r s)
  unfolding read_fields report_fields
  read_fields-report r s h = ground (
    arith,
    int_to_string-nonempty r.speed,
    int_to_string-nonempty r.apos,
    stoi_into-int_to_string r.speed s.left_speed h.speed_int,
    stoi_into-int_to_string r.apos s.left_apos h.apos_int,
    stoi_into-int_to_string r.speed s.right_speed h.speed_int,
    stoi_into-int_to_string r.apos s.right_apos h.apos_int,
    port_string-eq r.port left h.one_digit hl,
    port_string-eq r.port right h.one_digit hr,
  )

  fields-render : (r : Report) → IsReport r → fields (render r) ≡ some (report_fields r)
  unfolding report_fields
  fields-render r h =
      fields-status_line (port_string r.port ++ b':' ∷ []) (int_to_string r.speed)
        (int_to_string r.apos) (int_to_string r.third) (port_word-Lines r.port h.one_digit).0
        (Plain-NoSpace _ (int_to_string-Plain r.speed))
        (Plain-NoSpace _ (int_to_string-Plain r.apos))
        (omega (arith, port_word-length r.port h.one_digit)) (int_to_string-nonempty r.speed)
        (int_to_string-nonempty r.apos)
        (omega (
          arith,
          port_word-length r.port h.one_digit,
          length-int_to_string-le r.speed h.speed_int,
          length-int_to_string-le r.apos h.apos_int,
        ))
      ∙ ap {B = Option Fields}
          (λ t.
            some (record { port = t; speed = int_to_string r.speed; apos = int_to_string r.apos }))
          (port_word-take r.port h.one_digit)

  line_complete-render :
      (r : Report) (s : Readings)
      → IsReport r
      → line_complete (read_fields left right) (render r) s ≡ done (note left right r s)
  unfolding line_complete
  line_complete-render r s h =
      rw (long, fields-render r h, line_complete) (read_fields-report r s h)
    where
      long : leb 5 (length (render r)) ≡ true
      long = ground (
        arith,
        port_word-length r.port h.one_digit,
        length-status_line-ge (port_string r.port ++ b':' ∷ []) (int_to_string r.speed)
            (int_to_string r.apos) (int_to_string r.third),
      )

  -- A line of a buffer that starts with whole reports has them noted in order, and goes on behind
  -- them.
  pub process-render_all :
      (rs : List Report) (rest : Bytes) (s : Readings)
      → All IsReport rs
      → process (read_fields left right) [] (render_all rs ++ rest) s
        ≡ process (read_fields left right) [] rest (note_all left right rs s)
  process-render_all [] rest s h = refl
  process-render_all (r ∷ rs) rest s h =
      ap (λ (t : Bytes). process (read_fields left right) [] t s)
        (append_assoc (render r) (b'\n' ∷ render_all rs) rest)
      ∙ process-line (read_fields left right) [] (render r) (render_all rs ++ rest) s
          (render-NoNewline r h.0)
      ∙ ap
          (λ (t : Outcome Readings).
            and_then t (λ s'. process (read_fields left right) [] (render_all rs ++ rest) s'))
          (line_complete-render r s h.0)
      ∙ process-render_all rs rest (note left right r s) h.1
