-- ===== src/Control/Status/Process.antt =====
-- How `process` takes the buffer apart into lines, and which chunks the read loop takes.
use tuw_spike.Base.{
  ℕ, zero, suc, ◌≤◌, ◌<◌, ◌≡◌, ◌≢◌, refl, sym, ap, ◌∙◌, List, [], ◌∷◌, ◌++◌, ne→==, ==_iff,
  append_assoc, append-nil, length, drop, All, arith, replicate,
}
use tuw_spike.Base.Text.{Bytes}
use tuw_spike.Base.Result.{Exception, done, failed, and_then}
use tuw_spike.Control.Status.{
  Handler, line_complete, process, Chunk, received, buffer_size, fresh_buffer, overwrite, ended,
  read_loop,
}

abbrev pub NoNewline : Bytes → Type 0
NoNewline = All (λ c. c ≢ b'\n')

drop-all : (n : ℕ) (xs : Bytes) → length xs ≤ n → drop n xs ≡ []
drop-all zero [] h = refl
drop-all zero (x ∷ xs) h = elim h [ ]
drop-all (suc n) [] h = refl
drop-all (suc n) (x ∷ xs) h = drop-all n xs (omega arith)

overwrite-full : (bs buffer : Bytes) → length buffer ≤ length bs → overwrite bs buffer ≡ bs
overwrite-full bs buffer h =
    ap (λ (t : Bytes). bs ++ t) (drop-all (length bs) buffer h) ∙ append-nil bs

module _ {S : Type 0} (handler : Handler S) where
  -- A line in the buffer is handled whole, and the rest is taken from the start of a line.
  pub process-line :
      (current line rest : Bytes) (s : S)
      → NoNewline line
      → process handler current (line ++ b'\n' ∷ rest) s
        ≡ and_then (line_complete handler (current ++ line) s) (λ s'. process handler [] rest s')
  unfolding process
  process-line current [] rest s h =
      ap (λ (t : Bytes). and_then (line_complete handler t s) (λ s'. process handler [] rest s'))
        (sym (append-nil current))
  process-line current (c ∷ line) rest s h =
      rw (ne→== c b'\n' h.0, process)
        (process-line (current ++ c ∷ []) line rest s h.1
          ∙ ap
              (λ (t : Bytes).
                and_then (line_complete handler t s) (λ s'. process handler [] rest s'))
              (append_assoc current (c ∷ []) line))

  -- Without a newline nothing is handled.
  pub process-partial :
      (current part : Bytes) (s : S) → NoNewline part → process handler current part s ≡ done s
  unfolding process
  process-partial current [] s h = refl
  process-partial current (c ∷ part) s h =
      rw (ne→== c b'\n' h.0, process) (process-partial (current ++ c ∷ []) part s h.1)

  -- A chunk shorter than the buffer ends the loop; behind its bytes stands what was there before.
  pub read_loop-short :
      (bs buffer : Bytes) (chunks : List Chunk) (s s' : S)
      → length bs < buffer_size
      → process handler [] (overwrite bs buffer) s ≡ done s'
      → read_loop handler (received bs ∷ chunks) buffer s ≡ ended (done s') chunks
  unfolding read_loop
  read_loop-short bs buffer chunks s s' h e =
      rw (e, read_loop, ne→== (length bs) buffer_size (λ q. omega arith))

  -- A handler that throws ends the loop.
  pub read_loop-failed :
      (bs buffer : Bytes) (chunks : List Chunk) (s s' : S) (e : Exception)
      → process handler [] (overwrite bs buffer) s ≡ failed e s'
      → read_loop handler (received bs ∷ chunks) buffer s ≡ ended (failed e s') chunks
  unfolding read_loop
  read_loop-failed bs buffer chunks s s' e h = rw (h, read_loop)

  -- A full chunk replaces the buffer, and the loop goes on.
  pub read_loop-full :
      (bs buffer : Bytes) (chunks : List Chunk) (s s' : S)
      → length bs ≡ buffer_size
      → length buffer ≡ buffer_size
      → process handler [] bs s ≡ done s'
      → read_loop handler (received bs ∷ chunks) buffer s ≡ read_loop handler chunks bs s'
  unfolding read_loop
  read_loop-full bs buffer chunks s s' h k e =
      let same = overwrite-full bs buffer (omega arith) in
      rw
        (
          ap (λ (t : Bytes). process handler [] t s) same ∙ e,
          read_loop,
          (==_iff (length bs) buffer_size).1 h,
        )
        (ap (λ (t : Bytes). read_loop handler chunks t s') same)

zeros-NoNewline : (n : ℕ) → NoNewline (replicate n 0)
zeros-NoNewline zero = tt
zeros-NoNewline (suc n) = (omega arith, zeros-NoNewline n)

pub drop-NoNewline : (n : ℕ) (xs : Bytes) → NoNewline xs → NoNewline (drop n xs)
drop-NoNewline zero xs h = h
drop-NoNewline (suc n) [] h = tt
drop-NoNewline (suc n) (x ∷ xs) h = drop-NoNewline n xs h.1

pub fresh_buffer-NoNewline : NoNewline fresh_buffer
unfolding fresh_buffer
fresh_buffer-NoNewline = zeros-NoNewline buffer_size

pub length-fresh_buffer : length fresh_buffer ≡ buffer_size
unfolding fresh_buffer
length-fresh_buffer = refl
