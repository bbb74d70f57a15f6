-- ===== src/Camera/Transport/Allowed.antt =====
-- The list of allowed transports.
use tuw_spike.Base.{
  ◌-◌, ◌≡◌, ◌≢◌, inl, inr, refl, sym, ap, ◌∙◌, true, false, List, [], ◌∷◌, ◌++◌, length,
  length-append, leb, le→leb, take, drop, All, arith, Bool-cases,
}
use mathlib.Core.Path.{subst}
use tuw_spike.Base.Text.{Bytes, bytes, bytes_eq, bytes_eq_refl, bytes_eq→eq}
use tuw_spike.Camera.Transport.{suffix, raw_transport, strip_suffix, allowlist}

take-append : (xs ys : Bytes) → take (length xs) (xs ++ ys) ≡ xs
take-append [] ys = refl
take-append (x ∷ xs) ys = ap (λ l. x ∷ l) (take-append xs ys)

drop-append : (xs ys : Bytes) → drop (length xs) (xs ++ ys) ≡ ys
drop-append [] ys = refl
drop-append (x ∷ xs) ys = drop-append xs ys

strip_suffix-append : (base : Bytes) → strip_suffix (base ++ suffix) ≡ base
unfolding strip_suffix
strip_suffix-append base =
    let size = length-append base suffix in
    let at : length (base ++ suffix) - length suffix ≡ length base = omega (arith, size) in
    let long : leb (length suffix) (length (base ++ suffix)) ≡ true =
      le→leb (length suffix) (length (base ++ suffix)) (omega (arith, size)) in
    let tail : drop (length (base ++ suffix) - length suffix) (base ++ suffix) ≡ suffix =
      ap (λ i. drop i (base ++ suffix)) at ∙ drop-append base suffix in
    rw (long, tail) (ap (λ i. take i (base ++ suffix)) at ∙ take-append base suffix)

allowlist-raw :
    (n : Bytes) (ns : List Bytes)
    → bytes_eq (strip_suffix n) raw_transport ≡ true
    → allowlist (n ∷ ns) ≡ allowlist ns
unfolding allowlist
allowlist-raw n ns e = rw e refl

allowlist-other :
    (n : Bytes) (ns : List Bytes)
    → bytes_eq (strip_suffix n) raw_transport ≡ false
    → allowlist (n ∷ ns) ≡ strip_suffix n ∷ allowlist ns
unfolding allowlist
allowlist-other n ns e = rw e refl

allowlist-append : (xs ys : List Bytes) → allowlist (xs ++ ys) ≡ allowlist xs ++ allowlist ys
allowlist-append [] ys = unfold allowlist in refl
allowlist-append (x ∷ xs) ys =
    let ih = allowlist-append xs ys in
    elim (Bool-cases (bytes_eq (strip_suffix x) raw_transport)) [
      | inl e ↦
          allowlist-raw x (xs ++ ys) e
          ∙ ih
          ∙ ap (λ l. l ++ allowlist ys) (sym (allowlist-raw x xs e))
      | inr e ↦
          allowlist-other x (xs ++ ys) e
          ∙ ap (λ l. strip_suffix x ∷ l) ih
          ∙ ap (λ l. l ++ allowlist ys) (sym (allowlist-other x xs e))
    ]

allowlist-without_raw : (ns : List Bytes) → All (λ n. n ≢ raw_transport) (allowlist ns)
allowlist-without_raw [] = unfold allowlist in tt
allowlist-without_raw (n ∷ ns) =
    let ih = allowlist-without_raw ns in
    elim (Bool-cases (bytes_eq (strip_suffix n) raw_transport)) [
      | inl e ↦ subst (All (λ n. n ≢ raw_transport)) (sym (allowlist-raw n ns e)) ih
      | inr e ↦
          subst (All (λ n. n ≢ raw_transport)) (sym (allowlist-other n ns e))
            ((λ z. cc (e, ap (λ x. bytes_eq x raw_transport) z, bytes_eq_refl raw_transport)), ih)
    ]

-- `image_transport/raw` is never allowed, and each declared transport `<base>_pub` with another base
-- is, by its base.
pub allowlist-allows :
    (before after : List Bytes) (base : Bytes)
    → base ≢ bytes "image_transport/raw"
    → let names = allowlist (before ++ (base ++ bytes "_pub") ∷ after) in
      All (λ n. n ≢ bytes "image_transport/raw") names
      × (front : List Bytes) × (back : List Bytes) × (names ≡ front ++ base ∷ back)
allowlist-allows before after base other =
    let stripped = strip_suffix-append base in
    let kept : bytes_eq (strip_suffix (base ++ suffix)) raw_transport ≡ false =
      elim (Bool-cases (bytes_eq (strip_suffix (base ++ suffix)) raw_transport)) [
        | inl e ↦ absurd (other (sym stripped ∙ bytes_eq→eq _ _ e))
        | inr e ↦ e
      ] in
    (
      allowlist-without_raw (before ++ (base ++ suffix) ∷ after),
      allowlist before,
      allowlist after,
      allowlist-append before ((base ++ suffix) ∷ after)
          ∙ ap (λ l. allowlist before ++ l)
              (allowlist-other (base ++ suffix) after kept
                ∙ ap (λ n. n ∷ allowlist after) stripped),
    )
