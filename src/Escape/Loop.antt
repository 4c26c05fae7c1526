-- ===== src/Escape/Loop.antt =====
-- src/report/escape.c: what the loop of an escaper leaves in the buffer.
use cytadel_scan.Base.{
  ℕ, ◌+◌, ◌≤◌, Bool, true, [], ◌∷◌, ◌++◌, ◌≡◌, ◌⊎◌, inl, inr, refl, sym, ap, ◌∙◌, arith, Bytes,
  length, Option-cases, append-nil, append_assoc, length-append,
}
use cytadel_scan.Escape.Buffer.{
  ReportBuf, size_max, buf_reserve, Written, fine, failed, buf_append, escape_loop,
}
use cytadel_scan.Escape.Grow.{IsBuf, buf_reserve-Reserved, buf_reserve-total}

-- What the bytes of a text become, one behind the other.
unfoldable pub escaped : (ℕ → Bytes) → Bytes → Bytes
escaped one [] = []
escaped one (c ∷ s) = one c ++ escaped one s

-- All or nothing: the bytes behind what was there, or the buffer as it was.
abbrev pub Appended : ReportBuf → Bytes → Written → Type 0
Appended buf src (fine b) = IsBuf b × (b.data_bytes ≡ buf.data_bytes ++ src)
Appended buf src (failed b) = b ≡ buf

pub buf_append-Appended :
    (realloc_ok : ℕ → Bool) (buf : ReportBuf) (src : Bytes)
    → IsBuf buf
    → Appended buf src (buf_append realloc_ok buf src)
unfolding buf_append
buf_append-Appended realloc_ok buf src b =
    elim (Option-cases (buf_reserve realloc_ok buf (length src))) [
      | inl e ↦ rw e refl
      | inr (grown, e) ↦
          let r = buf_reserve-Reserved realloc_ok buf (length src) grown b e in
          rw e (
            record {
              room = inl (rw r.same (omega (arith, r.enough, length-append buf.data_bytes src)));
              size = r.bounded;
            },
            rw r.same refl,
          )
    ]

-- The text escaped to its end, or up to some byte: never a part of what a byte becomes.
abbrev pub Escapes : (ℕ → Bytes) → ReportBuf → Bytes → Written → Type 0
Escapes one out s (fine b) = IsBuf b × (b.data_bytes ≡ out.data_bytes ++ escaped one s)
Escapes one out s (failed b) =
    IsBuf b
    × ((p : Bytes) × (r : Bytes) × (s ≡ p ++ r) × (b.data_bytes ≡ out.data_bytes ++ escaped one p))

Written-cases :
    (w : Written) → ((b : ReportBuf) × (w ≡ fine b)) ⊎ ((b : ReportBuf) × (w ≡ failed b))
Written-cases (fine b) = inl (b, refl)
Written-cases (failed b) = inr (b, refl)

module _ (one : ℕ → Bytes) where
  Escapes-step :
      (out mid : ReportBuf) (c : ℕ) (s : Bytes) (w : Written)
      → mid.data_bytes ≡ out.data_bytes ++ one c
      → Escapes one mid s w
      → Escapes one out (c ∷ s) w
  unfolding escaped
  Escapes-step out mid c s (fine b) e (h, q) =
      (h, q ∙ rw e (append_assoc out.data_bytes (one c) (escaped one s)))
  Escapes-step out mid c s (failed b) e (h, (p, r, cut, q)) = (
    h,
    (c ∷ p, r, ap (◌∷◌ c) cut, q ∙ rw e (append_assoc out.data_bytes (one c) (escaped one p))),
  )

  -- A well-formed buffer stays well formed. An escaper that succeeds has appended the escaped
  -- text; one that fails has appended the escape of a part in front, whole escapes only.
  pub escape_loop-Escapes :
      (realloc_ok : ℕ → Bool) (out : ReportBuf) (s : Bytes)
      → IsBuf out
      → Escapes one out s (escape_loop one realloc_ok out s)
  unfolding escape_loop escaped
  escape_loop-Escapes realloc_ok out [] h = (h, sym (append-nil out.data_bytes))
  escape_loop-Escapes realloc_ok out (c ∷ s) h =
      let a = buf_append-Appended realloc_ok out (one c) h in
      elim (Written-cases (buf_append realloc_ok out (one c))) [
        | inl (mid, e) ↦
            let (good, grew) = rw e at a in
            rw (e, escape_loop)
              (Escapes-step out mid c s (escape_loop one realloc_ok mid s) grew
                (escape_loop-Escapes realloc_ok mid s good))
        | inr (b, e) ↦
            let same : b ≡ out = rw e at a in
            rw (e, escape_loop) (rw same (h, ([], c ∷ s, refl, sym (append-nil out.data_bytes))))
      ]

module _ (one : ℕ → Bytes) (realloc_ok : ℕ → Bool) (memory : (n : ℕ) → realloc_ok n ≡ true) where
  buf_append-total :
      (buf : ReportBuf) (src : Bytes)
      → IsBuf buf
      → length buf.data_bytes + 1 + length src ≤ size_max
      → (b : ReportBuf) × (buf_append realloc_ok buf src ≡ fine b)
  unfolding buf_append
  buf_append-total buf src h fits =
      let (grown, e) = buf_reserve-total realloc_ok buf (length src) memory h fits in
      (record grown { data_bytes = grown.data_bytes ++ src }, rw e refl)

  -- With memory at hand an escaper succeeds if its output fits a size of 64 bits.
  pub escape_loop-total :
      (out : ReportBuf) (s : Bytes)
      → IsBuf out
      → length out.data_bytes + 1 + length (escaped one s) ≤ size_max
      → (b : ReportBuf) × (escape_loop one realloc_ok out s ≡ fine b)
  unfolding escape_loop escaped
  escape_loop-total out [] h fits = (out, refl)
  escape_loop-total out (c ∷ s) h fits =
      let both = length-append (one c) (escaped one s) in
      let (mid, e) = buf_append-total out (one c) h (omega (arith, fits, both)) in
      let a = buf_append-Appended realloc_ok out (one c) h in
      let (good, grew) = rw e at a in
      let size : length mid.data_bytes ≡ length out.data_bytes + length (one c) =
        rw grew (length-append out.data_bytes (one c)) in
      let (b, q) = escape_loop-total mid s good (omega (arith, fits, both, size)) in
      (b, rw (e, escape_loop) q)

-- What a successful run of the loop has appended.
pub escape_loop-fine :
    (one : ℕ → Bytes) (realloc_ok : ℕ → Bool) (out b : ReportBuf) (s : Bytes)
    → IsBuf out
    → escape_loop one realloc_ok out s ≡ fine b
    → b.data_bytes ≡ out.data_bytes ++ escaped one s
escape_loop-fine one realloc_ok out b s h e =
    let w = escape_loop-Escapes one realloc_ok out s h in let (good, grew) = rw e at w in grew
