-- ===== src/Escape/Grow.antt =====
-- src/report/escape.c: the buffer stays well formed, and what an escaper leaves in it.
use cytadel_scan.Base.{
  ℕ, zero, suc, ◌+◌, ◌-◌, ◌*◌, ◌≤◌, ◌<◌, Bool, true, false, none, some, ◌≡◌, ◌⊎◌, inl, inr, refl,
  sym, ◌∙◌, arith, length, ltb, leb, ◌==◌, Bool-cases, if◌then◌else◌,
}
use cytadel_scan.Escape.Buffer.{
  ReportBuf, size_max, doubling_loop, start_cap, reallocated, buf_reserve,
}

abbrev bound : ℕ → ℕ → ℕ
bound zero c = c
bound (suc n) c = bound n (c * 2)

doubling_loop-law :
    (n c need : ℕ)
    → need ≤ bound n c
    → c ≤ size_max
    → need ≤ size_max
    → (r : ℕ) × (doubling_loop (suc n) c need ≡ some r) × (need ≤ r) × (r ≤ size_max)
unfolding doubling_loop
doubling_loop-law zero c need h hc hn = elim (Bool-cases (ltb c need)) [
  | inl e ↦ absurd (ground arith)
  | inr e ↦ (c, rw e refl, ground arith, hc)
]
doubling_loop-law (suc n) c need h hc hn = elim (Bool-cases (ltb c need)) [
  | inr e ↦ (c, rw e refl, ground arith, hc)
  | inl e ↦ elim (Bool-cases (ltb 9223372036854775807 c)) [
    | inl f ↦ (need, rw (e, f) refl, omega arith, hn)
    | inr f ↦
        let (r, q, lo, hi) = doubling_loop-law n (c * 2) need h (ground arith) hn in
        (r, rw (e, f, doubling_loop) q, lo, hi)
  ]
]

-- A buffer holds its bytes and a NUL behind them, or nothing.
pub record IsBuf (b : ReportBuf) : Type 0 where
  pub room : (length b.data_bytes < b.cap) ⊎ ((b.cap ≡ 0) × (length b.data_bytes ≡ 0))
  pub size : b.cap ≤ size_max

bound_start : (c need : ℕ) → need ≤ size_max → need ≤ bound 64 (start_cap c)
bound_start c need h = elim (Bool-cases (c == 0)) [
  | inl e ↦ rw e (omega arith)
  | inr e ↦ rw e (ground arith)
]

start_bound : (c : ℕ) → c ≤ size_max → start_cap c ≤ size_max
start_bound c h = ground arith

-- A reserved buffer has the bytes it had, and room for what comes.
pub record Reserved (buf grown : ReportBuf) (extra : ℕ) : Type 0 where
  pub same : grown.data_bytes ≡ buf.data_bytes
  pub enough : length buf.data_bytes + extra < grown.cap
  pub bounded : grown.cap ≤ size_max

reallocated-Reserved :
    (realloc_ok : ℕ → Bool) (buf grown : ReportBuf) (extra r : ℕ)
    → length buf.data_bytes + 1 + extra ≤ r
    → r ≤ size_max
    → reallocated realloc_ok buf (some r) ≡ some grown
    → Reserved buf grown extra
reallocated-Reserved realloc_ok buf grown extra r lo hi h = elim (Bool-cases (realloc_ok r)) [
  | inr e ↦ let bad : none ≡ some grown = rw e at h in absurd (cc)
  | inl e ↦
      let same : some (record buf { cap = r }) ≡ some grown = rw e at h in
      let eq : record buf { cap = r } ≡ grown = cc in
      rw (← eq) (record { same = refl; enough = omega arith; bounded = hi })
]

module _ (realloc_ok : ℕ → Bool) (buf : ReportBuf) (extra : ℕ) where
  -- The sizes that pass the two overflow tests.
  reserve-fits :
      (grown : ReportBuf)
      → buf_reserve realloc_ok buf extra ≡ some grown
      → length buf.data_bytes + 1 + extra ≤ size_max
  unfolding buf_reserve
  reserve-fits grown h = ground arith

  reserve-eq :
      length buf.data_bytes + 1 + extra ≤ size_max
      → buf_reserve realloc_ok buf extra ≡ (
          if leb (length buf.data_bytes + 1 + extra) buf.cap
          then some buf
          else reallocated realloc_ok buf
              (doubling_loop 65 (start_cap buf.cap) (length buf.data_bytes + 1 + extra)))
  unfolding buf_reserve
  reserve-eq fits =
      let first : ltb (size_max - 1) (length buf.data_bytes) ≡ false = ground arith in
      let second : ltb (size_max - (length buf.data_bytes + 1)) extra ≡ false = ground arith in
      rw (first, second) refl

module _ (realloc_ok : ℕ → Bool) (buf : ReportBuf) (extra : ℕ) where
  pub buf_reserve-Reserved :
      (grown : ReportBuf)
      → IsBuf buf
      → buf_reserve realloc_ok buf extra ≡ some grown
      → Reserved buf grown extra
  buf_reserve-Reserved grown b h =
      let fits = reserve-fits realloc_ok buf extra grown h in
      let need = length buf.data_bytes + 1 + extra in
      let short = sym (reserve-eq realloc_ok buf extra fits) ∙ h in
      elim (Bool-cases (leb (length buf.data_bytes + 1 + extra) buf.cap)) [
        | inl e ↦
            let same : some buf ≡ some grown = rw e at short in
            let eq : buf ≡ grown = cc in
            rw (← eq) (record { same = refl; enough = ground arith; bounded = b.size })
        | inr e ↦
            let (r, q, lo, hi) =
              doubling_loop-law 64 (start_cap buf.cap) (length buf.data_bytes + 1 + extra)
                (bound_start buf.cap (length buf.data_bytes + 1 + extra) fits)
                (start_bound buf.cap b.size) fits in
            reallocated-Reserved realloc_ok buf grown extra r lo hi (rw (e, q) at short)
      ]

  -- With memory at hand a reservation fails only where the size would not fit.
  pub buf_reserve-total :
      ((n : ℕ) → realloc_ok n ≡ true)
      → IsBuf buf
      → length buf.data_bytes + 1 + extra ≤ size_max
      → (grown : ReportBuf) × (buf_reserve realloc_ok buf extra ≡ some grown)
  buf_reserve-total memory b fits =
      elim (Bool-cases (leb (length buf.data_bytes + 1 + extra) buf.cap)) [
        | inl e ↦ (buf, reserve-eq realloc_ok buf extra fits ∙ rw e refl)
        | inr e ↦
            let (r, q, lo, hi) =
              doubling_loop-law 64 (start_cap buf.cap) (length buf.data_bytes + 1 + extra)
                (bound_start buf.cap (length buf.data_bytes + 1 + extra) fits)
                (start_bound buf.cap b.size) fits in
            (
              record buf { cap = r },
              reserve-eq realloc_ok buf extra fits ∙ rw (e, q) (rw (memory r) refl),
            )
      ]
