-- ===== src/PortRange/Numbers.antt =====
-- src/net/port_range.c: the decimal numbers in a token.
use cytadel_scan.Base.{
  ℕ, zero, suc, ◌+◌, ◌-◌, ◌*◌, ◌/◌, ◌≤◌, ◌<◌, some, [], ◌∷◌, ◌≡◌, ◌↔◌, refl, arith, Bytes, length,
  All,
}
use cytadel_scan.PortRange.{uint_loop, parse_uint}

abbrev pub IsDecimal : ℕ → Type 0
IsDecimal c = (b'0' ≤ c) × (c ≤ b'9')

-- The number that digits spell behind `n`, with no bound.
abbrev pub decimal : ℕ → Bytes → ℕ
decimal n [] = n
decimal n (c ∷ s) = decimal (n * 10 + (c - b'0')) s

-- A number that stays below a million with `k` more digits behind it.
abbrev limit : ℕ → ℕ
limit zero = 1000000
limit (suc k) = limit k / 10

limit-le : (k : ℕ) → limit k ≤ 1000000
limit-le zero = omega arith
limit-le (suc k) = omega (arith, limit-le k)

limit_pos : (k : ℕ) → k ≤ 6 → 0 < limit k
limit_pos zero h = omega arith
limit_pos (suc zero) h = omega arith
limit_pos (suc (suc zero)) h = omega arith
limit_pos (suc (suc (suc zero))) h = omega arith
limit_pos (suc (suc (suc (suc zero)))) h = omega arith
limit_pos (suc (suc (suc (suc (suc zero))))) h = omega arith
limit_pos (suc (suc (suc (suc (suc (suc zero)))))) h = omega arith
limit_pos (suc (suc (suc (suc (suc (suc (suc k))))))) h = absurd (omega arith)

-- The clamp is never taken on six digits or less.
uint_loop_sound :
    (s : Bytes) (n v : ℕ)
    → n < limit (length s)
    → uint_loop n s ≡ some v
    → All IsDecimal s × (v ≡ decimal n s)
unfolding uint_loop
uint_loop_sound [] n v room h = (tt, ground arith)
uint_loop_sound (c ∷ s) n v room h =
    ground (arith, limit-le (length s), uint_loop_sound s (n * 10 + (c - b'0')) v)

uint_loop_complete :
    (s : Bytes) (n : ℕ)
    → n < limit (length s)
    → All IsDecimal s
    → uint_loop n s ≡ some (decimal n s)
unfolding uint_loop
uint_loop_complete [] n room h = refl
uint_loop_complete (c ∷ s) n room h =
    ground
      (arith, limit-le (length s), uint_loop_complete s (n * 10 + (c - b'0')) (ground arith) h.1)

-- The parser reads one to six decimal digits, and nothing else, as the number that they spell.
pub parse_uint_iff :
    (tok : Bytes) (v : ℕ)
    → (parse_uint tok ≡ some v)
      ↔ ((0 < length tok) × (length tok ≤ 6) × All IsDecimal tok × (v ≡ decimal 0 tok))
unfolding parse_uint
parse_uint_iff tok v = (
  λ h.
      let short : length tok ≤ 6 = ground arith in
      let loop : uint_loop 0 tok ≡ some v = ground arith in
      let (digits, e) = uint_loop_sound tok 0 v (limit_pos (length tok) short) loop in
      (ground arith, short, digits, e),
  λ (pos, short, digits, e).
      ground (arith, uint_loop_complete tok 0 (limit_pos (length tok) short) digits),
)
