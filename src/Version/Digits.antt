-- ===== src/Version/Digits.antt =====
-- src/match/version_compare.c: comparison of digit runs with no integer conversion.
use Prim.Native.Nat.{Ordering}
use cytadel_scan.Base.{
  ℕ, suc, ◌+◌, ◌-◌, ◌*◌, ◌≤◌, ◌<◌, Bool, true, [], ◌∷◌, ◌≡◌, refl, arith, Bytes, ltb, ◌==◌,
  if◌then◌else◌, length, All, Bool-cases, inl, inr,
}
use cytadel_scan.Version.{Vercmp, less, equal, greater, flip, is_digit_byte}
use cytadel_scan.Version.Scan.{skip_while, skip-head}

-- `memcmp` on blocks of one length.
unfoldable pub memcmp : Bytes → Bytes → Ordering
memcmp [] b = Ordering.eq
memcmp (x ∷ a) [] = Ordering.eq
memcmp (x ∷ a) (y ∷ b) =
    if ltb x y then Ordering.lt else if ltb y x then Ordering.gt else memcmp a b

abbrev is_zero_byte : ℕ → Bool
is_zero_byte c = c == b'0'

abbrev of_ordering : Ordering → Vercmp
of_ordering Ordering.lt = less
of_ordering Ordering.gt = greater
of_ordering Ordering.eq = equal

-- Leading zeros go, then the longer run wins, then the bytes decide.
unfoldable pub cmp_digit_runs : Bytes → Bytes → Vercmp
cmp_digit_runs a b =
    let sa = skip_while is_zero_byte a in
    let sb = skip_while is_zero_byte b in
    if length sa == length sb
    then (if length sa == 0 then equal else of_ordering (memcmp sa sb))
    else if ltb (length sa) (length sb)
    then less
    else greater

abbrev pub IsDigit : ℕ → Type 0
IsDigit c = is_digit_byte c ≡ true

-- The number that digits spell behind `n`.
abbrev pub value : ℕ → Bytes → ℕ
value n [] = n
value n (c ∷ s) = value (n * 10 + (c - b'0')) s

-- Numbers compared by their size.
abbrev pub compare_values : ℕ → ℕ → Vercmp
compare_values m n = if ltb m n then less else if ltb n m then greater else equal

value_mono :
    (a b : Bytes) (m n : ℕ)
    → All IsDigit a
    → All IsDigit b
    → length a ≡ length b
    → m < n
    → value m a < value n b
unfolding is_digit_byte
value_mono [] [] m n ha hb e h = h
value_mono [] (y ∷ b) m n ha hb e h = absurd (omega arith)
value_mono (x ∷ a) [] m n ha hb e h = absurd (omega arith)
value_mono (x ∷ a) (y ∷ b) m n ha hb e h =
    ground (arith, value_mono a b (m * 10 + (x - b'0')) (n * 10 + (y - b'0')) ha.1 hb.1)

value-lt_longer :
    (a b : Bytes) (n : ℕ)
    → All IsDigit a
    → All IsDigit b
    → length a ≤ length b
    → 0 < n
    → value 0 a < value n b
value-lt_longer a [] n ha hb e h = value_mono a [] 0 n ha hb (omega arith) h
value-lt_longer a (y ∷ b) n ha hb e h = elim (Bool-cases (length a == suc (length b))) [
  | inl same ↦ value_mono a (y ∷ b) 0 n ha hb (ground arith) h
  | inr longer ↦ value-lt_longer a b (n * 10 + (y - b'0')) ha hb.1 (ground arith) (omega arith)
]

memcmp-value :
    (a b : Bytes) (n : ℕ)
    → All IsDigit a
    → All IsDigit b
    → length a ≡ length b
    → of_ordering (memcmp a b) ≡ compare_values (value n a) (value n b)
unfolding memcmp is_digit_byte
memcmp-value [] [] n ha hb e = ground arith
memcmp-value [] (y ∷ b) n ha hb e = absurd (omega arith)
memcmp-value (x ∷ a) [] n ha hb e = absurd (omega arith)
memcmp-value (x ∷ a) (y ∷ b) n ha hb e =
    let m = n * 10 + (x - b'0') in
    let k = n * 10 + (y - b'0') in
    ground (
      arith,
      memcmp-value a b m ha.1 hb.1,
      value_mono a b m k ha.1 hb.1,
      value_mono b a k m hb.1 ha.1,
    )

memcmp-nil : (a b : Bytes) → length a ≡ 0 → memcmp a b ≡ Ordering.eq
unfolding memcmp
memcmp-nil [] b h = refl
memcmp-nil (x ∷ a) b h = absurd (omega arith)

memcmp-flip : (a b : Bytes) → of_ordering (memcmp b a) ≡ flip (of_ordering (memcmp a b))
unfolding memcmp
memcmp-flip [] [] = refl
memcmp-flip [] (y ∷ b) = refl
memcmp-flip (x ∷ a) [] = refl
memcmp-flip (x ∷ a) (y ∷ b) = ground (arith, memcmp-flip a b)

value-skip : (a : Bytes) → value 0 (skip_while is_zero_byte a) ≡ value 0 a
unfolding skip_while
value-skip [] = refl
value-skip (x ∷ a) = ground (arith, value-skip a)

skip-All : (a : Bytes) → All IsDigit a → All IsDigit (skip_while is_zero_byte a)
unfolding skip_while
skip-All [] h = tt
skip-All (x ∷ a) h = elim (Bool-cases (x == b'0')) [
  | inl e ↦ rw e (skip-All a h.1)
  | inr e ↦ rw e h
]

-- The shorter of two runs with no leading zero is the smaller number.
value-lt_stripped :
    (a b s : Bytes)
    → skip_while is_zero_byte b ≡ s
    → All IsDigit a
    → All IsDigit s
    → length a < length s
    → value 0 a < value 0 s
unfolding is_digit_byte
value-lt_stripped a b [] e ha hs h = absurd (omega arith)
value-lt_stripped a b (y ∷ s) e ha hs h =
    value-lt_longer a s (0 * 10 + (y - b'0')) ha hs.1 (omega arith)
      (ground (arith, skip-head is_zero_byte b y s e))

-- On runs of digits of any length the answer is the order of the numbers that they spell.
pub cmp_digit_runs-value :
    (a b : Bytes)
    → All IsDigit a
    → All IsDigit b
    → cmp_digit_runs a b ≡ compare_values (value 0 a) (value 0 b)
unfolding cmp_digit_runs
cmp_digit_runs-value a b ha hb =
    let sa = skip_while is_zero_byte a in
    let sb = skip_while is_zero_byte b in
    let da = skip-All a ha in
    let db = skip-All b hb in
    ground (
      arith,
      value-skip a,
      value-skip b,
      memcmp-value sa sb 0 da db,
      memcmp-nil sa sb,
      value-lt_stripped sa b sb refl da db,
      value-lt_stripped sb a sa refl db da,
    )

pub cmp_digit_runs-flip : (a b : Bytes) → cmp_digit_runs b a ≡ flip (cmp_digit_runs a b)
unfolding cmp_digit_runs
cmp_digit_runs-flip a b =
    ground (arith, memcmp-flip (skip_while is_zero_byte a) (skip_while is_zero_byte b))

pub cmp_digit_runs_refl : (a : Bytes) → cmp_digit_runs a a ≡ equal
unfolding cmp_digit_runs
cmp_digit_runs_refl a =
    ground (arith, memcmp-flip (skip_while is_zero_byte a) (skip_while is_zero_byte a))
