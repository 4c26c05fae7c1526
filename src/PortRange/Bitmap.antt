-- ===== src/PortRange/Bitmap.antt =====
-- src/net/port_range.c: the bitmap, one byte for eight ports.
use Prim.Native.Nat.{bit_and, bit_or}
use cytadel_scan.Base.{
  ℕ, zero, suc, ◌+◌, ◌-◌, ◌/◌, ◌%◌, ◌^◌, ◌≤◌, ◌<◌, Bool, true, false, not, ◌&&◌, ◌||◌, ◌≡◌, refl,
  ◌∙◌, arith, ltb, leb, ◌==◌, if◌then◌else◌, Bool-cases, inl, inr, ltb→lt,
}

-- The byte at each index.
abbrev pub Bitmap : Type 0
Bitmap = ℕ → ℕ

abbrev pub cleared : Bitmap
cleared k = 0

unfoldable pub bitmap_set : Bitmap → ℕ → Bitmap
bitmap_set bitmap port k = if k == port / 8 then bit_or (bitmap k) (2 ^ (port % 8)) else bitmap k

unfoldable pub bitmap_test : Bitmap → ℕ → Bool
bitmap_test bitmap v = not (bit_and (bitmap (v / 8)) (2 ^ (v % 8)) == 0)

-- `for (v = start; v <= end; v++)`, with the rounds left.
unfoldable pub bitmap_set_from : ℕ → ℕ → Bitmap → Bitmap
bitmap_set_from zero v bitmap = bitmap
bitmap_set_from (suc n) v bitmap = bitmap_set_from n (v + 1) (bitmap_set bitmap v)

unfoldable pub bitmap_set_range : ℕ → ℕ → Bitmap → Bitmap
bitmap_set_range start_v end_v bitmap = bitmap_set_from (end_v + 1 - start_v) start_v bitmap

holds_upto : (test : ℕ → Bool) (bound : ℕ) → Bool
holds_upto test zero = true
holds_upto test (suc bound) = holds_upto test bound && test bound

holds_upto-law :
    (bound : ℕ) (test : ℕ → Bool)
    → holds_upto test bound ≡ true
    → {i : ℕ} → i < bound
    → test i ≡ true
unfolding holds_upto
holds_upto-law zero test all {i} small = absurd (omega (arith, small))
holds_upto-law (suc bound) test all {i} small = elim (Bool-cases (i == bound)) [
  | inl e ↦ ground arith
  | inr e ↦ holds_upto-law bound test (ground arith) (ground arith)
]

abbrev same_bool : Bool → Bool → Bool
same_bool true b = b
same_bool false b = not b

abbrev bit_test : ℕ → ℕ → Bool
bit_test b i = not (bit_and b (2 ^ i) == 0)

-- The law of a set and a tested bit in a byte.
abbrev law : ℕ → ℕ → ℕ → Bool
law b i j =
    same_bool (bit_test (bit_or b (2 ^ i)) j) (i == j || bit_test b j) && ltb (bit_or b (2 ^ i)) 256

law_table : holds_upto (λ b. holds_upto (λ i. holds_upto (λ j. law b i j) 8) 8) 256 ≡ true
unfolding holds_upto
law_table = refl

law_holds : (b i j : ℕ) → b < 256 → i < 8 → j < 8 → law b i j ≡ true
law_holds b i j hb hi hj =
    let bytes =
      holds_upto-law 256 (λ b. holds_upto (λ i. holds_upto (λ j. law b i j) 8) 8) law_table hb in
    let bits = holds_upto-law 8 (λ i. holds_upto (λ j. law b i j) 8) bytes hi in
    holds_upto-law 8 (λ j. law b i j) bits hj

same_bool→eq : (a b : Bool) → same_bool a b ≡ true → a ≡ b
same_bool→eq true b h = ground arith
same_bool→eq false b h = ground arith

bit_test-or :
    (b i j : ℕ) → b < 256 → i < 8 → j < 8 → bit_test (bit_or b (2 ^ i)) j ≡ (i == j) || bit_test b j
bit_test-or b i j hb hi hj = same_bool→eq _ _ (both_left _ _ (law_holds b i j hb hi hj))
  where
    both_left : (x y : Bool) → (x && y) ≡ true → x ≡ true
    both_left x y h = ground arith

bit_or-lt : (b i : ℕ) → b < 256 → i < 8 → bit_or b (2 ^ i) < 256
bit_or-lt b i hb hi = ltb→lt _ _ (both_right _ _ (law_holds b i 0 hb hi (omega arith)))
  where
    both_right : (x y : Bool) → (x && y) ≡ true → y ≡ true
    both_right x y h = ground arith

abbrev pub IsByteMap : Bitmap → Type 0
IsByteMap bitmap = (k : ℕ) → bitmap k < 256

pub bitmap_set-IsByteMap :
    (bitmap : Bitmap) (p : ℕ) → IsByteMap bitmap → IsByteMap (bitmap_set bitmap p)
unfolding bitmap_set
bitmap_set-IsByteMap bitmap p h k = elim (Bool-cases (k == p / 8)) [
  | inl e ↦ rw e (bit_or-lt (bitmap k) (p % 8) (h k) (omega arith))
  | inr e ↦ rw e (h k)
]

bitmap_test-set :
    (bitmap : Bitmap) (p v : ℕ)
    → IsByteMap bitmap
    → bitmap_test (bitmap_set bitmap p) v ≡ (p == v) || bitmap_test bitmap v
unfolding bitmap_test bitmap_set
bitmap_test-set bitmap p v h = elim (Bool-cases (v / 8 == p / 8)) [
  | inl e ↦
      let same : (p % 8 == v % 8) ≡ (p == v) = ground arith in
      rw e (
        bit_test-or (bitmap (v / 8)) (p % 8) (v % 8) (h (v / 8)) (omega arith) (omega arith)
        ∙ rw same refl)
  | inr e ↦ let other : (p == v) ≡ false = ground arith in rw (e, other) refl
]

bitmap_set_from-law :
    (n s : ℕ) (bitmap : Bitmap) (v : ℕ)
    → IsByteMap bitmap
    → (bitmap_test (bitmap_set_from n s bitmap) v
        ≡ (leb s v && ltb v (s + n)) || bitmap_test bitmap v)
      × IsByteMap (bitmap_set_from n s bitmap)
unfolding bitmap_set_from
bitmap_set_from-law zero s bitmap v h = (ground arith, h)
bitmap_set_from-law (suc n) s bitmap v h =
    let (tested, bytes) =
      bitmap_set_from-law n (s + 1) (bitmap_set bitmap s) v (bitmap_set-IsByteMap bitmap s h) in
    (tested ∙ rw (bitmap_test-set bitmap s v h) (ground arith), bytes)

-- Setting a range sets its ports and no other.
pub bitmap_set_range-law :
    (s e : ℕ) (bitmap : Bitmap) (v : ℕ)
    → IsByteMap bitmap
    → s ≤ e
    → (bitmap_test (bitmap_set_range s e bitmap) v ≡ (leb s v && leb v e) || bitmap_test bitmap v)
      × IsByteMap (bitmap_set_range s e bitmap)
unfolding bitmap_set_range
bitmap_set_range-law s e bitmap v h le =
    let (tested, bytes) = bitmap_set_from-law (e + 1 - s) s bitmap v h in
    (tested ∙ ground arith, bytes)

zero_table : holds_upto (λ j. not (bit_test 0 j)) 8 ≡ true
unfolding holds_upto
zero_table = refl

pub bitmap_test-cleared : (v : ℕ) → bitmap_test cleared v ≡ false
unfolding bitmap_test
bitmap_test-cleared v = zero_and (v % 8) (omega arith)
  where
    zero_and : (j : ℕ) → j < 8 → bit_test 0 j ≡ false
    zero_and j h = ground (arith, holds_upto-law 8 (λ j. not (bit_test 0 j)) zero_table h)
