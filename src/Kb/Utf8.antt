-- ===== src/Kb/Utf8.antt =====
-- src/kb/kb_validate.c: the UTF-8 validator.
pub mod Encode
pub mod Sound
use cytadel_scan.Base.{
  ℕ, zero, suc, ◌+◌, ◌-◌, Bool, true, false, not, ◌&&◌, ◌||◌, Option, none, some, [], ◌∷◌, Bytes,
  length, ltb, leb, ◌==◌, if◌then◌else◌,
}

-- What a lead byte asks of the bytes behind it: their number, and the range of the first.
pub record Lead : Type 0 where
  pub extra : ℕ
  pub lo : ℕ
  pub hi : ℕ

abbrev lead : ℕ → ℕ → ℕ → Option Lead
lead extra lo hi = some (record { extra = extra; lo = lo; hi = hi })

-- `none` is the `return false` on a byte that starts no sequence.
unfoldable pub classify : ℕ → Option Lead
classify b =
    if leb 0xC2 b && leb b 0xDF
    then lead 1 0x80 0xBF
    else if b == 0xE0
    then lead 2 0xA0 0xBF
    else if leb 0xE1 b && leb b 0xEC
    then lead 2 0x80 0xBF
    else if b == 0xED
    then lead 2 0x80 0x9F
    else if leb 0xEE b && leb b 0xEF
    then lead 2 0x80 0xBF
    else if b == 0xF0
    then lead 3 0x90 0xBF
    else if leb 0xF1 b && leb b 0xF3
    then lead 3 0x80 0xBF
    else if b == 0xF4
    then lead 3 0x80 0x8F
    else none

abbrev pub within : ℕ → ℕ → ℕ → Bool
within lo hi c = leb lo c && leb c hi

-- The loop over `k` from 2 to `extra`: `n` bytes are to come, and the rest behind them.
unfoldable pub continuation : ℕ → Bytes → Option Bytes
continuation zero s = some s
continuation (suc n) [] = none
continuation (suc n) (c ∷ s) = if within 0x80 0xBF c then continuation n s else none

unfoldable pub first_continuation : Lead → Bytes → Option Bytes
unfolding continuation
first_continuation l [] = none
first_continuation l (c ∷ s) = if within l.lo l.hi c then continuation (l.extra - 1) s else none

-- The bytes behind a lead byte; `i + extra >= len` is tested before any of them is read.
unfoldable pub after_lead : Lead → Bytes → Option Bytes
unfolding first_continuation
after_lead l s = if ltb (length s) l.extra then none else first_continuation l s

-- The body of the loop at a byte that is not ASCII; `none` is a `return false`.
unfoldable pub sequence : ℕ → Bytes → Option Bytes
sequence b s = elim (classify b) [ none ↦ none | some l ↦ after_lead l s ]

-- `while (i < len)`; `none` means that the fuel ran out.
unfoldable pub validate_loop : ℕ → Bytes → Option Bool
validate_loop zero s = none
validate_loop (suc fuel) [] = some true
validate_loop (suc fuel) (b ∷ s) =
    let ascii = validate_loop fuel s in
    if ltb b 0x80
    then ascii
    else elim (sequence b s) [ none ↦ some false | some r ↦ validate_loop fuel r ]

-- The fuel suffices, so `none` is never read.
abbrev pub accepted : Option Bool → Bool
accepted (some b) = b
accepted none = false

-- A null pointer comes with the length 0 or is refused: `null_len` in the callers.
unfoldable pub validate_utf8 : Bytes → Bool
validate_utf8 s = accepted (validate_loop (suc (length s)) s)
