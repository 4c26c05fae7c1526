-- ===== src/Version.antt =====
-- src/match/version_compare.c: the result type, the byte classes and the input buffers.
pub mod Scan
pub mod Digits
pub mod Alpha
pub mod Residual
pub mod Compare
pub mod Total
pub mod Flip
pub mod Equal
pub mod Epoch
pub mod Append
pub mod Suffix
pub mod Metadata
pub mod Prerelease
pub mod Tests
use cytadel_scan.Base.{
  ℕ, ◌+◌, Bool, true, false, ◌&&◌, ◌||◌, [], ◌∷◌, Bytes, ltb, leb, ◌==◌, if◌then◌else◌,
}

-- `cytadel_vercmp_t`
pub data Vercmp : Type 0 where
  less equal greater undecidable : Vercmp

-- The answer with the versions swapped.
abbrev pub flip : Vercmp → Vercmp
flip less = greater
flip greater = less
flip v = v

-- A pointer with a length: a null pointer keeps the length that the caller passed with it.
pub data Buffer : Type 0 where
  null : ℕ → Buffer
  text : Bytes → Buffer

unfoldable pub is_digit_byte : ℕ → Bool
is_digit_byte c = leb b'0' c && leb c b'9'

unfoldable pub is_delim_byte : ℕ → Bool
is_delim_byte c = c == b'.' || c == b'-' || c == b'_'

unfoldable pub to_lower_ascii : ℕ → ℕ
to_lower_ascii c = if leb b'A' c && leb c b'Z' then c + 32 else c

-- One leading `v` or `V` goes when a digit stands right behind it.
unfoldable pub strip_v_prefix : Bytes → Bytes
unfolding is_digit_byte
strip_v_prefix [] = []
strip_v_prefix (c ∷ []) = c ∷ []
strip_v_prefix (c ∷ d ∷ s) =
    if (c == b'v' || c == b'V') && is_digit_byte d then d ∷ s else c ∷ d ∷ s

unfoldable pub has_disallowed_byte : Bytes → Bool
has_disallowed_byte [] = false
has_disallowed_byte (c ∷ s) =
    if ltb c 0x20 || c == 0x7F || leb 0x80 c then true else has_disallowed_byte s
