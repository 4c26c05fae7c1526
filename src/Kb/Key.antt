-- ===== src/Kb/Key.antt =====
-- src/kb/kb_validate.c: keys and embedded NUL bytes. A C string is the list of its bytes before the
-- NUL.
pub mod Grammar
use cytadel_scan.Base.{
  ℕ, zero, suc, ◌+◌, ◌<◌, ◌≤◌, Bool, true, false, not, ◌&&◌, ◌||◌, Option, none, some, ◌≡◌, ◌≢◌,
  ◌⊎◌, inl, inr, refl, sym, ap, ◌∙◌, arith, List, [], ◌∷◌, ◌++◌, Bytes, length, ltb, leb, ◌==◌,
  if◌then◌else◌, All, Bool-cases, ◌↔◌,
}

abbrev pub key_max_len : ℕ
key_max_len = 255

unfoldable pub is_key_byte : ℕ → Bool
is_key_byte c =
    (leb b'A' c && leb c b'Z')
    || (leb b'a' c && leb c b'z')
    || (leb b'0' c && leb c b'9')
    || c == b'_'
    || c == b'.'
    || c == b'-'

-- The loop over the bytes with the length of the segment so far; the result is `seg_len > 0`.
unfoldable pub segments_loop : ℕ → Bytes → Bool
segments_loop seg_len [] = ltb 0 seg_len
segments_loop seg_len (c ∷ s) =
    let next_segment = segments_loop 0 s in
    let same_segment = segments_loop (seg_len + 1) s in
    if c == b'/'
    then (if seg_len == 0 then false else next_segment)
    else if not (is_key_byte c)
    then false
    else same_segment

abbrev starts_with_slash : Bytes → Bool
starts_with_slash [] = false
starts_with_slash (c ∷ s) = c == b'/'

-- `key[len - 1] == '/'`
unfoldable pub ends_with_slash : Bytes → Bool
ends_with_slash [] = false
ends_with_slash (c ∷ []) = c == b'/'
ends_with_slash (c ∷ d ∷ s) = ends_with_slash (d ∷ s)

-- `none` is a null pointer.
unfoldable pub validate_key : Option Bytes → Bool
validate_key none = false
validate_key (some key) =
    if length key == 0 || ltb key_max_len (length key)
    then false
    else if starts_with_slash key || ends_with_slash key
    then false
    else segments_loop 0 key

-- A null pointer comes with its length.
unfoldable pub validate_no_embedded_nul : Bytes → Bool
validate_no_embedded_nul [] = true
validate_no_embedded_nul (c ∷ s) = if c == 0 then false else validate_no_embedded_nul s
