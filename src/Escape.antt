-- ===== src/Escape.antt =====
-- src/report/escape.c: what one byte becomes in HTML, in a URL and in a JSON string.
pub mod Buffer
pub mod Grow
pub mod Loop
pub mod Html
pub mod Json
pub mod Url
pub mod SafeUrl
mod Tests
use cytadel_scan.Base.{
  ℕ, ◌+◌, ◌/◌, ◌%◌, Bool, true, false, not, ◌&&◌, ◌||◌, Option, none, some, [], ◌∷◌, ◌++◌, Bytes,
  codes, length, ltb, leb, ◌==◌, if◌then◌else◌,
}

abbrev pub hex_digit_upper : ℕ → ℕ
hex_digit_upper nibble = if ltb nibble 10 then b'0' + nibble else 55 + nibble

abbrev pub hex_digit_lower : ℕ → ℕ
hex_digit_lower nibble = if ltb nibble 10 then b'0' + nibble else 87 + nibble

unfoldable pub is_alpha_ascii : ℕ → Bool
is_alpha_ascii c = (leb b'A' c && leb c b'Z') || (leb b'a' c && leb c b'z')

unfoldable pub is_scheme_char : ℕ → Bool
unfolding is_alpha_ascii
is_scheme_char c =
    is_alpha_ascii c || (leb b'0' c && leb c b'9') || c == b'+' || c == b'-' || c == b'.'

-- The bytes that the source appends for `c`.
unfoldable pub html_escape_one : Bool → ℕ → Bytes
html_escape_one escape_quotes c =
    if c == b'&'
    then codes "&amp;"
    else if c == b'<'
    then codes "&lt;"
    else if c == b'>'
    then codes "&gt;"
    else if c == b'"'
    then (if escape_quotes then codes "&quot;" else c ∷ [])
    else if c == 39
    then (if escape_quotes then codes "&#39;" else c ∷ [])
    else c ∷ []

-- The body of the loop of `cytadel_escape_json`.
unfoldable pub json_escape_one : ℕ → Bytes
json_escape_one c =
    if c == b'"'
    then 92 ∷ b'"' ∷ []
    else if c == 92
    then 92 ∷ 92 ∷ []
    else if c == 8
    then 92 ∷ b'b' ∷ []
    else if c == 12
    then 92 ∷ b'f' ∷ []
    else if c == 10
    then 92 ∷ b'n' ∷ []
    else if c == 13
    then 92 ∷ b'r' ∷ []
    else if c == 9
    then 92 ∷ b't' ∷ []
    else if ltb c 0x20
    then 92 ∷ b'u' ∷ b'0' ∷ b'0' ∷ hex_digit_lower (c / 16) ∷ hex_digit_lower (c % 16) ∷ []
    else c ∷ []

abbrev is_break : ℕ → Bool
is_break c = c == 9 || c == 10 || c == 13

unfoldable pub url_has_disallowed_control : Bytes → Bool
url_has_disallowed_control [] = false
url_has_disallowed_control (c ∷ s) =
    let rest = url_has_disallowed_control s in
    if is_break c then rest else if ltb c 0x20 || c == 0x7F then true else rest

abbrev member : ℕ → Bytes → Bool
member c [] = false
member c (x ∷ xs) = c == x || member c xs

unfoldable pub url_is_safe_char : ℕ → Bool
url_is_safe_char c =
    if (leb b'A' c && leb c b'Z') || (leb b'a' c && leb c b'z') || (leb b'0' c && leb c b'9')
    then true
    else member c (codes "-_.~:/?#[]@!$()*+,;=%")

-- The body of the loop of `url_percent_encode_append`.
unfoldable pub url_percent_encode_one : ℕ → Bytes
url_percent_encode_one c =
    if url_is_safe_char c
    then c ∷ []
    else b'%' ∷ hex_digit_upper (c / 16) ∷ hex_digit_upper (c % 16) ∷ []

-- TAB, LF and CR go wherever they stand.
unfoldable pub drop_breaks : Bytes → Bytes
drop_breaks [] = []
drop_breaks (c ∷ s) = if is_break c then drop_breaks s else c ∷ drop_breaks s

unfoldable pub trim_start : Bytes → Bytes
trim_start [] = []
trim_start (c ∷ s) = if c == b' ' then trim_start s else c ∷ s

abbrev is_nil : Bytes → Bool
is_nil [] = true
is_nil (c ∷ s) = false

unfoldable pub trim_end : Bytes → Bytes
trim_end [] = []
trim_end (c ∷ s) = let t = trim_end s in if is_nil t && c == b' ' then [] else c ∷ t

abbrev pub before : ℕ → Option Bytes → Option Bytes
before c none = none
before c (some s) = some (c ∷ s)

-- The bytes of a scheme behind the first, where a colon ends them.
unfoldable pub scheme_tail : Bytes → Option Bytes
scheme_tail [] = none
scheme_tail (c ∷ s) =
    if is_scheme_char c then before c (scheme_tail s) else if c == b':' then some [] else none

-- `has_scheme` and the first `scheme_len` bytes.
unfoldable pub scheme_of : Bytes → Option Bytes
scheme_of [] = none
scheme_of (c ∷ s) = if is_alpha_ascii c then before c (scheme_tail s) else none

abbrev lower : ℕ → ℕ
lower c = if leb b'A' c && leb c b'Z' then c + 32 else c

abbrev lower_loop : Bytes → Bytes → Bool
lower_loop [] lit = true
lower_loop (c ∷ s) [] = true
lower_loop (c ∷ s) (d ∷ lit) = if not (lower c == d) then false else lower_loop s lit

unfoldable pub scheme_equals_ci : Bytes → Bytes → Bool
scheme_equals_ci s lit = if not (length s == length lit) then false else lower_loop s lit

-- `//` or `/\` in front.
unfoldable pub is_protocol_relative : Bytes → Bool
is_protocol_relative [] = false
is_protocol_relative (c ∷ []) = false
is_protocol_relative (c ∷ d ∷ s) = c == b'/' && (d == b'/' || d == 92)

unfoldable pub is_web_scheme : Bytes → Bool
is_web_scheme s = scheme_equals_ci s (codes "http") || scheme_equals_ci s (codes "https")

unfoldable pub is_allowed : Bytes → Bool
is_allowed clean = elim (scheme_of clean) [
  | some scheme ↦ is_web_scheme scheme
  | none ↦ if is_protocol_relative clean then false else true
]
