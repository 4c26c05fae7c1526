-- ===== src/PortRange.antt =====
-- src/net/port_range.c: port specifications such as `22,80-443`.
pub mod Bitmap
pub mod Numbers
pub mod Scan
pub mod Sorted
pub mod Parse
pub mod Select
pub mod Grammar
pub mod Commas
mod Tests
use cytadel_scan.Base.{
  ℕ, zero, suc, ◌+◌, ◌-◌, ◌*◌, Bool, true, false, not, ◌&&◌, ◌||◌, Option, none, some, List, [],
  ◌∷◌, Bytes, length, ltb, leb, ◌==◌, if◌then◌else◌,
}

abbrev pub port_min : ℕ
port_min = 1

abbrev pub port_max : ℕ
port_max = 65535

abbrev pub spec_max_len : ℕ
spec_max_len = 8192

abbrev pub spec_max_tokens : ℕ
spec_max_tokens = 4096

abbrev pub token_max_len : ℕ
token_max_len = 16

-- `cytadel_port_range_status_t`, with the list where there is one.
pub data Status : Type 0 where
  ok : List ℕ → Status
  malformed out_of_bounds too_many empty alloc_failed : Status

-- Decimal digits behind `val`, with the clamp; `none` is `return false`.
unfoldable pub uint_loop : ℕ → Bytes → Option ℕ
uint_loop val [] = some val
uint_loop val (c ∷ s) =
    let next = val * 10 + (c - b'0') in
    let rest = uint_loop (if ltb 1000000 next then 1000000 else next) s in
    if ltb c b'0' || ltb b'9' c then none else rest

unfoldable pub parse_uint : Bytes → Option ℕ
parse_uint tok = if length tok == 0 || ltb 6 (length tok) then none else uint_loop 0 tok

-- The tokens between the commas.
abbrev add_byte : ℕ → List Bytes → List Bytes
add_byte c [] = (c ∷ []) ∷ []
add_byte c (t ∷ ts) = (c ∷ t) ∷ ts

unfoldable pub split_commas : Bytes → List Bytes
split_commas [] = [] ∷ []
split_commas (c ∷ s) = if c == b',' then [] ∷ split_commas s else add_byte c (split_commas s)

unfoldable pub dash_count : Bytes → ℕ
dash_count [] = 0
dash_count (c ∷ s) = (if c == b'-' then 1 else 0) + dash_count s

-- The bytes in front of the first dash, and those behind it.
unfoldable pub before_dash : Bytes → Bytes
before_dash [] = []
before_dash (c ∷ s) = if c == b'-' then [] else c ∷ before_dash s

unfoldable pub after_dash : Bytes → Bytes
after_dash [] = []
after_dash (c ∷ s) = if c == b'-' then s else after_dash s

-- What a token stands for, or why it is refused.
pub data Range : Type 0 where
  ports : ℕ → ℕ → Range
  refused : Status → Range

-- The tests on the two ends.
unfoldable pub check_ends : ℕ → ℕ → Range
check_ends start_v end_v =
    if ltb start_v port_min || ltb port_max start_v || ltb end_v port_min || ltb port_max end_v
    then refused out_of_bounds
    else if ltb end_v start_v
    then refused malformed
    else ports start_v end_v

abbrev pub ends_of : Option ℕ → Option ℕ → Range
ends_of none e = refused malformed
ends_of (some s) none = refused malformed
ends_of (some s) (some e) = check_ends s e

unfoldable pub parse_token : Bytes → Range
parse_token tok =
    if length tok == 0 || ltb token_max_len (length tok)
    then refused malformed
    else if ltb 1 (dash_count tok)
    then refused malformed
    else if dash_count tok == 1
    then (if length (before_dash tok) == 0 || length (after_dash tok) == 0
        then refused malformed
        else ends_of (parse_uint (before_dash tok)) (parse_uint (after_dash tok)))
    else ends_of (parse_uint tok) (parse_uint tok)
