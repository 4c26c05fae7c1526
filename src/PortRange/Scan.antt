-- ===== src/PortRange/Scan.antt =====
-- src/net/port_range.c: the loop over the tokens, and the loops over the bitmap.
use cytadel_scan.Base.{
  ℕ, zero, suc, ◌+◌, Bool, not, Option, none, some, List, [], ◌∷◌, Bytes, length, ltb, leb, ◌==◌,
  if◌then◌else◌,
}
use cytadel_scan.PortRange.Bitmap.{Bitmap, cleared, bitmap_test, bitmap_set_range}
use cytadel_scan.PortRange.{
  Status, ok, malformed, too_many, empty, alloc_failed, ports, refused, parse_token, split_commas,
  spec_max_len, spec_max_tokens, port_min, port_max,
}

pub data Tokens : Type 0 where
  set_bits : Bitmap → Tokens
  stopped : Status → Tokens

unfoldable pub token_loop : ℕ → List Bytes → Bitmap → Tokens
token_loop token_count [] bitmap = set_bits bitmap
token_loop token_count (t ∷ ts) bitmap =
    if ltb spec_max_tokens (token_count + 1) then stopped too_many else elim (parse_token t) [
      | refused s ↦ stopped s
      | ports start_v end_v ↦
          token_loop (token_count + 1) ts (bitmap_set_range start_v end_v bitmap)
    ]

-- The two passes over the ports from `v` on: the first counts, the second fills the array.
unfoldable pub count_ports : ℕ → ℕ → Bitmap → ℕ
count_ports zero v bitmap = 0
count_ports (suc n) v bitmap =
    (if bitmap_test bitmap v then 1 else 0) + count_ports n (v + 1) bitmap

unfoldable pub collect : ℕ → ℕ → Bitmap → List ℕ
collect zero v bitmap = []
collect (suc n) v bitmap =
    let rest = collect n (v + 1) bitmap in if bitmap_test bitmap v then v ∷ rest else rest

unfoldable pub finish : Bool → Bitmap → Status
finish alloc_ok bitmap =
    if count_ports port_max port_min bitmap == 0
    then empty
    else if not alloc_ok
    then alloc_failed
    else ok (collect port_max port_min bitmap)

-- A null `out_list` or `spec`, and whether the array can be had.
unfoldable pub port_range_parse : Bool → Bool → Option Bytes → Status
port_range_parse out_ok alloc_ok none = malformed
port_range_parse out_ok alloc_ok (some []) = malformed
port_range_parse out_ok alloc_ok (some (c ∷ s)) =
    if not out_ok
    then malformed
    else if leb spec_max_len (length (c ∷ s))
    then malformed
    else elim (token_loop 0 (split_commas (c ∷ s)) cleared) [
      | stopped st ↦ st
      | set_bits bitmap ↦ finish alloc_ok bitmap
    ]
