-- ===== src/PortRange/Tests.antt =====
-- src/net/port_range.c: tokens and specifications.
use cytadel_scan.Base.{
  Bytes, ℕ, true, ◌≡◌, ◌↔◌, ◌≤◌, ◌<◌, refl, List, [], ◌∷◌, codes, some, All, length,
}
use cytadel_scan.PortRange.Scan.{port_range_parse, token_loop, count_ports, collect, finish}
use cytadel_scan.PortRange.Bitmap.{bitmap_set, bitmap_test, bitmap_set_from, bitmap_set_range}
use cytadel_scan.PortRange.Commas.{port_range_parse_iff, joined, HasPorts}
use cytadel_scan.PortRange.{
  ok, malformed, out_of_bounds, ports, refused, uint_loop, parse_uint, split_commas, dash_count,
  before_dash, after_dash, check_ends, parse_token, spec_max_len, spec_max_tokens,
}

parser : Unit {0}
unfolding uint_loop parse_uint split_commas dash_count before_dash after_dash check_ends parse_token
    port_range_parse token_loop count_ports collect finish bitmap_set bitmap_test bitmap_set_from
    bitmap_set_range
parser = tt

tokens :
    (parse_token (codes "80-443") ≡ ports 80 443)
    × (parse_token (codes "22") ≡ ports 22 22)
    × (parse_token (codes "443-80") ≡ refused malformed)
    × (parse_token (codes "0") ≡ refused out_of_bounds)
    × (parse_token (codes "1-65536") ≡ refused out_of_bounds)
    × (parse_token (codes "1-2-3") ≡ refused malformed)
    × (parse_token (codes "-5") ≡ refused malformed)
    × (parse_token [] ≡ refused malformed)
unfolding parser
tokens = (refl, refl, refl, refl, refl, refl, refl, refl)

port_range_parse_iff_example :
    ((ps : List ℕ) × (port_range_parse true true (some (b'8' ∷ codes "0-90,22")) ≡ ok ps)) ↔ (
      (length (b'8' ∷ codes "0-90,22") < spec_max_len)
      × ((t : Bytes) × (ts : List Bytes) × (b'8' ∷ codes "0-90,22" ≡ joined t ts)
          × (length (t ∷ ts) ≤ spec_max_tokens)
          × All HasPorts (t ∷ ts)))
port_range_parse_iff_example = port_range_parse_iff b'8' (codes "0-90,22")
