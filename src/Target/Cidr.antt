-- ===== src/Target/Cidr.antt =====
-- src/net/cidr.c: a block of addresses.
pub mod Block
use Prim.Native.Nat.{bit_and, bit_or}
use cytadel_scan.Base.Int.{ℤ, pos, negsuc}
use cytadel_scan.Base.{
  ℕ, ◌+◌, ◌-◌, ◌*◌, ◌%◌, ◌^◌, Bool, ◌||◌, Option, none, some, List, [], ◌∷◌, Bytes, length, ltb,
  leb, ◌==◌, if◌then◌else◌,
}
use cytadel_scan.Target.{Resolver, contains_slash, ip_str_max}

pub record Cidr : Type 0 where
  pub network : ℕ
  pub prefix : ℤ

-- The values of `cytadel_cidr_status_t`, with the block where there is one.
pub data CidrParsed : Type 0 where
  block : Cidr → CidrParsed
  malformed bad_address bad_prefix : CidrParsed

abbrev pub before_slash : Bytes → Bytes
before_slash [] = []
before_slash (c ∷ s) = if c == b'/' then [] else c ∷ before_slash s

-- What stands behind the first slash.
unfoldable pub behind_slash : Bytes → Option Bytes
behind_slash [] = none
behind_slash (c ∷ s) = if c == b'/' then some s else behind_slash s

unfoldable pub prefix_loop : ℕ → Bytes → Option ℕ
prefix_loop prefix_val [] = some prefix_val
prefix_loop prefix_val (c ∷ s) =
    let rest = prefix_loop (prefix_val * 10 + (c - b'0')) s in
    if ltb c b'0' || ltb b'9' c then none else rest

-- The shift drops what does not fit 32 bits.
unfoldable pub mask_of : ℕ → ℕ
mask_of prefix_val = if prefix_val == 0 then 0 else 0xFFFFFFFF * 2 ^ (32 - prefix_val) % 2 ^ 32

abbrev pub masked : ℕ → Option ℕ → CidrParsed
masked addr_host none = bad_prefix
masked addr_host (some prefix_val) =
    if ltb 32 prefix_val
    then bad_prefix
    else block
        (record { network = bit_and addr_host (mask_of prefix_val); prefix = pos prefix_val })

unfoldable pub parse_prefix : ℕ → Bytes → CidrParsed
parse_prefix addr_host prefix_str =
    if length prefix_str == 0 || ltb 2 (length prefix_str)
    then bad_prefix
    else masked addr_host (prefix_loop 0 prefix_str)

unfoldable pub parse_halves : Resolver → Bytes → Bytes → CidrParsed
parse_halves net addr prefix_str =
    if contains_slash prefix_str
    then malformed
    else if length addr == 0 || leb ip_str_max (length addr)
    then bad_address
    else elim (net.inet_pton addr) [
      | none ↦ bad_address
      | some addr_host ↦ parse_prefix addr_host prefix_str
    ]

unfoldable pub cidr_parse : Resolver → Option Bytes → CidrParsed
cidr_parse net none = malformed
cidr_parse net (some spec) = elim (behind_slash spec) [
  | none ↦ malformed
  | some prefix_str ↦ parse_halves net (before_slash spec) prefix_str
]

abbrev pub count_of : ℤ → ℕ
count_of (negsuc p) = 0
count_of (pos p) = if ltb 32 p then 0 else 2 ^ (32 - p)

unfoldable pub cidr_host_count : Option Cidr → ℕ
cidr_host_count none = 0
cidr_host_count (some cidr) = count_of cidr.prefix

-- `none` is the return of -1.
unfoldable pub cidr_nth_address : Resolver → Option Cidr → ℕ → ℕ → Option Bytes
cidr_nth_address net none n buf_len = none
cidr_nth_address net (some cidr) n buf_len =
    if ltb buf_len ip_str_max
    then none
    else if cidr_host_count (some cidr) == 0 || leb (cidr_host_count (some cidr)) n
    then none
    else net.inet_ntop (bit_or cidr.network (n % 2 ^ 32))
