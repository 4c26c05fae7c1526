-- ===== src/Target.antt =====
-- src/net: from the text that names the targets to the list of their addresses.
pub mod Cidr
pub mod Single
pub mod File
pub mod Dedup
pub mod Expand
pub mod Listed
mod Tests
use cytadel_scan.Base.{
  if◌then◌else◌, ℕ, Bool, false, ◌||◌, Option, List, [], ◌∷◌, Bytes, leb, ◌&&◌, ◌==◌,
}

-- A result of `getaddrinfo`.
pub data Address : Type 0 where
  inet : ℕ → Address
  inet6 other_family : Address

-- What the network library answers. An IPv4 address is a number, in the host's byte order;
-- `inet_ntop` is called with a buffer that is long enough.
pub record Resolver : Type 0 where
  pub inet_pton : Bytes → Option ℕ
  pub inet_ntop : ℕ → Option Bytes
  pub getaddrinfo : Bytes → Option (List Address)

-- `cytadel_target_t`
pub record Target : Type 0 where
  pub host : Bytes
  pub ip : Bytes

-- CYTADEL_NET_IP_STR_MAX and CYTADEL_NET_HOST_STR_MAX
abbrev pub ip_str_max : ℕ
ip_str_max = 46

abbrev pub host_str_max : ℕ
host_str_max = 256

-- `isspace` in the C locale.
abbrev pub is_space : ℕ → Bool
is_space c = c == 32 || (leb 9 c && leb c 13)

abbrev pub contains_slash : Bytes → Bool
contains_slash [] = false
contains_slash (c ∷ s) = c == b'/' || contains_slash s

abbrev pub trim_front : Bytes → Bytes
trim_front [] = []
trim_front (c ∷ s) = if is_space c then trim_front s else c ∷ s

abbrev pub cons_unless : (ℕ → Bool) → ℕ → Bytes → Bytes
cons_unless p c [] = if p c then [] else c ∷ []
cons_unless p c (d ∷ s) = c ∷ d ∷ s

-- Without the bytes at the end that have the property.
abbrev pub drop_end_while : (ℕ → Bool) → Bytes → Bytes
drop_end_while p [] = []
drop_end_while p (c ∷ s) = cons_unless p c (drop_end_while p s)

abbrev pub trim_spaces_end : Bytes → Bytes
trim_spaces_end s = drop_end_while is_space s
