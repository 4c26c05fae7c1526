-- ===== src/Target/Single.antt =====
-- src/net/target.c: one target, a literal or a name.
use cytadel_scan.Base.{
  Bool, true, false, not, ◌||◌, Option, none, some, List, [], ◌∷◌, Bytes, length, leb, ◌==◌,
  if◌then◌else◌,
}
use cytadel_scan.Target.{
  Resolver, Address, inet, inet6, other_family, Target, host_str_max, is_space,
}

-- The values of `cytadel_target_status_t`, with the target where there is one.
pub data TargetParsed : Type 0 where
  one_target : Target → TargetParsed
  invalid_spec multi unresolved : TargetParsed

unfoldable pub looks_like_multi : Bytes → Bool
looks_like_multi [] = false
looks_like_multi (c ∷ s) = if c == b'/' || c == b',' || is_space c then true else looks_like_multi s

-- The loop over the results of `getaddrinfo`: the first IPv4 address that can be written.
unfoldable pub first_ipv4 : Resolver → List Address → Option Bytes
first_ipv4 net [] = none
first_ipv4 net (inet a ∷ rest) = elim (net.inet_ntop a) [
  | none ↦ first_ipv4 net rest
  | some ip ↦ some ip
]
first_ipv4 net (inet6 ∷ rest) = first_ipv4 net rest
first_ipv4 net (other_family ∷ rest) = first_ipv4 net rest

abbrev pub named_target : Bytes → TargetParsed → Option Bytes → TargetParsed
named_target host otherwise none = otherwise
named_target host otherwise (some ip) = one_target (record { host = host; ip = ip })

unfoldable pub resolve : Resolver → Bytes → TargetParsed
resolve net spec = elim (net.inet_pton spec) [
  | some a ↦ named_target spec invalid_spec (net.inet_ntop a)
  | none ↦ elim (net.getaddrinfo spec) [
    | none ↦ unresolved
    | some res ↦ named_target spec unresolved (first_ipv4 net res)
  ]
]

unfoldable pub target_parse : Resolver → Bool → Option Bytes → TargetParsed
target_parse net out_ok none = invalid_spec
target_parse net out_ok (some spec) =
    if not out_ok
    then invalid_spec
    else if length spec == 0
    then invalid_spec
    else if leb host_str_max (length spec)
    then invalid_spec
    else if looks_like_multi spec
    then multi
    else resolve net spec

unfoldable pub target_is_ipv4_literal : Resolver → Option Bytes → Bool
target_is_ipv4_literal net none = false
target_is_ipv4_literal net (some spec) = elim (net.inet_pton spec) [ none ↦ false | some a ↦ true ]
