-- ===== src/Target/Cidr/Block.antt =====
-- src/net/cidr.c: the addresses of a block.
use Prim.Native.Nat.{bit_and, bit_or}
use cytadel_scan.Base.Bits.{bit_and-high, bit_or-low}
use cytadel_scan.Base.Int.{pos}
use cytadel_scan.Base.{
  ℕ, zero, suc, ◌+◌, ◌-◌, ◌*◌, ◌%◌, ◌^◌, ◌≤◌, ◌<◌, Bool, true, false, ◌||◌, ◌&&◌, Option, none,
  some, Bytes, length, ltb, leb, ◌==◌, if◌then◌else◌, ◌≡◌, refl, sym, ◌∙◌, ap, arith, Bool-cases,
  Option-cases, inl, inr, ==_iff,
}
use native.Mathlib.Nat.{one-le-pow, pow-le-pow_right}
use cytadel_scan.Target.Cidr.{
  count_of, Cidr, block, malformed, bad_address, bad_prefix, before_slash, behind_slash,
  prefix_loop, mask_of, masked, parse_prefix, parse_halves, cidr_parse, cidr_host_count,
  cidr_nth_address,
}
use cytadel_scan.Target.{Resolver, contains_slash, ip_str_max}

-- A test at every number under a bound.
holds_under : ℕ → (ℕ → Bool) → Bool
holds_under zero test = true
holds_under (suc n) test = test n && holds_under n test

holds_under_sound :
    (n : ℕ) (test : ℕ → Bool) (x : ℕ) → holds_under n test ≡ true → x < n → test x ≡ true
unfolding holds_under
holds_under_sound zero test x h small = absurd (omega arith)
holds_under_sound (suc n) test x h small = ground (arith, holds_under_sound n test x)

masks_are_high : holds_under 33 (λ p. mask_of p == (2 ^ p - 1) * 2 ^ (32 - p)) ≡ true
unfolding holds_under mask_of
masks_are_high = refl

mask_of-high : (p : ℕ) → p ≤ 32 → mask_of p ≡ (2 ^ p - 1) * 2 ^ (32 - p)
mask_of-high p small = (==_iff (mask_of p) ((2 ^ p - 1) * 2 ^ (32 - p))).0 (
    holds_under_sound 33 (λ p. mask_of p == (2 ^ p - 1) * 2 ^ (32 - p)) p masks_are_high
      (omega arith))

-- The network is the multiple of the block's size at or below the address.
abbrev pub IsBlock : ℕ → ℕ → ℕ → Type 0
IsBlock address p network =
    (p ≤ 32)
    × ((q : ℕ) × (network ≡ q * 2 ^ (32 - p)))
    × (network ≤ address)
    × (address < network + 2 ^ (32 - p))

masked_block :
    (a p : ℕ) (c : Cidr)
    → a < 2 ^ 32
    → p ≤ 32
    → block (record { network = bit_and a (mask_of p); prefix = pos p }) ≡ block c
    → (p : ℕ) × (c.prefix ≡ pos p) × IsBlock a p c.network
masked_block a p c small low h =
    let same : record { network = bit_and a (mask_of p); prefix = pos p } ≡ c = cc in
    let places : p + (32 - p) ≡ 32 = omega arith in
    let (q, value, above, below) = bit_and-high p (32 - p) a (rw places small) in
    let net : c.network ≡ q * 2 ^ (32 - p) =
      ap (λ (x : Cidr). x.network) (sym same)
      ∙ ap (λ m. bit_and a m) (mask_of-high p low)
      ∙ value in
    (
      p,
      ap (λ (x : Cidr). x.prefix) (sym same),
      (low, (q, net), omega (arith, net, above), omega (arith, net, below)),
    )

masked-IsBlock :
    (a : ℕ) (o : Option ℕ) (c : Cidr)
    → a < 2 ^ 32
    → masked a o ≡ block c
    → (p : ℕ) × (c.prefix ≡ pos p) × IsBlock a p c.network
masked-IsBlock a none c small h = absurd (cc)
masked-IsBlock a (some p) c small h = elim (Bool-cases (ltb 32 p)) [
  | inl e ↦ let bad : bad_prefix ≡ block c = rw e at h in absurd (cc)
  | inr e ↦
      let parsed : block (record { network = bit_and a (mask_of p); prefix = pos p }) ≡ block c =
        rw e at h in
      masked_block a p c small (ground arith) parsed
]

pub host_count_lem :
    (c : Cidr) (p : ℕ) → c.prefix ≡ pos p → p ≤ 32 → cidr_host_count (some c) ≡ 2 ^ (32 - p)
unfolding cidr_host_count
host_count_lem c p at_p low =
    let small : ltb 32 p ≡ false = ground arith in
    ap (λ z. count_of z) at_p ∙ ap (λ b. if b then 0 else 2 ^ (32 - p)) small

bit_or-network :
    (network p q n : ℕ)
    → p ≤ 32
    → network ≡ q * 2 ^ (32 - p)
    → n < 2 ^ (32 - p)
    → bit_or network (n % 2 ^ 32) ≡ network + n
bit_or-network network p q n low value inside =
    let places : 32 - p ≤ 32 = omega arith in
    let most : 2 ^ (32 - p) ≤ 2 ^ 32 = pow-le-pow_right (omega arith) places in
    let whole : n % 2 ^ 32 ≡ n = omega (arith, most) in
    rw (whole, value) (bit_or-low (32 - p) q n inside)

nth_address_lem :
    (net : Resolver) (c : Cidr) (p q n : ℕ)
    → c.prefix ≡ pos p
    → p ≤ 32
    → c.network ≡ q * 2 ^ (32 - p)
    → cidr_nth_address net (some c) n ip_str_max
      ≡ (if ltb n (2 ^ (32 - p)) then net.inet_ntop (c.network + n) else none)
unfolding cidr_nth_address
nth_address_lem net c p q n at_p low value =
    let count = host_count_lem c p at_p low in
    let positive : 1 ≤ 2 ^ (32 - p) = one-le-pow (32 - p) 2 (omega arith) in
    let some_host : (2 ^ (32 - p) == 0) ≡ false = ground (arith, positive) in
    elim (Bool-cases (ltb n (2 ^ (32 - p)))) [
      | inl e ↦
          let inside : n < 2 ^ (32 - p) = ground arith in
          let room : leb (2 ^ (32 - p)) n ≡ false = ground arith in
          rw (count, some_host, room, e, bit_or-network c.network p q n low value inside) refl
      | inr e ↦
          let full : leb (2 ^ (32 - p)) n ≡ true = ground arith in
          rw (count, some_host, full, e) refl
    ]

parse_prefix-IsBlock :
    (a : ℕ) (s : Bytes) (c : Cidr)
    → a < 2 ^ 32
    → parse_prefix a s ≡ block c
    → (p : ℕ) × (c.prefix ≡ pos p) × IsBlock a p c.network
unfolding parse_prefix
parse_prefix-IsBlock a s c small h = elim (Bool-cases (length s == 0 || ltb 2 (length s))) [
  | inl e ↦ let bad : bad_prefix ≡ block c = rw e at h in absurd (cc)
  | inr e ↦ masked-IsBlock a (prefix_loop 0 s) c small (rw e at h)
]

-- What the network library is to promise: an IPv4 address has 32 bits.
abbrev pub HasWords : Resolver → Type 0
HasWords net = (s : Bytes) (a : ℕ) → net.inet_pton s ≡ some a → a < 2 ^ 32

-- The address in front of the slash lies in the block, and the block's addresses are numbered
-- from the network on.
abbrev pub IsAddressed : Resolver → Bytes → Cidr → Type 0
IsAddressed net spec c =
    (a : ℕ) × (p : ℕ) × (net.inet_pton (before_slash spec) ≡ some a)
    × (c.prefix ≡ pos p)
    × IsBlock a p c.network
    × ((n : ℕ)
        → cidr_nth_address net (some c) n ip_str_max
          ≡ (if ltb n (2 ^ (32 - p)) then net.inet_ntop (c.network + n) else none))

parse_halves-IsAddressed :
    (net : Resolver) (spec prefix_str : Bytes) (c : Cidr)
    → HasWords net
    → parse_halves net (before_slash spec) prefix_str ≡ block c
    → IsAddressed net spec c
unfolding parse_halves
parse_halves-IsAddressed net spec s c words h = elim (Bool-cases (contains_slash s)) [
  | inl e ↦ let bad : malformed ≡ block c = rw e at h in absurd (cc)
  | inr e ↦
      elim (Bool-cases
        (length (before_slash spec) == 0 || leb ip_str_max (length (before_slash spec)))) [
          | inl f ↦ let bad : bad_address ≡ block c = rw (e, f) at h in absurd (cc)
          | inr f ↦ elim (Option-cases (net.inet_pton (before_slash spec))) [
            | inl g ↦
                let bad : bad_address ≡ block c = rw (e, f, g, parse_halves) at h in absurd (cc)
            | inr (a, g) ↦
                let (p, at_p, (low, (q, value), above, below)) =
                  parse_prefix-IsBlock a s c (words (before_slash spec) a g)
                    (rw (e, f, g, parse_halves) at h) in
                (
                  a,
                  p,
                  g,
                  at_p,
                  (low, (q, value), above, below),
                  λ n. nth_address_lem net c p q n at_p low value,
                )
          ]
        ]
]

-- A block that `cidr_parse` accepts has a prefix of at most 32, starts at the multiple of its size at
-- or below the address in front of the slash, and contains that address; `cidr_nth_address` gives
-- its addresses one by one from the network on, and nothing behind the last. `inet_pton` gives
-- numbers of 32 bits.
pub cidr_parse-IsAddressed :
    (net : Resolver) (spec : Bytes) (c : Cidr)
    → HasWords net
    → cidr_parse net (some spec) ≡ block c
    → IsAddressed net spec c
unfolding cidr_parse
cidr_parse-IsAddressed net spec c words h = elim (Option-cases (behind_slash spec)) [
  | inl e ↦ let bad : malformed ≡ block c = rw (e, cidr_parse) at h in absurd (cc)
  | inr (s, e) ↦ parse_halves-IsAddressed net spec s c words (rw (e, cidr_parse) at h)
]
