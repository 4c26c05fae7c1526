-- ===== src/Target/Tests.antt =====
-- src/net: a small network, lists of its targets, and the theorems at these values.
use cytadel_scan.Base.Int.{pos}
use cytadel_scan.Base.{
  ℕ, ◌+◌, ◌≤◌, ◌≡◌, refl, arith, true, false, ◌||◌, ◌&&◌, Bool-cases, inl, inr, some, none, List,
  [], ◌∷◌, ◌++◌, Bytes, codes, length, leb, if◌then◌else◌,
}
use cytadel_scan.Base.Slots.{set_elem}
use cytadel_scan.PortRange.{split_commas}
use cytadel_scan.Target.Cidr.Block.{HasWords, IsAddressed, cidr_parse-IsAddressed}
use cytadel_scan.Target.Cidr.{
  Cidr, block, malformed, bad_address, bad_prefix, behind_slash, prefix_loop, mask_of, parse_prefix,
  parse_halves, cidr_parse, cidr_host_count, cidr_nth_address,
}
use cytadel_scan.Target.Dedup.First.{dedup-firsts}
use cytadel_scan.Target.Dedup.Reference.{firsts}
use cytadel_scan.Target.Dedup.Sort.{insert, insertion_sort, insertion_sort-Sorts}
use cytadel_scan.Target.Dedup.{
  strcmp, dedup_key_cmp, same_text, keys_from, no_flags, keep_loop, compact, dedup,
}
use cytadel_scan.Target.Expand.Hosts.{Adds, expand_token-block}
use cytadel_scan.Target.Expand.{
  Dynarray, expanded, ListEnv, targets, refused, empty, too_many, dynarray_push, hosts_loop,
  expand_block, push_single, expand_trimmed, expand_token, tokens_loop, expand_spec, line_loop,
  expand_file, add_file, add_spec, finish_list, target_list_parse, max_targets,
}
use cytadel_scan.Target.File.{Read, trim_line, add_line, round, read_loop, targets_file_read}
use cytadel_scan.Target.Listed.{DistinctIps, target_list_parse-bounds}
use cytadel_scan.Target.Single.{looks_like_multi, first_ipv4, resolve, target_parse}
use cytadel_scan.Target.{Resolver, Target, inet, inet6}

network : Unit {0}
unfolding set_elem split_commas behind_slash prefix_loop mask_of parse_prefix parse_halves
    cidr_parse cidr_host_count cidr_nth_address firsts insert insertion_sort strcmp dedup_key_cmp
    keys_from no_flags keep_loop compact dedup dynarray_push hosts_loop expand_block push_single
    expand_trimmed expand_token tokens_loop expand_spec line_loop expand_file add_file add_spec
    finish_list target_list_parse trim_line add_line round read_loop targets_file_read
    looks_like_multi first_ipv4 resolve target_parse
network = tt

-- One literal and one name are known; an address is written as one byte for its number.
abbrev net : Resolver
net = record {
  inet_pton = λ s. if same_text s (codes "10.0.0.6") then some 0x0A000006 else none;
  inet_ntop = λ a. some (a ∷ []);
  getaddrinfo =
      λ s. if same_text s (codes "gate") then some (inet6 ∷ inet 0x0A000005 ∷ []) else none;
}

net-HasWords : HasWords net
net-HasWords s a h = elim (Bool-cases (same_text s (codes "10.0.0.6"))) [
  | inl e ↦
      let same : some 0x0A000006 ≡ some a = rw e at h in
      let eq : 0x0A000006 ≡ a = cc in omega (arith, eq)
  | inr e ↦ let bad : none ≡ some a = rw e at h in absurd (cc)
]

abbrev pair : Cidr
pair = record { network = 0x0A000004; prefix = pos 30 }

blocks :
    (cidr_parse net (some (codes "10.0.0.6/30")) ≡ block pair)
    × (cidr_parse net (some (codes "10.0.0.6/33")) ≡ bad_prefix)
    × (cidr_parse net (some (codes "10.0.0.6/-1")) ≡ bad_prefix)
    × (cidr_parse net (some (codes "10.0.0.6/3/0")) ≡ malformed)
    × (cidr_parse net (some (codes "10.0.0/30")) ≡ bad_address)
    × (cidr_nth_address net (some pair) 3 46 ≡ some (0x0A000007 ∷ []))
    × (cidr_nth_address net (some pair) 4 46 ≡ none)
unfolding network
blocks = (refl, refl, refl, refl, refl, refl, refl)

cidr_parse-IsAddressed_example : IsAddressed net (codes "10.0.0.6/30") pair
cidr_parse-IsAddressed_example =
    cidr_parse-IsAddressed net (codes "10.0.0.6/30") pair net-HasWords (blocks.0)

-- Three targets, of which the last repeats the first.
abbrev host : Bytes → ℕ → Target
host name a = record { host = name; ip = a ∷ [] }

abbrev three : List Target
three = host (codes "a") 9 ∷ host (codes "b") 5 ∷ host (codes "c") 9 ∷ []

without_last :
    dedup insertion_sort true true three ≡ some (host (codes "a") 9 ∷ host (codes "b") 5 ∷ [])
unfolding network
without_last = refl

dedup-firsts_example :
    dedup insertion_sort true true three
    ≡ (if leb (length three) 1 || (true && true) then some (firsts [] three) else none)
dedup-firsts_example = dedup-firsts insertion_sort true true three insertion_sort-Sorts

abbrev no_array : Dynarray
no_array = record { items = []; capacity = 0 }

abbrev four : List Target
four =
    host (0x0A000004 ∷ []) 0x0A000004
    ∷ host (0x0A000005 ∷ []) 0x0A000005
    ∷ host (0x0A000006 ∷ []) 0x0A000006
    ∷ host (0x0A000007 ∷ []) 0x0A000007
    ∷ []

abbrev grown : Dynarray
grown = record { items = four; capacity = 64 }

block_token : expand_token net (λ n. true) (codes " 10.0.0.6/30 ") no_array 0 ≡ expanded grown 4
unfolding network
block_token = refl

expand_token-block_example :
    IsAddressed net (codes "10.0.0.6/30") pair
    × Adds net pair (cidr_host_count (some pair)) 0 no_array grown
    × (4 ≡ 0 + cidr_host_count (some pair))
    × (4 ≤ max_targets)
expand_token-block_example =
    expand_token-block net (λ n. true) (codes " 10.0.0.6/30 ") pair no_array grown 0 4 net-HasWords
      (omega arith) (blocks.0) block_token

abbrev reads : List Read
reads =
    record { raw = codes "# the gate" ++ (10 ∷ []); eof = false }
    ∷ record { raw = codes "gate # here"; eof = true }
    ∷ []

abbrev env : ListEnv
env = record {
  net = net;
  realloc_ok = λ n. true;
  read_file = λ path. targets_file_read (λ n. true) (λ s. true) (λ s. some reads) true path;
  qsort = insertion_sort;
  keys_ok = true;
  keep_ok = true;
}

abbrev listed : List Target
listed = host (codes "10.0.0.6") 0x0A000006 ∷ host (codes "gate") 0x0A000005 ∷ []

parsed :
    target_list_parse env true (some (codes "10.0.0.6,10.0.0.6")) (some (codes "f"))
    ≡ targets listed
unfolding network
parsed = refl

refusals :
    (target_list_parse env true (some []) none ≡ refused empty)
    × (target_list_parse env true (some (codes "10.0.0.6/15")) none ≡ refused too_many)
unfolding network
refusals = (refl, refl)

target_list_parse-bounds_example :
    (1 ≤ length listed) × (length listed ≤ max_targets) × DistinctIps listed
target_list_parse-bounds_example =
    target_list_parse-bounds env true (some (codes "10.0.0.6,10.0.0.6")) (some (codes "f")) listed
      insertion_sort-Sorts parsed
