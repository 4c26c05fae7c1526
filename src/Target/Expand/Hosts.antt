-- ===== src/Target/Expand/Hosts.antt =====
-- src/net/target_list.c: what a block adds to the list.
use cytadel_scan.Base.Int.{ℤ, pos, negsuc}
use cytadel_scan.Base.{
  ℕ, zero, suc, ◌+◌, ◌-◌, ◌*◌, ◌%◌, ◌^◌, ◌≤◌, Bool, true, not, ◌||◌, none, some, List, [], ◌∷◌,
  ◌++◌, append-nil, append_assoc, Bytes, length, ltb, leb, ◌==◌, if◌then◌else◌, ◌≡◌, refl, sym, ◌∙◌,
  ap, arith, Bool-cases, Option-cases, inl, inr,
}
use cytadel_scan.Target.Cidr.Block.{HasWords, IsAddressed, cidr_parse-IsAddressed}
use native.Mathlib.Nat.{pow-le-pow_right}
use cytadel_scan.Target.Cidr.{
  behind_slash, malformed, count_of, Cidr, block, cidr_parse, cidr_host_count, cidr_nth_address,
}
use cytadel_scan.Target.Expand.{
  Dynarray, expanded, failed, invalid, too_many, alloc_failed, dynarray_push, hosts_loop,
  expand_block, expand_trimmed, expand_token, max_targets,
}
use cytadel_scan.Target.{
  Resolver, Target, ip_str_max, host_str_max, contains_slash, trim_front, trim_spaces_end,
}

pub dynarray_push-items :
    (realloc_ok : ℕ → Bool) (arr grown : Dynarray) (t : Target)
    → dynarray_push realloc_ok arr t ≡ some grown
    → grown.items ≡ arr.items ++ (t ∷ [])
unfolding dynarray_push
dynarray_push-items realloc_ok arr grown t h =
    elim (Bool-cases (length arr.items == arr.capacity)) [
      | inr e ↦
          let same : some (record arr { items = arr.items ++ (t ∷ []) }) ≡ some grown = rw e at h in
          let eq : record arr { items = arr.items ++ (t ∷ []) } ≡ grown = cc in
          ap (λ (d : Dynarray). d.items) (sym eq)
      | inl e ↦
          let wider = if arr.capacity == 0 then 64 else arr.capacity * 2 in
          elim (Bool-cases (not (realloc_ok wider))) [
            | inl f ↦ let bad : none ≡ some grown = rw (e, f) at h in absurd (cc)
            | inr f ↦
                let same : some (record { items = arr.items ++ (t ∷ []); capacity = wider })
                    ≡ some grown =
                  rw (e, f) at h in
                let eq : record { items = arr.items ++ (t ∷ []); capacity = wider } ≡ grown = cc in
                ap (λ (d : Dynarray). d.items) (sym eq)
          ]
    ]

-- The targets of the addresses from `n` on, in their order.
abbrev pub IsHosts : Resolver → Cidr → ℕ → List Target → Type 0
IsHosts net cidr n [] = Unit
IsHosts net cidr n (t ∷ ts) =
    (cidr_nth_address net (some cidr) n ip_str_max ≡ some t.ip)
    × (t.host ≡ t.ip)
    × IsHosts net cidr (n + 1) ts

abbrev pub Adds : Resolver → Cidr → ℕ → ℕ → Dynarray → Dynarray → Type 0
Adds net cidr left n arr more =
    (new : List Target) × (more.items ≡ arr.items ++ new)
    × (length new ≡ left)
    × IsHosts net cidr n new

module _ (net : Resolver) (realloc_ok : ℕ → Bool) (cidr : Cidr) where
  pub hosts_loop-Adds :
      (left n : ℕ) (arr more : Dynarray) (total sum : ℕ)
      → hosts_loop net realloc_ok cidr left n arr total ≡ expanded more sum
      → (sum ≡ total) × Adds net cidr left n arr more
  unfolding hosts_loop
  hosts_loop-Adds zero n arr more total sum h =
      let same : (arr ≡ more) × (total ≡ sum) = (cc, cc) in
      (
        sym same.1,
        ([], ap (λ (d : Dynarray). d.items) (sym same.0) ∙ sym (append-nil arr.items), refl, tt),
      )
  hosts_loop-Adds (suc left) n arr more total sum h =
      elim (Option-cases (cidr_nth_address net (some cidr) n ip_str_max)) [
        | inl e ↦
            let bad : failed invalid ≡ expanded more sum = rw (e, hosts_loop) at h in absurd (cc)
        | inr (ip, e) ↦
            let t : Target = record { host = ip; ip = ip } in
            elim (Option-cases (dynarray_push realloc_ok arr (record { host = ip; ip = ip }))) [
              | inl f ↦
                  let bad : failed alloc_failed ≡ expanded more sum = rw (e, f, hosts_loop) at h in
                  absurd (cc)
              | inr (grown, f) ↦
                  let (same, (new, items, size, hosts)) =
                    hosts_loop-Adds left (n + 1) grown more total sum
                      (rw (e, f, hosts_loop) at h) in
                  let put = dynarray_push-items realloc_ok arr grown t f in
                  (
                    same,
                    (
                      t ∷ new,
                      items ∙ ap (λ xs. xs ++ new) put ∙ append_assoc arr.items (t ∷ []) new,
                      ap suc size,
                      (e, refl, hosts),
                    ),
                  )
            ]
      ]

-- What an accepted block passes.
pub expand_block-Adds :
    (net : Resolver) (realloc_ok : ℕ → Bool) (cidr : Cidr) (arr more : Dynarray) (total sum : ℕ)
    → expand_block net realloc_ok (block cidr) arr total ≡ expanded more sum
    → (sum ≡ (total + cidr_host_count (some cidr)) % 2 ^ 64)
      × (sum ≤ max_targets)
      × Adds net cidr (cidr_host_count (some cidr)) 0 arr more
unfolding expand_block
expand_block-Adds net realloc_ok cidr arr more total sum h =
    let count = cidr_host_count (some cidr) in
    elim (Bool-cases (count == 0 || ltb max_targets ((total + count) % 2 ^ 64))) [
      | inl e ↦ let bad : failed too_many ≡ expanded more sum = rw e at h in absurd (cc)
      | inr e ↦
          let (same, adds) =
            hosts_loop-Adds net realloc_ok cidr count 0 arr more ((total + count) % 2 ^ 64) sum
              (rw e at h) in
          let under : (total + count) % 2 ^ 64 ≤ max_targets = ground arith in
          (same, omega (arith, same, under), adds)
    ]

behind_slash-contains_slash : (s r : Bytes) → behind_slash s ≡ some r → contains_slash s ≡ true
unfolding behind_slash
behind_slash-contains_slash [] r h = absurd (cc)
behind_slash-contains_slash (c ∷ s) r h = elim (Bool-cases (c == b'/')) [
  | inl e ↦ rw e refl
  | inr e ↦ rw e (behind_slash-contains_slash s r (rw (e, behind_slash) at h))
]

cidr_parse-contains_slash :
    (net : Resolver) (spec : Bytes) (c : Cidr)
    → cidr_parse net (some spec) ≡ block c
    → contains_slash spec ≡ true
unfolding cidr_parse
cidr_parse-contains_slash net spec c h = elim (Option-cases (behind_slash spec)) [
  | inl e ↦ let bad : malformed ≡ block c = rw (e, cidr_parse) at h in absurd (cc)
  | inr (r, e) ↦ behind_slash-contains_slash spec r e
]

pub count_small : (c : Cidr) → cidr_host_count (some c) ≤ 2 ^ 32
unfolding cidr_host_count
count_small c = go c.prefix
  where
    go : (z : ℤ) → count_of z ≤ 2 ^ 32
    go (negsuc n) = omega arith
    go (pos p) = elim (Bool-cases (ltb 32 p)) [
      | inl e ↦ rw e (omega arith)
      | inr e ↦
          let places : 32 - p ≤ 32 = omega arith in
          rw e (pow-le-pow_right {n = 2} (omega arith) places)
    ]

expand_trimmed-block :
    (net : Resolver) (realloc_ok : ℕ → Bool) (buf : Bytes) (c : Cidr) (arr more : Dynarray)
    (total sum : ℕ)
    → cidr_parse net (some buf) ≡ block c
    → expand_trimmed net realloc_ok buf arr total ≡ expanded more sum
    → expand_block net realloc_ok (block c) arr total ≡ expanded more sum
unfolding expand_trimmed
expand_trimmed-block net realloc_ok buf c arr more total sum parsed h =
    let slash = cidr_parse-contains_slash net buf c parsed in
    elim (Bool-cases (length buf == 0)) [
      | inl e ↦ let bad : failed invalid ≡ expanded more sum = rw e at h in absurd (cc)
      | inr e ↦ elim (Bool-cases (leb host_str_max (length buf))) [
        | inl f ↦ let bad : failed invalid ≡ expanded more sum = rw (e, f) at h in absurd (cc)
        | inr f ↦ rw (e, f, slash, parsed) at h
      ]
    ]

-- A token that names a block and is accepted adds exactly the block's addresses to the list, all of
-- them and in their order, each as its own host; the total grows by their number and stays at
-- most 65536. The total before is at most 65536, and `inet_pton` gives numbers of 32 bits.
pub expand_token-block :
    (net : Resolver) (realloc_ok : ℕ → Bool) (tok : Bytes) (c : Cidr) (arr more : Dynarray)
    (total sum : ℕ)
    → HasWords net
    → total ≤ max_targets
    → cidr_parse net (some (trim_spaces_end (trim_front tok))) ≡ block c
    → expand_token net realloc_ok tok arr total ≡ expanded more sum
    → IsAddressed net (trim_spaces_end (trim_front tok)) c
      × Adds net c (cidr_host_count (some c)) 0 arr more
      × (sum ≡ total + cidr_host_count (some c))
      × (sum ≤ max_targets)
unfolding expand_token
expand_token-block net realloc_ok tok c arr more total sum words small parsed h =
    let buf = trim_spaces_end (trim_front tok) in
    let addressed = cidr_parse-IsAddressed net buf c words parsed in
    let body = expand_trimmed-block net realloc_ok buf c arr more total sum parsed h in
    let (same, under, adds) = expand_block-Adds net realloc_ok c arr more total sum body in
    let few = count_small c in
    let whole : (total + cidr_host_count (some c)) % 2 ^ 64 ≡ total + cidr_host_count (some c) =
      omega (arith, small, few) in
    (addressed, adds, same ∙ whole, under)
