-- ===== src/Kb/Store/Assign.antt =====
-- src/kb/kb.c: writing through the entry that the lookup found.
use mathlib.Core.Option
use cytadel_scan.Base.{
  ℕ, zero, suc, ◌+◌, false, Option, some, List, [], ◌∷◌, ◌≡◌, refl, sym, ◌∙◌, ap, arith, Bytes,
  length, length-append, ◌==◌, if◌then◌else◌, All, Bool-cases, inl, inr, ==_refl,
}
use cytadel_scan.Kb.Chain.{same_key→eq, entries, count_key, count_key-append}
use cytadel_scan.Kb.Grow.{IsTable}
use cytadel_scan.Kb.Push.{length-modify, bucket-modify, Placed-modify, index_of-lt}
use cytadel_scan.Kb.Table.{
  Value, Entry, Chain, Kb, same_key, index_of, bucket, modify, chain_find, find, assign,
  write_value,
}

module _ (key : Bytes) (v : Value) where
  assign-All :
      (n i : ℕ) (b : Chain)
      → All (λ (e : Entry). index_of n e.key ≡ i) b
      → All (λ (e : Entry). index_of n e.key ≡ i) (assign key v b)
  unfolding assign
  assign-All n i [] h = tt
  assign-All n i (e ∷ es) h = elim (Bool-cases (same_key e.key key)) [
    | inl s ↦ rw s h
    | inr s ↦ rw s (h.0, assign-All n i es h.1)
  ]

  count_key-assign : (j : Bytes) (b : Chain) → count_key j (assign key v b) ≡ count_key j b
  unfolding assign
  count_key-assign j [] = refl
  count_key-assign j (e ∷ es) = elim (Bool-cases (same_key e.key key)) [
    | inl s ↦ rw s refl
    | inr s ↦ rw s (ap (λ (n : ℕ). (if same_key e.key j then 1 else 0) + n) (count_key-assign j es))
  ]

  length-assign : (b : Chain) → length (assign key v b) ≡ length b
  unfolding assign
  length-assign [] = refl
  length-assign (e ∷ es) = elim (Bool-cases (same_key e.key key)) [
    | inl s ↦ rw s refl
    | inr s ↦ rw s (ap suc (length-assign es))
  ]

  chain_find-assign_self :
      (b : Chain) → chain_find key (assign key v b) ≡ Option.map (λ _. v) (chain_find key b)
  unfolding assign chain_find
  chain_find-assign_self [] = refl
  chain_find-assign_self (e ∷ es) = elim (Bool-cases (same_key e.key key)) [
    | inl s ↦ rw s (rw s refl)
    | inr s ↦ rw s (rw s (chain_find-assign_self es))
  ]

  chain_find-assign_ne :
      (j : Bytes) (b : Chain)
      → same_key key j ≡ false
      → chain_find j (assign key v b) ≡ chain_find j b
  unfolding assign chain_find
  chain_find-assign_ne j [] h = refl
  chain_find-assign_ne j (e ∷ es) h = elim (Bool-cases (same_key e.key key)) [
    | inl s ↦
        let other : same_key e.key j ≡ false =
          ap (λ (k : Bytes). same_key k j) (same_key→eq e.key key s) ∙ h in
        rw s (rw other refl)
    | inr s ↦ rw s (
        ap (λ (o : Option Value). if same_key e.key j then some e.value else o)
          (chain_find-assign_ne j es h))
  ]

  entries-count :
      (j : Bytes) (bs : List Chain) (i : ℕ)
      → count_key j (entries (modify bs i (assign key v))) ≡ count_key j (entries bs)
  unfolding modify
  entries-count j [] i = refl
  entries-count j (b ∷ bs) zero = omega (
    arith,
    count_key-append j b (entries bs),
    count_key-assign j b,
    count_key-append j (assign key v b) (entries bs),
  )
  entries-count j (b ∷ bs) (suc i) = omega (
    arith,
    count_key-append j b (entries bs),
    entries-count j bs i,
    count_key-append j b (entries (modify bs i (assign key v))),
  )

  entries-length :
      (bs : List Chain) (i : ℕ)
      → length (entries (modify bs i (assign key v))) ≡ length (entries bs)
  unfolding modify
  entries-length [] i = refl
  entries-length (b ∷ bs) zero = omega (
    arith,
    length-append {0} b (entries bs),
    length-assign b,
    length-append {0} (assign key v b) (entries bs),
  )
  entries-length (b ∷ bs) (suc i) = omega (
    arith,
    length-append {0} b (entries bs),
    entries-length bs i,
    length-append {0} b (entries (modify bs i (assign key v))),
  )

  module _ (kb : Kb) (t : IsTable kb) where
    pub write_value-IsTable : IsTable (write_value kb key v)
    unfolding write_value
    write_value-IsTable =
        let i = index_of kb.bucket_count key in
        record {
          is_placed = record {
            size = length-modify kb.buckets i (assign key v) ∙ t.is_placed.size;
            positive = t.is_placed.positive;
            placed =
                Placed-modify kb.bucket_count 0 i kb.buckets (assign key v)
                  (λ b h. assign-All kb.bucket_count (0 + i) b h) t.is_placed.placed;
          };
          unique = λ j. rw (entries-count j kb.buckets i) (t.unique j);
          counted = t.counted ∙ sym (entries-length kb.buckets i);
        }

    at_bucket :
        (j : Bytes)
        → find (write_value kb key v) j
          ≡ chain_find j (
              if index_of kb.bucket_count key == index_of kb.bucket_count j
              then assign key v (bucket kb.buckets (index_of kb.bucket_count j))
              else bucket kb.buckets (index_of kb.bucket_count j))
    unfolding find write_value
    at_bucket j = ap (chain_find j) (
        bucket-modify kb.buckets (index_of kb.bucket_count key) (index_of kb.bucket_count j)
          (assign key v) (rw t.is_placed.size (index_of-lt kb.bucket_count j t.is_placed.positive)))

    pub find-write_value_self : find (write_value kb key v) key ≡ Option.map (λ _. v) (find kb key)
    unfolding find
    find-write_value_self =
        at_bucket key ∙ rw (==_refl (index_of kb.bucket_count key)) (chain_find-assign_self _)

    pub find-write_value :
        (j : Bytes)
        → find (write_value kb key v) j
          ≡ (if same_key key j then Option.map (λ _. v) (find kb j) else find kb j)
    unfolding find
    find-write_value j = elim (Bool-cases (same_key key j)) [
      | inl s ↦ rw (s, ← same_key→eq key j s) find-write_value_self
      | inr s ↦ elim (Bool-cases (index_of kb.bucket_count key == index_of kb.bucket_count j)) [
        | inl i ↦ rw s (at_bucket j ∙ rw i (chain_find-assign_ne j _ s))
        | inr i ↦ rw s (at_bucket j ∙ rw i refl)
      ]
    ]
