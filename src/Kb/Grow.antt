-- ===== src/Kb/Grow.antt =====
-- src/kb/kb.c: the table grows.
use cytadel_scan.Base.{
  ℕ, zero, suc, ◌+◌, ◌*◌, ◌%◌, ◌^◌, ◌≤◌, ◌<◌, Bool, Option, none, some, List, [], ◌∷◌, ◌++◌, ◌≡◌,
  refl, sym, ◌∙◌, ap, arith, Bytes, length, leb, if◌then◌else◌, Bool-cases, inl, inr,
}
use cytadel_scan.Kb.Chain.{entries, count_key, Placed, bucket-entries}
use cytadel_scan.Kb.Table.{
  Value, Chain, Kb, same_key, index_of, chain_find, find, push, rehash_chain, rehash, empty_buckets,
  grow_if_needed,
}
use cytadel_scan.Kb.Push.{IsPlaced, find_at, push-IsPlaced, find-push, count_key-push, length-push}

-- The value under `j` after entries were pushed one by one: the last one wins.
abbrev last_find : Bytes → Chain → Option Value → Option Value
last_find j [] d = d
last_find j (e ∷ es) d = last_find j es (if same_key e.key j then some e.value else d)

rehash_chain-append :
    (n : ℕ) (xs ys : Chain) (into : List Chain)
    → rehash_chain n (xs ++ ys) into ≡ rehash_chain n ys (rehash_chain n xs into)
unfolding rehash_chain
rehash_chain-append n [] ys into = refl
rehash_chain-append n (e ∷ xs) ys into = rehash_chain-append n xs ys (push n e into)

rehash-entries :
    (n : ℕ) (bs into : List Chain) → rehash n bs into ≡ rehash_chain n (entries bs) into
unfolding rehash
rehash-entries n [] into = unfold rehash_chain in refl
rehash-entries n (b ∷ bs) into =
    rehash-entries n bs (rehash_chain n b into) ∙ sym (rehash_chain-append n b (entries bs) into)

module _ (n : ℕ) where
  rehash_chain-IsPlaced :
      (es : Chain) (into : List Chain) → IsPlaced n into → IsPlaced n (rehash_chain n es into)
  unfolding rehash_chain
  rehash_chain-IsPlaced [] into p = p
  rehash_chain-IsPlaced (e ∷ es) into p =
      rehash_chain-IsPlaced es (push n e into) (push-IsPlaced n e into p)

  rehash_chain-find :
      (es : Chain) (into : List Chain) (j : Bytes)
      → IsPlaced n into
      → find_at n (rehash_chain n es into) j ≡ last_find j es (find_at n into j)
  unfolding rehash_chain
  rehash_chain-find [] into j p = refl
  rehash_chain-find (e ∷ es) into j p =
      rehash_chain-find es (push n e into) j (push-IsPlaced n e into p)
      ∙ ap (last_find j es) (find-push n e into p j)

  rehash_chain-count :
      (es : Chain) (into : List Chain) (j : Bytes)
      → IsPlaced n into
      → count_key j (entries (rehash_chain n es into)) ≡ count_key j es + count_key j (entries into)
  unfolding rehash_chain
  rehash_chain-count [] into j p = omega arith
  rehash_chain-count (e ∷ es) into j p = omega (
    arith,
    rehash_chain-count es (push n e into) j (push-IsPlaced n e into p),
    count_key-push n e into p j,
  )

  rehash_chain-length :
      (es : Chain) (into : List Chain)
      → IsPlaced n into
      → length (entries (rehash_chain n es into)) ≡ length es + length (entries into)
  unfolding rehash_chain
  rehash_chain-length [] into p = omega arith
  rehash_chain-length (e ∷ es) into p = omega (
    arith,
    rehash_chain-length es (push n e into) (push-IsPlaced n e into p),
    length-push n e into p,
  )

last_find-absent :
    (j : Bytes) (es : Chain) (d : Option Value) → count_key j es ≡ 0 → last_find j es d ≡ d
last_find-absent j [] d h = refl
last_find-absent j (e ∷ es) d h = elim (Bool-cases (same_key e.key j)) [
  | inl s ↦ absurd (let bad : 1 + count_key j es ≡ 0 = rw s at h in omega arith)
  | inr s ↦
      let rest : 0 + count_key j es ≡ 0 = rw s at h in rw s (last_find-absent j es d (omega arith))
]

-- Where no key stands twice, the order of the pushes does not matter.
last_find_unique :
    (j : Bytes) (es : Chain) → count_key j es ≤ 1 → last_find j es none ≡ chain_find j es
unfolding chain_find
last_find_unique j [] h = refl
last_find_unique j (e ∷ es) h = elim (Bool-cases (same_key e.key j)) [
  | inl s ↦
      let only : 1 + count_key j es ≤ 1 = rw s at h in
      rw s (last_find-absent j es (some e.value) (omega arith))
  | inr s ↦
      let rest : 0 + count_key j es ≤ 1 = rw s at h in rw s (last_find_unique j es (omega arith))
]

pub empty_buckets-IsPlaced : (n : ℕ) → 0 < n → IsPlaced n (empty_buckets n)
unfolding empty_buckets
empty_buckets-IsPlaced n h = record { size = size n; positive = h; placed = placed n 0 }
  where
    size : (m : ℕ) → length (empty_buckets m) ≡ m
    size zero = refl
    size (suc m) = ap suc (size m)

    placed : (m i : ℕ) → Placed n i (empty_buckets m)
    placed zero i = tt
    placed (suc m) i = (tt, placed m (suc i))

pub entries-empty : (n : ℕ) → entries (empty_buckets n) ≡ []
unfolding empty_buckets
entries-empty zero = refl
entries-empty (suc n) = entries-empty n

empty_buckets-find : (n : ℕ) → 0 < n → (j : Bytes) → find_at n (empty_buckets n) j ≡ none
empty_buckets-find n h j =
    bucket-entries n 0 (index_of n j) j (empty_buckets n) (empty_buckets-IsPlaced n h).placed
      (omega arith)
    ∙ rw (entries-empty n) (unfold chain_find in refl)

-- What every table between two operations satisfies: the array has `bucket_count` chains, each
-- entry is in the chain of its hash, no key stands twice, and the entries are counted.
pub record IsTable (kb : Kb) : Type 0 where
  pub is_placed : IsPlaced kb.bucket_count kb.buckets
  pub unique : (j : Bytes) → count_key j (entries kb.buckets) ≤ 1
  pub counted : kb.entry_count ≡ length (entries kb.buckets)

pub find-entries :
    (kb : Kb) (j : Bytes) → IsTable kb → find kb j ≡ chain_find j (entries kb.buckets)
unfolding find
find-entries kb j t =
    bucket-entries kb.bucket_count 0 (index_of kb.bucket_count j) j kb.buckets t.is_placed.placed
      (omega arith)

-- The same contents in a table that may have another array.
pub record Same (kb kb' : Kb) : Type 0 where
  pub table : IsTable kb'
  pub values : (j : Bytes) → find kb' j ≡ find kb j
  pub counts : (j : Bytes) → count_key j (entries kb'.buckets) ≡ count_key j (entries kb.buckets)
  pub count : kb'.entry_count ≡ kb.entry_count

module _ (kb : Kb) (t : IsTable kb) (n : ℕ) (pos : 0 < n) where
  abbrev grown : Kb
  grown = record kb { buckets = rehash n kb.buckets (empty_buckets n); bucket_count = n }

  rehashed :
      rehash n kb.buckets (empty_buckets n) ≡ rehash_chain n (entries kb.buckets) (empty_buckets n)
  rehashed = rehash-entries n kb.buckets (empty_buckets n)

  grown-count : (j : Bytes) → count_key j (entries grown.buckets) ≡ count_key j (entries kb.buckets)
  grown-count j = rw rehashed (
      omega (
        arith,
        rehash_chain-count n (entries kb.buckets) (empty_buckets n) j
            (empty_buckets-IsPlaced n pos),
        ap (count_key j) (entries-empty n),
      ))

  grown-Same : Same kb grown
  unfolding find
  grown-Same = record {
    table = record {
      is_placed = rw rehashed (
          rehash_chain-IsPlaced n (entries kb.buckets) (empty_buckets n)
            (empty_buckets-IsPlaced n pos));
      unique = λ j. rw (grown-count j) (t.unique j);
      counted = rw rehashed (
          omega (
            arith,
            t.counted,
            rehash_chain-length n (entries kb.buckets) (empty_buckets n)
                (empty_buckets-IsPlaced n pos),
            ap (λ (es : Chain). length es) (entries-empty n),
          ));
    };
    values = λ j.
        rw rehashed (
          rehash_chain-find n (entries kb.buckets) (empty_buckets n) j
            (empty_buckets-IsPlaced n pos))
        ∙ ap (last_find j (entries kb.buckets)) (empty_buckets-find n pos j)
        ∙ last_find_unique j (entries kb.buckets) (t.unique j)
        ∙ sym (find-entries kb j t);
    counts = grown-count;
    count = refl;
  }

Same-refl : (kb : Kb) → IsTable kb → Same kb kb
Same-refl kb t = record { table = t; values = λ j. refl; counts = λ j. refl; count = refl }

-- Growing keeps the invariant, every value and the number of entries, whether or not memory for
-- the larger array is there.
pub grow_if_needed-Same :
    (buckets_ok : Bool) (kb : Kb) → IsTable kb → Same kb (grow_if_needed buckets_ok kb)
unfolding grow_if_needed
grow_if_needed-Same ok kb t =
    elim (Bool-cases (leb ((kb.entry_count + 1) * 4 % 2 ^ 64) (kb.bucket_count * 3 % 2 ^ 64))) [
      | inl a ↦ rw a (Same-refl kb t)
      | inr a ↦ elim (Bool-cases (leb (kb.bucket_count * 2 % 2 ^ 64) kb.bucket_count)) [
        | inl b ↦ rw (a, b) (Same-refl kb t)
        | inr b ↦ elim (Bool-cases ok) [
          | inl c ↦ rw (a, b, c) (grown-Same kb t (kb.bucket_count * 2 % 2 ^ 64) (ground arith))
          | inr c ↦ rw (a, b, c) (Same-refl kb t)
        ]
      ]
    ]
