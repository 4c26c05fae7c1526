-- ===== src/Kb/Push.antt =====
-- src/kb/kb.c: the entry that becomes the head of its chain.
use cytadel_scan.Base.{
  ℕ, zero, suc, ◌+◌, ◌<◌, true, Option, some, List, [], ◌∷◌, ◌≡◌, refl, ◌∙◌, ap, arith, Bytes,
  length, length-append, ◌==◌, if◌then◌else◌, All, Bool-cases, inl, inr, ==_refl,
}
use cytadel_scan.Kb.Chain.{same_key→eq, entries, count_key, count_key-append, Placed}
use cytadel_scan.Kb.Table.{
  Value, Entry, Chain, same_key, index_of, bucket, modify, chain_find, push,
}

pub length-modify :
    (bs : List Chain) (i : ℕ) (f : Chain → Chain) → length (modify bs i f) ≡ length bs
unfolding modify
length-modify [] i f = refl
length-modify (b ∷ bs) zero f = refl
length-modify (b ∷ bs) (suc i) f = ap suc (length-modify bs i f)

pub bucket-modify :
    (bs : List Chain) (i t : ℕ) (f : Chain → Chain)
    → t < length bs
    → bucket (modify bs i f) t ≡ (if i == t then f (bucket bs t) else bucket bs t)
unfolding bucket modify
bucket-modify [] i t f h = absurd (omega arith)
bucket-modify (b ∷ bs) zero zero f h = refl
bucket-modify (b ∷ bs) zero (suc t) f h = ground arith
bucket-modify (b ∷ bs) (suc i) zero f h = ground arith
bucket-modify (b ∷ bs) (suc i) (suc t) f h = bucket-modify bs i t f (omega arith) ∙ ground arith

pub Placed-modify :
    (n i k : ℕ) (bs : List Chain) (f : Chain → Chain)
    → ((b : Chain)
        → All (λ (e : Entry). index_of n e.key ≡ i + k) b
        → All (λ (e : Entry). index_of n e.key ≡ i + k) (f b))
    → Placed n i bs
    → Placed n i (modify bs k f)
unfolding modify
Placed-modify n i k [] f keep h = tt
Placed-modify n i zero (b ∷ bs) f keep h =
    let e : i + 0 ≡ i = omega arith in ((rw e at keep) b h.0, h.1)
Placed-modify n i (suc k) (b ∷ bs) f keep h =
    let e : i + suc k ≡ suc i + k = omega arith in
    (h.0, Placed-modify n (suc i) k bs f (rw e at keep) h.1)

count_key-cons :
    (j : Bytes) (bs : List Chain) (i : ℕ) (e : Entry)
    → i < length bs
    → count_key j (entries (modify bs i (◌∷◌ e))) ≡ count_key j (e ∷ entries bs)
unfolding modify
count_key-cons j [] i e h = absurd (omega arith)
count_key-cons j (b ∷ bs) zero e h = refl
count_key-cons j (b ∷ bs) (suc i) e h = omega (
  arith,
  count_key-cons j bs i e (omega arith),
  count_key-append j b (entries bs),
  count_key-append j b (entries (modify bs i (◌∷◌ e))),
)

length-entries_cons :
    (bs : List Chain) (i : ℕ) (e : Entry)
    → i < length bs
    → length (entries (modify bs i (◌∷◌ e))) ≡ suc (length (entries bs))
unfolding modify
length-entries_cons [] i e h = absurd (omega arith)
length-entries_cons (b ∷ bs) zero e h = refl
length-entries_cons (b ∷ bs) (suc i) e h = omega (
  arith,
  length-entries_cons bs i e (omega arith),
  length-append {0} b (entries bs),
  length-append {0} b (entries (modify bs i (◌∷◌ e))),
)

pub index_of-lt : (n : ℕ) (key : Bytes) → 0 < n → index_of n key < n
unfolding index_of
index_of-lt n key h = grind arith

-- An array of `n` chains with each entry in its place.
pub record IsPlaced (n : ℕ) (bs : List Chain) : Type 0 where
  pub size : length bs ≡ n
  pub positive : 0 < n
  pub placed : Placed n 0 bs

abbrev pub find_at : ℕ → List Chain → Bytes → Option Value
find_at n bs j = chain_find j (bucket bs (index_of n j))

module _ (n : ℕ) (e : Entry) (bs : List Chain) (p : IsPlaced n bs) where
  pub push-IsPlaced : IsPlaced n (push n e bs)
  unfolding push
  push-IsPlaced = record {
    size = length-modify bs (index_of n e.key) (◌∷◌ e) ∙ p.size;
    positive = p.positive;
    placed = Placed-modify n 0 (index_of n e.key) bs (◌∷◌ e) (λ b h. (omega arith, h)) p.placed;
  }

  pub find-push :
      (j : Bytes)
      → find_at n (push n e bs) j ≡ (if same_key e.key j then some e.value else find_at n bs j)
  unfolding push chain_find
  find-push j =
      rw
        (bucket-modify bs (index_of n e.key) (index_of n j) (◌∷◌ e)
          (rw p.size (index_of-lt n j p.positive)))
        (elim (Bool-cases (same_key e.key j)) [
          | inl s ↦
              let same : (index_of n e.key == index_of n j) ≡ true =
                ap (λ (k : Bytes). index_of n k == index_of n j) (same_key→eq e.key j s)
                ∙ ==_refl (index_of n j) in
              rw (same, s) refl
          | inr s ↦ elim (Bool-cases (index_of n e.key == index_of n j)) [
            | inl t ↦ rw (s, t) (rw s refl)
            | inr t ↦ rw (s, t) refl
          ]
        ])

  pub count_key-push :
      (j : Bytes) → count_key j (entries (push n e bs)) ≡ count_key j (e ∷ entries bs)
  unfolding push
  count_key-push j =
      count_key-cons j bs (index_of n e.key) e (rw p.size (index_of-lt n e.key p.positive))

  pub length-push : length (entries (push n e bs)) ≡ suc (length (entries bs))
  unfolding push
  length-push =
      length-entries_cons bs (index_of n e.key) e (rw p.size (index_of-lt n e.key p.positive))
