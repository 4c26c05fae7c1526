-- ===== src/Kb/Chain.antt =====
-- src/kb/kb.c: chains, buckets and the entries of the whole table.
use cytadel_scan.Base.{
  ℕ, zero, suc, ◌+◌, ◌<◌, true, Option, none, some, List, [], ◌∷◌, ◌++◌, ◌≡◌, ◌≢◌, refl, sym, ◌∙◌,
  arith, Bytes, if◌then◌else◌, All, Bool-cases, inl, inr, ==_refl,
}
use cytadel_scan.Kb.Table.{Value, Entry, Chain, same_key, index_of, bucket, chain_find}

pub same_key→eq : (a b : Bytes) → same_key a b ≡ true → a ≡ b
unfolding same_key
same_key→eq [] [] h = refl
same_key→eq [] (y ∷ b) h = cc
same_key→eq (x ∷ a) [] h = cc
same_key→eq (x ∷ a) (y ∷ b) h = ground (arith, same_key→eq a b)

pub same_key_refl : (a : Bytes) → same_key a a ≡ true
unfolding same_key
same_key_refl [] = refl
same_key_refl (x ∷ a) = rw (==_refl x) (same_key_refl a)

pub same_key-sym : (a b : Bytes) → same_key a b ≡ same_key b a
unfolding same_key
same_key-sym [] [] = refl
same_key-sym [] (y ∷ b) = refl
same_key-sym (x ∷ a) [] = refl
same_key-sym (x ∷ a) (y ∷ b) = ground (arith, same_key-sym a b)

-- All entries, chain by chain.
abbrev pub entries : List Chain → Chain
entries [] = []
entries (b ∷ bs) = b ++ entries bs

abbrev pub count_key : Bytes → Chain → ℕ
count_key j [] = 0
count_key j (e ∷ es) = (if same_key e.key j then 1 else 0) + count_key j es

abbrev pub or_else {ℓ} : {A : Type ℓ} → Option A → Option A → Option A
or_else none d = d
or_else (some a) d = some a

pub count_key-append :
    (j : Bytes) (xs ys : Chain) → count_key j (xs ++ ys) ≡ count_key j xs + count_key j ys
count_key-append j [] ys = omega arith
count_key-append j (e ∷ xs) ys = omega (arith, count_key-append j xs ys)

chain_find-append :
    (j : Bytes) (xs ys : Chain)
    → chain_find j (xs ++ ys) ≡ or_else (chain_find j xs) (chain_find j ys)
unfolding chain_find
chain_find-append j [] ys = refl
chain_find-append j (e ∷ xs) ys = ground (arith, chain_find-append j xs ys)

-- Each entry stands in the bucket of its hash; the first bucket has the number `i`.
abbrev pub Placed : ℕ → ℕ → List Chain → Type 0
Placed n i [] = Unit
Placed n i (b ∷ bs) = All (λ (e : Entry). index_of n e.key ≡ i) b × Placed n (suc i) bs

chain_find-elsewhere :
    (n i : ℕ) (j : Bytes) (b : Chain)
    → All (λ (e : Entry). index_of n e.key ≡ i) b
    → index_of n j ≢ i
    → chain_find j b ≡ none
unfolding chain_find
chain_find-elsewhere n i j [] h ne = refl
chain_find-elsewhere n i j (e ∷ es) h ne = elim (Bool-cases (same_key e.key j)) [
  | inl s ↦ absurd (ne (rw (same_key→eq e.key j s) at h.0))
  | inr s ↦ rw s (chain_find-elsewhere n i j es h.1 ne)
]

chain_find-later :
    (n i : ℕ) (j : Bytes) (bs : List Chain)
    → Placed n i bs
    → index_of n j < i
    → chain_find j (entries bs) ≡ none
chain_find-later n i j [] h lt = unfold chain_find in refl
chain_find-later n i j (b ∷ bs) h lt =
    chain_find-append j b (entries bs)
    ∙ rw (chain_find-elsewhere n i j b h.0 (omega arith))
        (chain_find-later n (suc i) j bs h.1 (omega arith))

-- In a table whose entries are placed, one chain answers for all entries.
pub bucket-entries :
    (n i t : ℕ) (j : Bytes) (bs : List Chain)
    → Placed n i bs
    → index_of n j ≡ i + t
    → chain_find j (bucket bs t) ≡ chain_find j (entries bs)
unfolding bucket
bucket-entries n i t j [] h e = refl
bucket-entries n i zero j (b ∷ bs) h e = sym (
    chain_find-append j b (entries bs)
    ∙ rw (chain_find-later n (suc i) j bs h.1 (omega arith)) (or_else-none (chain_find j b)))
  where
    or_else-none : (o : Option Value) → or_else o none ≡ o
    or_else-none none = refl
    or_else-none (some v) = refl
bucket-entries n i (suc t) j (b ∷ bs) h e =
    bucket-entries n (suc i) t j bs h.1 (omega arith)
    ∙ sym (
        chain_find-append j b (entries bs)
        ∙ rw (chain_find-elsewhere n i j b h.0 (omega arith)) refl)
