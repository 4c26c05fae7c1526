-- ===== src/Kb/Table.antt =====
-- src/kb/kb.c: the chained hash table. `buckets` is the array, each chain a list from its head.
use Prim.Native.Nat.{bit_xor}
use cytadel_scan.Base.{
  ℕ, zero, suc, ◌+◌, ◌*◌, ◌%◌, ◌^◌, Bool, true, false, not, ◌&&◌, Option, none, some, List, [], ◌∷◌,
  Bytes, length, ltb, leb, ◌==◌, if◌then◌else◌,
}
use cytadel_scan.Kb.Key.{validate_key, validate_no_embedded_nul}
use cytadel_scan.Kb.Utf8.{validate_utf8}

-- The tagged union. An `int64_t` stands as its bit pattern; `zeroed` is what `calloc` leaves: the
-- string type with a null pointer.
pub data Value : Type 0 where
  zeroed : Value
  str : Bytes → Value
  i64 : ℕ → Value
  bool : Bool → Value

pub record Entry : Type 0 where
  pub key : Bytes
  pub value : Value

abbrev pub Chain : Type 0
Chain = List Entry

pub record Kb : Type 0 where
  pub buckets : List Chain
  pub bucket_count : ℕ
  pub entry_count : ℕ

-- Which of the allocations of an operation succeed.
pub record Alloc : Type 0 where
  pub value_ok : Bool
  pub entry_ok : Bool
  pub key_ok : Bool
  pub buckets_ok : Bool

abbrev pub initial_buckets : ℕ
initial_buckets = 64

abbrev pub value_max_len : ℕ
value_max_len = 4096

-- FNV-1a in 64 bits.
unfoldable pub hash_loop : ℕ → Bytes → ℕ
hash_loop h [] = h
hash_loop h (c ∷ s) = hash_loop (bit_xor h c * 1099511628211 % 2 ^ 64) s

unfoldable pub hash : Bytes → ℕ
unfolding hash_loop
hash s = hash_loop 1469598103934665603 s

-- `strcmp(a, b) == 0`
unfoldable pub same_key : Bytes → Bytes → Bool
same_key [] [] = true
same_key [] (y ∷ b) = false
same_key (x ∷ a) [] = false
same_key (x ∷ a) (y ∷ b) = x == y && same_key a b

unfoldable pub index_of : ℕ → Bytes → ℕ
index_of n key = hash key % n

-- `buckets[i]`; an index out of bounds is never used.
unfoldable pub bucket : List Chain → ℕ → Chain
bucket [] i = []
bucket (b ∷ bs) zero = b
bucket (b ∷ bs) (suc i) = bucket bs i

unfoldable pub modify : List Chain → ℕ → (Chain → Chain) → List Chain
modify [] i f = []
modify (b ∷ bs) zero f = f b ∷ bs
modify (b ∷ bs) (suc i) f = b ∷ modify bs i f

-- The walk along one chain.
unfoldable pub chain_find : Bytes → Chain → Option Value
chain_find key [] = none
chain_find key (e ∷ es) = if same_key e.key key then some e.value else chain_find key es

-- `cytadel_kb_find`
unfoldable pub find : Kb → Bytes → Option Value
find kb key = chain_find key (bucket kb.buckets (index_of kb.bucket_count key))

-- An entry becomes the head of its chain.
unfoldable pub push : ℕ → Entry → List Chain → List Chain
push n e bs = modify bs (index_of n e.key) (◌∷◌ e)

unfoldable pub rehash_chain : ℕ → Chain → List Chain → List Chain
rehash_chain n [] into = into
rehash_chain n (e ∷ es) into = rehash_chain n es (push n e into)

unfoldable pub rehash : ℕ → List Chain → List Chain → List Chain
rehash n [] into = into
rehash n (b ∷ bs) into = rehash n bs (rehash_chain n b into)

-- `calloc` of an array of empty chains.
unfoldable pub empty_buckets : ℕ → List Chain
empty_buckets zero = []
empty_buckets (suc n) = [] ∷ empty_buckets n

-- Doubling, with the products in 64 bits; a failed allocation leaves the table as it is.
unfoldable pub grow_if_needed : Bool → Kb → Kb
grow_if_needed buckets_ok kb =
    if leb ((kb.entry_count + 1) * 4 % 2 ^ 64) (kb.bucket_count * 3 % 2 ^ 64)
    then kb
    else (let new_count = kb.bucket_count * 2 % 2 ^ 64 in
        if leb new_count kb.bucket_count then kb else if not buckets_ok then kb else record kb {
          buckets = rehash new_count kb.buckets (empty_buckets new_count);
          bucket_count = new_count;
        })

-- `none` is a null return: an allocation failed, and nothing was linked. Each entry takes memory of
-- its own, so that their count does not wrap.
unfoldable pub insert_new : Alloc → Kb → Bytes → Option Kb
insert_new a kb key =
    if not a.entry_ok
    then none
    else if not a.key_ok
    then none
    else (let grown = grow_if_needed a.buckets_ok kb in
        some (record grown {
          buckets = push grown.bucket_count (record { key = key; value = zeroed }) grown.buckets;
          entry_count = grown.entry_count + 1;
        }))

-- The assignment through the entry that `find` returned.
unfoldable pub assign : Bytes → Value → Chain → Chain
assign key v [] = []
assign key v (e ∷ es) =
    if same_key e.key key then record e { value = v } ∷ es else e ∷ assign key v es

unfoldable pub write_value : Kb → Bytes → Value → Kb
write_value kb key v = record kb {
  buckets = modify kb.buckets (index_of kb.bucket_count key) (assign key v);
}

-- What the three setters do once their arguments are accepted; `none` is the return of -1.
unfoldable pub store : Alloc → Kb → Bytes → Value → Option Kb
store a kb key v = elim (find kb key) [
  | some old ↦ some (write_value kb key v)
  | none ↦ elim (insert_new a kb key) [ none ↦ none | some kb' ↦ some (write_value kb' key v) ]
]

-- `none` is a null return.
unfoldable pub create : Bool → Bool → Option Kb
create kb_ok buckets_ok =
    if not kb_ok
    then none
    else if not buckets_ok
    then none
    else some (record {
      buckets = empty_buckets initial_buckets;
      bucket_count = initial_buckets;
      entry_count = 0;
    })

-- The setters take a table, or a null pointer; `none` in the result is the return of -1.
unfoldable pub set_str_n : Alloc → Option Kb → Option Bytes → Option Bytes → Option Kb
set_str_n a none key value = none
set_str_n a (some kb) none value = none
set_str_n a (some kb) (some key) none = none
set_str_n a (some kb) (some key) (some value) =
    if not (validate_key (some key))
    then none
    else if ltb value_max_len (length value)
    then none
    else if not (validate_no_embedded_nul value)
    then none
    else if not (validate_utf8 value)
    then none
    else if not a.value_ok
    then none
    else store a kb key (str value)

unfoldable pub set_int : Alloc → Option Kb → Option Bytes → ℕ → Option Kb
set_int a none key value = none
set_int a (some kb) none value = none
set_int a (some kb) (some key) value =
    if not (validate_key (some key)) then none else store a kb key (i64 value)

unfoldable pub set_bool : Alloc → Option Kb → Option Bytes → Bool → Option Kb
set_bool a none key value = none
set_bool a (some kb) none value = none
set_bool a (some kb) (some key) value =
    if not (validate_key (some key)) then none else store a kb key (bool value)

pub data GetStatus : Type 0 where
  found : Value → GetStatus
  not_found invalid_key : GetStatus

unfoldable pub get : Option Kb → Option Bytes → GetStatus
get none key = invalid_key
get (some kb) none = invalid_key
get (some kb) (some key) =
    if not (validate_key (some key))
    then invalid_key
    else elim (find kb key) [ none ↦ not_found | some v ↦ found v ]
