-- ===== src/Kb/Api.antt =====
-- src/kb/kb.c: what the setters accept, and what the getter returns after them.
use mathlib.Core.Path.{subst}
use cytadel_scan.Base.{
  ℕ, ◌≤◌, Bool, true, false, none, some, [], ◌∷◌, ◌≡◌, ◌≢◌, refl, sym, ◌∙◌, ap, arith, Bytes,
  length, if◌then◌else◌, All, Bool-cases, inl, inr, ◌↔◌,
}
use cytadel_scan.Kb.Chain.{entries, same_key→eq}
use cytadel_scan.Kb.Grow.{IsTable, find-entries, empty_buckets-IsPlaced, entries-empty}
use cytadel_scan.Kb.Key.Grammar.{IsKey, validate_key_iff}
use cytadel_scan.Kb.Key.{validate_key, validate_no_embedded_nul}
use cytadel_scan.Kb.Store.{Stored, store-Stored, store-total}
use cytadel_scan.Kb.Table.{
  Value, str, i64, bool, Kb, Alloc, same_key, find, store, create, empty_buckets, initial_buckets,
  set_str_n, set_int, set_bool, found, get, value_max_len, chain_find,
}
use cytadel_scan.Kb.Utf8.Sound.{IsEncoded, validate_utf8_iff}
use cytadel_scan.Kb.Utf8.{validate_utf8}

abbrev NoNul : Bytes → Type 0
NoNul = All (λ c. c ≢ 0)

validate_no_embedded_nul_iff : (s : Bytes) → (validate_no_embedded_nul s ≡ true) ↔ NoNul s
unfolding validate_no_embedded_nul
validate_no_embedded_nul_iff [] = (λ h. tt, λ h. refl)
validate_no_embedded_nul_iff (c ∷ s) =
    let (to, from) = validate_no_embedded_nul_iff s in
    (λ h. (λ z. ground arith, to (ground arith)), λ h. ground (arith, h.0, from h.1))

module _ (a : Alloc) (kb : Kb) (key value : Bytes) where
  -- The guards of `set_str_n`, passed.
  set_str_n-guards :
      (kb' : Kb)
      → set_str_n a (some kb) (some key) (some value) ≡ some kb'
      → (validate_key (some key) ≡ true)
        × (length value ≤ value_max_len)
        × (validate_no_embedded_nul value ≡ true)
        × (validate_utf8 value ≡ true)
        × (store a kb key (str value) ≡ some kb')
  unfolding set_str_n
  set_str_n-guards kb' h = ground arith

  set_str_n-accepts :
      validate_key (some key) ≡ true
      → length value ≤ value_max_len
      → validate_no_embedded_nul value ≡ true
      → validate_utf8 value ≡ true
      → a.value_ok ≡ true
      → set_str_n a (some kb) (some key) (some value) ≡ store a kb key (str value)
  unfolding set_str_n
  set_str_n-accepts p q r s m = ground arith

-- After a write through the table the getter sees the value under the key and nothing else changed.
get-Stored :
    (kb kb' : Kb) (key : Bytes) (v : Value)
    → Stored kb kb' key v
    → validate_key (some key) ≡ true
    → (j : Bytes)
    → get (some kb') (some j) ≡ (if same_key key j then found v else get (some kb) (some j))
unfolding get
get-Stored kb kb' key v s valid j = elim (Bool-cases (same_key key j)) [
  | inl e ↦
      let here : find kb' j ≡ some v = s.values j ∙ rw e refl in
      let valid_j : validate_key (some j) ≡ true =
        ap (λ (k : Bytes). validate_key (some k)) (sym (same_key→eq key j e)) ∙ valid in
      rw (e, valid_j, here) refl
  | inr e ↦ let there : find kb' j ≡ find kb j = s.values j ∙ rw e refl in rw (e, there) refl
]

-- After `set_str_n` the getter returns the text under its key, and what it returned before under
-- every other key; the table stays well formed.
pub get-set_str_n :
    (a : Alloc) (kb kb' : Kb) (key value : Bytes)
    → IsTable kb
    → set_str_n a (some kb) (some key) (some value) ≡ some kb'
    → (j : Bytes)
    → (get (some kb') (some j)
        ≡ (if same_key key j then found (str value) else get (some kb) (some j)))
      × IsTable kb'
get-set_str_n a kb kb' key value t h j =
    let (valid, short, plain, utf8, stored) = set_str_n-guards a kb key value kb' h in
    let s = store-Stored a kb key (str value) t kb' stored in
    (get-Stored kb kb' key (str value) s valid j, s.table)

-- After `set_int` the getter returns the number under its key, whatever type of value was there,
-- and what it returned before under every other key; the table stays well formed.
pub get-set_int :
    (a : Alloc) (kb kb' : Kb) (key : Bytes) (n : ℕ)
    → IsTable kb
    → set_int a (some kb) (some key) n ≡ some kb'
    → (j : Bytes)
    → (get (some kb') (some j) ≡ (if same_key key j then found (i64 n) else get (some kb) (some j)))
      × IsTable kb'
unfolding set_int
get-set_int a kb kb' key n t h j =
    let valid : validate_key (some key) ≡ true = ground arith in
    let stored : store a kb key (i64 n) ≡ some kb' = ground arith in
    let s = store-Stored a kb key (i64 n) t kb' stored in
    (get-Stored kb kb' key (i64 n) s valid j, s.table)

-- After `set_bool` the getter returns the flag under its key, whatever type of value was there,
-- and what it returned before under every other key; the table stays well formed.
pub get-set_bool :
    (a : Alloc) (kb kb' : Kb) (key : Bytes) (b : Bool)
    → IsTable kb
    → set_bool a (some kb) (some key) b ≡ some kb'
    → (j : Bytes)
    → (get (some kb') (some j)
        ≡ (if same_key key j then found (bool b) else get (some kb) (some j)))
      × IsTable kb'
unfolding set_bool
get-set_bool a kb kb' key b t h j =
    let valid : validate_key (some key) ≡ true = ground arith in
    let stored : store a kb key (bool b) ≡ some kb' = ground arith in
    let s = store-Stored a kb key (bool b) t kb' stored in
    (get-Stored kb kb' key (bool b) s valid j, s.table)

-- With memory at hand, `set_str_n` succeeds exactly on a key of the grammar and a text of at most
-- 4096 bytes that is valid UTF-8 and holds no NUL.
pub set_str_n_iff :
    (a : Alloc) (kb : Kb) (key value : Bytes)
    → IsTable kb
    → a.value_ok ≡ true
    → a.entry_ok ≡ true
    → a.key_ok ≡ true
    → ((kb' : Kb) × (set_str_n a (some kb) (some key) (some value) ≡ some kb'))
      ↔ (IsKey key × (length value ≤ value_max_len) × All (λ c. c ≢ 0) value × IsEncoded value)
set_str_n_iff a kb key value t x y z = (
  λ (kb', h).
      let (valid, short, plain, utf8, stored) = set_str_n-guards a kb key value kb' h in
      (
        (validate_key_iff key).0 valid,
        short,
        (validate_no_embedded_nul_iff value).0 plain,
        (validate_utf8_iff value).0 utf8,
      ),
  λ (valid, short, plain, utf8).
      let (kb', stored) = store-total a kb key (str value) t y z in
      (
        kb',
        set_str_n-accepts a kb key value ((validate_key_iff key).1 valid) short
              ((validate_no_embedded_nul_iff value).1 plain) ((validate_utf8_iff value).1 utf8) x
            ∙ stored,
      ),
)

empty-find : (kb : Kb) → IsTable kb → entries kb.buckets ≡ [] → (j : Bytes) → find kb j ≡ none
empty-find kb t e j = find-entries kb j t ∙ rw e (unfold chain_find in refl)

abbrev pub new_table : Kb
new_table = record {
  buckets = empty_buckets initial_buckets;
  bucket_count = initial_buckets;
  entry_count = 0;
}

new_table-IsTable : IsTable new_table
new_table-IsTable = record {
  is_placed = empty_buckets-IsPlaced initial_buckets (omega arith);
  unique = λ j. rw (entries-empty initial_buckets) (omega arith);
  counted = rw (entries-empty initial_buckets) refl;
}

create-eq : (kb_ok buckets_ok : Bool) (kb : Kb) → create kb_ok buckets_ok ≡ some kb → new_table ≡ kb
unfolding create
create-eq true true kb h = cc
create-eq true false kb h = cc
create-eq false buckets_ok kb h = cc

-- A new table is well formed and empty.
pub create-empty :
    (kb_ok buckets_ok : Bool) (kb : Kb)
    → create kb_ok buckets_ok ≡ some kb
    → IsTable kb × ((j : Bytes) → find kb j ≡ none) × (kb.entry_count ≡ 0)
create-empty kb_ok buckets_ok kb h =
    subst (λ k. IsTable k × ((j : Bytes) → find k j ≡ none) × (k.entry_count ≡ 0))
      (create-eq kb_ok buckets_ok kb h)
      (
        new_table-IsTable,
        empty-find new_table new_table-IsTable (entries-empty initial_buckets),
        refl,
      )
