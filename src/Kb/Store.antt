-- ===== src/Kb/Store.antt =====
-- src/kb/kb.c: the setters and the getter against a map from keys to values.
pub mod Assign
use cytadel_scan.Base.{
  ℕ, zero, suc, ◌+◌, ◌≤◌, ◌<◌, Bool, true, false, not, ◌&&◌, Option, none, some, List, [], ◌∷◌,
  ◌++◌, ◌≡◌, ◌≢◌, refl, sym, ◌∙◌, ap, arith, Bytes, length, ltb, leb, ◌==◌, if◌then◌else◌, All,
  Bool-cases, Option-cases, inl, inr, ◌⊎◌,
}
use mathlib.Core.Option
use mathlib.Core.Path.{subst}
use cytadel_scan.Kb.Chain.{entries, count_key, same_key→eq, same_key_refl, same_key-sym}
use cytadel_scan.Kb.Grow.{
  IsTable, Same, grow_if_needed-Same, empty_buckets-IsPlaced, find-entries, entries-empty,
}
use cytadel_scan.Kb.Push.{IsPlaced, push-IsPlaced, find-push, count_key-push, length-push}
use cytadel_scan.Kb.Store.Assign.{write_value-IsTable, find-write_value}
use cytadel_scan.Kb.Key.{validate_key, validate_no_embedded_nul}
use cytadel_scan.Kb.Table.{
  Value, zeroed, str, i64, bool, Entry, Chain, Kb, Alloc, same_key, push, chain_find, find,
  grow_if_needed, insert_new, write_value, store, create, empty_buckets, initial_buckets, set_str_n,
  set_int, set_bool, GetStatus, found, not_found, invalid_key, get, value_max_len,
}
use cytadel_scan.Kb.Utf8.{validate_utf8}

count_key-absent : (j : Bytes) (es : Chain) → chain_find j es ≡ none → count_key j es ≡ 0
unfolding chain_find
count_key-absent j [] h = refl
count_key-absent j (e ∷ es) h = elim (Bool-cases (same_key e.key j)) [
  | inl s ↦ let bad : some e.value ≡ none = rw s at h in cc
  | inr s ↦
      let rest : chain_find j es ≡ none = rw s at h in
      rw s (omega (arith, count_key-absent j es rest))
]

some_inj : {x y : Kb} → some x ≡ some y → x ≡ y
some_inj h = cc

-- A setter's effect on the map from keys to values, and on the number of entries.
pub record Stored (kb kb' : Kb) (key : Bytes) (v : Value) : Type 0 where
  pub table : IsTable kb'
  pub values : (j : Bytes) → find kb' j ≡ (if same_key key j then some v else find kb j)
  pub count : kb'.entry_count ≡ kb.entry_count + elim (find kb key) [ none ↦ 1 | some old ↦ 0 ]

module _ (a : Alloc) (kb : Kb) (key : Bytes) (v : Value) (t : IsTable kb) where
  overwritten : (old : Value) → find kb key ≡ some old → Stored kb (write_value kb key v) key v
  overwritten old e = record {
    table = write_value-IsTable key v kb t;
    values = λ j. find-write_value key v kb t j ∙ (elim (Bool-cases (same_key key j)) [
      | inl s ↦
          let present : find kb j ≡ some old = ap (find kb) (sym (same_key→eq key j s)) ∙ e in
          rw (s, present) refl
      | inr s ↦ rw s refl
    ]);
    count = rw e (unfold write_value in omega arith);
  }

  abbrev linked : Kb → Kb
  linked grown = record grown {
    buckets = push grown.bucket_count (record { key = key; value = zeroed }) grown.buckets;
    entry_count = grown.entry_count + 1;
  }

  abbrev grown : Kb
  grown = grow_if_needed a.buckets_ok kb

  abbrev fresh : Entry
  fresh = record { key = key; value = zeroed }

  same : Same kb grown
  same = grow_if_needed-Same a.buckets_ok kb t

  linked_unique :
      find kb key ≡ none
      → (j : Bytes) → count_key j (entries (push grown.bucket_count fresh grown.buckets)) ≤ 1
  linked_unique h j =
      let pushed = count_key-push grown.bucket_count fresh grown.buckets same.table.is_placed j in
      elim (Bool-cases (same_key key j)) [
        | inl s ↦
            let absent : chain_find j (entries kb.buckets) ≡ none =
              sym (find-entries kb j t) ∙ ap (find kb) (sym (same_key→eq key j s)) ∙ h in
            rw pushed
              (rw s (omega (arith, same.counts j, count_key-absent j (entries kb.buckets) absent)))
        | inr s ↦ rw pushed (rw s (omega (arith, same.counts j, t.unique j)))
      ]

  linked-IsTable : find kb key ≡ none → IsTable (linked grown)
  linked-IsTable h = record {
    is_placed = push-IsPlaced grown.bucket_count fresh grown.buckets same.table.is_placed;
    unique = linked_unique h;
    counted = omega (
      arith,
      same.table.counted,
      length-push grown.bucket_count fresh grown.buckets same.table.is_placed,
    );
  }

  linked-find :
      (j : Bytes) → find (linked grown) j ≡ (if same_key key j then some zeroed else find kb j)
  linked-find j =
      unfold find in
      (find-push grown.bucket_count fresh grown.buckets same.table.is_placed j
        ∙ ap (λ (o : Option Value). if same_key key j then some zeroed else o) (same.values j))

  inserted : find kb key ≡ none → Stored kb (write_value (linked grown) key v) key v
  inserted h = record {
    table = write_value-IsTable key v (linked grown) (linked-IsTable h);
    values = λ j.
        find-write_value key v (linked grown) (linked-IsTable h) j
        ∙ (elim (Bool-cases (same_key key j)) [
          | inl s ↦ rw (linked-find j) (rw s refl)
          | inr s ↦ rw (linked-find j) (rw s refl)
        ]);
    count = rw h (unfold write_value in omega (arith, same.count));
  }

  insert_new-cases : (insert_new a kb key ≡ none) ⊎ (insert_new a kb key ≡ some (linked grown))
  unfolding insert_new
  insert_new-cases = elim (Bool-cases a.entry_ok) [
    | inl x ↦ elim (Bool-cases a.key_ok) [
      | inl y ↦ inr (rw (x, y) refl)
      | inr y ↦ inl (rw (x, y) refl)
    ]
    | inr x ↦ inl (rw x refl)
  ]

  -- A write that succeeds makes the key stand for the value and leaves every other key as it was.
  -- It keeps the invariant, and counts the key if it is new.
  pub store-Stored : (kb' : Kb) → store a kb key v ≡ some kb' → Stored kb kb' key v
  unfolding store
  store-Stored kb' h = elim (Option-cases (find kb key)) [
    | inr (old, e) ↦
        let r : some (write_value kb key v) ≡ some kb' = rw (e, store) at h in
        subst (λ k. Stored kb k key v) (some_inj r) (overwritten old e)
    | inl e ↦ elim insert_new-cases [
      | inl n ↦ let bad : none ≡ some kb' = rw (e, n, store) at h in cc
      | inr n ↦
          let r : some (write_value (linked grown) key v) ≡ some kb' = rw (e, n, store) at h in
          subst (λ k. Stored kb k key v) (some_inj r) (inserted e)
    ]
  ]

  -- With memory for a new entry the write succeeds.
  pub store-total : a.entry_ok ≡ true → a.key_ok ≡ true → (kb' : Kb) × (store a kb key v ≡ some kb')
  unfolding store insert_new
  store-total x y = elim (Option-cases (find kb key)) [
    | inr (old, e) ↦ (write_value kb key v, rw (e, store) refl)
    | inl e ↦ (write_value (linked grown) key v, rw (e, x, y, store) refl)
  ]
