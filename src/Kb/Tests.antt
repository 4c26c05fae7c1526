-- ===== src/Kb/Tests.antt =====
-- src/kb: a knowledge base in use, and the theorems at concrete values.
use cytadel_scan.Base.{
  Bool, true, false, ◌≡◌, ◌≢◌, ◌↔◌, ◌≤◌, refl, arith, [], ◌∷◌, codes, some, if◌then◌else◌, All,
  length,
}
use cytadel_scan.Kb.Api.{get-set_str_n, get-set_int, set_str_n_iff}
use cytadel_scan.Kb.Grow.{IsTable, Same, grow_if_needed-Same}
use cytadel_scan.Kb.Key.Grammar.{IsKey, validate_key_iff}
use cytadel_scan.Kb.Key.{
  is_key_byte, segments_loop, ends_with_slash, validate_key, validate_no_embedded_nul,
}
use cytadel_scan.Kb.Table.{
  Value, str, i64, Kb, Alloc, hash, same_key, index_of, bucket, modify, chain_find, find, push,
  rehash_chain, rehash, empty_buckets, grow_if_needed, insert_new, assign, write_value, store,
  create, set_str_n, set_int, set_bool, found, get, value_max_len,
}
use cytadel_scan.Kb.Utf8.Encode.{encode, encode_all}
use cytadel_scan.Kb.Utf8.Sound.{IsEncoded, validate_utf8_iff, validate_loop-total}
use cytadel_scan.Kb.Utf8.{
  classify, continuation, first_continuation, after_lead, sequence, validate_loop, validate_utf8,
}
use cytadel_scan.Kb.Walk.{Visits, foreach, foreach-get}

validators : Unit {0}
unfolding is_key_byte segments_loop ends_with_slash validate_key validate_no_embedded_nul classify
    continuation first_continuation after_lead sequence validate_loop validate_utf8 encode
    encode_all
validators = tt

table : Unit {0}
unfolding validators hash same_key index_of bucket modify chain_find find push rehash_chain rehash
    empty_buckets grow_if_needed insert_new assign write_value store create set_str_n set_int
    set_bool get
table = tt

keys :
    (validate_key (some (codes "Services/www/80")) ≡ true)
    × (validate_key (some (codes "/a")) ≡ false)
    × (validate_key (some (codes "a//b")) ≡ false)
    × (validate_key (some (codes "a/")) ≡ false)
    × (validate_key (some (codes "a b")) ≡ false)
    × (validate_key (some []) ≡ false)
unfolding validators
keys = (refl, refl, refl, refl, refl, refl)

-- U+20AC, a surrogate, an overlong slash, a cut sequence.
texts :
    (validate_utf8 (0xE2 ∷ 0x82 ∷ 0xAC ∷ []) ≡ true)
    × (validate_utf8 (0xED ∷ 0xA0 ∷ 0x80 ∷ []) ≡ false)
    × (validate_utf8 (0xC0 ∷ 0xAF ∷ []) ≡ false)
    × (validate_utf8 (0xE2 ∷ 0x82 ∷ []) ≡ false)
    × (encode 0x20AC ≡ 0xE2 ∷ 0x82 ∷ 0xAC ∷ [])
unfolding validators
texts = (refl, refl, refl, refl, refl)

abbrev memory : Alloc
memory = record { value_ok = true; entry_ok = true; key_ok = true; buckets_ok = true }

-- One bucket, so that the second write grows the table.
abbrev tiny : Kb
tiny = record { buckets = [] ∷ []; bucket_count = 1; entry_count = 0 }

tiny-IsTable : IsTable tiny
tiny-IsTable = record {
  is_placed = record { size = refl; positive = omega arith; placed = (tt, tt) };
  unique = λ j. omega arith;
  counted = refl;
}

abbrev one_key : Kb
one_key = record {
  buckets = (record { key = codes "a"; value = str (codes "x") } ∷ []) ∷ [] ∷ [];
  bucket_count = 2;
  entry_count = 1;
}

first_write : set_str_n memory (some tiny) (some (codes "a")) (some (codes "x")) ≡ some one_key
unfolding table
first_write = refl

one_key-IsTable : IsTable one_key
one_key-IsTable =
    (get-set_str_n memory tiny one_key (codes "a") (codes "x") tiny-IsTable first_write []).1

abbrev holding : Value → Kb
holding v = record one_key { buckets = (record { key = codes "a"; value = v } ∷ []) ∷ [] ∷ [] }

get-set_str_n_example :
    (get (some one_key) (some (codes "b")) ≡ (
      if same_key (codes "a") (codes "b")
      then found (str (codes "x"))
      else get (some tiny) (some (codes "b"))))
    × IsTable one_key
get-set_str_n_example =
    get-set_str_n memory tiny one_key (codes "a") (codes "x") tiny-IsTable first_write (codes "b")

get-set_int_example :
    (get (some (holding (i64 80))) (some (codes "a")) ≡ (
      if same_key (codes "a") (codes "a")
      then found (i64 80)
      else get (some one_key) (some (codes "a"))))
    × IsTable (holding (i64 80))
unfolding table
get-set_int_example =
    get-set_int memory one_key (holding (i64 80)) (codes "a") 80 one_key-IsTable refl (codes "a")

set_str_n_iff_example :
    ((kb' : Kb) × (set_str_n memory (some tiny) (some (codes "a")) (some (codes "x")) ≡ some kb'))
    ↔ (IsKey (codes "a")
        × (length (codes "x") ≤ value_max_len)
        × All (λ c. c ≢ 0) (codes "x")
        × IsEncoded (codes "x"))
set_str_n_iff_example =
    set_str_n_iff memory tiny (codes "a") (codes "x") tiny-IsTable refl refl refl

validate_key_iff_example : (validate_key (some (codes "CPE/80")) ≡ true) ↔ IsKey (codes "CPE/80")
validate_key_iff_example = validate_key_iff (codes "CPE/80")

validate_utf8_iff_example :
    (validate_utf8 (0xE2 ∷ 0x82 ∷ 0xAC ∷ []) ≡ true) ↔ IsEncoded (0xE2 ∷ 0x82 ∷ 0xAC ∷ [])
validate_utf8_iff_example = validate_utf8_iff (0xE2 ∷ 0x82 ∷ 0xAC ∷ [])

validate_loop-total_example : (b : Bool) × (validate_loop 4 (0xE2 ∷ 0x82 ∷ 0xAC ∷ []) ≡ some b)
validate_loop-total_example = validate_loop-total 4 (0xE2 ∷ 0x82 ∷ 0xAC ∷ []) (omega arith)

grow_if_needed-Same_example : Same one_key (grow_if_needed true one_key)
grow_if_needed-Same_example = grow_if_needed-Same true one_key one_key-IsTable

keys_a : validate_key (some (codes "a")) ≡ true
unfolding validators
keys_a = refl

foreach-get_example :
    (get (some one_key) (some (codes "a")) ≡ found (str (codes "x")))
    ↔ Visits (codes "a") (str (codes "x")) (foreach (some one_key) true)
foreach-get_example = foreach-get one_key (codes "a") (str (codes "x")) one_key-IsTable keys_a
