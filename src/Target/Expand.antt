-- ===== src/Target/Expand.antt =====
-- src/net/target_list.c: the tokens of the specification and the lines of the file, expanded.
pub mod Hosts
pub mod Bounds
use cytadel_scan.Base.{
  ℕ, zero, suc, ◌+◌, ◌*◌, ◌%◌, ◌^◌, Bool, true, false, not, ◌&&◌, ◌||◌, Option, none, some, List,
  [], ◌∷◌, ◌++◌, Bytes, length, ltb, leb, ◌==◌, if◌then◌else◌,
}
use cytadel_scan.PortRange.{split_commas}
use cytadel_scan.Target.Cidr.{
  Cidr, CidrParsed, block, malformed, bad_address, bad_prefix, cidr_parse, cidr_host_count,
  cidr_nth_address,
}
use cytadel_scan.Target.Dedup.{DedupKey, dedup}
use cytadel_scan.Target.File.{
  FileRead, lines_read, open_failed, line_too_long, too_many_lines, no_memory,
}
use cytadel_scan.Target.Single.{
  TargetParsed, one_target, invalid_spec, multi, unresolved, target_parse,
}
use cytadel_scan.Target.{
  Resolver, Target, ip_str_max, host_str_max, contains_slash, trim_front, trim_spaces_end,
}

-- CYTADEL_MAX_TARGETS, at its default.
abbrev pub max_targets : ℕ
max_targets = 65536

abbrev pub list_spec_max_len : ℕ
list_spec_max_len = 65536

abbrev pub list_spec_max_tokens : ℕ
list_spec_max_tokens = 8192

-- The errors of `cytadel_target_list_status_t`.
pub data ListError : Type 0 where
  invalid resolve_failed too_many empty file_failed alloc_failed : ListError

-- `cytadel_target_dynarray_t`; its count is the length.
pub record Dynarray : Type 0 where
  pub items : List Target
  pub capacity : ℕ

-- An array with the running total, or an error.
pub data Expanded : Type 0 where
  expanded : Dynarray → ℕ → Expanded
  failed : ListError → Expanded

-- `none` is the return of -1.
unfoldable pub dynarray_push : (ℕ → Bool) → Dynarray → Target → Option Dynarray
dynarray_push realloc_ok arr t =
    if length arr.items == arr.capacity
    then (let new_capacity = if arr.capacity == 0 then 64 else arr.capacity * 2 in
        if not (realloc_ok new_capacity)
        then none
        else some (record { items = arr.items ++ (t ∷ []); capacity = new_capacity }))
    else some (record arr { items = arr.items ++ (t ∷ []) })

module _ (net : Resolver) (realloc_ok : ℕ → Bool) where
  -- The loop over a block from the address `n` on, with the number of rounds that are left.
  unfoldable pub hosts_loop : Cidr → ℕ → ℕ → Dynarray → ℕ → Expanded
  hosts_loop cidr zero n arr total = expanded arr total
  hosts_loop cidr (suc left) n arr total = elim (cidr_nth_address net (some cidr) n ip_str_max) [
    | none ↦ failed invalid
    | some ip ↦ elim (dynarray_push realloc_ok arr (record { host = ip; ip = ip })) [
      | none ↦ failed alloc_failed
      | some grown ↦ hosts_loop cidr left (n + 1) grown total
    ]
  ]

  unfoldable pub expand_block : CidrParsed → Dynarray → ℕ → Expanded
  expand_block malformed arr total = failed invalid
  expand_block bad_address arr total = failed invalid
  expand_block bad_prefix arr total = failed invalid
  expand_block (block cidr) arr total =
      let host_count = cidr_host_count (some cidr) in
      if host_count == 0 || ltb max_targets ((total + host_count) % 2 ^ 64)
      then failed too_many
      else hosts_loop cidr host_count 0 arr ((total + host_count) % 2 ^ 64)

  unfoldable pub push_single : TargetParsed → Dynarray → ℕ → Expanded
  push_single invalid_spec arr total = failed invalid
  push_single multi arr total = failed invalid
  push_single unresolved arr total = failed resolve_failed
  push_single (one_target t) arr total = elim (dynarray_push realloc_ok arr t) [
    | none ↦ failed alloc_failed
    | some grown ↦ expanded grown ((total + 1) % 2 ^ 64)
  ]

  unfoldable pub expand_trimmed : Bytes → Dynarray → ℕ → Expanded
  expand_trimmed buf arr total =
      if length buf == 0
      then failed invalid
      else if leb host_str_max (length buf)
      then failed invalid
      else if contains_slash buf
      then expand_block (cidr_parse net (some buf)) arr total
      else if ltb max_targets ((total + 1) % 2 ^ 64)
      then failed too_many
      else push_single (target_parse net true (some buf)) arr total

  unfoldable pub expand_token : Bytes → Dynarray → ℕ → Expanded
  expand_token tok arr total = expand_trimmed (trim_spaces_end (trim_front tok)) arr total

  unfoldable pub tokens_loop : ℕ → List Bytes → Dynarray → ℕ → Expanded
  tokens_loop token_count [] arr total = expanded arr total
  tokens_loop token_count (tok ∷ toks) arr total =
      if ltb list_spec_max_tokens (token_count + 1)
      then failed invalid
      else elim (expand_token tok arr total) [
        | failed e ↦ failed e
        | expanded more sum ↦ tokens_loop (token_count + 1) toks more sum
      ]

  unfoldable pub expand_spec : Bytes → Dynarray → ℕ → Expanded
  expand_spec spec arr total =
      if leb list_spec_max_len (length spec)
      then failed invalid
      else tokens_loop 0 (split_commas spec) arr total

  unfoldable pub line_loop : List Bytes → Dynarray → ℕ → Expanded
  line_loop [] arr total = expanded arr total
  line_loop (line ∷ lines) arr total = elim (expand_token line arr total) [
    | failed e ↦ failed e
    | expanded more sum ↦ line_loop lines more sum
  ]

  unfoldable pub expand_file : FileRead → Dynarray → ℕ → Expanded
  expand_file (lines_read lines) arr total = line_loop lines arr total
  expand_file open_failed arr total = failed file_failed
  expand_file line_too_long arr total = failed file_failed
  expand_file too_many_lines arr total = failed file_failed
  expand_file no_memory arr total = failed file_failed

-- What a call of `cytadel_target_list_parse` depends on beside its arguments.
pub record ListEnv : Type 0 where
  pub net : Resolver
  pub realloc_ok : ℕ → Bool
  pub read_file : Option Bytes → FileRead
  pub qsort : List DedupKey → List DedupKey
  pub keys_ok : Bool
  pub keep_ok : Bool

pub data TargetList : Type 0 where
  targets : List Target → TargetList
  refused : ListError → TargetList

abbrev pub is_given : Option Bytes → Bool
is_given none = false
is_given (some s) = not (length s == 0)

unfoldable pub add_file : ListEnv → Option Bytes → Expanded → Expanded
add_file env path (failed e) = failed e
add_file env path (expanded arr total) =
    if is_given path
    then expand_file env.net env.realloc_ok (env.read_file path) arr total
    else expanded arr total

abbrev pub no_targets : Dynarray
no_targets = record { items = []; capacity = 0 }

unfoldable pub add_spec : ListEnv → Option Bytes → Expanded
add_spec env none = expanded no_targets 0
add_spec env (some spec) =
    if is_given (some spec)
    then expand_spec env.net env.realloc_ok spec no_targets 0
    else expanded no_targets 0

unfoldable pub finish_list : ListEnv → Expanded → TargetList
finish_list env (failed e) = refused e
finish_list env (expanded arr total) =
    if total == 0 then refused empty else elim (dedup env.qsort env.keys_ok env.keep_ok arr.items) [
      | none ↦ refused alloc_failed
      | some kept ↦ targets kept
    ]

unfoldable pub target_list_parse : ListEnv → Bool → Option Bytes → Option Bytes → TargetList
target_list_parse env out_ok spec targets_file_path =
    if not out_ok
    then refused invalid
    else if not (is_given spec) && not (is_given targets_file_path)
    then refused empty
    else finish_list env (add_file env targets_file_path (add_spec env spec))
