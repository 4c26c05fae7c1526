-- ===== src/Target/Expand/Bounds.antt =====
-- src/net/target_list.c: how long the list can get.
use cytadel_scan.Base.{
  ℕ, ◌+◌, ◌%◌, ◌^◌, ◌≤◌, Bool, true, Option, none, some, List, [], ◌∷◌, Bytes, length,
  length-append, ltb, leb, ◌==◌, ◌≡◌, refl, ◌∙◌, ap, arith, Bool-cases, Option-cases, inl, inr, ◌⊎◌,
}
use cytadel_scan.PortRange.{split_commas}
use cytadel_scan.Target.Cidr.{CidrParsed, block, malformed, bad_address, bad_prefix, cidr_parse}
use cytadel_scan.Target.Expand.Hosts.{dynarray_push-items, expand_block-Adds, count_small}
use cytadel_scan.Target.Expand.{
  Dynarray, Expanded, expanded, failed, ListError, dynarray_push, expand_block, push_single,
  expand_trimmed, expand_token, tokens_loop, expand_spec, line_loop, expand_file, ListEnv, is_given,
  add_file, add_spec, max_targets, list_spec_max_len, list_spec_max_tokens, no_targets,
}
use cytadel_scan.Target.File.{
  FileRead, lines_read, open_failed, line_too_long, too_many_lines, no_memory,
}
use cytadel_scan.Target.Single.{
  TargetParsed, one_target, invalid_spec, multi, unresolved, target_parse,
}
use cytadel_scan.Target.{Resolver, host_str_max, contains_slash, trim_front, trim_spaces_end}

-- The running total is the length of the array, and under the cap.
pub record Fits (arr : Dynarray) (total : ℕ) : Type 0 where
  pub counted : length arr.items ≡ total
  pub under : total ≤ max_targets

abbrev pub FitsResult : Expanded → Type 0
FitsResult (failed e) = Unit
FitsResult (expanded arr total) = Fits arr total

pub Expanded-cases :
    (x : Expanded)
    → ((e : ListError) × (x ≡ failed e))
      ⊎ ((arr : Dynarray) × (total : ℕ) × (x ≡ expanded arr total))
Expanded-cases (failed e) = inl (e, refl)
Expanded-cases (expanded arr total) = inr (arr, total, refl)

module _ (net : Resolver) (realloc_ok : ℕ → Bool) where
  expand_block-Fits :
      (parsed : CidrParsed) (arr : Dynarray) (total : ℕ)
      → Fits arr total
      → FitsResult (expand_block net realloc_ok parsed arr total)
  unfolding expand_block
  expand_block-Fits malformed arr total f = tt
  expand_block-Fits bad_address arr total f = tt
  expand_block-Fits bad_prefix arr total f = tt
  expand_block-Fits (block c) arr total f =
      elim (Expanded-cases (expand_block net realloc_ok (block c) arr total)) [
        | inl (e, eq) ↦ rw eq tt
        | inr (more, sum, eq) ↦
            let (same, under, (new, items, size, hosts)) =
              expand_block-Adds net realloc_ok c arr more total sum eq in
            let long : length more.items ≡ length arr.items + length new =
              ap length items ∙ length-append arr.items new in
            let fits : Fits more sum = record {
              counted = omega (arith, long, size, same, f.counted, f.under, count_small c);
              under = under;
            } in
            rw eq fits
      ]

  push_single-Fits :
      (parsed : TargetParsed) (arr : Dynarray) (total : ℕ)
      → (total + 1) % 2 ^ 64 ≤ max_targets
      → Fits arr total
      → FitsResult (push_single net realloc_ok parsed arr total)
  unfolding push_single
  push_single-Fits invalid_spec arr total room f = tt
  push_single-Fits multi arr total room f = tt
  push_single-Fits unresolved arr total room f = tt
  push_single-Fits (one_target t) arr total room f =
      elim (Option-cases (dynarray_push realloc_ok arr t)) [
        | inl e ↦ rw (e, push_single) tt
        | inr (grown, e) ↦
            let items = dynarray_push-items realloc_ok arr grown t e in
            let long : length grown.items ≡ length arr.items + 1 =
              ap length items ∙ length-append arr.items (t ∷ []) in
            let fits : Fits grown ((total + 1) % 2 ^ 64) = record {
              counted = omega (arith, long, f.counted, f.under);
              under = room;
            } in
            rw (e, push_single) fits
      ]

  expand_trimmed-Fits :
      (buf : Bytes) (arr : Dynarray) (total : ℕ)
      → Fits arr total
      → FitsResult (expand_trimmed net realloc_ok buf arr total)
  unfolding expand_trimmed
  expand_trimmed-Fits buf arr total f = elim (Bool-cases (length buf == 0)) [
    | inl e ↦ rw e tt
    | inr e ↦ elim (Bool-cases (leb host_str_max (length buf))) [
      | inl g ↦ rw (e, g) tt
      | inr g ↦ elim (Bool-cases (contains_slash buf)) [
        | inl s ↦ rw (e, g, s) (expand_block-Fits (cidr_parse net (some buf)) arr total f)
        | inr s ↦ elim (Bool-cases (ltb max_targets ((total + 1) % 2 ^ 64))) [
          | inl t ↦ rw (e, g, s, t) tt
          | inr t ↦
              rw (e, g, s, t)
                (push_single-Fits (target_parse net true (some buf)) arr total (ground arith) f)
        ]
      ]
    ]
  ]

  expand_token-Fits :
      (tok : Bytes) (arr : Dynarray) (total : ℕ)
      → Fits arr total
      → FitsResult (expand_token net realloc_ok tok arr total)
  unfolding expand_token
  expand_token-Fits tok arr total f =
      expand_trimmed-Fits (trim_spaces_end (trim_front tok)) arr total f

  tokens_loop-Fits :
      (toks : List Bytes) (n : ℕ) (arr : Dynarray) (total : ℕ)
      → Fits arr total
      → FitsResult (tokens_loop net realloc_ok n toks arr total)
  unfolding tokens_loop
  tokens_loop-Fits [] n arr total f = f
  tokens_loop-Fits (tok ∷ toks) n arr total f =
      elim (Bool-cases (ltb list_spec_max_tokens (n + 1))) [
        | inl e ↦ rw e tt
        | inr e ↦
            let one = expand_token-Fits tok arr total f in
            elim (Expanded-cases (expand_token net realloc_ok tok arr total)) [
              | inl (x, eq) ↦ rw (e, eq, tokens_loop) tt
              | inr (more, sum, eq) ↦
                  rw (e, eq, tokens_loop) (tokens_loop-Fits toks (n + 1) more sum (rw eq at one))
            ]
      ]

  line_loop-Fits :
      (lines : List Bytes) (arr : Dynarray) (total : ℕ)
      → Fits arr total
      → FitsResult (line_loop net realloc_ok lines arr total)
  unfolding line_loop
  line_loop-Fits [] arr total f = f
  line_loop-Fits (line ∷ lines) arr total f =
      let one = expand_token-Fits line arr total f in
      elim (Expanded-cases (expand_token net realloc_ok line arr total)) [
        | inl (x, eq) ↦ rw (eq, line_loop) tt
        | inr (more, sum, eq) ↦ rw (eq, line_loop) (line_loop-Fits lines more sum (rw eq at one))
      ]

  expand_file-Fits :
      (file : FileRead) (arr : Dynarray) (total : ℕ)
      → Fits arr total
      → FitsResult (expand_file net realloc_ok file arr total)
  unfolding expand_file
  expand_file-Fits (lines_read lines) arr total f = line_loop-Fits lines arr total f
  expand_file-Fits open_failed arr total f = tt
  expand_file-Fits line_too_long arr total f = tt
  expand_file-Fits too_many_lines arr total f = tt
  expand_file-Fits no_memory arr total f = tt

no_targets-Fits : Fits no_targets 0
no_targets-Fits = record { counted = refl; under = omega arith }

add_spec-Fits : (env : ListEnv) (spec : Option Bytes) → FitsResult (add_spec env spec)
unfolding add_spec expand_spec
add_spec-Fits env none = no_targets-Fits
add_spec-Fits env (some spec) = elim (Bool-cases (is_given (some spec))) [
  | inr e ↦ rw e no_targets-Fits
  | inl e ↦ elim (Bool-cases (leb list_spec_max_len (length spec))) [
    | inl g ↦ rw (e, g) tt
    | inr g ↦
        rw (e, g)
          (tokens_loop-Fits env.net env.realloc_ok (split_commas spec) 0 no_targets 0
            no_targets-Fits)
  ]
]

added :
    (env : ListEnv) (path : Option Bytes) (x : Expanded)
    → FitsResult x
    → FitsResult (add_file env path x)
unfolding add_file
added env path (failed e) f = tt
added env path (expanded arr total) f = elim (Bool-cases (is_given path)) [
  | inr e ↦ rw e f
  | inl e ↦ rw e (expand_file-Fits env.net env.realloc_ok (env.read_file path) arr total f)
]

-- What the specification and the file give together fits.
pub add_file-Fits :
    (env : ListEnv) (spec path : Option Bytes) → FitsResult (add_file env path (add_spec env spec))
add_file-Fits env spec path = added env path (add_spec env spec) (add_spec-Fits env spec)
