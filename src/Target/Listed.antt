-- ===== src/Target/Listed.antt =====
-- src/net/target_list.c: the list that a call returns.
use cytadel_scan.Base.{
  ◌≤◌, Bool, false, not, ◌&&◌, ◌||◌, Option, none, some, List, [], ◌∷◌, ◌++◌, Bytes, length, leb,
  ◌==◌, ◌≡◌, ◌≢◌, refl, sym, ◌∙◌, arith, All, Bool-cases, inl, inr,
}
use cytadel_scan.Target.Dedup.First.{dedup-firsts}
use cytadel_scan.Target.Dedup.Order.{Sorts}
use cytadel_scan.Target.Dedup.Reference.{firsts, has_ip, has_ip-snoc, same_text-other, neither}
use cytadel_scan.Target.Dedup.{dedup, same_text}
use cytadel_scan.Target.Expand.Bounds.{FitsResult, add_file-Fits}
use cytadel_scan.Target.Expand.{
  Expanded, expanded, failed, ListEnv, targets, refused, finish_list, target_list_parse, add_file,
  add_spec, empty, alloc_failed, invalid, is_given, max_targets,
}
use cytadel_scan.Target.{Target}

-- No address stands in the list twice.
abbrev pub DistinctIps : List Target → Type 0
DistinctIps [] = Unit
DistinctIps (t ∷ ts) = All (λ (u : Target). t.ip ≢ u.ip) ts × DistinctIps ts

abbrev Without : List Target → List Target → Type 0
Without earlier ts = All (λ (u : Target). has_ip u.ip earlier ≡ false) ts

firsts-length : (ts earlier : List Target) → length (firsts earlier ts) ≤ length ts
unfolding firsts
firsts-length [] earlier = omega arith
firsts-length (t ∷ ts) earlier =
    let ih = firsts-length ts (earlier ++ (t ∷ [])) in
    elim (Bool-cases (has_ip t.ip earlier)) [
      | inl e ↦ rw e (omega (arith, ih))
      | inr e ↦ rw e (omega (arith, ih))
    ]

Without-snoc :
    (earlier ts : List Target) (t : Target)
    → Without (earlier ++ (t ∷ [])) ts
    → Without earlier ts × All (λ (u : Target). t.ip ≢ u.ip) ts
Without-snoc earlier [] t h = (tt, tt)
Without-snoc earlier (u ∷ ts) t h =
    let both =
      neither (has_ip u.ip earlier) (same_text t.ip u.ip)
        (sym (has_ip-snoc u.ip earlier t) ∙ h.0) in
    let rest = Without-snoc earlier ts t h.1 in
    ((both.0, rest.0), (same_text-other t.ip u.ip both.1, rest.1))

firsts-DistinctIps :
    (ts earlier : List Target)
    → Without earlier (firsts earlier ts) × DistinctIps (firsts earlier ts)
unfolding firsts
firsts-DistinctIps [] earlier = (tt, tt)
firsts-DistinctIps (t ∷ ts) earlier =
    let (new, distinct) = firsts-DistinctIps ts (earlier ++ (t ∷ [])) in
    let (older, apart) = Without-snoc earlier (firsts (earlier ++ (t ∷ [])) ts) t new in
    elim (Bool-cases (has_ip t.ip earlier)) [
      | inl e ↦ rw e (older, distinct)
      | inr e ↦ rw e ((e, older), (apart, distinct))
    ]

firsts-start : (t : Target) (ts : List Target) → 1 ≤ length (firsts [] (t ∷ ts))
unfolding firsts
firsts-start t ts = omega arith

some_left : (ts : List Target) → 1 ≤ length ts → 1 ≤ length (firsts [] ts)
some_left [] h = absurd (omega (arith, h))
some_left (t ∷ ts) h = firsts-start t ts

finish_list-bounds :
    (env : ListEnv) (x : Expanded) (ts : List Target)
    → Sorts env.qsort
    → FitsResult x
    → finish_list env x ≡ targets ts
    → (1 ≤ length ts) × (length ts ≤ max_targets) × DistinctIps ts
unfolding finish_list
finish_list-bounds env (failed e) ts sorts f h = absurd (cc)
finish_list-bounds env (expanded arr total) ts sorts f h = elim (Bool-cases (total == 0)) [
  | inl e ↦ let bad : refused empty ≡ targets ts = rw e at h in absurd (cc)
  | inr e ↦
      let result = dedup-firsts env.qsort env.keys_ok env.keep_ok arr.items sorts in
      elim (Bool-cases (leb (length arr.items) 1 || (env.keys_ok && env.keep_ok))) [
        | inr g ↦
            let lost : dedup env.qsort env.keys_ok env.keep_ok arr.items ≡ none =
              result ∙ rw g refl in
            let bad : refused alloc_failed ≡ targets ts = rw (e, lost, finish_list) at h in
            absurd (cc)
        | inl g ↦
            let kept : dedup env.qsort env.keys_ok env.keep_ok arr.items
                ≡ some (firsts [] arr.items) =
              result ∙ rw g refl in
            let same : targets (firsts [] arr.items) ≡ targets ts =
              rw (e, kept, finish_list) at h in
            let eq : firsts [] arr.items ≡ ts = cc in
            let some_target : 1 ≤ total = ground arith in
            rw (← eq) (
              some_left arr.items (omega (arith, f.counted, some_target)),
              omega (arith, firsts-length arr.items [], f.counted, f.under),
              (firsts-DistinctIps arr.items []).1,
            )
      ]
]

-- A list that the call returns holds at least one target and at most 65536, and no address twice,
-- whatever the specification, the file and the network say. `qsort` sorts.
pub target_list_parse-bounds :
    (env : ListEnv) (out_ok : Bool) (spec path : Option Bytes) (ts : List Target)
    → Sorts env.qsort
    → target_list_parse env out_ok spec path ≡ targets ts
    → (1 ≤ length ts) × (length ts ≤ max_targets) × DistinctIps ts
unfolding target_list_parse
target_list_parse-bounds env out_ok spec path ts sorts h = elim (Bool-cases out_ok) [
  | inr e ↦ let bad : refused invalid ≡ targets ts = rw e at h in absurd (cc)
  | inl e ↦ elim (Bool-cases (not (is_given spec) && not (is_given path))) [
    | inl g ↦ let bad : refused empty ≡ targets ts = rw (e, g) at h in absurd (cc)
    | inr g ↦
        finish_list-bounds env (add_file env path (add_spec env spec)) ts sorts
          (add_file-Fits env spec path) (rw (e, g) at h)
  ]
]
