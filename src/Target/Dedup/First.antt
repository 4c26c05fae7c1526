-- ===== src/Target/Dedup/First.antt =====
-- src/net/target_list.c: what is left of the targets.
use cytadel_scan.Base.Slots.{get_elem?, get_elem?-bound}
use cytadel_scan.Base.{
  ℕ, zero, suc, ◌+◌, ◌<◌, Bool, true, false, ◌&&◌, ◌||◌, none, some, List, [], ◌∷◌, length, leb,
  ◌==◌, if◌then◌else◌, ◌≡◌, ◌↔◌, inl, inr, refl, sym, ◌∙◌, ap, arith, All, Bool-cases, ==_iff,
}
use cytadel_scan.Target.Dedup.Flags.{
  Sets, keep_loop-flag, length-keep_loop, no_flags-unset, length-no_flags,
}
use cytadel_scan.Target.Dedup.Order.{Heads-lowest_start, Sorts, InKeys, Heads-InKeys, Heads-exists}
use cytadel_scan.Target.Dedup.Reference.{
  NewAt, first_flags, firsts, first_flags-NewAt, length-first_flags, compact-first_flags,
}
use cytadel_scan.Target.Dedup.{DedupKey, dedup, keys_from, no_flags, keep_loop, compact}
use cytadel_scan.Target.{Target}

-- A key of the list, as the loop that fills the array writes it.
keys_from-InKeys :
    (ts : List Target) (i : ℕ) (k : DedupKey)
    → InKeys k (keys_from i ts)
      ↔ ((j : ℕ) × (t : Target) × (get_elem? ts j ≡ some t) × (k.idx ≡ i + j) × (k.key_ip ≡ t.ip))
unfolding keys_from get_elem?
keys_from-InKeys [] i k = (λ h. absurd (cc), λ (j, t, e, at_j, same). absurd (cc))
keys_from-InKeys (t ∷ ts) i k = (
  λ h. elim h [
    | inl e ↦
        let index = ap (λ (x : DedupKey). x.idx) e in
        (0, t, refl, omega (arith, index), sym (ap (λ (x : DedupKey). x.key_ip) e))
    | inr m ↦
        let (j, u, e, at_j, same) = (keys_from-InKeys ts (i + 1) k).0 m in
        (suc j, u, e, omega (arith, at_j), same)
  ],
  λ found.
      from found
        (λ j u e at_j same. (keys_from-InKeys ts (i + 1) k).1 (j, u, e, omega (arith, at_j), same)),
)
  where
    from :
        ((j : ℕ) × (u : Target) × (get_elem? (t ∷ ts) j ≡ some u)
          × (k.idx ≡ i + j)
          × (k.key_ip ≡ u.ip))
        → ((j : ℕ) (u : Target)
            → get_elem? ts j ≡ some u
            → k.idx ≡ i + suc j
            → k.key_ip ≡ u.ip
            → InKeys k (keys_from (i + 1) ts))
        → InKeys k (keys_from i (t ∷ ts))
    from (suc j, u, e, at_j, same) rest = inr (rest j u e at_j same)
    from (zero, u, e, at_j, same) rest =
        let eq : t ≡ u = cc in
        let index : i ≡ k.idx = omega (arith, at_j) in
        let ip : t.ip ≡ k.key_ip = ap (λ (y : Target). y.ip) eq ∙ sym same in
        let all : record { key_ip = t.ip; idx = i } ≡ record { key_ip = k.key_ip; idx = k.idx } =
          rw (index, ip) refl in
        inl all

abbrev key_of : Target → ℕ → DedupKey
key_of t i = record { key_ip = t.ip; idx = i }

module _ (qsort : List DedupKey → List DedupKey) (sorts : Sorts qsort) (ts : List Target) where
  sorted_key :
      (k : DedupKey)
      → InKeys k (qsort (keys_from 0 ts))
        ↔ ((t : Target) × (get_elem? ts k.idx ≡ some t) × (k.key_ip ≡ t.ip))
  sorted_key k = (
    λ m.
        let (j, t, at_j, index, ip) =
          (keys_from-InKeys ts 0 k).0 (((sorts (keys_from 0 ts)).1 k).0 m) in
        let eq : j ≡ k.idx = omega (arith, index) in (t, rw eq at at_j, ip),
    λ (t, at_k, ip).
        ((sorts (keys_from 0 ts)).1 k).1
          ((keys_from-InKeys ts 0 k).1 (k.idx, t, at_k, omega arith, ip)),
  )

  Sets-NewAt : (i : ℕ) → Sets none (qsort (keys_from 0 ts)) i → NewAt ts i
  Sets-NewAt i (k, heads, at_i) =
      let ks = qsort (keys_from 0 ts) in
      let (t, at_k, ip) = (sorted_key k).0 (Heads-InKeys ks none k heads) in
      (
        t,
        ap (λ n. get_elem? ts n) (sym at_i) ∙ at_k,
        λ j u before at_j same.
            let there = (sorted_key (key_of u j)).1 (u, at_j, refl) in
            let le =
              Heads-lowest_start ks k (key_of u j) (sorts (keys_from 0 ts)).0 heads there
                (same ∙ sym ip) in
            absurd (omega (arith, le, at_i, before)),
      )

  NewAt-Sets : (i : ℕ) → NewAt ts i → Sets none (qsort (keys_from 0 ts)) i
  NewAt-Sets i (t, at_i, new) =
      let ks = qsort (keys_from 0 ts) in
      let there = (sorted_key (key_of t i)).1 (t, at_i, refl) in
      elim (Heads-exists ks none (key_of t i) (sorts (keys_from 0 ts)).0 there) [
        | inl (p, bad, same) ↦ absurd (cc)
        | inr (first, heads, same, le) ↦
            let (u, at_first, ip) = (sorted_key first).0 (Heads-InKeys ks none first heads) in
            elim (Bool-cases (first.idx == i)) [
              | inl e ↦ (first, heads, (==_iff first.idx i).0 e)
              | inr e ↦ absurd (new first.idx u (ground arith) at_first (sym ip ∙ same))
            ]
      ]

-- Lists of Booleans with the same length that are true at the same places are the same.
flags_ext :
    (xs ys : List Bool)
    → length xs ≡ length ys
    → ((i : ℕ) → (get_elem? xs i ≡ some true) ↔ (get_elem? ys i ≡ some true))
    → xs ≡ ys
unfolding get_elem?
flags_ext [] [] size h = refl
flags_ext [] (y ∷ ys) size h = absurd (omega (arith, size))
flags_ext (x ∷ xs) [] size h = absurd (omega (arith, size))
flags_ext (x ∷ xs) (y ∷ ys) size h =
    let rest : xs ≡ ys = flags_ext xs ys (omega (arith, size)) (λ i. h (suc i)) in
    let head : x ≡ y = same x y (h 0) in cc
  where
    same : (x y : Bool) → (some x ≡ some true) ↔ (some y ≡ some true) → x ≡ y
    same true true h = refl
    same false false h = refl
    same true false h = let bad : some false ≡ some true = h.0 refl in absurd (cc)
    same false true h = let bad : some false ≡ some true = h.1 refl in absurd (cc)

All-from_InKeys :
    (P : DedupKey → Type 0) (ks : List DedupKey) → ((k : DedupKey) → InKeys k ks → P k) → All P ks
All-from_InKeys P [] h = tt
All-from_InKeys P (k ∷ ks) h = (h k (inl refl), All-from_InKeys P ks (λ x m. h x (inr m)))

keep_loop-first_flags :
    (qsort : List DedupKey → List DedupKey) (ts : List Target)
    → Sorts qsort
    → keep_loop none (qsort (keys_from 0 ts)) (no_flags (length ts)) ≡ first_flags [] ts
keep_loop-first_flags qsort ts sorts =
    let ks = qsort (keys_from 0 ts) in
    let small : All (λ (k : DedupKey). k.idx < length (no_flags (length ts))) ks =
      All-from_InKeys (λ (k : DedupKey). k.idx < length (no_flags (length ts))) ks
        (λ k m.
          let (t, at_k, ip) = (sorted_key qsort sorts ts k).0 m in
          omega (arith, get_elem?-bound ts k.idx t at_k, length-no_flags (length ts))) in
    flags_ext (keep_loop none ks (no_flags (length ts))) (first_flags [] ts)
      (length-keep_loop ks none (no_flags (length ts))
        ∙ length-no_flags (length ts)
        ∙ sym (length-first_flags [] ts))
      (λ i.
        let flag = keep_loop-flag ks none (no_flags (length ts)) i small in
        let first = first_flags-NewAt ts i in
        (
          λ h. elim (flag.0 h) [
            | inl bad ↦ absurd (no_flags-unset (length ts) i bad)
            | inr sets ↦ first.1 (Sets-NewAt qsort sorts ts i sets)
          ],
          λ h. flag.1 (inr (NewAt-Sets qsort sorts ts i (first.0 h))),
        ))

-- The removal of repeated addresses keeps exactly the first target of each address, in the order
-- of the list, where `qsort` sorts. It fails only on a list of two or more when an allocation
-- fails.
pub dedup-firsts :
    (qsort : List DedupKey → List DedupKey) (keys_ok keep_ok : Bool) (ts : List Target)
    → Sorts qsort
    → dedup qsort keys_ok keep_ok ts
      ≡ (if leb (length ts) 1 || (keys_ok && keep_ok) then some (firsts [] ts) else none)
unfolding dedup firsts
dedup-firsts qsort keys_ok keep_ok [] sorts = refl
dedup-firsts qsort keys_ok keep_ok (t ∷ []) sorts = refl
dedup-firsts qsort keys_ok keep_ok (t ∷ u ∷ ts) sorts =
    let all = t ∷ u ∷ ts in
    let long : leb (length (t ∷ u ∷ ts)) 1 ≡ false = ground arith in
    let result : compact (keep_loop none (qsort (keys_from 0 all)) (no_flags (length all))) all
        ≡ firsts [] all =
      ap (λ flags. compact flags all) (keep_loop-first_flags qsort all sorts)
      ∙ compact-first_flags [] all in
    elim (Bool-cases keys_ok) [
      | inr e ↦ rw (long, e) refl
      | inl e ↦ elim (Bool-cases keep_ok) [
        | inr f ↦ rw (long, e, f) refl
        | inl f ↦ rw (long, e, f, result) refl
      ]
    ]
