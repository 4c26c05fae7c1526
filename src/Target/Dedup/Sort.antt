-- ===== src/Target/Dedup/Sort.antt =====
-- src/net/target_list.c: a function that sorts the keys, as `qsort` does.
use Prim.Native.Nat.{compare, Ordering}
use cytadel_scan.Base.{
  ℕ, ◌≤◌, List, [], ◌∷◌, Bytes, ◌≡◌, ◌≢◌, ◌↔◌, ◌⊎◌, inl, inr, refl, sym, ◌∙◌, ap, arith, All,
}
use cytadel_scan.Target.Dedup.Order.{
  Ordering-cases, compare_eq, compare_refl, compare_le, strcmp_refl, strcmp_eq, strcmp_antisym,
  Ascends, Ascends-strcmp, Ascends-idx, Sorted, InKeys, Sorts,
}
use cytadel_scan.Target.Dedup.{DedupKey, strcmp, dedup_key_cmp}

compare_trans :
    (a b c : ℕ) → compare a b ≢ Ordering.gt → compare b c ≢ Ordering.gt → compare a c ≢ Ordering.gt
compare_trans a b c p q h = absurd (ground arith)

strcmp_head : (c d : ℕ) (s t : Bytes) → strcmp (c ∷ s) (d ∷ t) ≢ Ordering.gt → c ≤ d
unfolding strcmp
strcmp_head c d s t h = compare_le c d (λ e. h (rw (e, strcmp) refl))

strcmp_tail : (c : ℕ) (s t : Bytes) → strcmp (c ∷ s) (c ∷ t) ≡ strcmp s t
unfolding strcmp
strcmp_tail c s t = rw (compare_refl c, strcmp) refl

strcmp_trans :
    (s t u : Bytes) → strcmp s t ≢ Ordering.gt → strcmp t u ≢ Ordering.gt → strcmp s u ≢ Ordering.gt
unfolding strcmp
strcmp_trans [] t [] p q h = absurd (cc)
strcmp_trans [] t (e ∷ u) p q h = absurd (cc)
strcmp_trans (c ∷ s) [] u p q h = absurd (p refl)
strcmp_trans (c ∷ s) (d ∷ t) [] p q h = absurd (q refl)
strcmp_trans (c ∷ s) (d ∷ t) (e ∷ u) p q h =
    let first = strcmp_head c d s t p in
    let second = strcmp_head d e t u q in
    elim (Ordering-cases (compare c e)) [
      | inl x ↦ let bad : Ordering.lt ≡ Ordering.gt = rw (x, strcmp) at h in absurd (cc)
      | inr (inr x) ↦ absurd (ground (arith, first, second))
      | inr (inl x) ↦
          let ends : c ≡ e = compare_eq c e x in
          let left : d ≡ c = omega (arith, first, second, ends) in
          let right : e ≡ c = sym ends in
          let p' : strcmp s t ≢ Ordering.gt = λ g. p (rw left (strcmp_tail c s t ∙ g)) in
          let q' : strcmp t u ≢ Ordering.gt = λ g. q (rw (left, right) (strcmp_tail c t u ∙ g)) in
          let h' : strcmp s u ≡ Ordering.gt = sym (strcmp_tail c s u) ∙ (rw right at h) in
          strcmp_trans s t u p' q' h'
    ]

Ascends-trans : (a b c : DedupKey) → Ascends a b → Ascends b c → Ascends a c
unfolding dedup_key_cmp
Ascends-trans a b c p q h =
    let texts =
      strcmp_trans a.key_ip b.key_ip c.key_ip (Ascends-strcmp a b p) (Ascends-strcmp b c q) in
    elim (Ordering-cases (strcmp a.key_ip c.key_ip)) [
      | inl x ↦ let bad : Ordering.lt ≡ Ordering.gt = rw (x, dedup_key_cmp) at h in absurd (cc)
      | inr (inr x) ↦ absurd (texts x)
      | inr (inl x) ↦
          let ends : a.key_ip ≡ c.key_ip = strcmp_eq a.key_ip c.key_ip x in
          let back : strcmp b.key_ip a.key_ip ≢ Ordering.gt =
            λ g. Ascends-strcmp b c q (ap (λ s. strcmp b.key_ip s) (sym ends) ∙ g) in
          let same : a.key_ip ≡ b.key_ip =
            strcmp_antisym a.key_ip b.key_ip (Ascends-strcmp a b p) back in
          let low = Ascends-idx a b p same in
          let high = Ascends-idx b c q (sym same ∙ ends) in
          let tie : compare a.idx c.idx ≡ Ordering.gt = rw (x, dedup_key_cmp) at h in
          absurd (ground (arith, low, high))
    ]

strcmp_flip_gt : (s t : Bytes) → strcmp s t ≡ Ordering.gt → strcmp t s ≢ Ordering.gt
unfolding strcmp
strcmp_flip_gt [] [] h g = absurd (cc)
strcmp_flip_gt [] (d ∷ t) h g = absurd (cc)
strcmp_flip_gt (c ∷ s) [] h g = absurd (cc)
strcmp_flip_gt (c ∷ s) (d ∷ t) h g = elim (Ordering-cases (compare c d)) [
  | inl x ↦ let bad : Ordering.lt ≡ Ordering.gt = rw (x, strcmp) at h in absurd (cc)
  | inr (inl x) ↦
      let same : d ≡ c = sym (compare_eq c d x) in
      let h' : strcmp s t ≡ Ordering.gt = sym (strcmp_tail c s t) ∙ (rw same at h) in
      let g' : strcmp t s ≡ Ordering.gt = sym (strcmp_tail c t s) ∙ (rw same at g) in
      strcmp_flip_gt s t h' g'
  | inr (inr x) ↦
      let low : compare d c ≡ Ordering.lt = ground arith in
      let bad : Ordering.lt ≡ Ordering.gt = rw (low, strcmp) at g in absurd (cc)
]

Ascends-total : (a b : DedupKey) → dedup_key_cmp a b ≡ Ordering.gt → Ascends b a
unfolding dedup_key_cmp
Ascends-total a b h g = elim (Ordering-cases (strcmp a.key_ip b.key_ip)) [
  | inl x ↦ let bad : Ordering.lt ≡ Ordering.gt = rw (x, dedup_key_cmp) at h in absurd (cc)
  | inr (inr x) ↦ elim (Ordering-cases (strcmp b.key_ip a.key_ip)) [
    | inl y ↦ let bad : Ordering.lt ≡ Ordering.gt = rw (y, dedup_key_cmp) at g in absurd (cc)
    | inr (inr y) ↦ strcmp_flip_gt a.key_ip b.key_ip x y
    | inr (inl y) ↦
        let same : a.key_ip ≡ b.key_ip = sym (strcmp_eq b.key_ip a.key_ip y) in
        let tie = ap (λ s. strcmp s b.key_ip) same ∙ strcmp_refl b.key_ip in
        let bad : Ordering.eq ≡ Ordering.gt = sym tie ∙ x in absurd (cc)
  ]
  | inr (inl x) ↦
      let same : b.key_ip ≡ a.key_ip = sym (strcmp_eq a.key_ip b.key_ip x) in
      let tie = ap (λ s. strcmp s a.key_ip) same ∙ strcmp_refl a.key_ip in
      let one : compare a.idx b.idx ≡ Ordering.gt = rw (x, dedup_key_cmp) at h in
      let two : compare b.idx a.idx ≡ Ordering.gt = rw (tie, dedup_key_cmp) at g in
      absurd (ground arith)
]

unfoldable pub insert : DedupKey → List DedupKey → List DedupKey
insert k [] = k ∷ []
insert k (x ∷ ks) = elim (dedup_key_cmp k x) [
  | Ordering.gt ↦ x ∷ insert k ks
  | Ordering.eq ↦ k ∷ x ∷ ks
  | Ordering.lt ↦ k ∷ x ∷ ks
]

unfoldable pub insertion_sort : List DedupKey → List DedupKey
insertion_sort [] = []
insertion_sort (k ∷ ks) = insert k (insertion_sort ks)

insert-cases :
    (k x : DedupKey) (ks : List DedupKey)
    → (Ascends k x × (insert k (x ∷ ks) ≡ k ∷ x ∷ ks))
      ⊎ (Ascends x k × (insert k (x ∷ ks) ≡ x ∷ insert k ks))
unfolding insert
insert-cases k x ks = elim (Ordering-cases (dedup_key_cmp k x)) [
  | inl e ↦
      inl
        (λ g. (let bad : Ordering.lt ≡ Ordering.gt = sym e ∙ g in absurd (cc)), rw (e, insert) refl)
  | inr (inl e) ↦
      inl
        (λ g. (let bad : Ordering.eq ≡ Ordering.gt = sym e ∙ g in absurd (cc)), rw (e, insert) refl)
  | inr (inr e) ↦ inr (Ascends-total k x e, rw (e, insert) refl)
]

insert-InKeys :
    (k j : DedupKey) (ks : List DedupKey) → InKeys j (insert k ks) ↔ ((k ≡ j) ⊎ InKeys j ks)
unfolding insert
insert-InKeys k j [] = (λ m. m, λ m. m)
insert-InKeys k j (x ∷ ks) = elim (insert-cases k x ks) [
  | inl (up, e) ↦ rw e (λ m. m, λ m. m)
  | inr (up, e) ↦
      let ih = insert-InKeys k j ks in
      rw e (
        λ m. elim m [
          | inl here ↦ inr (inl here)
          | inr there ↦ elim (ih.0 there) [ inl is_k ↦ inl is_k | inr old ↦ inr (inr old) ]
        ],
        λ m. elim m [
          | inl is_k ↦ inr (ih.1 (inl is_k))
          | inr (inl here) ↦ inl here
          | inr (inr old) ↦ inr (ih.1 (inr old))
        ],
      )
]

All-insert :
    (P : DedupKey → Type 0) (k : DedupKey) (ks : List DedupKey)
    → P k
    → All P ks
    → All P (insert k ks)
unfolding insert
All-insert P k [] p h = (p, tt)
All-insert P k (x ∷ ks) p h = elim (insert-cases k x ks) [
  | inl (up, e) ↦ rw e (p, h)
  | inr (up, e) ↦ rw e (h.0, All-insert P k ks p h.1)
]

Ascends-All :
    (k x : DedupKey) (ks : List DedupKey) → Ascends k x → All (Ascends x) ks → All (Ascends k) ks
Ascends-All k x [] up h = tt
Ascends-All k x (y ∷ ks) up h = (Ascends-trans k x y up h.0, Ascends-All k x ks up h.1)

insert-Sorted : (k : DedupKey) (ks : List DedupKey) → Sorted ks → Sorted (insert k ks)
unfolding insert
insert-Sorted k [] s = (tt, tt)
insert-Sorted k (x ∷ ks) s = elim (insert-cases k x ks) [
  | inl (up, e) ↦ rw e ((up, Ascends-All k x ks up s.0), s)
  | inr (up, e) ↦ rw e (All-insert (Ascends x) k ks up s.0, insert-Sorted k ks s.1)
]

pub insertion_sort-Sorts : Sorts insertion_sort
unfolding insertion_sort
insertion_sort-Sorts [] = (tt, λ k. (λ m. m, λ m. m))
insertion_sort-Sorts (x ∷ ks) =
    let (sorted, same) = insertion_sort-Sorts ks in
    (
      insert-Sorted x (insertion_sort ks) sorted,
      λ k.
          let one = insert-InKeys x k (insertion_sort ks) in
          let rest = same k in
          (
            λ m. elim (one.0 m) [ inl here ↦ inl here | inr there ↦ inr (rest.0 there) ],
            λ m. one.1 (elim m [ inl here ↦ inl here | inr there ↦ inr (rest.1 there) ]),
          ),
    )
