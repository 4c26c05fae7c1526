-- ===== src/Target/Dedup/Order.antt =====
-- src/net/target_list.c: the order in which `qsort` puts the keys.
use Prim.Native.Nat.{compare, Ordering}
use cytadel_scan.Base.{
  ℕ, ◌≤◌, true, false, Option, none, some, List, [], ◌∷◌, Bytes, ◌≡◌, ◌≢◌, ◌↔◌, ◌⊎◌, inl, inr, refl,
  sym, ◌∙◌, ap, arith, All, Bool-cases,
}
use cytadel_scan.Target.Dedup.{DedupKey, strcmp, dedup_key_cmp, same_text}

pub Ordering-cases : (o : Ordering) → (o ≡ Ordering.lt) ⊎ ((o ≡ Ordering.eq) ⊎ (o ≡ Ordering.gt))
Ordering-cases Ordering.lt = inl refl
Ordering-cases Ordering.eq = inr (inl refl)
Ordering-cases Ordering.gt = inr (inr refl)

compare_flip : (a b : ℕ) → compare a b ≡ Ordering.lt → compare b a ≡ Ordering.gt
compare_flip a b h = ground arith

pub compare_eq : (a b : ℕ) → compare a b ≡ Ordering.eq → a ≡ b
compare_eq a b h = ground arith

pub compare_refl : (a : ℕ) → compare a a ≡ Ordering.eq
compare_refl a = ground arith

pub compare_le : (a b : ℕ) → compare a b ≢ Ordering.gt → a ≤ b
compare_le a b h = ground arith

pub strcmp_refl : (s : Bytes) → strcmp s s ≡ Ordering.eq
unfolding strcmp
strcmp_refl [] = refl
strcmp_refl (c ∷ s) = rw (compare_refl c, strcmp) (strcmp_refl s)

pub strcmp_eq : (s t : Bytes) → strcmp s t ≡ Ordering.eq → s ≡ t
unfolding strcmp
strcmp_eq [] [] h = refl
strcmp_eq [] (d ∷ t) h = absurd (cc)
strcmp_eq (c ∷ s) [] h = absurd (cc)
strcmp_eq (c ∷ s) (d ∷ t) h = elim (Ordering-cases (compare c d)) [
  | inl e ↦ let bad : Ordering.lt ≡ Ordering.eq = rw (e, strcmp) at h in absurd (cc)
  | inr (inr e) ↦ let bad : Ordering.gt ≡ Ordering.eq = rw (e, strcmp) at h in absurd (cc)
  | inr (inl e) ↦
      let same : c ≡ d = compare_eq c d e in
      let rest : s ≡ t = strcmp_eq s t (rw (e, strcmp) at h) in cc
]

strcmp_flip : (s t : Bytes) → strcmp s t ≡ Ordering.lt → strcmp t s ≡ Ordering.gt
unfolding strcmp
strcmp_flip [] [] h = absurd (cc)
strcmp_flip [] (d ∷ t) h = refl
strcmp_flip (c ∷ s) [] h = absurd (cc)
strcmp_flip (c ∷ s) (d ∷ t) h = elim (Ordering-cases (compare c d)) [
  | inl e ↦ rw (compare_flip c d e, strcmp) refl
  | inr (inr e) ↦ let bad : Ordering.gt ≡ Ordering.lt = rw (e, strcmp) at h in absurd (cc)
  | inr (inl e) ↦
      let same : c ≡ d = compare_eq c d e in
      rw (same, compare_refl d, strcmp) (strcmp_flip s t (rw (e, strcmp) at h))
]

pub strcmp_antisym : (s t : Bytes) → strcmp s t ≢ Ordering.gt → strcmp t s ≢ Ordering.gt → s ≡ t
strcmp_antisym s t p q = elim (Ordering-cases (strcmp s t)) [
  | inl e ↦ absurd (q (strcmp_flip s t e))
  | inr (inl e) ↦ strcmp_eq s t e
  | inr (inr e) ↦ absurd (p e)
]

pub same_text_iff : (s t : Bytes) → (same_text s t ≡ true) ↔ (s ≡ t)
same_text_iff s t = (
  λ h. elim (Ordering-cases (strcmp s t)) [
    | inr (inl e) ↦ strcmp_eq s t e
    | inl e ↦ let bad : false ≡ true = rw (e, same_text) at h in absurd (cc)
    | inr (inr e) ↦ let bad : false ≡ true = rw (e, same_text) at h in absurd (cc)
  ],
  λ h. rw (h, strcmp_refl t, same_text) refl,
)

-- The comparison does not put the second key in front.
abbrev pub Ascends : DedupKey → DedupKey → Type 0
Ascends a b = dedup_key_cmp a b ≢ Ordering.gt

pub Ascends-strcmp : (a b : DedupKey) → Ascends a b → strcmp a.key_ip b.key_ip ≢ Ordering.gt
unfolding dedup_key_cmp
Ascends-strcmp a b h e = h (rw (e, dedup_key_cmp) refl)

pub Ascends-idx : (a b : DedupKey) → Ascends a b → a.key_ip ≡ b.key_ip → a.idx ≤ b.idx
unfolding dedup_key_cmp
Ascends-idx a b h same =
    let tie : strcmp a.key_ip b.key_ip ≡ Ordering.eq =
      ap (λ s. strcmp s b.key_ip) same ∙ strcmp_refl b.key_ip in
    compare_le a.idx b.idx (λ e. h (rw (tie, dedup_key_cmp) e))

abbrev pub Sorted : List DedupKey → Type 0
Sorted [] = Unit
Sorted (k ∷ ks) = All (Ascends k) ks × Sorted ks

abbrev pub InKeys : DedupKey → List DedupKey → Type 0
InKeys k [] = true ≡ false
InKeys k (x ∷ ks) = (x ≡ k) ⊎ InKeys k ks

-- What the C library promises of `qsort`: the same elements, in ascending order.
abbrev pub Sorts : (List DedupKey → List DedupKey) → Type 0
Sorts qsort =
    (ks : List DedupKey) → Sorted (qsort ks) × ((k : DedupKey) → InKeys k (qsort ks) ↔ InKeys k ks)

pub All-InKeys :
    (P : DedupKey → Type 0) (ks : List DedupKey) (k : DedupKey) → All P ks → InKeys k ks → P k
All-InKeys P [] k h m = absurd (cc)
All-InKeys P (x ∷ ks) k h (inl e) = rw e at h.0
All-InKeys P (x ∷ ks) k h (inr m) = All-InKeys P ks k h.1 m

-- A key whose address differs from that of the key before it.
abbrev pub Heads : Option DedupKey → DedupKey → List DedupKey → Type 0
Heads before k [] = true ≡ false
Heads before k (x ∷ ks) =
    ((x ≡ k) × ((p : DedupKey) → before ≡ some p → p.key_ip ≢ x.key_ip)) ⊎ Heads (some x) k ks

pub Heads-InKeys :
    (ks : List DedupKey) (b : Option DedupKey) (k : DedupKey) → Heads b k ks → InKeys k ks
Heads-InKeys [] b k h = h
Heads-InKeys (x ∷ ks) b k (inl h) = inl h.0
Heads-InKeys (x ∷ ks) b k (inr h) = inr (Heads-InKeys ks (some x) k h)

-- In a sorted list such a key has the lowest index of its address.
pub Heads-lowest :
    (ks : List DedupKey) (p k : DedupKey)
    → Sorted (p ∷ ks)
    → Heads (some p) k ks
    → (p.key_ip ≢ k.key_ip)
      × ((other : DedupKey) → InKeys other ks → other.key_ip ≡ k.key_ip → k.idx ≤ other.idx)
Heads-lowest [] p k s h = absurd (cc)
Heads-lowest (c ∷ ks) p k s (inl (here, new)) = rw (← here) (new p refl, lowest)
  where
    lowest :
        (other : DedupKey) → InKeys other (c ∷ ks) → other.key_ip ≡ c.key_ip → c.idx ≤ other.idx
    lowest other (inl e) same = let index = ap (λ (x : DedupKey). x.idx) e in omega (arith, index)
    lowest other (inr m) same =
        Ascends-idx c other (All-InKeys (Ascends c) ks other s.1.0 m) (sym same)
Heads-lowest (c ∷ ks) p k s (inr later) =
    let (differs, lowest) = Heads-lowest ks c k s.1 later in
    let behind = All-InKeys (Ascends c) ks k s.1.0 (Heads-InKeys ks (some c) k later) in
    (
      λ same.
          let back : strcmp k.key_ip c.key_ip ≢ Ordering.gt =
            rw same at (Ascends-strcmp p c s.0.0) in
          differs (strcmp_antisym c.key_ip k.key_ip (Ascends-strcmp c k behind) back),
      λ other m same. elim m [
        | inr there ↦ lowest other there same
        | inl e ↦ absurd (differs (ap (λ (x : DedupKey). x.key_ip) e ∙ same))
      ],
    )

abbrev HasFirst : Option DedupKey → DedupKey → List DedupKey → Type 0
HasFirst b k ks =
    ((p : DedupKey) × (b ≡ some p) × (p.key_ip ≡ k.key_ip))
    ⊎ ((first : DedupKey) × Heads b first ks × (first.key_ip ≡ k.key_ip) × (first.idx ≤ k.idx))

first_here :
    (b : Option DedupKey) (x k : DedupKey) (ks : List DedupKey)
    → x.key_ip ≡ k.key_ip
    → x.idx ≤ k.idx
    → HasFirst b k (x ∷ ks)
first_here none x k ks same le = inr (x, inl (refl, λ p e. absurd (cc)), same, le)
first_here (some p) x k ks same le = elim (Bool-cases (same_text p.key_ip x.key_ip)) [
  | inl e ↦ inl (p, refl, (same_text_iff p.key_ip x.key_ip).0 e ∙ same)
  | inr e ↦ inr (x, inl (refl, differs e), same, le)
]
  where
    differs :
        same_text p.key_ip x.key_ip ≡ false → (q : DedupKey) → some p ≡ some q → q.key_ip ≢ x.key_ip
    differs e q eq same =
        let is_p : p ≡ q = cc in
        let yes =
          (same_text_iff p.key_ip x.key_ip).1 (ap (λ (y : DedupKey). y.key_ip) is_p ∙ same) in
        let bad : true ≡ false = sym yes ∙ e in absurd (cc)

-- Every key has one of its address at or in front of it that differs from the key before.
pub Heads-exists :
    (ks : List DedupKey) (b : Option DedupKey) (k : DedupKey)
    → Sorted ks
    → InKeys k ks
    → HasFirst b k ks
Heads-exists [] b k s m = absurd (cc)
Heads-exists (x ∷ ks) b k s (inl e) =
    let index = ap (λ (y : DedupKey). y.idx) e in
    first_here b x k ks (ap (λ (y : DedupKey). y.key_ip) e) (omega (arith, index))
Heads-exists (x ∷ ks) b k s (inr m) = elim (Heads-exists ks (some x) k s.1 m) [
  | inr (first, there, same, le) ↦ inr (first, inr there, same, le)
  | inl (p, is_x, same) ↦
      let eq : x ≡ p = cc in
      let ip : x.key_ip ≡ k.key_ip = ap (λ (y : DedupKey). y.key_ip) eq ∙ same in
      first_here b x k ks ip (Ascends-idx x k (All-InKeys (Ascends x) ks k s.0 m) ip)
]

-- The same at the start of the list.
pub Heads-lowest_start :
    (ks : List DedupKey) (k other : DedupKey)
    → Sorted ks
    → Heads none k ks
    → InKeys other ks
    → other.key_ip ≡ k.key_ip
    → k.idx ≤ other.idx
Heads-lowest_start [] k other s h m same = absurd (cc)
Heads-lowest_start (c ∷ ks) k other s (inl (here, new)) (inl e) same =
    let index = ap (λ (x : DedupKey). x.idx) (sym here ∙ e) in omega (arith, index)
Heads-lowest_start (c ∷ ks) k other s (inl (here, new)) (inr m) same =
    Ascends-idx k other (rw here at (All-InKeys (Ascends c) ks other s.0 m)) (sym same)
Heads-lowest_start (c ∷ ks) k other s (inr later) (inl e) same =
    absurd ((Heads-lowest ks c k s later).0 (ap (λ (x : DedupKey). x.key_ip) e ∙ same))
Heads-lowest_start (c ∷ ks) k other s (inr later) (inr m) same =
    (Heads-lowest ks c k s later).1 other m same
