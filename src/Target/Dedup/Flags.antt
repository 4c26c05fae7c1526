-- ===== src/Target/Dedup/Flags.antt =====
-- src/net/target_list.c: the flags that the loop over the sorted keys sets.
use cytadel_scan.Base.Slots.{get_elem?, set_elem, length-set_elem, get_elem?-set_elem}
use cytadel_scan.Base.{
  ℕ, zero, suc, ◌<◌, Bool, true, false, Option, none, some, List, [], ◌∷◌, Bytes, length, ◌==◌, ◌≡◌,
  ◌≢◌, ◌↔◌, ◌⊎◌, inl, inr, refl, sym, ◌∙◌, ap, All, Bool-cases, ==_iff,
}
use cytadel_scan.Target.Dedup.Order.{same_text_iff, Heads}
use cytadel_scan.Target.Dedup.{DedupKey, differs, keep_loop, no_flags, same_text}

abbrev pub ip_of : Option DedupKey → Option Bytes
ip_of none = none
ip_of (some k) = some k.key_ip

abbrev IsNew : Option DedupKey → DedupKey → Type 0
IsNew before x = (p : DedupKey) → before ≡ some p → p.key_ip ≢ x.key_ip

differs_iff :
    (before : Option DedupKey) (x : DedupKey)
    → (differs (ip_of before) x.key_ip ≡ true) ↔ IsNew before x
differs_iff none x = (λ h p e. absurd (cc), λ h. refl)
differs_iff (some b) x = (
  λ h p e same.
      let eq : b ≡ p = cc in
      let text =
        (same_text_iff x.key_ip b.key_ip).1 (sym (ap (λ (y : DedupKey). y.key_ip) eq ∙ same)) in
      let bad : false ≡ true = rw text at h in absurd (cc),
  λ h. elim (Bool-cases (same_text x.key_ip b.key_ip)) [
    | inr e ↦ rw e refl
    | inl e ↦ absurd (h b refl (sym ((same_text_iff x.key_ip b.key_ip).0 e)))
  ],
)

abbrev pub Sets : Option DedupKey → List DedupKey → ℕ → Type 0
Sets before ks i = (k : DedupKey) × Heads before k ks × (k.idx ≡ i)

abbrev AllUnder : ℕ → List DedupKey → Type 0
AllUnder n ks = All (λ (k : DedupKey). k.idx < n) ks

marks :
    (keep : List Bool) (before : Option DedupKey) (x : DedupKey) (ks : List DedupKey) (i : ℕ)
    → x.idx < length keep
    → IsNew before x
    → ((get_elem? (set_elem keep x.idx true) i ≡ some true) ⊎ Sets (some x) ks i)
      ↔ ((get_elem? keep i ≡ some true) ⊎ Sets before (x ∷ ks) i)
marks keep before x ks i small new =
    let at_i = get_elem?-set_elem keep x.idx i true small in
    (
      λ h. elim h [
        | inr (k, heads, at_k) ↦ inr (k, inr heads, at_k)
        | inl e ↦ elim (Bool-cases (x.idx == i)) [
          | inl same ↦ inr (x, inl (refl, new), (==_iff x.idx i).0 same)
          | inr other ↦ inl (sym (at_i ∙ rw other refl) ∙ e)
        ]
      ],
      λ h. elim h [
        | inl e ↦ inl (
            at_i
            ∙ elim (Bool-cases (x.idx == i)) [ inl same ↦ rw same refl | inr other ↦ rw other e ])
        | inr (k, inr heads, at_k) ↦ inr (k, heads, at_k)
        | inr (k, inl (is_x, new_x), at_k) ↦
            let index : x.idx ≡ i = ap (λ (y : DedupKey). y.idx) is_x ∙ at_k in
            inl (at_i ∙ rw ((==_iff x.idx i).1 index) refl)
      ],
    )

passes :
    (keep : List Bool) (before : Option DedupKey) (x : DedupKey) (ks : List DedupKey) (i : ℕ)
    → (IsNew before x → true ≡ false)
    → ((get_elem? keep i ≡ some true) ⊎ Sets (some x) ks i)
      ↔ ((get_elem? keep i ≡ some true) ⊎ Sets before (x ∷ ks) i)
passes keep before x ks i old = (
  λ h. elim h [ inl e ↦ inl e | inr (k, heads, at_k) ↦ inr (k, inr heads, at_k) ],
  λ h. elim h [
    | inl e ↦ inl e
    | inr (k, inr heads, at_k) ↦ inr (k, heads, at_k)
    | inr (k, inl (is_x, new_x), at_k) ↦ let bad = old new_x in absurd (cc)
  ],
)

-- The flag of an index: it was set before, or one of the keys that set it has the index.
pub keep_loop-flag :
    (ks : List DedupKey) (before : Option DedupKey) (keep : List Bool) (i : ℕ)
    → All (λ (k : DedupKey). k.idx < length keep) ks
    → (get_elem? (keep_loop (ip_of before) ks keep) i ≡ some true)
      ↔ ((get_elem? keep i ≡ some true) ⊎ Sets before ks i)
unfolding keep_loop
keep_loop-flag [] before keep i small =
    (λ h. inl h, λ h. elim h [ inl e ↦ e | inr (k, bad, at_i) ↦ absurd (cc) ])
keep_loop-flag (x ∷ ks) before keep i small = elim (Bool-cases (differs (ip_of before) x.key_ip)) [
  | inl e ↦
      let marked = set_elem keep x.idx true in
      let still : AllUnder (length marked) ks = rw (length-set_elem keep x.idx true) small.1 in
      let ih = keep_loop-flag ks (some x) marked i still in
      let step = marks keep before x ks i small.0 ((differs_iff before x).0 e) in
      rw e (λ h. step.0 (ih.0 h), λ h. ih.1 (step.1 h))
  | inr e ↦
      let ih = keep_loop-flag ks (some x) keep i small.1 in
      let old : IsNew before x → true ≡ false = λ n. sym ((differs_iff before x).1 n) ∙ e in
      let step = passes keep before x ks i old in rw e (λ h. step.0 (ih.0 h), λ h. ih.1 (step.1 h))
]

pub length-keep_loop :
    (ks : List DedupKey) (before : Option Bytes) (keep : List Bool)
    → length (keep_loop before ks keep) ≡ length keep
unfolding keep_loop
length-keep_loop [] before keep = refl
length-keep_loop (x ∷ ks) before keep = elim (Bool-cases (differs before x.key_ip)) [
  | inl e ↦ rw e (
      length-keep_loop ks (some x.key_ip) (set_elem keep x.idx true)
      ∙ length-set_elem keep x.idx true)
  | inr e ↦ rw e (length-keep_loop ks (some x.key_ip) keep)
]

pub no_flags-unset : (n i : ℕ) → get_elem? (no_flags n) i ≢ some true
unfolding no_flags get_elem?
no_flags-unset zero i h = absurd (cc)
no_flags-unset (suc n) zero h = absurd (cc)
no_flags-unset (suc n) (suc i) h = no_flags-unset n i h

pub length-no_flags : (n : ℕ) → length (no_flags n) ≡ n
unfolding no_flags
length-no_flags zero = refl
length-no_flags (suc n) = ap suc (length-no_flags n)
