-- ===== src/Target/Dedup/Reference.antt =====
-- src/net/target_list.c: the targets that no earlier one repeats, as a list and as flags.
use cytadel_scan.Base.Slots.{get_elem?}
use cytadel_scan.Base.{
  ℕ, zero, suc, ◌<◌, Bool, true, false, not, ◌||◌, some, List, [], ◌∷◌, ◌++◌, Bytes, length,
  if◌then◌else◌, ◌≡◌, ◌≢◌, ◌↔◌, inl, inr, refl, sym, ◌∙◌, ap, arith, Bool-cases,
}
use cytadel_scan.Target.Dedup.Order.{same_text_iff}
use cytadel_scan.Target.Dedup.{compact, same_text}
use cytadel_scan.Target.{Target}

-- Whether a target in the list has the address.
abbrev pub has_ip : Bytes → List Target → Bool
has_ip ip [] = false
has_ip ip (t ∷ ts) = same_text t.ip ip || has_ip ip ts

-- The targets whose address none in front of them has; `earlier` stands in front of all.
unfoldable pub firsts : List Target → List Target → List Target
firsts earlier [] = []
firsts earlier (t ∷ ts) =
    let rest = firsts (earlier ++ (t ∷ [])) ts in if has_ip t.ip earlier then rest else t ∷ rest

unfoldable pub first_flags : List Target → List Target → List Bool
first_flags earlier [] = []
first_flags earlier (t ∷ ts) = not (has_ip t.ip earlier) ∷ first_flags (earlier ++ (t ∷ [])) ts

pub compact-first_flags :
    (earlier ts : List Target) → compact (first_flags earlier ts) ts ≡ firsts earlier ts
unfolding first_flags compact firsts
compact-first_flags earlier [] = refl
compact-first_flags earlier (t ∷ ts) =
    let ih = compact-first_flags (earlier ++ (t ∷ [])) ts in
    elim (Bool-cases (has_ip t.ip earlier)) [ inl e ↦ rw e ih | inr e ↦ rw e (ap (◌∷◌ t) ih) ]

-- A target at the index, whose address none in front of it has.
abbrev pub NewAt : List Target → ℕ → Type 0
NewAt ts i =
    (t : Target) × (get_elem? ts i ≡ some t)
    × ((j : ℕ) (u : Target) → j < i → get_elem? ts j ≡ some u → u.ip ≢ t.ip)

pub has_ip-snoc :
    (ip : Bytes) (ts : List Target) (t : Target)
    → has_ip ip (ts ++ (t ∷ [])) ≡ (has_ip ip ts || same_text t.ip ip)
has_ip-snoc ip [] t = elim (Bool-cases (same_text t.ip ip)) [
  | inl e ↦ rw e refl
  | inr e ↦ rw e refl
]
has_ip-snoc ip (u ∷ ts) t = elim (Bool-cases (same_text u.ip ip)) [
  | inl e ↦ rw e refl
  | inr e ↦ rw e (has_ip-snoc ip ts t)
]

pub neither : (a b : Bool) → (a || b) ≡ false → (a ≡ false) × (b ≡ false)
neither true b h = absurd (cc)
neither false b h = (refl, h)

pub same_text-other : (s t : Bytes) → same_text s t ≡ false → s ≢ t
same_text-other s t h e = let bad : true ≡ false = sym ((same_text_iff s t).1 e) ∙ h in absurd (cc)

other-same_text : (s t : Bytes) → s ≢ t → same_text s t ≡ false
other-same_text s t ne = elim (Bool-cases (same_text s t)) [
  | inl e ↦ absurd (ne ((same_text_iff s t).0 e))
  | inr e ↦ e
]

abbrev NewBehind : List Target → List Target → ℕ → Type 0
NewBehind earlier ts i =
    (t : Target) × (get_elem? ts i ≡ some t)
    × (has_ip t.ip earlier ≡ false)
    × ((j : ℕ) (u : Target) → j < i → get_elem? ts j ≡ some u → u.ip ≢ t.ip)

new_later :
    (earlier ts : List Target) (t : Target) (i : ℕ)
    → NewBehind (earlier ++ (t ∷ [])) ts i ↔ NewBehind earlier (t ∷ ts) (suc i)
unfolding get_elem?
new_later earlier ts t i = (to, from)
  where
    to : NewBehind (earlier ++ (t ∷ [])) ts i → NewBehind earlier (t ∷ ts) (suc i)
    to (u, at_i, new, others) =
        let both =
          neither (has_ip u.ip earlier) (same_text t.ip u.ip)
            (sym (has_ip-snoc u.ip earlier t) ∙ new) in
        (u, at_i, both.0, go (same_text-other t.ip u.ip both.1))
      where
        go :
            t.ip ≢ u.ip
            → (j : ℕ) (v : Target) → j < suc i
            → get_elem? (t ∷ ts) j ≡ some v
            → v.ip ≢ u.ip
        go ne zero v lt e = let eq : t ≡ v = cc in rw (← eq) ne
        go ne (suc j) v lt e = others j v (omega (arith, lt)) e

    from : NewBehind earlier (t ∷ ts) (suc i) → NewBehind (earlier ++ (t ∷ [])) ts i
    from (u, at_i, new, others) =
        let apart = other-same_text t.ip u.ip (others 0 t (omega arith) refl) in
        (
          u,
          at_i,
          has_ip-snoc u.ip earlier t ∙ rw (new, apart) refl,
          λ j v lt e. others (suc j) v (omega (arith, lt)) e,
        )

pub first_flags-flag :
    (ts earlier : List Target) (i : ℕ)
    → (get_elem? (first_flags earlier ts) i ≡ some true) ↔ NewBehind earlier ts i
unfolding first_flags get_elem?
first_flags-flag [] earlier i = (λ h. absurd (cc), λ (t, e, new, others). absurd (cc))
first_flags-flag (t ∷ ts) earlier zero = (
  λ h. elim (Bool-cases (has_ip t.ip earlier)) [
    | inl e ↦ let bad : some false ≡ some true = rw e at h in absurd (cc)
    | inr e ↦ (t, refl, e, λ j u lt at_j. absurd (omega (arith, lt)))
  ],
  λ (u, at_u, new, others). let eq : t ≡ u = cc in rw (eq, new) refl,
)
first_flags-flag (t ∷ ts) earlier (suc i) =
    let ih = first_flags-flag ts (earlier ++ (t ∷ [])) i in
    let step = new_later earlier ts t i in (λ h. step.0 (ih.0 h), λ n. ih.1 (step.1 n))

pub first_flags-NewAt :
    (ts : List Target) (i : ℕ) → (get_elem? (first_flags [] ts) i ≡ some true) ↔ NewAt ts i
first_flags-NewAt ts i =
    let iff = first_flags-flag ts [] i in
    (
      λ h. let (t, at_i, new, others) = iff.0 h in (t, at_i, others),
      λ (t, at_i, others). iff.1 (t, at_i, refl, others),
    )

pub length-first_flags : (earlier ts : List Target) → length (first_flags earlier ts) ≡ length ts
unfolding first_flags
length-first_flags earlier [] = refl
length-first_flags earlier (t ∷ ts) = ap suc (length-first_flags (earlier ++ (t ∷ [])) ts)
