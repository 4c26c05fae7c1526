-- ===== src/Plugin/Register/Wildcard.antt =====
-- src/plugin/register.c: the wildcard that registration finds among the keys.
use cytadel_scan.Base.Slots.{get_elem?}
use cytadel_scan.Base.{
  ℕ, zero, suc, ◌+◌, ◌≡◌, ◌≢◌, refl, ap, arith, Option, none, some, List, [], ◌∷◌, Bytes, length,
  ◌==◌, Bool-cases, inl, inr, ◌⊎◌,
}
use cytadel_scan.Plugin.Register.{
  Pattern, exact, malformed, wildcard, match_service_wildcard, validate_keys_loop,
  validate_required_keys,
}

Pattern-cases :
    (p : Pattern) → (p ≡ exact) ⊎ ((p ≡ malformed) ⊎ ((svc : Bytes) × (p ≡ wildcard svc)))
Pattern-cases exact = inl refl
Pattern-cases malformed = inr (inl refl)
Pattern-cases (wildcard svc) = inr (inr (svc, refl))

-- The key at the index `i` is the pattern for a service, and every other key is exact.
abbrev pub IsOnly : List Bytes → ℕ → Bytes → Bytes → Type 0
IsOnly keys i key svc =
    (get_elem? keys i ≡ some key)
    × (match_service_wildcard key ≡ wildcard svc)
    × ((j : ℕ) (other : Bytes)
        → j ≢ i
        → get_elem? keys j ≡ some other
        → match_service_wildcard other ≡ exact)

abbrev AllExact : List Bytes → Type 0
AllExact keys =
    (j : ℕ) (key : Bytes) → get_elem? keys j ≡ some key → match_service_wildcard key ≡ exact

-- What is left of an accepted loop at a key.
validate_keys_loop-step :
    (i : ℕ) (found w : Option ℕ) (key : Bytes) (keys : List Bytes)
    → validate_keys_loop i found (key ∷ keys) ≡ some w
    → ((match_service_wildcard key ≡ exact) × (validate_keys_loop (i + 1) found keys ≡ some w))
      ⊎ ((svc : Bytes) × (match_service_wildcard key ≡ wildcard svc)
          × (found ≡ none)
          × (validate_keys_loop (i + 1) (some i) keys ≡ some w))
unfolding validate_keys_loop
validate_keys_loop-step i found w key keys h = elim (Bool-cases (length key == 0)) [
  | inl e ↦ let bad : none ≡ some w = rw e at h in absurd (cc)
  | inr e ↦ elim (Pattern-cases (match_service_wildcard key)) [
    | inl x ↦ inl (x, rw (e, x, validate_keys_loop) at h)
    | inr (inl x) ↦ let bad : none ≡ some w = rw (e, x, validate_keys_loop) at h in absurd (cc)
    | inr (inr (svc, x)) ↦
        let (none_yet, rest) = first_one found (rw (e, x, validate_keys_loop) at h) in
        inr (svc, x, none_yet, rest)
  ]
]
  where
    first_one :
        (f : Option ℕ)
        → (elim f [ some w' ↦ none | none ↦ validate_keys_loop (i + 1) (some i) keys ]) ≡ some w
        → (f ≡ none) × (validate_keys_loop (i + 1) (some i) keys ≡ some w)
    first_one none h = (refl, h)
    first_one (some w') h = absurd (cc)

all_exact :
    (i x : ℕ) (w : Option ℕ) (keys : List Bytes)
    → validate_keys_loop i (some x) keys ≡ some w
    → (w ≡ some x) × AllExact keys
unfolding validate_keys_loop get_elem?
all_exact i x w [] h = (cc, λ j key e. absurd (cc))
all_exact i x w (k ∷ keys) h = elim (validate_keys_loop-step i (some x) w k keys h) [
  | inr (svc, e, bad, rest) ↦ absurd (cc)
  | inl (e, rest) ↦ let (same, ih) = all_exact (i + 1) x w keys rest in (same, go e ih)
]
  where
    go : match_service_wildcard k ≡ exact → AllExact keys → AllExact (k ∷ keys)
    go e ih zero key h = let same : k ≡ key = cc in rw (← same) e
    go e ih (suc j) key h = ih j key h

only :
    (i n : ℕ) (keys : List Bytes)
    → validate_keys_loop i none keys ≡ some (some n)
    → (j : ℕ) × (n ≡ i + j) × (key : Bytes) × (svc : Bytes) × IsOnly keys j key svc
unfolding validate_keys_loop get_elem?
only i n [] h = absurd (cc)
only i n (k ∷ keys) h = elim (validate_keys_loop-step i none (some n) k keys h) [
  | inr (svc, e, none_yet, rest) ↦
      let (same, others) = all_exact (i + 1) i (some n) keys rest in
      let at_i : n ≡ i = cc in (0, omega (arith, at_i), k, svc, (refl, e, here others))
  | inl (e, rest) ↦
      let (j, at_j, key, svc, (there, is_svc, others)) = only (i + 1) n keys rest in
      (suc j, omega (arith, at_j), key, svc, (there, is_svc, later j e others))
]
  where
    here :
        AllExact keys
        → (j : ℕ) (other : Bytes) → j ≢ 0
        → get_elem? (k ∷ keys) j ≡ some other
        → match_service_wildcard other ≡ exact
    here others zero other ne h = absurd (ne refl)
    here others (suc j) other ne h = others j other h

    later :
        (i : ℕ)
        → match_service_wildcard k ≡ exact
        → ((j : ℕ) (other : Bytes)
            → j ≢ i
            → get_elem? keys j ≡ some other
            → match_service_wildcard other ≡ exact)
        → (j : ℕ) (other : Bytes) → j ≢ suc i
        → get_elem? (k ∷ keys) j ≡ some other
        → match_service_wildcard other ≡ exact
    later i e others zero other ne h = let same : k ≡ other = cc in rw (← same) e
    later i e others (suc j) other ne h = others j other (λ eq. ne (ap suc eq)) h

-- When registration accepts the keys with a wildcard index, that key is a wildcard and every other
-- key is exact.
pub validate_required_keys-IsOnly :
    (keys : List Bytes) (i : ℕ)
    → validate_required_keys keys ≡ some (some i)
    → (key : Bytes) × (svc : Bytes) × IsOnly keys i key svc
unfolding validate_required_keys
validate_required_keys-IsOnly keys i h =
    let (j, at_j, key, svc, found) = only 0 i keys h in
    let same : j ≡ i = omega (arith, at_j) in (key, svc, rw same at found)
