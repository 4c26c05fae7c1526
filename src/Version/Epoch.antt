-- ===== src/Version/Epoch.antt =====
-- src/match/version_compare.c: the role of the epoch.
use cytadel_scan.Base.{
  ℕ, ◌<◌, false, ◌≡◌, ◌≢◌, ◌⊎◌, inl, inr, refl, sym, ◌∙◌, ap, arith, [], ◌∷◌, ◌++◌, Bytes, length,
  ◌==◌, All, Bool-cases, not, ◌&&◌, ◌||◌,
}
use cytadel_scan.Version.{text, has_disallowed_byte, strip_v_prefix, is_digit_byte}
use cytadel_scan.Version.Compare.{
  compare_rests, compare_split, split_at_colon, split_epoch, has_no_component, version_compare,
}
use cytadel_scan.Version.Digits.{cmp_digit_runs-value, IsDigit, value, compare_values}
use cytadel_scan.Version.Equal.{comparable_part}
use cytadel_scan.Version.Scan.{take_while, skip_while, take-append-skip}

-- The prefix that a version may have.
abbrev pub IsPrefix : Bytes → Type 0
IsPrefix p = (p ≡ []) ⊎ (p ≡ b'v' ∷ []) ⊎ (p ≡ b'V' ∷ [])

-- A prefix, digits and a colon in front of the rest.
abbrev pub Writes : Bytes → Bytes → Type 0
Writes s d =
    (p : Bytes) × (r : Bytes) × IsPrefix p
    × (0 < length d)
    × All IsDigit d
    × (s ≡ p ++ (d ++ b':' ∷ r))

-- The epoch of a version: the number in front of the colon, of any number of digits, or 0 where
-- none is written.
abbrev pub HasEpoch : Bytes → ℕ → Type 0
HasEpoch s n =
    ((d : Bytes) × Writes s d × (n ≡ value 0 d)) ⊎ (((d : Bytes) → ¬ Writes s d) × (n ≡ 0))

take_while-All : (s : Bytes) → All IsDigit (take_while is_digit_byte s)
unfolding take_while
take_while-All [] = tt
take_while-All (c ∷ s) = ground (arith, take_while-All s)

split_at_colon-All : (s d r : Bytes) → All IsDigit d → All IsDigit (split_at_colon s d r).epoch
unfolding split_at_colon
split_at_colon-All s d [] h = (unfold is_digit_byte in refl, tt)
split_at_colon-All s d (c ∷ r) h = elim (Bool-cases (not (length d == 0) && c == b':')) [
  | inl e ↦ rw e h
  | inr e ↦ rw e (unfold is_digit_byte in refl, tt)
]

-- The epoch is a run of digits.
split_epoch-All : (s : Bytes) → All IsDigit (split_epoch s).epoch
unfolding split_epoch
split_epoch-All s = split_at_colon-All s _ (skip_while is_digit_byte s) (take_while-All s)

-- The epoch of a version, as a number; 0 where none is written.
abbrev epoch_value : Bytes → ℕ
epoch_value s = value 0 (split_epoch (strip_v_prefix s)).epoch

strip_v_prefix-form : (s : Bytes) → (p : Bytes) × IsPrefix p × (s ≡ p ++ strip_v_prefix s)
unfolding strip_v_prefix
strip_v_prefix-form [] = ([], inl refl, refl)
strip_v_prefix-form (c ∷ []) = ([], inl refl, refl)
strip_v_prefix-form (c ∷ d ∷ s) = elim (Bool-cases ((c == b'v' || c == b'V') && is_digit_byte d)) [
  | inr e ↦ ([], inl refl, rw e refl)
  | inl e ↦ (c ∷ [], ground arith, rw e refl)
]

strip_v_prefix-digit : (c : ℕ) (s : Bytes) → IsDigit c → strip_v_prefix (c ∷ s) ≡ c ∷ s
unfolding strip_v_prefix is_digit_byte
strip_v_prefix-digit c [] h = refl
strip_v_prefix-digit c (d ∷ s) h = ground arith

strip_v_prefix-prefix :
    (p : Bytes) (c : ℕ) (s : Bytes) → IsPrefix p → IsDigit c → strip_v_prefix (p ++ c ∷ s) ≡ c ∷ s
strip_v_prefix-prefix p c s (inl e) h = rw e (strip_v_prefix-digit c s h)
strip_v_prefix-prefix p c s (inr (inl e)) h = rw e (unfold strip_v_prefix in rw h refl)
strip_v_prefix-prefix p c s (inr (inr e)) h = rw e (unfold strip_v_prefix in rw h refl)

colon_no_digit : is_digit_byte b':' ≡ false
unfolding is_digit_byte
colon_no_digit = refl

take_while-run : (d r : Bytes) → All IsDigit d → take_while is_digit_byte (d ++ b':' ∷ r) ≡ d
unfolding take_while
take_while-run [] r h = rw colon_no_digit refl
take_while-run (c ∷ d) r h = rw (h.0, take_while-run d r h.1) refl

skip_while-run : (d r : Bytes) → All IsDigit d → skip_while is_digit_byte (d ++ b':' ∷ r) ≡ b':' ∷ r
unfolding skip_while
skip_while-run [] r h = rw colon_no_digit refl
skip_while-run (c ∷ d) r h = rw (h.0, skip_while-run d r h.1) refl

epoch-written : (s d : Bytes) → Writes s d → (split_epoch (strip_v_prefix s)).epoch ≡ d
unfolding split_epoch split_at_colon
epoch-written s [] (p, r, v, some_digit, digits, e) = absurd (omega arith)
epoch-written s (c ∷ d) (p, r, v, some_digit, digits, e) =
    let not_empty : (length (c ∷ d) == 0) ≡ false = ground arith in
    rw
      (
        e,
        strip_v_prefix-prefix p c (d ++ b':' ∷ r) v digits.0,
        take_while-run (c ∷ d) r digits,
        skip_while-run (c ∷ d) r digits,
        not_empty,
      )
      refl

split_at_colon-unwritten :
    (x d after : Bytes)
    → ((r : Bytes) → 0 < length d → after ≢ b':' ∷ r)
    → value 0 (split_at_colon x d after).epoch ≡ 0
unfolding split_at_colon
split_at_colon-unwritten x d [] h = refl
split_at_colon-unwritten x d (c ∷ after) h = elim (Bool-cases (not (length d == 0) && c == b':')) [
  | inl e ↦ let colon : c ≡ b':' = ground arith in absurd (h after (ground arith) (rw colon refl))
  | inr e ↦ rw e refl
]

epoch-unwritten : (s : Bytes) → ((d : Bytes) → ¬ Writes s d) → epoch_value s ≡ 0
epoch-unwritten s h =
    let x = strip_v_prefix s in
    let d = take_while is_digit_byte x in
    let (p, v, form) = strip_v_prefix-form s in
    unfold split_epoch in
    split_at_colon-unwritten x d (skip_while is_digit_byte x) (λ r some_digit e.
      let whole : d ++ b':' ∷ r ≡ x =
        ap (λ (y : Bytes). d ++ y) (sym e) ∙ take-append-skip is_digit_byte x in
      h d (p, r, v, some_digit, take_while-All x, form ∙ ap (λ (y : Bytes). p ++ y) (sym whole)))

HasEpoch-epoch_value : (s : Bytes) (n : ℕ) → HasEpoch s n → epoch_value s ≡ n
HasEpoch-epoch_value s n (inl (d, w, e)) = rw (epoch-written s d w) (sym e)
HasEpoch-epoch_value s n (inr (none_written, e)) = epoch-unwritten s none_written ∙ sym e

epoch_value-decides :
    (s t : Bytes)
    → has_disallowed_byte s ≡ false
    → has_disallowed_byte t ≡ false
    → has_no_component (comparable_part s) ≡ false
    → has_no_component (comparable_part t) ≡ false
    → epoch_value s ≢ epoch_value t
    → version_compare (text s) (text t) ≡ compare_values (epoch_value s) (epoch_value t)
unfolding version_compare compare_split compare_rests
epoch_value-decides s t cs ct fs ft h =
    let es = (split_epoch (strip_v_prefix s)).epoch in
    let et = (split_epoch (strip_v_prefix t)).epoch in
    ground (
      arith,
      cmp_digit_runs-value es et (split_epoch-All (strip_v_prefix s))
          (split_epoch-All (strip_v_prefix t)),
    )

-- Of two printable versions with components and different epochs, the one with the larger epoch is
-- the greater, whatever stands behind the epochs. The epoch is the number of any length that stands,
-- behind an optional `v` or `V`, in front of a colon, and 0 where no such number is written.
pub version_compare-epoch :
    (s t : Bytes) (m n : ℕ)
    → HasEpoch s m
    → HasEpoch t n
    → has_disallowed_byte s ≡ false
    → has_disallowed_byte t ≡ false
    → has_no_component (comparable_part s) ≡ false
    → has_no_component (comparable_part t) ≡ false
    → m ≢ n
    → version_compare (text s) (text t) ≡ compare_values m n
version_compare-epoch s t m n hs ht cs ct fs ft h =
    let es = HasEpoch-epoch_value s m hs in
    let et = HasEpoch-epoch_value t n ht in
    epoch_value-decides s t cs ct fs ft (λ e. h (sym es ∙ e ∙ et)) ∙ rw (es, et) refl
