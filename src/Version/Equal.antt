-- ===== src/Version/Equal.antt =====
-- src/match/version_compare.c: a version compared with itself.
use cytadel_scan.Base.{
  ℕ, zero, suc, ◌+◌, ◌<◌, false, some, ◌≡◌, ◌⊎◌, inl, inr, refl, arith, Bytes, length,
}
use cytadel_scan.Version.{equal, text, has_disallowed_byte, strip_v_prefix}
use cytadel_scan.Version.Alpha.{alpha_cmp_ci_refl}
use cytadel_scan.Version.Compare.{
  done, go_on, outcome, alpha_outcome, compare_loop, compare_rests, compare_split, split_epoch,
  drop_build_metadata, has_no_component, version_compare,
}
use cytadel_scan.Version.Digits.{cmp_digit_runs_refl}
use cytadel_scan.Version.Scan.{Token, tok_none, tok_num, tok_alpha, next_token, next_token-length}
use cytadel_scan.Version.Total.{outcome-go_on}

pub outcome_refl : (t : Token) → (t ≡ tok_none) ⊎ (outcome t t ≡ go_on)
unfolding outcome
outcome_refl tok_none = inl refl
outcome_refl (tok_num x) = inr (ground (arith, cmp_digit_runs_refl x))
outcome_refl (tok_alpha x) = inr (unfold alpha_outcome in ground (arith, alpha_cmp_ci_refl x))

ended-equal : (t : Token) → t ≡ tok_none → outcome t t ≡ done equal
unfolding outcome
ended-equal t e = rw e refl

compare_loop_refl : (fuel : ℕ) (a : Bytes) → length a < fuel → compare_loop fuel a a ≡ some equal
unfolding compare_loop
compare_loop_refl zero a h = absurd (omega arith)
compare_loop_refl (suc fuel) a h =
    let t = next_token a in
    elim (outcome_refl t.token) [
      | inl e ↦ rw (ended-equal t.token e, compare_loop) refl
      | inr e ↦
          rw (e, compare_loop)
            (compare_loop_refl fuel t.rest (elim (next_token-length a) [
              | inl ended ↦ absurd (outcome-go_on t.token t.token e ended)
              | inr shorter ↦ omega arith
            ]))
    ]

-- The part of a version that is tokenized: no `v`, no epoch, no build metadata.
abbrev pub comparable_part : Bytes → Bytes
comparable_part s = drop_build_metadata (split_epoch (strip_v_prefix s)).rest

-- A version of printable ASCII that has a component is equal to itself.
pub version_compare_refl :
    (s : Bytes)
    → has_disallowed_byte s ≡ false
    → has_no_component (comparable_part s) ≡ false
    → version_compare (text s) (text s) ≡ equal
unfolding version_compare compare_split
version_compare_refl s clean full =
    let p = comparable_part s in
    rw (clean, full, cmp_digit_runs_refl (split_epoch (strip_v_prefix s)).epoch)
      (unfold compare_rests in
        rw (compare_loop_refl (suc (length p + length p)) p (omega arith)) refl)
