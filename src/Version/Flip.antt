-- ===== src/Version/Flip.antt =====
-- src/match/version_compare.c: swapping the versions swaps the answer.
use Prim.Native.Nat.{Ordering}
use mathlib.Core.Option
use cytadel_scan.Base.{
  ℕ, zero, suc, ◌+◌, Option, none, some, ◌≡◌, inl, inr, refl, sym, ap, arith, Bytes, length,
}
use cytadel_scan.Version.{Vercmp, less, equal, greater, undecidable, flip, Buffer, strip_v_prefix}
use cytadel_scan.Version.Alpha.{alpha_cmp_ci, flip_ordering, alpha_cmp_ci-flip}
use cytadel_scan.Version.Compare.{
  Outcome, done, residual_of_a, residual_of_b, go_on, Outcome-cases, outcome, alpha_outcome,
  compare_loop, compare_rests, compare_split, Split, split_epoch, drop_build_metadata,
  version_compare, settle, bytes_of,
}
use cytadel_scan.Version.Digits.{cmp_digit_runs, cmp_digit_runs-flip}
use cytadel_scan.Version.Residual.{residual_verdict}
use cytadel_scan.Version.Scan.{Token, tok_none, tok_num, tok_alpha, next_token}

abbrev flip_outcome : Outcome → Outcome
flip_outcome (done v) = done (flip v)
flip_outcome residual_of_a = residual_of_b
flip_outcome residual_of_b = residual_of_a
flip_outcome go_on = go_on

alpha_outcome-flip :
    (m n : ℕ) (o : Ordering)
    → alpha_outcome n m (flip_ordering o) ≡ flip_outcome (alpha_outcome m n o)
unfolding alpha_outcome
alpha_outcome-flip m n Ordering.lt = ground arith
alpha_outcome-flip m n Ordering.eq = ground arith
alpha_outcome-flip m n Ordering.gt = ground arith

outcome-flip : (t u : Token) → outcome u t ≡ flip_outcome (outcome t u)
unfolding outcome
outcome-flip tok_none tok_none = refl
outcome-flip tok_none (tok_num y) = refl
outcome-flip tok_none (tok_alpha y) = refl
outcome-flip (tok_num x) tok_none = refl
outcome-flip (tok_num x) (tok_alpha y) = refl
outcome-flip (tok_num x) (tok_num y) = ground (arith, cmp_digit_runs-flip x y)
outcome-flip (tok_alpha x) tok_none = refl
outcome-flip (tok_alpha x) (tok_num y) = refl
outcome-flip (tok_alpha x) (tok_alpha y) =
    rw (alpha_cmp_ci-flip x y) (alpha_outcome-flip _ _ (alpha_cmp_ci x y))

flip-flip : (v : Vercmp) → flip (flip v) ≡ v
flip-flip less = refl
flip-flip _ = refl

map-flip-flip : (r : Option Vercmp) → Option.map flip (Option.map flip r) ≡ r
map-flip-flip none = refl
map-flip-flip (some v) = ap some (flip-flip v)

compare_loop-flip :
    (fuel : ℕ) (a b : Bytes) → compare_loop fuel b a ≡ Option.map flip (compare_loop fuel a b)
unfolding compare_loop
compare_loop-flip zero a b = refl
compare_loop-flip (suc fuel) a b =
    let ta = next_token a in
    let tb = next_token b in
    let f = outcome-flip ta.token tb.token in
    elim (Outcome-cases (outcome ta.token tb.token)) [
      | inl (v, e) ↦ rw (f, e, compare_loop) refl
      | inr (inl e) ↦ rw (f, e, compare_loop) refl
      | inr (inr (inl e)) ↦ rw (f, e, compare_loop) (sym (map-flip-flip (residual_verdict b)))
      | inr (inr (inr e)) ↦ rw (f, e, compare_loop) (compare_loop-flip fuel ta.rest tb.rest)
    ]

settle-flip : (r : Option Vercmp) → settle (Option.map flip r) ≡ flip (settle r)
settle-flip none = refl
settle-flip (some v) = refl

compare_rests-flip :
    (v : Vercmp) (a b : Bytes) → compare_rests (flip v) b a ≡ flip (compare_rests v a b)
unfolding compare_rests
compare_rests-flip less a b = refl
compare_rests-flip greater a b = refl
compare_rests-flip undecidable a b = refl
compare_rests-flip equal a b =
    let e : length b + length a ≡ length a + length b = omega arith in
    rw (e, compare_loop-flip (suc (length a + length b)) a b) (settle-flip _)

compare_split-flip : (s t : Split) → compare_split t s ≡ flip (compare_split s t)
unfolding compare_split
compare_split-flip s t = ground (
  arith,
  cmp_digit_runs-flip s.epoch t.epoch,
  compare_rests-flip (cmp_digit_runs s.epoch t.epoch) (drop_build_metadata s.rest)
      (drop_build_metadata t.rest),
)

-- Comparing in the other order swaps `less` and `greater`, and keeps `equal` and `undecidable`.
pub version_compare-flip : (a b : Buffer) → version_compare b a ≡ flip (version_compare a b)
unfolding version_compare
version_compare-flip a b = ground (
  arith,
  compare_split-flip (split_epoch (strip_v_prefix (bytes_of a)))
      (split_epoch (strip_v_prefix (bytes_of b))),
)
