-- ===== src/Version/Total.antt =====
-- src/match/version_compare.c: both loops end.
use mathlib.Core.Option
use cytadel_scan.Base.{
  ℕ, zero, suc, ◌<◌, Bool, Option, none, some, ◌≡◌, inl, inr, refl, arith, Bytes, length,
  Option-cases,
}
use cytadel_scan.Version.{Vercmp, flip}
use cytadel_scan.Version.Compare.{go_on, outcome, compare_loop, Outcome-cases}
use cytadel_scan.Version.Residual.{token_verdict, residual_loop, residual_verdict}
use cytadel_scan.Version.Scan.{Token, tok_none, tok_num, tok_alpha, next_token, next_token-length}

abbrev Returns : Option Vercmp → Type 0
Returns r = (v : Vercmp) × (r ≡ some v)

-- A walk that goes on has met a component.
token_verdict-go_on :
    (t : Token) (skipped : Bool) (after : Bytes)
    → token_verdict t skipped after ≡ none
    → t ≡ tok_none
    → ⊥
unfolding token_verdict
token_verdict-go_on tok_none skipped after h e = cc
token_verdict-go_on (tok_num s) skipped after h e = cc
token_verdict-go_on (tok_alpha s) skipped after h e = cc

residual_loop-total :
    (fuel : ℕ) (buf : Bytes) → length buf < fuel → Returns (residual_loop fuel buf)
unfolding residual_loop
residual_loop-total zero buf h = absurd (omega arith)
residual_loop-total (suc fuel) buf h =
    let t = next_token buf in
    elim (Option-cases (token_verdict t.token t.delim_skipped t.rest)) [
      | inr (v, e) ↦ (v, rw (e, residual_loop) refl)
      | inl e ↦
          let (v, ih) = residual_loop-total fuel t.rest (elim (next_token-length buf) [
            | inl ended ↦ absurd (token_verdict-go_on t.token t.delim_skipped t.rest e ended)
            | inr shorter ↦ omega arith
          ]) in
          (v, rw (e, residual_loop) ih)
    ]

-- The walk over a residual ends with a verdict for every input.
pub residual_verdict-total : (buf : Bytes) → (v : Vercmp) × (residual_verdict buf ≡ some v)
unfolding residual_verdict
residual_verdict-total buf = residual_loop-total (suc (length buf)) buf (omega arith)

pub outcome-go_on : (t u : Token) → outcome t u ≡ go_on → t ≡ tok_none → ⊥
unfolding outcome
outcome-go_on tok_none tok_none h e = cc
outcome-go_on tok_none (tok_num y) h e = cc
outcome-go_on tok_none (tok_alpha y) h e = cc
outcome-go_on (tok_num x) u h e = cc
outcome-go_on (tok_alpha x) u h e = cc

Option-map-Returns : {r : Option Vercmp} → Returns r → Returns (Option.map flip r)
Option-map-Returns (v, e) = (flip v, rw e refl)

-- The lockstep walk ends with a verdict, given fuel for the bytes of one side.
pub compare_loop-total :
    (fuel : ℕ) (a b : Bytes) → length a < fuel → (v : Vercmp) × (compare_loop fuel a b ≡ some v)
unfolding compare_loop
compare_loop-total zero a b h = absurd (omega arith)
compare_loop-total (suc fuel) a b h =
    let ta = next_token a in
    let tb = next_token b in
    elim (Outcome-cases (outcome ta.token tb.token)) [
      | inl (v, e) ↦ (v, rw (e, compare_loop) refl)
      | inr (inl e) ↦ let (v, r) = residual_verdict-total a in (v, rw (e, compare_loop) r)
      | inr (inr (inl e)) ↦
          let (v, r) = Option-map-Returns (residual_verdict-total b) in (v, rw (e, compare_loop) r)
      | inr (inr (inr e)) ↦
          let (v, r) = compare_loop-total fuel ta.rest tb.rest (elim (next_token-length a) [
            | inl ended ↦ absurd (outcome-go_on ta.token tb.token e ended)
            | inr shorter ↦ omega arith
          ]) in
          (v, rw (e, compare_loop) r)
    ]
