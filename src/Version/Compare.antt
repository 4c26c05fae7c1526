-- ===== src/Version/Compare.antt =====
-- src/match/version_compare.c: the lockstep walk over both versions, and the entry point.
use Prim.Native.Nat.{Ordering}
use mathlib.Core.Option
use cytadel_scan.Base.{
  ℕ, zero, suc, ◌+◌, Bool, true, false, not, ◌&&◌, ◌||◌, Option, none, some, ◌≡◌, refl, ◌⊎◌, inl,
  inr, [], ◌∷◌, Bytes, codes, ltb, ◌==◌, if◌then◌else◌, length,
}
use cytadel_scan.Version.{
  Vercmp, less, equal, greater, undecidable, flip, Buffer, null, text, is_digit_byte,
  strip_v_prefix, has_disallowed_byte,
}
use cytadel_scan.Version.Alpha.{alpha_cmp_ci, alpha_keyword_rank}
use cytadel_scan.Version.Digits.{cmp_digit_runs}
use cytadel_scan.Version.Residual.{residual_verdict}
use cytadel_scan.Version.Scan.{
  Token, tok_none, tok_num, tok_alpha, next_token, skip_while, take_while,
}

pub record Split : Type 0 where
  pub epoch : Bytes
  pub rest : Bytes

-- The digits `d` in front of a colon are the epoch; `after` is what follows the digits of `s`.
unfoldable pub split_at_colon : Bytes → Bytes → Bytes → Split
split_at_colon s d [] = record { epoch = codes "0"; rest = s }
split_at_colon s d (c ∷ after) =
    if not (length d == 0) && c == b':'
    then record { epoch = d; rest = after }
    else record { epoch = codes "0"; rest = s }

unfoldable pub split_epoch : Bytes → Split
split_epoch s = split_at_colon s (take_while is_digit_byte s) (skip_while is_digit_byte s)

-- `memchr(rest, '+', rest_len)` and the cut in front of what it finds.
unfoldable pub drop_build_metadata : Bytes → Bytes
drop_build_metadata s = take_while (λ c. not (c == b'+')) s

-- What the loop does at a shared position: stop with a verdict, walk one side's residual, go on.
pub data Outcome : Type 0 where
  done : Vercmp → Outcome
  residual_of_a residual_of_b go_on : Outcome

pub Outcome-cases :
    (o : Outcome)
    → ((v : Vercmp) × (o ≡ done v)) ⊎ (o ≡ residual_of_a) ⊎ (o ≡ residual_of_b) ⊎ (o ≡ go_on)
Outcome-cases (done v) = inl (v, refl)
Outcome-cases residual_of_a = inr (inl refl)
Outcome-cases residual_of_b = inr (inr (inl refl))
Outcome-cases go_on = inr (inr (inr refl))

-- `equal` goes on to the next component.
abbrev pub unless_equal : Vercmp → Outcome
unless_equal equal = go_on
unless_equal v = done v

abbrev pub vercmp_of : Ordering → Vercmp
vercmp_of Ordering.lt = less
vercmp_of Ordering.gt = greater
vercmp_of Ordering.eq = equal

-- Two alphabetic components at one position, with their keyword ranks.
unfoldable pub alpha_outcome : ℕ → ℕ → Ordering → Outcome
alpha_outcome rank_a rank_b lexical =
    if not (rank_a == rank_b)
    then (if rank_a == 2 || rank_b == 2
        then done undecidable
        else if ltb rank_b rank_a
        then done greater
        else done less)
    else if rank_a == 1
    then go_on
    else unless_equal (vercmp_of lexical)

unfoldable pub outcome : Token → Token → Outcome
outcome tok_none tok_none = done equal
outcome tok_none (tok_num y) = residual_of_b
outcome tok_none (tok_alpha y) = residual_of_b
outcome (tok_num x) tok_none = residual_of_a
outcome (tok_alpha x) tok_none = residual_of_a
outcome (tok_num x) (tok_alpha y) = done undecidable
outcome (tok_alpha x) (tok_num y) = done undecidable
outcome (tok_num x) (tok_num y) = unless_equal (cmp_digit_runs x y)
outcome (tok_alpha x) (tok_alpha y) =
    alpha_outcome (alpha_keyword_rank x) (alpha_keyword_rank y) (alpha_cmp_ci x y)

-- The `for (;;)` loop; `none` means that the fuel ran out.
unfoldable pub compare_loop : ℕ → Bytes → Bytes → Option Vercmp
compare_loop zero a b = none
compare_loop (suc fuel) a b =
    let ta = next_token a in
    let tb = next_token b in
    elim (outcome ta.token tb.token) [
      | done v ↦ some v
      | residual_of_a ↦ residual_verdict a
      | residual_of_b ↦ Option.map flip (residual_verdict b)
      | go_on ↦ compare_loop fuel ta.rest tb.rest
    ]

-- The verdict of the loop; `none` is fuel that ran out.
abbrev pub settle : Option Vercmp → Vercmp
settle (some v) = v
settle none = undecidable

abbrev pub is_none_token : Token → Bool
is_none_token tok_none = true
is_none_token _ = false

-- No component at all: the first token of a rest is the end.
unfoldable pub has_no_component : Bytes → Bool
has_no_component rest = is_none_token (next_token rest).token

-- The epochs decide unless they are equal.
unfoldable pub compare_rests : Vercmp → Bytes → Bytes → Vercmp
compare_rests equal a b = settle (compare_loop (suc (length a + length b)) a b)
compare_rests v a b = v

unfoldable pub compare_split : Split → Split → Vercmp
compare_split sa sb =
    let ra = drop_build_metadata sa.rest in
    let rb = drop_build_metadata sb.rest in
    if has_no_component ra || has_no_component rb
    then undecidable
    else compare_rests (cmp_digit_runs sa.epoch sb.epoch) ra rb

-- A null pointer with a length.
abbrev pub is_misused : Buffer → Bool
is_misused (null len) = ltb 0 len
is_misused (text s) = false

abbrev pub bytes_of : Buffer → Bytes
bytes_of (null len) = []
bytes_of (text s) = s

unfoldable pub version_compare : Buffer → Buffer → Vercmp
version_compare a b =
    if is_misused a || is_misused b
    then undecidable
    else if has_disallowed_byte (bytes_of a) || has_disallowed_byte (bytes_of b)
    then undecidable
    else compare_split (split_epoch (strip_v_prefix (bytes_of a)))
        (split_epoch (strip_v_prefix (bytes_of b)))
