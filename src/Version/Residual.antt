-- ===== src/Version/Residual.antt =====
-- src/match/version_compare.c: the walk over what one side has beyond the end of the other.
use cytadel_scan.Base.{
  ℕ, zero, suc, Bool, true, false, not, ◌&&◌, Option, none, some, [], ◌∷◌, Bytes, ◌==◌,
  if◌then◌else◌, length,
}
use cytadel_scan.Version.{Vercmp, less, equal, greater, undecidable, is_digit_byte, to_lower_ascii}
use cytadel_scan.Version.Alpha.{is_prerelease_keyword, is_release_equivalent_keyword}
use cytadel_scan.Version.Scan.{Token, tok_none, tok_num, tok_alpha, next_token}

unfoldable pub is_all_zero_digits : Bytes → Bool
is_all_zero_digits [] = true
is_all_zero_digits (c ∷ s) = if not (c == b'0') then false else is_all_zero_digits s

abbrev starts_with_digit : Bytes → Bool
unfolding is_digit_byte
starts_with_digit [] = false
starts_with_digit (c ∷ s) = is_digit_byte c

-- `a`, `b` or `c` alone, with a digit right behind it.
unfoldable pub is_ambiguous_attached_letter : Bytes → Bytes → Bool
unfolding to_lower_ascii is_digit_byte starts_with_digit
is_ambiguous_attached_letter (x ∷ []) after =
    let c = to_lower_ascii x in
    if not (c == b'a') && not (c == b'b') && not (c == b'c') then false else starts_with_digit after
is_ambiguous_attached_letter _ after = false

-- What an alphabetic component says; `none` goes on with the walk.
unfoldable pub alpha_verdict : Bytes → Bool → Bytes → Option Vercmp
alpha_verdict s delim_skipped after =
    if is_prerelease_keyword s
    then some less
    else if is_release_equivalent_keyword s
    then none
    else if not delim_skipped
    then (if is_ambiguous_attached_letter s after then some undecidable else some greater)
    else some undecidable

unfoldable pub token_verdict : Token → Bool → Bytes → Option Vercmp
token_verdict tok_none delim_skipped after = some equal
token_verdict (tok_num s) delim_skipped after =
    if not (is_all_zero_digits s) then some greater else none
token_verdict (tok_alpha s) delim_skipped after = alpha_verdict s delim_skipped after

-- The `for (;;)` loop; `none` means that the fuel ran out.
unfoldable pub residual_loop : ℕ → Bytes → Option Vercmp
residual_loop zero buf = none
residual_loop (suc fuel) buf =
    let t = next_token buf in
    elim (token_verdict t.token t.delim_skipped t.rest) [
      | some v ↦ some v
      | none ↦ residual_loop fuel t.rest
    ]

-- The rounds that the loop may need: each takes a byte at least.
unfoldable pub residual_verdict : Bytes → Option Vercmp
residual_verdict buf = residual_loop (suc (length buf)) buf
