-- ===== src/Version/Tests.antt =====
-- src/match/version_compare.c: runs of the comparator, and the theorems at concrete versions.
use cytadel_scan.Base.{
  [], ◌==◌, ◌||◌, ◌∙◌, sym, Bool, true, false, inl, inr, ◌≡◌, refl, arith, ◌∷◌, ◌++◌, Bytes, codes,
  some,
}
use cytadel_scan.Version.{
  Vercmp, less, equal, greater, undecidable, flip, null, text, is_digit_byte, is_delim_byte,
  to_lower_ascii, strip_v_prefix, has_disallowed_byte,
}
use cytadel_scan.Version.Alpha.{
  alpha_cmp_ci, in_table, is_prerelease_keyword, is_release_equivalent_keyword, alpha_keyword_rank,
}
use cytadel_scan.Version.Compare.{
  split_at_colon, split_epoch, drop_build_metadata, alpha_outcome, outcome, compare_loop,
  has_no_component, compare_rests, compare_split, version_compare, settle,
}
use cytadel_scan.Version.Digits.{
  memcmp, cmp_digit_runs, cmp_digit_runs-value, value, compare_values,
}
use cytadel_scan.Version.Equal.{version_compare_refl}
use cytadel_scan.Version.Epoch.{version_compare-epoch, Writes, HasEpoch}
use cytadel_scan.Version.Flip.{version_compare-flip}
use cytadel_scan.Version.Metadata.{version_compare-metadata}
use cytadel_scan.Version.Prerelease.{version_compare-suffix, version_compare-prerelease}
use cytadel_scan.Version.Residual.{
  is_all_zero_digits, is_ambiguous_attached_letter, alpha_verdict, token_verdict, residual_loop,
  residual_verdict,
}
use cytadel_scan.Version.Scan.{skip_while, take_while, is_alpha_byte, token_at, next_token}
use cytadel_scan.Version.Total.{compare_loop-total}

-- Opens the whole comparator, for tests that run it.
unfoldable pub comparator : Unit {0}
unfolding is_digit_byte is_delim_byte to_lower_ascii strip_v_prefix has_disallowed_byte alpha_cmp_ci
    in_table is_prerelease_keyword is_release_equivalent_keyword alpha_keyword_rank split_at_colon
    split_epoch drop_build_metadata alpha_outcome outcome compare_loop has_no_component
    compare_rests compare_split version_compare memcmp cmp_digit_runs is_all_zero_digits
    is_ambiguous_attached_letter alpha_verdict token_verdict residual_loop residual_verdict
    skip_while take_while is_alpha_byte token_at next_token
comparator = tt

abbrev compare_texts : Bytes → Bytes → Vercmp
compare_texts a b = version_compare (text a) (text b)

orders :
    (compare_texts (codes "1.2.3") (codes "1.10") ≡ less)
    × (compare_texts (codes "v2.1.0") (codes "2.1") ≡ equal)
    × (compare_texts (codes "1:1.0") (codes "9.9") ≡ greater)
    × (compare_texts (codes "3.11.0rc1") (codes "3.11.0") ≡ less)
    × (compare_texts (codes "1.0.2k") (codes "1.0.2") ≡ greater)
    × (compare_texts (codes "3.9.0a1") (codes "3.9.0") ≡ undecidable)
    × (compare_texts (codes "1.0-ga") (codes "1.0") ≡ equal)
    × (compare_texts (codes "1.0-ga") (codes "1.0-rc1") ≡ greater)
    × (compare_texts (codes "1.0+b1") (codes "1.0") ≡ equal)
    × (compare_texts (codes "1:") (codes "2:") ≡ undecidable)
    × (compare_texts (codes "1.x") (codes "1.2") ≡ undecidable)
unfolding comparator
orders = (refl, refl, refl, refl, refl, refl, refl, refl, refl, refl, refl)

null_pointers :
    (version_compare (null 3) (text (codes "1")) ≡ undecidable)
    × (version_compare (null 0) (text (codes "1")) ≡ undecidable)
unfolding comparator
null_pointers = (refl, refl)

version_compare-flip_example :
    version_compare (text (codes "1.10")) (text (codes "1.2"))
    ≡ flip (version_compare (text (codes "1.2")) (text (codes "1.10")))
version_compare-flip_example = version_compare-flip (text (codes "1.2")) (text (codes "1.10"))

compare_loop-total_example : (v : Vercmp) × (compare_loop 4 (codes "1.2") (codes "1.2.0") ≡ some v)
compare_loop-total_example = compare_loop-total 4 (codes "1.2") (codes "1.2.0") (omega arith)

version_compare_refl_example :
    version_compare (text (codes "2:1.0-rc1")) (text (codes "2:1.0-rc1")) ≡ equal
unfolding comparator
version_compare_refl_example = version_compare_refl (codes "2:1.0-rc1") refl refl

cmp_digit_runs-value_example :
    cmp_digit_runs (codes "0070") (codes "8")
    ≡ compare_values (value 0 (codes "0070")) (value 0 (codes "8"))
unfolding is_digit_byte
cmp_digit_runs-value_example =
    cmp_digit_runs-value (codes "0070") (codes "8") (refl, (refl, (refl, (refl, tt)))) (refl, tt)

abbrev has_colon : Bytes → Bool
has_colon [] = false
has_colon (c ∷ s) = c == b':' || has_colon s

has_colon-append : (a x : Bytes) → has_colon x ≡ true → has_colon (a ++ x) ≡ true
has_colon-append [] x h = h
has_colon-append (c ∷ a) x h = ground (arith, has_colon-append a x h)

no_colon : (s : Bytes) → has_colon s ≡ false → (d : Bytes) → ¬ Writes s d
no_colon s h d (p, r, v, some_digit, digits, e) =
    let found : has_colon s ≡ true =
      rw e (has_colon-append p (d ++ b':' ∷ r) (has_colon-append d (b':' ∷ r) refl)) in
    let bad : true ≡ false = sym found ∙ h in cc

epochs : HasEpoch (codes "v10:1.0") 10 × HasEpoch (codes "9.9") 0
unfolding comparator
epochs = (
  inl (
    codes "10",
    (codes "v", codes "1.0", inr (inl refl), omega arith, (refl, (refl, tt)), refl),
    refl,
  ),
  inr (no_colon (codes "9.9") refl, refl),
)

version_compare-epoch_example :
    version_compare (text (codes "v10:1.0")) (text (codes "9.9")) ≡ compare_values 10 0
unfolding comparator
version_compare-epoch_example =
    version_compare-epoch (codes "v10:1.0") (codes "9.9") 10 0 (epochs.0) (epochs.1) refl refl refl
      refl (omega arith)

version_compare-metadata_example :
    version_compare (text (codes "1.0" ++ b'+' ∷ codes "b7")) (text (codes "1"))
    ≡ version_compare (text (codes "1.0")) (text (codes "1"))
unfolding comparator
version_compare-metadata_example =
    version_compare-metadata (codes "1.0") (codes "b7") (text (codes "1")) refl

version_compare-suffix_example :
    version_compare (text (codes "1.0" ++ b'.' ∷ codes "0.5+x")) (text (codes "1.0"))
    ≡ settle (residual_verdict (b'.' ∷ drop_build_metadata (codes "0.5+x")))
unfolding comparator
version_compare-suffix_example =
    version_compare-suffix (codes "1.0") b'.' (codes "0.5+x") refl refl (refl, (refl, (refl, tt)))
      refl refl

version_compare-prerelease_example :
    version_compare (text (codes "1.0" ++ b'-' ∷ codes "RC")) (text (codes "1.0")) ≡ less
unfolding comparator
version_compare-prerelease_example =
    version_compare-prerelease (codes "1.0") b'-' (codes "RC") refl (refl, (refl, (refl, tt))) refl
      refl (refl, (refl, tt)) refl
