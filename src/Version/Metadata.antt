-- ===== src/Version/Metadata.antt =====
-- src/match/version_compare.c: build metadata, the part behind the first `+`.
use cytadel_scan.Base.{false, not, ◌≡◌, refl, ◌∷◌, ◌++◌, Bytes, ◌==◌}
use cytadel_scan.Version.{Buffer, text, has_disallowed_byte, strip_v_prefix, is_digit_byte}
use cytadel_scan.Version.Append.{
  take_while-stop, has_disallowed_byte-append, strip_v_prefix-append, behind, split_epoch-append,
}
use cytadel_scan.Version.Compare.{
  compare_split, Split, split_epoch, drop_build_metadata, version_compare,
}

plus_no_digit : is_digit_byte b'+' ≡ false
unfolding is_digit_byte
plus_no_digit = refl

compare_split-plus :
    (m : Bytes) (p q : Split) → compare_split (behind b'+' m p) q ≡ compare_split p q
unfolding compare_split drop_build_metadata
compare_split-plus m p q = rw (take_while-stop (λ c. not (c == b'+')) b'+' m refl p.rest)

plus-clean : (m : Bytes) → has_disallowed_byte m ≡ false → has_disallowed_byte (b'+' ∷ m) ≡ false
unfolding has_disallowed_byte
plus-clean m h = h

-- Printable text behind a `+` changes no answer, whatever stands in front of it.
pub version_compare-metadata :
    (s m : Bytes) (b : Buffer)
    → has_disallowed_byte m ≡ false
    → version_compare (text (s ++ b'+' ∷ m)) b ≡ version_compare (text s) b
unfolding version_compare
version_compare-metadata s m b h = rw (
  has_disallowed_byte-append s (b'+' ∷ m) (plus-clean m h),
  strip_v_prefix-append b'+' m plus_no_digit refl s refl,
  split_epoch-append b'+' m plus_no_digit refl (strip_v_prefix s),
  compare_split-plus m (split_epoch (strip_v_prefix s)),
)
