-- ===== src/Version/Prerelease.antt =====
-- src/match/version_compare.c: a delimiter and more text behind a version, and pre-releases.
use cytadel_scan.Base.{
  ℕ, suc, ◌+◌, Bool, true, false, not, ◌&&◌, ◌||◌, some, ◌≡◌, inl, inr, refl, ap, ◌∙◌, arith, [],
  ◌∷◌, ◌++◌, Bytes, length, leb, ◌==◌, All, Bool-cases,
}
use cytadel_scan.Version.{
  less, text, has_disallowed_byte, strip_v_prefix, is_digit_byte, is_delim_byte,
}
use cytadel_scan.Version.Alpha.{is_prerelease_keyword, in_table}
use cytadel_scan.Version.Append.{
  has_disallowed_byte-append, strip_v_prefix-append, behind, split_epoch-append,
}
use cytadel_scan.Version.Compare.{
  Split, split_at_colon, split_epoch, drop_build_metadata, has_no_component, is_none_token,
  compare_rests, compare_split, version_compare, settle,
}
use cytadel_scan.Version.Digits.{cmp_digit_runs_refl}
use cytadel_scan.Version.Equal.{comparable_part}
use cytadel_scan.Version.Residual.{token_verdict, alpha_verdict, residual_loop, residual_verdict}
use cytadel_scan.Version.Scan.{
  tok_alpha, next_token, token_at, skip_while, take_while, is_alpha_byte,
}
use cytadel_scan.Version.Suffix.{
  digit_stops, next_token-append, next_token-ended, compare_loop-append,
}

abbrev pub NoPlus : Bytes → Type 0
NoPlus = All (λ c. (c == b'+') ≡ false)

skip_while-NoPlus : (test : ℕ → Bool) (s : Bytes) → NoPlus s → NoPlus (skip_while test s)
unfolding skip_while
skip_while-NoPlus test [] h = tt
skip_while-NoPlus test (c ∷ s) h = elim (Bool-cases (test c)) [
  | inl e ↦ rw e (skip_while-NoPlus test s h.1)
  | inr e ↦ rw e h
]

split_at_colon-NoPlus : (s d r : Bytes) → NoPlus s → NoPlus r → NoPlus (split_at_colon s d r).rest
unfolding split_at_colon
split_at_colon-NoPlus s d [] h k = h
split_at_colon-NoPlus s d (c ∷ r) h k = elim (Bool-cases (not (length d == 0) && c == b':')) [
  | inl e ↦ rw e k.1
  | inr e ↦ rw e h
]

strip_v_prefix-NoPlus : (s : Bytes) → NoPlus s → NoPlus (strip_v_prefix s)
unfolding strip_v_prefix
strip_v_prefix-NoPlus [] h = tt
strip_v_prefix-NoPlus (c ∷ []) h = h
strip_v_prefix-NoPlus (c ∷ d ∷ s) h =
    elim (Bool-cases ((c == b'v' || c == b'V') && is_digit_byte d)) [
      | inl e ↦ rw e h.1
      | inr e ↦ rw e h
    ]

rest-NoPlus : (s : Bytes) → NoPlus s → NoPlus (split_epoch (strip_v_prefix s)).rest
unfolding split_epoch
rest-NoPlus s h =
    let p = strip_v_prefix-NoPlus s h in
    split_at_colon-NoPlus (strip_v_prefix s) _ _ p (skip_while-NoPlus is_digit_byte _ p)

drop_build_metadata-append :
    (s t : Bytes) → NoPlus s → drop_build_metadata (s ++ t) ≡ s ++ drop_build_metadata t
unfolding drop_build_metadata take_while
drop_build_metadata-append [] t h = refl
drop_build_metadata-append (c ∷ s) t h = rw h.0 (ap (◌∷◌ c) (drop_build_metadata-append s t h.1))

drop_build_metadata-NoPlus : (s : Bytes) → NoPlus s → drop_build_metadata s ≡ s
unfolding drop_build_metadata take_while
drop_build_metadata-NoPlus [] h = refl
drop_build_metadata-NoPlus (c ∷ s) h = rw h.0 (ap (◌∷◌ c) (drop_build_metadata-NoPlus s h.1))

module _ (d : ℕ) (delim : is_delim_byte d ≡ true) where
  delim-drop : (k : Bytes) → drop_build_metadata (d ∷ k) ≡ d ∷ drop_build_metadata k
  unfolding drop_build_metadata take_while is_delim_byte
  delim-drop k = ground arith

  delim_clean : (k : Bytes) → has_disallowed_byte k ≡ false → has_disallowed_byte (d ∷ k) ≡ false
  unfolding has_disallowed_byte is_delim_byte
  delim_clean k h = ground arith

  no_colon : (d == b':') ≡ false
  unfolding is_delim_byte
  no_colon = ground arith

  no_v : (d == b'v' || d == b'V') ≡ false
  unfolding is_delim_byte
  no_v = ground arith

  has_no_component-append :
      (s k : Bytes) → has_no_component s ≡ false → has_no_component (s ++ d ∷ k) ≡ false
  unfolding has_no_component
  has_no_component-append s k h = go (skip_while is_delim_byte s) refl
    where
      go :
          (p : Bytes)
          → skip_while is_delim_byte s ≡ p
          → is_none_token (next_token (s ++ d ∷ k)).token ≡ false
      go [] e = let bad : true ≡ false = rw (next_token-ended d k delim s e) at h in cc
      go (c ∷ r) e = rw (next_token-append d k delim s c r e) h

  compare_split-append :
      (p : Split) (k : Bytes)
      → NoPlus p.rest
      → has_no_component p.rest ≡ false
      → compare_split (behind d k p) p ≡ settle (residual_verdict (d ∷ drop_build_metadata k))
  unfolding compare_split compare_rests
  compare_split-append p k plain full =
      let m = drop_build_metadata k in
      rw
        (
          drop_build_metadata-append p.rest (d ∷ k) plain,
          delim-drop k,
          drop_build_metadata-NoPlus p.rest plain,
          has_no_component-append p.rest m full,
          full,
          cmp_digit_runs_refl p.epoch,
        )
        (ap settle (
          compare_loop-append d m delim (suc (length (p.rest ++ d ∷ m) + length p.rest)) p.rest
            (omega arith)))

-- A version with a delimiter and printable text behind it, compared with the version alone, gets
-- the verdict of the residual walk over what was added, less its build metadata. The version has
-- a component and no build metadata of its own.
pub version_compare-suffix :
    (s : Bytes) (d : ℕ) (k : Bytes)
    → has_disallowed_byte s ≡ false
    → has_disallowed_byte k ≡ false
    → NoPlus s
    → has_no_component (comparable_part s) ≡ false
    → is_delim_byte d ≡ true
    → version_compare (text (s ++ d ∷ k)) (text s)
      ≡ settle (residual_verdict (d ∷ drop_build_metadata k))
unfolding version_compare
version_compare-suffix s d k cs ck plain full delim =
    let rest = (split_epoch (strip_v_prefix s)).rest in
    let p = rest-NoPlus s plain in
    rw
      (
        has_disallowed_byte-append s (d ∷ k) (delim_clean d delim k ck),
        cs,
        strip_v_prefix-append d k (digit_stops d k delim) (no_colon d delim) s (no_v d delim),
        split_epoch-append d k (digit_stops d k delim) (no_colon d delim) (strip_v_prefix s),
      )
      (compare_split-append d delim (split_epoch (strip_v_prefix s)) k p
        (rw (drop_build_metadata-NoPlus rest p) at full))

abbrev pub is_letter : ℕ → Bool
is_letter c = (leb b'a' c && leb c b'z') || (leb b'A' c && leb c b'Z')

abbrev pub IsWord : Bytes → Type 0
IsWord = All (λ c. is_letter c ≡ true)

take_while-IsWord : (w : Bytes) → IsWord w → take_while is_alpha_byte w ≡ w
unfolding take_while is_alpha_byte
take_while-IsWord [] h = refl
take_while-IsWord (c ∷ w) h = ground (arith, take_while-IsWord w h.1)

IsWord-NoPlus : (w : Bytes) → IsWord w → NoPlus w
IsWord-NoPlus [] h = tt
IsWord-NoPlus (c ∷ w) h = (ground arith, IsWord-NoPlus w h.1)

IsWord-clean : (w : Bytes) → IsWord w → has_disallowed_byte w ≡ false
unfolding has_disallowed_byte
IsWord-clean [] h = refl
IsWord-clean (c ∷ w) h = ground (arith, IsWord-clean w h.1)

next_token-word :
    (d c : ℕ) (w : Bytes)
    → is_delim_byte d ≡ true
    → IsWord (c ∷ w)
    → (next_token (d ∷ c ∷ w)).token ≡ tok_alpha (c ∷ w)
unfolding next_token token_at
next_token-word d c w delim h =
    let head : skip_while is_delim_byte (d ∷ c ∷ w) ≡ c ∷ w =
      unfold skip_while is_delim_byte in ground arith in
    let letter : is_digit_byte c ≡ false = unfold is_digit_byte in ground arith in
    rw (head, letter) (ap tok_alpha (take_while-IsWord (c ∷ w) h))

nil-no_keyword : is_prerelease_keyword [] ≡ false
unfolding is_prerelease_keyword in_table
nil-no_keyword = refl

prerelease_word-less :
    (d : ℕ) (w : Bytes)
    → is_delim_byte d ≡ true
    → IsWord w
    → is_prerelease_keyword w ≡ true
    → residual_verdict (d ∷ w) ≡ some less
prerelease_word-less d [] delim h key = cc nil-no_keyword
prerelease_word-less d (c ∷ w) delim h key =
    let v : token_verdict (next_token (d ∷ c ∷ w)).token (next_token (d ∷ c ∷ w)).delim_skipped
          (next_token (d ∷ c ∷ w)).rest
        ≡ some less =
      rw (next_token-word d c w delim h) (unfold token_verdict alpha_verdict in rw key refl) in
    unfold residual_verdict residual_loop in rw (v, residual_loop) refl

-- A keyword of the pre-release table behind a delimiter, in either case, makes a version that is
-- less than the release that it stands behind.
pub version_compare-prerelease :
    (s : Bytes) (d : ℕ) (w : Bytes)
    → has_disallowed_byte s ≡ false
    → NoPlus s
    → has_no_component (comparable_part s) ≡ false
    → is_delim_byte d ≡ true
    → IsWord w
    → is_prerelease_keyword w ≡ true
    → version_compare (text (s ++ d ∷ w)) (text s) ≡ less
version_compare-prerelease s d w cs plain full delim word key =
    version_compare-suffix s d w cs (IsWord-clean w word) plain full delim
    ∙ rw
        (
          drop_build_metadata-NoPlus w (IsWord-NoPlus w word),
          prerelease_word-less d w delim word key,
        )
        refl
