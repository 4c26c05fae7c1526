-- ===== src/Version/Alpha.antt =====
-- src/match/version_compare.c: alphabetic components and the two keyword tables.
use Prim.Native.Nat.{Ordering}
use cytadel_scan.Base.{
  ℕ, Bool, true, false, ◌&&◌, List, [], ◌∷◌, ◌≡◌, refl, arith, Bytes, codes, ltb, ◌==◌,
  if◌then◌else◌, length,
}
use cytadel_scan.Version.{to_lower_ascii}

-- The bytes that both runs have, then the lengths.
unfoldable pub alpha_cmp_ci : Bytes → Bytes → Ordering
unfolding to_lower_ascii
alpha_cmp_ci [] [] = Ordering.eq
alpha_cmp_ci [] (y ∷ b) = Ordering.lt
alpha_cmp_ci (x ∷ a) [] = Ordering.gt
alpha_cmp_ci (x ∷ a) (y ∷ b) =
    if to_lower_ascii x == to_lower_ascii y
    then alpha_cmp_ci a b
    else if ltb (to_lower_ascii x) (to_lower_ascii y)
    then Ordering.lt
    else Ordering.gt

abbrev pub is_eq : Ordering → Bool
is_eq Ordering.eq = true
is_eq _ = false

abbrev pub prerelease_keywords : List Bytes
prerelease_keywords =
    codes "alpha"
    ∷ codes "beta"
    ∷ codes "rc"
    ∷ codes "pre"
    ∷ codes "preview"
    ∷ codes "dev"
    ∷ codes "devel"
    ∷ codes "snapshot"
    ∷ codes "nightly"
    ∷ codes "test"
    ∷ codes "unstable"
    ∷ codes "alfa"
    ∷ codes "milestone"
    ∷ []

abbrev pub release_equivalent_keywords : List Bytes
release_equivalent_keywords = codes "ga" ∷ codes "final" ∷ codes "release" ∷ codes "stable" ∷ []

-- The loop over a table.
unfoldable pub in_table : List Bytes → Bytes → Bool
in_table [] s = false
in_table (w ∷ ws) s =
    if length s == length w && is_eq (alpha_cmp_ci s w) then true else in_table ws s

unfoldable pub is_prerelease_keyword : Bytes → Bool
is_prerelease_keyword s = in_table prerelease_keywords s

unfoldable pub is_release_equivalent_keyword : Bytes → Bool
is_release_equivalent_keyword s = in_table release_equivalent_keywords s

unfoldable pub alpha_keyword_rank : Bytes → ℕ
alpha_keyword_rank s =
    if is_prerelease_keyword s then 0 else if is_release_equivalent_keyword s then 1 else 2

-- Both spellings lowered alike are one word to every test below.
pub alpha_cmp_ci_refl : (a : Bytes) → alpha_cmp_ci a a ≡ Ordering.eq
unfolding alpha_cmp_ci
alpha_cmp_ci_refl [] = refl
alpha_cmp_ci_refl (x ∷ a) = ground (arith, alpha_cmp_ci_refl a)

abbrev pub flip_ordering : Ordering → Ordering
flip_ordering Ordering.lt = Ordering.gt
flip_ordering Ordering.gt = Ordering.lt
flip_ordering Ordering.eq = Ordering.eq

pub alpha_cmp_ci-flip : (a b : Bytes) → alpha_cmp_ci b a ≡ flip_ordering (alpha_cmp_ci a b)
unfolding alpha_cmp_ci
alpha_cmp_ci-flip [] [] = refl
alpha_cmp_ci-flip [] (y ∷ b) = refl
alpha_cmp_ci-flip (x ∷ a) [] = refl
alpha_cmp_ci-flip (x ∷ a) (y ∷ b) = ground (arith, alpha_cmp_ci-flip a b)
