-- ===== src/Cpe/Matches.antt =====
-- src/match/cpe_match.c: which rows match.
use cytadel_scan.Base.{
  ℕ, Option, Bool, true, false, ◌||◌, none, some, List, [], ◌∷◌, ◌≡◌, ◌≢◌, ◌⊎◌, inl, inr, arith,
  ◌==◌, if◌then◌else◌, ◌↔◌, All, Bool-cases,
}
use cytadel_scan.Cpe.{
  CpeMatch, no_match, match, BoundKind, start_including, start_excluding, end_including,
  end_excluding, pass, Row, BoundField, buffer_len, is_star, bound_verdict, bounds_of,
  exact_verdict, match_evaluate,
}
use cytadel_scan.Version.{Vercmp, less, equal, greater, Buffer}
use cytadel_scan.Version.Compare.{version_compare}
use cytadel_scan.Cpe.Range.{
  any_bound, is_set, is_null, is_blank, sentinel_set, fails_on, unknown_on, reads_null, kleene,
  evaluate_range_row-kleene,
}

-- The inequality that a kind of bound asks of `compare(detected, bound)`.
abbrev pub Holds : BoundKind → Vercmp → Type 0
Holds start_including v = (v ≡ greater) ⊎ (v ≡ equal)
Holds start_excluding v = v ≡ greater
Holds end_including v = (v ≡ less) ⊎ (v ≡ equal)
Holds end_excluding v = v ≡ less

bound_verdict-pass : (k : BoundKind) (v : Vercmp) → (bound_verdict k v ≡ pass) ↔ Holds k v
unfolding bound_verdict
bound_verdict-pass start_including v = ground arith
bound_verdict-pass start_excluding v = ground arith
bound_verdict-pass end_including v = ground arith
bound_verdict-pass end_excluding v = ground arith

-- Every set bound holds of the detected version, and none is null or consists of sentinels.
abbrev pub AllHold : Buffer → List BoundField → Type 0
AllHold detected = All (λ b.
    is_set b ≡ true
    → (is_null b.bound ≡ false)
      × (is_blank b.bound ≡ false)
      × Holds b.kind (version_compare detected b.bound))

any_bound-AllHold :
    (detected : Buffer) (bs : List BoundField)
    → (((reads_null bs ≡ false)
          × (any_bound sentinel_set bs ≡ false)
          × (any_bound (fails_on detected) bs ≡ false)
          × (any_bound (unknown_on detected) bs ≡ false))
        ↔ AllHold detected bs)
unfolding any_bound reads_null
any_bound-AllHold detected [] = ground arith
any_bound-AllHold detected (b ∷ bs) = ground (
  arith,
  any_bound-AllHold detected bs,
  bound_verdict-pass b.kind (version_compare detected b.bound),
)

abbrev pub is_range_row : Row → Bool
is_range_row row = is_star row.version || buffer_len row.version == 0

abbrev pub RowHolds : Bool → Row → Buffer → Type 0
RowHolds true row detected =
    (any_bound is_set (bounds_of row) ≡ true) × AllHold detected (bounds_of row)
RowHolds false row detected = version_compare detected row.version ≡ equal

kleene-match :
    (detected : Buffer) (bs : List BoundField)
    → ((if reads_null bs then none else some (kleene detected bs)) ≡ some match)
      ↔ ((any_bound is_set bs ≡ true) × AllHold detected bs)
kleene-match detected bs =
    let (to, from) = any_bound-AllHold detected bs in
    (
      λ h. (ground arith, to (ground arith, ground arith, ground arith, ground arith)),
      λ h. let (n, x, y, z) = from h.1 in ground arith,
    )

exact_verdict-match : (v : Vercmp) → (some (exact_verdict v) ≡ some match) ↔ (v ≡ equal)
unfolding exact_verdict
exact_verdict-match v = ground arith

guarded :
    (n : ℕ) (m : Option CpeMatch) {P : Type 0}
    → (m ≡ some match) ↔ P
    → ((if n == 0 then some no_match else m) ≡ some match) ↔ ((n ≢ 0) × P)
guarded n m (to, from) = elim (Bool-cases (n == 0)) [
  | inl z ↦ rw z (λ h. cc, λ h. absurd (h.0 (ground arith)))
  | inr z ↦ rw z (λ h. (ground arith, to h), λ h. from h.1)
]

-- A row matches exactly when it is marked vulnerable and its version says so: for a row with a
-- pinned version, the detected version is equal to it; for a range row, some bound is set, no set
-- bound is null or consists of sentinels, and every set bound's inequality holds.
pub match_evaluate-match_iff :
    (row : Row) (detected : Buffer)
    → (match_evaluate (some row) detected ≡ some match)
      ↔ ((row.vulnerable ≢ 0) × RowHolds (is_range_row row) row detected)
unfolding match_evaluate
match_evaluate-match_iff row detected =
    guarded row.vulnerable _ (elim (Bool-cases (is_range_row row)) [
      | inl r ↦
          rw (r, evaluate_range_row-kleene row detected) (kleene-match detected (bounds_of row))
      | inr r ↦ rw r (exact_verdict-match (version_compare detected row.version))
    ])
