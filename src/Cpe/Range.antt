-- ===== src/Cpe/Range.antt =====
-- src/match/cpe_match.c: the verdict on a range row.
use cytadel_scan.Base.{
  zero, suc, Bytes, Bool, true, false, not, ◌&&◌, ◌||◌, none, some, List, [], ◌∷◌, ◌≡◌, inl, inr,
  refl, arith, ◌==◌, if◌then◌else◌, Bool-cases, ◌∙◌,
}
use cytadel_scan.Cpe.{
  CpeMatch, no_match, match, undecided, malformed_row, BoundVerdict, pass, fail, unknown, Row,
  BoundField, Flags, buffer_len, bound_verdict, bound_is_sentinel_only, note_verdict, scan_bounds,
  combine, scanned, at_sentinel, null_read, sentinels_only, bounds_of, evaluate_range_row,
}
use cytadel_scan.Version.{Buffer, null, text}
use cytadel_scan.Version.Compare.{version_compare}

-- A bound that takes part: not the empty string.
abbrev pub is_set : BoundField → Bool
is_set b = not (buffer_len b.bound == 0)

abbrev pub verdict_on : Buffer → BoundField → BoundVerdict
verdict_on detected b = bound_verdict b.kind (version_compare detected b.bound)

abbrev is_fail : BoundVerdict → Bool
is_fail fail = true
is_fail _ = false

abbrev is_unknown : BoundVerdict → Bool
is_unknown unknown = true
is_unknown _ = false

-- Some bound of the list satisfies the test.
unfoldable pub any_bound : (BoundField → Bool) → List BoundField → Bool
any_bound test [] = false
any_bound test (b ∷ bs) = test b || any_bound test bs

abbrev pub is_null : Buffer → Bool
is_null (null len) = true
is_null (text s) = false

abbrev all_sentinels : Bytes → Bool
all_sentinels [] = true
all_sentinels (c ∷ s) = (c == b'*' || c == b'-') && all_sentinels s

-- Bytes, and each of them `*` or `-`.
abbrev pub is_blank : Buffer → Bool
is_blank (null len) = false
is_blank (text s) = all_sentinels s

abbrev pub null_set : BoundField → Bool
null_set b = is_set b && is_null b.bound

abbrev pub sentinel_set : BoundField → Bool
sentinel_set b = is_set b && is_blank b.bound

-- Some set bound is null, and no bound in front of it consists of sentinels.
unfoldable pub reads_null : List BoundField → Bool
reads_null [] = false
reads_null (b ∷ bs) = null_set b || (not (sentinel_set b) && reads_null bs)

abbrev pub fails_on : Buffer → BoundField → Bool
fails_on detected b = is_set b && is_fail (verdict_on detected b)

abbrev pub unknown_on : Buffer → BoundField → Bool
unknown_on detected b = is_set b && is_unknown (verdict_on detected b)

-- The three-valued conjunction of the set bounds, with no order among them.
abbrev pub kleene : Buffer → List BoundField → CpeMatch
kleene detected bs =
    if any_bound sentinel_set bs || not (any_bound is_set bs)
    then malformed_row
    else if any_bound (fails_on detected) bs
    then no_match
    else if any_bound (unknown_on detected) bs
    then undecided
    else match

abbrev joined_flags : Flags → Bool → Bool → Bool → Flags
joined_flags f x y z = record {
  any_set = f.any_set || x;
  any_fail = f.any_fail || y;
  any_undecidable = f.any_undecidable || z;
}

abbrev joined : Buffer → List BoundField → Flags → Flags
joined detected bs f =
    joined_flags f (any_bound is_set bs) (any_bound (fails_on detected) bs)
      (any_bound (unknown_on detected) bs)

note_verdict-joined :
    (v : BoundVerdict) (f : Flags) (x y z : Bool)
    → joined_flags (note_verdict v (record f { any_set = true })) x y z
      ≡ joined_flags f true (is_fail v || y) (is_unknown v || z)
unfolding note_verdict
note_verdict-joined pass f x y z = ground arith
note_verdict-joined fail f x y z = ground arith
note_verdict-joined unknown f x y z = ground arith

sentinels_only-all_sentinels : (s : Bytes) → sentinels_only s ≡ all_sentinels s
sentinels_only-all_sentinels [] = refl
sentinels_only-all_sentinels (c ∷ s) = ground (arith, sentinels_only-all_sentinels s)

bound_is_sentinel_only-set :
    (b : Buffer)
    → (buffer_len b == 0) ≡ false
    → bound_is_sentinel_only b ≡ (if is_null b then none else some (is_blank b))
unfolding bound_is_sentinel_only
bound_is_sentinel_only-set (null zero) h = absurd (cc)
bound_is_sentinel_only-set (null (suc len)) h = refl
bound_is_sentinel_only-set (text []) h = absurd (cc)
bound_is_sentinel_only-set (text (c ∷ s)) h = rw (sentinels_only-all_sentinels (c ∷ s)) refl

scan_bounds-joined :
    (detected : Buffer) (bs : List BoundField) (f : Flags)
    → scan_bounds detected bs f ≡ (
        if reads_null bs
        then null_read
        else if any_bound sentinel_set bs
        then at_sentinel
        else scanned (joined detected bs f))
unfolding scan_bounds any_bound reads_null
scan_bounds-joined detected [] f = ground arith
scan_bounds-joined detected (b ∷ bs) f = elim (Bool-cases (buffer_len b.bound == 0)) [
  | inl e ↦ rw e (scan_bounds-joined detected bs f)
  | inr e ↦
      let v = verdict_on detected b in
      let rest = scan_bounds-joined detected bs (note_verdict v (record f { any_set = true })) in
      let same =
        note_verdict-joined v f (any_bound is_set bs) (any_bound (fails_on detected) bs)
          (any_bound (unknown_on detected) bs) in
      let test = bound_is_sentinel_only-set b.bound e in
      elim (Bool-cases (is_null b.bound)) [
        | inl n ↦ rw (e, test, n) refl
        | inr n ↦ elim (Bool-cases (is_blank b.bound)) [
          | inl t ↦ rw (e, test, n, t) refl
          | inr t ↦ rw (e, test, n, t) (rest ∙ rw same refl)
        ]
      ]
]

abbrev pub unset : Flags
unset = record { any_set = false; any_fail = false; any_undecidable = false }

pub combine-scan_bounds :
    (detected : Buffer) (bs : List BoundField)
    → combine (scan_bounds detected bs unset)
      ≡ (if reads_null bs then none else some (kleene detected bs))
unfolding combine
combine-scan_bounds detected bs = ground (arith, scan_bounds-joined detected bs unset)

pub evaluate_range_row-kleene :
    (row : Row) (detected : Buffer)
    → evaluate_range_row row detected
      ≡ (if reads_null (bounds_of row) then none else some (kleene detected (bounds_of row)))
unfolding evaluate_range_row
evaluate_range_row-kleene row detected = combine-scan_bounds detected (bounds_of row)
