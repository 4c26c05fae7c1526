-- ===== src/Cpe.antt =====
-- src/match/cpe_match.c: a row of `cve_cpe_matches` against a detected version.
pub mod Range
pub mod Matches
pub mod Order
mod Tests
use cytadel_scan.Base.{
  ℕ, zero, suc, Bool, true, false, not, ◌&&◌, ◌||◌, Option, none, some, List, [], ◌∷◌, Bytes, ltb,
  ◌==◌, if◌then◌else◌, length,
}
use cytadel_scan.Version.{Vercmp, less, equal, greater, undecidable, Buffer, null, text}
use cytadel_scan.Version.Compare.{version_compare}

-- `cytadel_cpe_match_t`
pub data CpeMatch : Type 0 where
  no_match match undecided malformed_row : CpeMatch

pub data BoundKind : Type 0 where
  start_including start_excluding end_including end_excluding : BoundKind

pub data BoundVerdict : Type 0 where
  pass fail unknown : BoundVerdict

pub record Row : Type 0 where
  pub version : Buffer
  pub version_start_including : Buffer
  pub version_start_excluding : Buffer
  pub version_end_including : Buffer
  pub version_end_excluding : Buffer
  pub vulnerable : ℕ

-- The length that a caller passes with a pointer.
abbrev pub buffer_len : Buffer → ℕ
buffer_len (null len) = len
buffer_len (text s) = length s

-- Exactly the one byte `*`.
unfoldable pub is_star : Buffer → Bool
is_star (null len) = false
is_star (text []) = false
is_star (text (c ∷ [])) = c == b'*'
is_star (text (c ∷ d ∷ s)) = false

unfoldable pub bound_verdict : BoundKind → Vercmp → BoundVerdict
bound_verdict kind undecidable = unknown
bound_verdict start_including greater = pass
bound_verdict start_including equal = pass
bound_verdict start_including less = fail
bound_verdict start_excluding greater = pass
bound_verdict start_excluding equal = fail
bound_verdict start_excluding less = fail
bound_verdict end_including less = pass
bound_verdict end_including equal = pass
bound_verdict end_including greater = fail
bound_verdict end_excluding less = pass
bound_verdict end_excluding equal = fail
bound_verdict end_excluding greater = fail

abbrev pub sentinels_only : Bytes → Bool
sentinels_only [] = true
sentinels_only (c ∷ s) = if not (c == b'*') && not (c == b'-') then false else sentinels_only s

-- Not empty, and of the bytes `*` and `-` alone. The loop reads the bytes of any pointer whose
-- length is positive: `none` is the read through a null pointer.
unfoldable pub bound_is_sentinel_only : Buffer → Option Bool
bound_is_sentinel_only (null zero) = some false
bound_is_sentinel_only (null (suc len)) = none
bound_is_sentinel_only (text []) = some false
bound_is_sentinel_only (text (c ∷ s)) = some (sentinels_only (c ∷ s))

pub record BoundField : Type 0 where
  pub bound : Buffer
  pub kind : BoundKind

pub record Flags : Type 0 where
  pub any_set : Bool
  pub any_fail : Bool
  pub any_undecidable : Bool

unfoldable pub note_verdict : BoundVerdict → Flags → Flags
note_verdict pass f = f
note_verdict fail f = record f { any_fail = true }
note_verdict unknown f = record f { any_undecidable = true }

-- How the loop over the bounds ends: with its flags, with the return from inside it at a sentinel,
-- or in a read through a null pointer.
pub data BoundScan : Type 0 where
  scanned : Flags → BoundScan
  at_sentinel null_read : BoundScan

abbrev after_test : Option Bool → BoundScan → BoundScan
after_test none noted = null_read
after_test (some true) noted = at_sentinel
after_test (some false) noted = noted

unfoldable pub scan_bounds : Buffer → List BoundField → Flags → BoundScan
scan_bounds detected [] f = scanned f
scan_bounds detected (b ∷ bs) f =
    let skipped = scan_bounds detected bs f in
    let noted = scan_bounds detected bs (
      note_verdict (bound_verdict b.kind (version_compare detected b.bound))
        (record f { any_set = true })) in
    if buffer_len b.bound == 0 then skipped else after_test (bound_is_sentinel_only b.bound) noted

-- The tests behind the loop; `none` is the read through a null pointer.
unfoldable pub combine : BoundScan → Option CpeMatch
combine null_read = none
combine at_sentinel = some malformed_row
combine (scanned f) = some (
    if not f.any_set
    then malformed_row
    else if f.any_fail
    then no_match
    else if f.any_undecidable
    then undecided
    else match)

abbrev pub bounds_of : Row → List BoundField
bounds_of row =
    record { bound = row.version_start_including; kind = start_including }
    ∷ record { bound = row.version_start_excluding; kind = start_excluding }
    ∷ record { bound = row.version_end_including; kind = end_including }
    ∷ record { bound = row.version_end_excluding; kind = end_excluding }
    ∷ []

unfoldable pub evaluate_range_row : Row → Buffer → Option CpeMatch
evaluate_range_row row detected = combine (
    scan_bounds detected (bounds_of row)
      (record { any_set = false; any_fail = false; any_undecidable = false }))

unfoldable pub exact_verdict : Vercmp → CpeMatch
exact_verdict equal = match
exact_verdict undecidable = undecided
exact_verdict less = no_match
exact_verdict greater = no_match

-- A row of `none` is a null row, and a result of `none` a read through a null pointer.
unfoldable pub match_evaluate : Option Row → Buffer → Option CpeMatch
match_evaluate none detected = some undecided
match_evaluate (some row) detected =
    if row.vulnerable == 0
    then some no_match
    else if is_star row.version || buffer_len row.version == 0
    then evaluate_range_row row detected
    else some (exact_verdict (version_compare detected row.version))
