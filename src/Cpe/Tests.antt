-- ===== src/Cpe/Tests.antt =====
-- src/match/cpe_match.c: rows evaluated, and the theorems at concrete rows.
use mathlib.Core.List.{reverse, reverse_perm}
use cytadel_scan.Base.{ℕ, ◌≡◌, ◌≢◌, ◌↔◌, refl, [], Bytes, codes, some, none}
use cytadel_scan.Cpe.{
  no_match, match, undecided, malformed_row, Row, is_star, bound_verdict, bound_is_sentinel_only,
  note_verdict, scan_bounds, combine, evaluate_range_row, exact_verdict, match_evaluate, bounds_of,
}
use cytadel_scan.Cpe.Order.{evaluate_range_row-perm}
use cytadel_scan.Cpe.Matches.{match_evaluate-match_iff, RowHolds, is_range_row}
use cytadel_scan.Cpe.Range.{unset}
use cytadel_scan.Version.{text, null}
use cytadel_scan.Version.Tests.{comparator}

abbrev row : Bytes → Bytes → Bytes → Bytes → Bytes → ℕ → Row
row v si se ei ee vulnerable = record {
  version = text v;
  version_start_including = text si;
  version_start_excluding = text se;
  version_end_including = text ei;
  version_end_excluding = text ee;
  vulnerable = vulnerable;
}

abbrev ranged : Row
ranged = row (codes "*") (codes "1.2") [] [] (codes "2.0") 1

evaluator : Unit {0}
unfolding comparator is_star bound_verdict bound_is_sentinel_only note_verdict scan_bounds combine
    evaluate_range_row exact_verdict match_evaluate
evaluator = tt

rows :
    (match_evaluate (some ranged) (text (codes "1.9")) ≡ some match)
    × (match_evaluate (some ranged) (text (codes "2.0")) ≡ some no_match)
    × (match_evaluate (some ranged) (text (codes "1.x")) ≡ some undecided)
    × (match_evaluate
          (some (row (codes "*") (codes "1.x") [] [] (codes "2.0") 1))
          (text (codes "3.0"))
        ≡ some no_match)
    × (match_evaluate (some (row (codes "*") [] [] [] [] 1)) (text (codes "1.9"))
        ≡ some malformed_row)
    × (match_evaluate (some (row (codes "*") (codes "*") [] [] [] 1)) (text (codes "1.9"))
        ≡ some malformed_row)
    × (match_evaluate (some (row (codes "-") [] [] [] [] 1)) (text (codes "1.9")) ≡ some undecided)
    × (match_evaluate (some (row (codes "1.9") [] [] [] [] 0)) (text (codes "1.9")) ≡ some no_match)
    × (match_evaluate (some (row (codes "1.9.0") [] [] [] [] 1)) (text (codes "1.9")) ≡ some match)
unfolding evaluator
rows = (refl, refl, refl, refl, refl, refl, refl, refl, refl)

-- A null bound with a positive length, behind a sentinel and in front of one.
abbrev null_bound : Row
null_bound = record ranged { version_start_excluding = null 5 }

null_rows :
    (match_evaluate (some null_bound) (text (codes "1.9")) ≡ none)
    × (match_evaluate
          (some (record null_bound { version_start_including = text (codes "*") }))
          (text (codes "1.9"))
        ≡ some malformed_row)
    × (match_evaluate
          (some (record null_bound { version_end_including = text (codes "*") }))
          (text (codes "1.9"))
        ≡ none)
    × (match_evaluate
          (some (record null_bound { version_start_excluding = null 0 }))
          (text (codes "1.9"))
        ≡ some match)
unfolding evaluator
null_rows = (refl, refl, refl, refl)

match_evaluate-match_iff_example :
    (match_evaluate (some ranged) (text (codes "1.9")) ≡ some match)
    ↔ ((ranged.vulnerable ≢ 0) × RowHolds (is_range_row ranged) ranged (text (codes "1.9")))
match_evaluate-match_iff_example = match_evaluate-match_iff ranged (text (codes "1.9"))

evaluate_range_row-perm_example :
    combine (scan_bounds (text (codes "1.x")) (reverse (bounds_of ranged)) unset)
    ≡ evaluate_range_row ranged (text (codes "1.x"))
evaluate_range_row-perm_example =
    evaluate_range_row-perm ranged (text (codes "1.x")) (reverse (bounds_of ranged))
      (tt, (tt, (tt, (tt, tt)))) (reverse_perm (bounds_of ranged))
