-- ===== src/Cpe/Order.antt =====
-- src/match/cpe_match.c: the order in which the loop visits the bounds does not matter.
use mathlib.Core.List.{Perm, Permᴰ}
use mathlib.Core.Logic.{∥∥₁_elim}
use mathlib.Core.Bool.{Bool-set}
use cytadel_scan.Base.{
  Bool, false, not, ◌&&◌, ◌==◌, [], ◌∷◌, All, ◌||◌, List, ◌≡◌, refl, ◌∙◌, arith,
}
use cytadel_scan.Cpe.{
  Row, BoundField, buffer_len, scan_bounds, combine, bounds_of, evaluate_range_row,
}
use cytadel_scan.Cpe.Range.{
  any_bound, is_set, is_null, null_set, reads_null, sentinel_set, fails_on, unknown_on, unset,
  combine-scan_bounds, evaluate_range_row-kleene,
}
use cytadel_scan.Version.{Buffer, null, text}

any_bound-Permᴰ :
    (test : BoundField → Bool) {bs cs : List BoundField}
    → Permᴰ bs cs
    → any_bound test bs ≡ any_bound test cs
unfolding any_bound
any_bound-Permᴰ test Permᴰ.nil = refl
any_bound-Permᴰ test (Permᴰ.cons e p) = rw (e, any_bound-Permᴰ test p)
any_bound-Permᴰ test (Permᴰ.swap {a = a} {b = b} e f) = rw (← e, ← f) (swapped (test a) (test b) _)
  where
    swapped : (x y z : Bool) → x || (y || z) ≡ y || (x || z)
    swapped x y z = ground arith
any_bound-Permᴰ test (Permᴰ.trans p q) = any_bound-Permᴰ test p ∙ any_bound-Permᴰ test q

any_bound-perm :
    (test : BoundField → Bool) {bs cs : List BoundField}
    → Perm bs cs
    → any_bound test bs ≡ any_bound test cs
any_bound-perm test p = ∥∥₁_elim p (Bool-set _ _) (any_bound-Permᴰ test)

-- A pointer that may be read: null with no length other than 0.
abbrev pub IsReadable : Buffer → Type 0
IsReadable (null len) = len ≡ 0
IsReadable (text s) = Unit

IsReadable-null_set : (b : BoundField) → IsReadable b.bound → null_set b ≡ false
IsReadable-null_set b h = readable b.bound h
  where
    readable : (b : Buffer) → IsReadable b → not (buffer_len b == 0) && is_null b ≡ false
    readable (null len) h = ground arith
    readable (text s) h = ground arith

readable-null_set :
    (bs : List BoundField) → All (λ b. IsReadable b.bound) bs → any_bound null_set bs ≡ false
unfolding any_bound
readable-null_set [] h = refl
readable-null_set (b ∷ bs) h = ground (arith, IsReadable-null_set b h.0, readable-null_set bs h.1)

reads_null-none : (bs : List BoundField) → any_bound null_set bs ≡ false → reads_null bs ≡ false
unfolding any_bound reads_null
reads_null-none [] h = refl
reads_null-none (b ∷ bs) h = ground (arith, reads_null-none bs)

-- Where no bound of a row is null with a positive length, visiting the four bounds in any other
-- order gives the same verdict.
pub evaluate_range_row-perm :
    (row : Row) (detected : Buffer) (bs : List BoundField)
    → All (λ b. IsReadable b.bound) (bounds_of row)
    → Perm bs (bounds_of row)
    → combine (scan_bounds detected bs unset) ≡ evaluate_range_row row detected
evaluate_range_row-perm row detected bs readable p =
    let none_here = readable-null_set (bounds_of row) readable in
    let none_there = any_bound-perm null_set p ∙ none_here in
    rw
      (
        combine-scan_bounds detected bs,
        evaluate_range_row-kleene row detected,
        reads_null-none bs none_there,
        reads_null-none (bounds_of row) none_here,
        any_bound-perm sentinel_set p,
        any_bound-perm is_set p,
        any_bound-perm (fails_on detected) p,
        any_bound-perm (unknown_on detected) p,
      )
      refl
