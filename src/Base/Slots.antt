-- ===== src/Base/Slots.antt =====
-- Arrays as lists: reading and writing at an index, and counting.
use Prim.Native.Nat.{ℕ, zero, suc, ◌+◌, ◌<◌, ◌≤◌}
use cytadel_scan.Base.Lists.{length}
use cytadel_scan.Base.Tests.{◌==◌, if◌then◌else◌}
use mathlib.Core.List.{List, [], ◌∷◌, ◌++◌}
use mathlib.Core.Option.{Option, none, some}
use mathlib.Core.Path.{◌≡◌, refl, ap, ◌∙◌}
use native.Mathlib.Omega.{arith}

module _ {ℓ} {A : Type ℓ} where
  unfoldable pub get_elem? : List A → ℕ → Option A
  get_elem? [] i = none
  get_elem? (x ∷ xs) zero = some x
  get_elem? (x ∷ xs) (suc i) = get_elem? xs i

  unfoldable pub set_elem : List A → ℕ → A → List A
  set_elem [] i a = []
  set_elem (x ∷ xs) zero a = a ∷ xs
  set_elem (x ∷ xs) (suc i) a = x ∷ set_elem xs i a

  pub length-set_elem : (xs : List A) (i : ℕ) (a : A) → length (set_elem xs i a) ≡ length xs
  unfolding set_elem
  length-set_elem [] i a = refl
  length-set_elem (x ∷ xs) zero a = refl
  length-set_elem (x ∷ xs) (suc i) a = ap suc (length-set_elem xs i a)

  pub get_elem?-set_elem :
      (xs : List A) (i j : ℕ) (a : A)
      → i < length xs
      → get_elem? (set_elem xs i a) j ≡ (if i == j then some a else get_elem? xs j)
  unfolding get_elem? set_elem
  get_elem?-set_elem [] i j a h = absurd (omega arith)
  get_elem?-set_elem (x ∷ xs) zero zero a h = refl
  get_elem?-set_elem (x ∷ xs) zero (suc j) a h = ground arith
  get_elem?-set_elem (x ∷ xs) (suc i) zero a h = ground arith
  get_elem?-set_elem (x ∷ xs) (suc i) (suc j) a h =
      get_elem?-set_elem xs i j a (omega arith) ∙ ground arith

  pub get_elem?-some : (xs : List A) (i : ℕ) → i < length xs → (a : A) × (get_elem? xs i ≡ some a)
  unfolding get_elem?
  get_elem?-some [] i h = absurd (omega arith)
  get_elem?-some (x ∷ xs) zero h = (x, refl)
  get_elem?-some (x ∷ xs) (suc i) h = get_elem?-some xs i (omega arith)

  pub get_elem?-bound : (xs : List A) (i : ℕ) (a : A) → get_elem? xs i ≡ some a → i < length xs
  unfolding get_elem?
  get_elem?-bound [] i a h = absurd (cc)
  get_elem?-bound (x ∷ xs) zero a h = omega arith
  get_elem?-bound (x ∷ xs) (suc i) a h = omega (arith, get_elem?-bound xs i a h)

  -- The sum of a weight over a list.
  abbrev pub sum_of : (A → ℕ) → List A → ℕ
  sum_of w [] = 0
  sum_of w (x ∷ xs) = w x + sum_of w xs

  pub sum_of-append : (w : A → ℕ) (xs ys : List A) → sum_of w (xs ++ ys) ≡ sum_of w xs + sum_of w ys
  sum_of-append w [] ys = omega arith
  sum_of-append w (x ∷ xs) ys = omega (arith, sum_of-append w xs ys)

  pub sum_of-set_elem :
      (w : A → ℕ) (xs : List A) (i : ℕ) (a b : A)
      → get_elem? xs i ≡ some a
      → sum_of w (set_elem xs i b) + w a ≡ sum_of w xs + w b
  unfolding get_elem? set_elem
  sum_of-set_elem w [] i a b h = absurd (cc)
  sum_of-set_elem w (x ∷ xs) zero a b h = let same : x ≡ a = cc in rw same (omega arith)
  sum_of-set_elem w (x ∷ xs) (suc i) a b h = omega (arith, sum_of-set_elem w xs i a b h)

  pub sum_of-get_elem? :
      (w : A → ℕ) (xs : List A) (i : ℕ) (a : A) → get_elem? xs i ≡ some a → w a ≤ sum_of w xs
  unfolding get_elem?
  sum_of-get_elem? w [] i a h = absurd (cc)
  sum_of-get_elem? w (x ∷ xs) zero a h = let same : x ≡ a = cc in rw same (omega arith)
  sum_of-get_elem? w (x ∷ xs) (suc i) a h = omega (arith, sum_of-get_elem? w xs i a h)

  pub sum_of-le : (w : A → ℕ) → ((a : A) → w a ≤ 1) → (xs : List A) → sum_of w xs ≤ length xs
  sum_of-le w small [] = omega arith
  sum_of-le w small (x ∷ xs) = omega (arith, small x, sum_of-le w small xs)
