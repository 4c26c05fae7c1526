-- ===== src/PortRange/Sorted.antt =====
-- src/net/port_range.c: the array that the second pass fills.
use cytadel_scan.Base.{
  ℕ, zero, suc, ◌+◌, ◌≤◌, Bool, false, ◌&&◌, ◌||◌, List, [], ◌∷◌, ◌≡◌, refl, arith, length, ltb,
  leb, ◌==◌, Bool-cases, inl, inr,
}
use cytadel_scan.PortRange.Bitmap.{Bitmap, bitmap_test}
use cytadel_scan.PortRange.Scan.{count_ports, collect}

abbrev pub contains : ℕ → List ℕ → Bool
contains v [] = false
contains v (p ∷ ps) = p == v || contains v ps

-- Strictly increasing, and all at least `lo`.
abbrev pub Ascending : ℕ → List ℕ → Type 0
Ascending lo [] = Unit
Ascending lo (p ∷ ps) = (lo ≤ p) × Ascending (p + 1) ps

pub length-collect :
    (n v : ℕ) (bitmap : Bitmap) → length (collect n v bitmap) ≡ count_ports n v bitmap
unfolding collect count_ports
length-collect zero v bitmap = refl
length-collect (suc n) v bitmap = ground (arith, length-collect n (v + 1) bitmap)

Ascending-weaken : (ps : List ℕ) (lo hi : ℕ) → lo ≤ hi → Ascending hi ps → Ascending lo ps
Ascending-weaken [] lo hi h a = tt
Ascending-weaken (p ∷ ps) lo hi h a = (omega arith, a.1)

pub collect-Ascending : (n v : ℕ) (bitmap : Bitmap) → Ascending v (collect n v bitmap)
unfolding collect
collect-Ascending zero v bitmap = tt
collect-Ascending (suc n) v bitmap = elim (Bool-cases (bitmap_test bitmap v)) [
  | inl e ↦ rw e (omega arith, collect-Ascending n (v + 1) bitmap)
  | inr e ↦ rw e (
      Ascending-weaken (collect n (v + 1) bitmap) v (v + 1) (omega arith)
        (collect-Ascending n (v + 1) bitmap))
]

pub contains-collect :
    (n s v : ℕ) (bitmap : Bitmap)
    → contains v (collect n s bitmap) ≡ (leb s v && ltb v (s + n)) && bitmap_test bitmap v
unfolding collect
contains-collect zero s v bitmap = ground arith
contains-collect (suc n) s v bitmap = elim (Bool-cases (s == v)) [
  | inl e ↦
      let same : s ≡ v = ground arith in
      rw same (ground (arith, contains-collect n (v + 1) v bitmap))
  | inr e ↦ ground (arith, contains-collect n (s + 1) v bitmap)
]
