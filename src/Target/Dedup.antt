-- ===== src/Target/Dedup.antt =====
-- src/net/target_list.c: the removal of targets with an address that is there already.
pub mod Order
pub mod Flags
pub mod Reference
pub mod First
pub mod Sort
use Prim.Native.Nat.{compare, Ordering}
use cytadel_scan.Base.Slots.{set_elem}
use cytadel_scan.Base.{
  ℕ, zero, suc, ◌+◌, Bool, true, false, not, Option, none, some, List, [], ◌∷◌, Bytes, length, leb,
  if◌then◌else◌,
}
use cytadel_scan.Target.{Target}

pub record DedupKey : Type 0 where
  pub key_ip : Bytes
  pub idx : ℕ

unfoldable pub strcmp : Bytes → Bytes → Ordering
strcmp [] [] = Ordering.eq
strcmp [] (d ∷ t) = Ordering.lt
strcmp (c ∷ s) [] = Ordering.gt
strcmp (c ∷ s) (d ∷ t) = elim (compare c d) [
  | Ordering.eq ↦ strcmp s t
  | Ordering.lt ↦ Ordering.lt
  | Ordering.gt ↦ Ordering.gt
]

unfoldable pub dedup_key_cmp : DedupKey → DedupKey → Ordering
dedup_key_cmp a b = elim (strcmp a.key_ip b.key_ip) [
  | Ordering.eq ↦ compare a.idx b.idx
  | Ordering.lt ↦ Ordering.lt
  | Ordering.gt ↦ Ordering.gt
]

abbrev pub same_text : Bytes → Bytes → Bool
same_text s t = elim (strcmp s t) [ Ordering.eq ↦ true | _ ↦ false ]

unfoldable pub keys_from : ℕ → List Target → List DedupKey
keys_from i [] = []
keys_from i (t ∷ ts) = record { key_ip = t.ip; idx = i } ∷ keys_from (i + 1) ts

-- `calloc`
unfoldable pub no_flags : ℕ → List Bool
no_flags zero = []
no_flags (suc n) = false ∷ no_flags n

abbrev pub differs : Option Bytes → Bytes → Bool
differs none ip = true
differs (some before) ip = not (same_text ip before)

-- The loop over the sorted keys, with the address of the key before.
unfoldable pub keep_loop : Option Bytes → List DedupKey → List Bool → List Bool
keep_loop before [] keep = keep
keep_loop before (k ∷ ks) keep =
    keep_loop (some k.key_ip) ks
      (if differs before k.key_ip then set_elem keep k.idx true else keep)

-- The loop that moves what is kept to the front.
unfoldable pub compact : List Bool → List Target → List Target
compact [] ts = []
compact (b ∷ bs) [] = []
compact (b ∷ bs) (t ∷ ts) = let rest = compact bs ts in if b then t ∷ rest else rest

-- `none` is the error of an allocation: of the keys, or of the flags.
unfoldable pub dedup :
    (List DedupKey → List DedupKey) → Bool → Bool → List Target → Option (List Target)
dedup qsort keys_ok keep_ok arr =
    if leb (length arr) 1
    then some arr
    else if not keys_ok
    then none
    else if not keep_ok
    then none
    else some (compact (keep_loop none (qsort (keys_from 0 arr)) (no_flags (length arr))) arr)
