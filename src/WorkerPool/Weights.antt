-- ===== src/WorkerPool/Weights.antt =====
-- src/core/worker_pool.c: how often an index is in hand, and what stays the same of the pool.
use cytadel_scan.Base.Slots.{get_elem?, sum_of}
use cytadel_scan.Base.{
  ℕ, zero, suc, ◌+◌, ◌≤◌, ◌<◌, Option, none, some, ◌≡◌, refl, arith, length, leb, ◌==◌,
  if◌then◌else◌,
}
use cytadel_scan.WorkerPool.{Worker, ready, scanning, finished, Pool, empty_slots}

-- The threads that scan the index, the writes that its slot has, and whether the cursor is in front
-- of it.
abbrev pub holding : ℕ → Worker → ℕ
holding i ready = 0
holding i (scanning k) = if k == i then 1 else 0
holding i finished = 0

abbrev pub is_written : {A : Type 0} → Option (Option A) → ℕ
is_written none = 0
is_written (some none) = 0
is_written (some (some r)) = 1

abbrev pub waiting : ℕ → ℕ → ℕ
waiting i next_index = if leb next_index i then 1 else 0

abbrev pub gone : Worker → ℕ
gone ready = 0
gone (scanning k) = 0
gone finished = 1

module _ {A : Type 0} (limit target_count : ℕ) where
  -- Each index waits, or one thread scans it, or its slot is written, and one of the three only.
  abbrev pub Claimed : Pool A → Type 0
  Claimed p =
      (i : ℕ)
      → i < target_count
      → sum_of (holding i) p.workers
          + is_written (get_elem? p.out_results i)
          + waiting i p.next_index
        ≡ 1

  pub record Inv (p : Pool A) : Type 0 where
    pub claimed : Claimed p
    pub bounded : (i : ℕ) → target_count ≤ i → sum_of (holding i) p.workers ≡ 0
    pub size : length p.out_results ≡ target_count
    pub few : length p.workers ≤ limit
    pub cursor : p.next_index ≤ target_count + sum_of gone p.workers
    pub drained : 0 < sum_of gone p.workers → target_count ≤ p.next_index

pub gone-le : (x : Worker) → gone x ≤ 1
gone-le ready = omega arith
gone-le (scanning k) = omega arith
gone-le finished = omega arith

pub empty_slots-get_elem? :
    (A : Type 0) (n i : ℕ) → is_written (get_elem? (empty_slots {A = A} n) i) ≡ 0
unfolding empty_slots get_elem?
empty_slots-get_elem? A zero i = refl
empty_slots-get_elem? A (suc n) zero = refl
empty_slots-get_elem? A (suc n) (suc i) = empty_slots-get_elem? A n i

pub length-empty_slots : (A : Type 0) (n : ℕ) → length (empty_slots {A = A} n) ≡ n
unfolding empty_slots
length-empty_slots A zero = refl
length-empty_slots A (suc n) = omega (arith, length-empty_slots A n)

pub holding_self : (k : ℕ) → holding k (scanning k) ≡ 1
holding_self k = ground arith
