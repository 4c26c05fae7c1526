-- ===== src/WorkerPool/Tests.antt =====
-- src/core/worker_pool.c: two threads and one target, step by step.
use cytadel_scan.Base.Int.{pos, negsuc}
use cytadel_scan.Base.Slots.{get_elem?, set_elem, sum_of}
use cytadel_scan.Base.{ℕ, ◌+◌, ◌≤◌, ◌<◌, true, false, some, [], ◌∷◌, ◌++◌, ◌≡◌, ◌⊎◌, refl, arith}
use cytadel_scan.WorkerPool.Claim.{Reach-Claimed}
use cytadel_scan.WorkerPool.Weights.{holding, is_written, waiting}
use cytadel_scan.WorkerPool.Drain.{
  measure, Stopped, Reach-drained, Reach-terminates, worker_pool_enter-bounds,
}
use cytadel_scan.WorkerPool.{
  ready, scanning, finished, joining, Pool, start, empty_slots, thread_step, Step, create,
  create_fails, work, Reach, started, later, worker_limit, worker_pool_enter, runs,
  hard_cap_workers, returns, worker_pool_return,
}

pool : Unit {0}
unfolding get_elem? set_elem thread_step empty_slots worker_limit worker_pool_enter
    worker_pool_return
pool = tt

-- One thread is created, the creation of the second fails; the first scans the target and leaves.
abbrev s0 : Pool ℕ
s0 = start 1

abbrev s1 : Pool ℕ
s1 = record s0 { workers = s0.workers ++ (ready ∷ []) }

abbrev s2 : Pool ℕ
s2 = thread_step 1 0 7 ready s1

abbrev s3 : Pool ℕ
s3 = record s2 { main = joining true }

abbrev s4 : Pool ℕ
s4 = thread_step 1 0 7 (scanning 0) s3

abbrev s5 : Pool ℕ
s5 = thread_step 1 0 7 ready s4

s2-Reach : Reach 2 1 s2
unfolding pool
s2-Reach = later (later started (create s0 refl (omega arith))) (work s1 0 7 ready refl (λ e. cc))

s5-Reach : Reach 2 1 s5
unfolding pool
s5-Reach =
    later
      (later (later s2-Reach (create_fails s2 refl (omega arith)))
        (work s3 0 7 (scanning 0) refl (λ e. cc)))
      (work s4 0 7 ready refl (λ e. cc))

results :
    (s5.out_results ≡ some 7 ∷ [])
    × (s5.workers ≡ finished ∷ [])
    × (worker_pool_enter true 300 (negsuc 4) true ≡ runs 1)
    × (worker_pool_enter true 300 (pos 64) true ≡ runs 64)
    × (worker_pool_enter true 0 (pos 64) true ≡ returns (pos 0))
    × (worker_pool_return true false ≡ negsuc 0)
unfolding pool
results = (refl, refl, refl, refl, refl, refl)

Reach-Claimed_example :
    sum_of (holding 0) s2.workers
      + is_written (get_elem? s2.out_results 0)
      + waiting 0 s2.next_index
    ≡ 1
unfolding pool
Reach-Claimed_example = Reach-Claimed 2 1 s2 (omega arith) s2-Reach 0 (omega arith)

Reach-drained_example : (r : ℕ) × (get_elem? s5.out_results 0 ≡ some (some r))
unfolding pool
Reach-drained_example =
    Reach-drained 2 1 s5 (omega arith) s5-Reach (refl, tt) (omega arith) 0 (omega arith)

Reach-terminates_example :
    ((q : Pool ℕ) → Step 2 1 s2 q → measure 2 1 q < measure 2 1 s2)
    × (((q : Pool ℕ) × Step 2 1 s2 q) ⊎ Stopped s2)
Reach-terminates_example = Reach-terminates 2 1 s2 (omega arith) 7 s2-Reach

worker_pool_enter-bounds_example : (1 ≤ 64) × (64 ≤ hard_cap_workers) × (64 ≤ 300)
worker_pool_enter-bounds_example = worker_pool_enter-bounds true 300 (pos 64) true 64 (results.3)
