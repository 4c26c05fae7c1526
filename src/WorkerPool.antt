-- ===== src/WorkerPool.antt =====
-- src/core/worker_pool.c: threads that take targets from a shared cursor. `A` is the type of a
-- worker's result, which `cytadel_host_scan` fills with whatever the network gives.
pub mod Weights
pub mod Claim
pub mod Drain
mod Tests
use cytadel_scan.Base.Int.{ℤ, pos, negsuc}
use cytadel_scan.Base.Slots.{get_elem?, set_elem}
use cytadel_scan.Base.{
  ℕ, zero, suc, ◌+◌, ◌%◌, ◌^◌, ◌<◌, Bool, true, false, not, ◌||◌, Option, none, some, List, [], ◌∷◌,
  ◌++◌, ◌≡◌, ◌≢◌, length, ltb, leb, ◌==◌, if◌then◌else◌,
}

abbrev pub hard_cap_workers : ℕ
hard_cap_workers = 1024

-- Where a thread stands in the loop: before `atomic_fetch_add`, with an index that it scans, or
-- behind the `break`.
pub data Worker : Type 0 where
  ready : Worker
  scanning : ℕ → Worker
  finished : Worker

-- The thread that called: it creates the workers, then it joins them. The flag is `create_failed`.
pub data Main : Type 0 where
  creating : Main
  joining : Bool → Main

-- An empty slot is one that no worker has written.
pub record Pool (A : Type 0) : Type 0 where
  pub next_index : ℕ
  pub workers : List Worker
  pub out_results : List (Option A)
  pub main : Main

abbrev pub at_least_one : ℤ → ℕ
at_least_one (negsuc n) = 1
at_least_one (pos n) = if ltb n 1 then 1 else n

-- `max_workers`, clamped to the cap and to the number of targets.
unfoldable pub worker_limit : ℤ → ℕ → ℕ
worker_limit max_workers target_count =
    let wanted = at_least_one max_workers in
    let capped = if ltb hard_cap_workers wanted then hard_cap_workers else wanted in
    if ltb target_count capped then target_count else capped

unfoldable pub empty_slots : {A : Type 0} → ℕ → List (Option A)
empty_slots zero = []
empty_slots (suc n) = none ∷ empty_slots n

abbrev pub start : {A : Type 0} → ℕ → Pool A
start target_count = record {
  next_index = 0;
  workers = [];
  out_results = empty_slots target_count;
  main = creating;
}

-- One atomic step of the thread with the number `w`: the fetch with the test behind it, or the
-- write of the result `r` into the slot that is the thread's.
unfoldable pub thread_step : {A : Type 0} → ℕ → ℕ → A → Worker → Pool A → Pool A
thread_step target_count w r ready p =
    let i = p.next_index in
    record p {
      next_index = (i + 1) % 2 ^ 64;
      workers = set_elem p.workers w (if leb target_count i then finished else scanning i);
    }
thread_step target_count w r (scanning i) p = record p {
  out_results = set_elem p.out_results i (some r);
  workers = set_elem p.workers w ready;
}
thread_step target_count w r finished p = p

-- The steps that the scheduler may take: any thread's, in any order.
pub data Step {A : Type 0} (limit target_count : ℕ) : Pool A → Pool A → Type 0 where
  create :
      (p : Pool A)
      → p.main ≡ creating
      → length p.workers < limit
      → Step limit target_count p (record p { workers = p.workers ++ (ready ∷ []) })
  create_fails :
      (p : Pool A)
      → p.main ≡ creating
      → length p.workers < limit
      → Step limit target_count p (record p { main = joining true })
  all_created :
      (p : Pool A)
      → p.main ≡ creating
      → length p.workers ≡ limit
      → Step limit target_count p (record p { main = joining false })
  work :
      (p : Pool A) (w : ℕ) (r : A) (x : Worker)
      → get_elem? p.workers w ≡ some x
      → x ≢ finished
      → Step limit target_count p (thread_step target_count w r x p)

pub data Reach {A : Type 0} (limit target_count : ℕ) : Pool A → Type 0 where
  started : Reach limit target_count (start target_count)
  later :
      {p q : Pool A}
      → Reach limit target_count p
      → Step limit target_count p q
      → Reach limit target_count q

-- What the call does before it creates a thread: it returns, or it runs up to some number of them.
pub data Entered : Type 0 where
  returns : ℤ → Entered
  runs : ℕ → Entered

unfoldable pub worker_pool_enter : Bool → ℕ → ℤ → Bool → Entered
worker_pool_enter args_ok target_count max_workers alloc_ok =
    if target_count == 0
    then returns (pos 0)
    else if not args_ok
    then returns (negsuc 0)
    else if not alloc_ok
    then returns (negsuc 0)
    else runs (worker_limit max_workers target_count)

unfoldable pub worker_pool_return : Bool → Bool → ℤ
worker_pool_return create_failed join_failed =
    if create_failed || join_failed then negsuc 0 else pos 0
