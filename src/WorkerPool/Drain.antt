-- ===== src/WorkerPool/Drain.antt =====
-- src/core/worker_pool.c: a run ends, and then every target has its result.
use cytadel_scan.Base.Slots.{get_elem?, length-set_elem, sum_of, sum_of-append, sum_of-set_elem}
use cytadel_scan.Base.{
  ℕ, suc, ◌+◌, ◌-◌, ◌*◌, ◌≤◌, ◌<◌, Bool, false, Option, none, some, List, [], ◌∷◌, ◌++◌, ◌≡◌, ◌≢◌,
  refl, arith, length, length-append, leb, Bool-cases, inl, inr, ◌⊎◌, All,
}
use cytadel_scan.WorkerPool.Claim.{Reach-Inv, fits}
use cytadel_scan.WorkerPool.Weights.{Inv, holding, is_written, gone}
use cytadel_scan.Base.Int.{ℤ, pos, negsuc}
use cytadel_scan.WorkerPool.{
  at_least_one, worker_limit, worker_pool_enter, runs, hard_cap_workers, Worker, ready, scanning,
  finished, Main, creating, joining, Pool, thread_step, Step, create, create_fails, all_created,
  work, Reach,
}

abbrev pub AllFinished : List Worker → Type 0
AllFinished = All (λ x. x ≡ finished)

finished-gone : (ws : List Worker) → AllFinished ws → sum_of gone ws ≡ length ws
finished-gone [] h = refl
finished-gone (x ∷ ws) h = rw h.0 (omega (arith, finished-gone ws h.1))

finished-holding : (i : ℕ) (ws : List Worker) → AllFinished ws → sum_of (holding i) ws ≡ 0
finished-holding i [] h = refl
finished-holding i (x ∷ ws) h = rw h.0 (omega (arith, finished-holding i ws h.1))

written_slot :
    {A : Type 0} (o : Option (Option A)) → is_written o ≡ 1 → (r : A) × (o ≡ some (some r))
written_slot none h = absurd (omega (arith, h))
written_slot (some none) h = absurd (omega (arith, h))
written_slot (some (some r)) h = (r, refl)

-- Once all threads have left, and there was one at least, every target has a result, whichever
-- threads could not be created and however the steps of the others were interleaved.
pub Reach-drained :
    {A : Type 0} (limit target_count : ℕ) (p : Pool A)
    → target_count + limit < 18446744073709551615
    → Reach limit target_count p
    → AllFinished p.workers
    → 0 < length p.workers
    → (i : ℕ) → i < target_count
    → (r : A) × (get_elem? p.out_results i ≡ some (some r))
Reach-drained limit target_count p small reach over some_thread i h =
    let v = Reach-Inv limit target_count small reach in
    let behind = v.drained (omega (arith, finished-gone p.workers over, some_thread)) in
    written_slot (get_elem? p.out_results i)
      (ground (arith, v.claimed i h, finished-holding i p.workers over, behind))

-- What is left to do: two steps for an index, one for a thread to leave.
abbrev pub effort : Worker → ℕ
effort ready = 1
effort (scanning k) = 2
effort finished = 0

abbrev pub main_effort : Main → ℕ
main_effort creating = 1
main_effort (joining failed) = 0

abbrev pub measure : {A : Type 0} → ℕ → ℕ → Pool A → ℕ
measure limit target_count p =
    2 * (target_count - p.next_index)
    + sum_of effort p.workers
    + 2 * (limit - length p.workers)
    + main_effort p.main

thread_step-measure :
    {A : Type 0} (limit target_count : ℕ) (small : target_count + limit < 18446744073709551615)
    (p : Pool A) (w : ℕ) (r : A) (x : Worker)
    → get_elem? p.workers w ≡ some x
    → x ≢ finished
    → Inv limit target_count p
    → measure limit target_count (thread_step target_count w r x p) < measure limit target_count p
unfolding thread_step
thread_step-measure limit target_count small p w r finished at_w busy v = absurd (busy refl)
thread_step-measure limit target_count small p w r (scanning k) at_w busy v = omega (
  arith,
  length-set_elem p.workers w ready,
  sum_of-set_elem effort p.workers w (scanning k) ready at_w,
)
thread_step-measure limit target_count small p w r ready at_w busy v =
    let next = fits limit target_count small p v in
    elim (Bool-cases (leb target_count p.next_index)) [
      | inl e ↦
          rw (e, next)
            (omega (
              arith,
              length-set_elem p.workers w finished,
              sum_of-set_elem effort p.workers w ready finished at_w,
            ))
      | inr e ↦
          let front : p.next_index < target_count = ground arith in
          rw (e, next)
            (omega (
              arith,
              front,
              length-set_elem p.workers w (scanning p.next_index),
              sum_of-set_elem effort p.workers w ready (scanning p.next_index) at_w,
            ))
    ]

Step-measure :
    {A : Type 0} (limit target_count : ℕ) (small : target_count + limit < 18446744073709551615)
    {p q : Pool A}
    → Step limit target_count p q
    → Inv limit target_count p
    → measure limit target_count q < measure limit target_count p
Step-measure limit target_count small (create p m room) v = rw m (
    omega
      (arith, length-append p.workers (ready ∷ []), sum_of-append effort p.workers (ready ∷ [])))
Step-measure limit target_count small (create_fails p m room) v = rw m (omega arith)
Step-measure limit target_count small (all_created p m full) v = rw m (omega arith)
Step-measure limit target_count small (work p w r x at_w busy) v =
    thread_step-measure limit target_count small p w r x at_w busy v

busy_worker :
    (ws : List Worker)
    → AllFinished ws ⊎ ((w : ℕ) × (x : Worker) × (get_elem? ws w ≡ some x) × (x ≢ finished))
unfolding get_elem?
busy_worker [] = inl tt
busy_worker (ready ∷ ws) = inr (0, ready, refl, λ e. cc)
busy_worker (scanning k ∷ ws) = inr (0, scanning k, refl, λ e. cc)
busy_worker (finished ∷ ws) = elim (busy_worker ws) [
  | inl all ↦ inl (refl, all)
  | inr (w, x, at_w, busy) ↦ inr (suc w, x, at_w, busy)
]

Main-cases : (m : Main) → (m ≡ creating) ⊎ ((f : Bool) × (m ≡ joining f))
Main-cases creating = inl refl
Main-cases (joining f) = inr (f, refl)

-- The caller waits for its threads, and all of them have left.
abbrev pub Stopped : {A : Type 0} → Pool A → Type 0
Stopped p = ((failed : Bool) × (p.main ≡ joining failed)) × AllFinished p.workers

can_step :
    {A : Type 0} (limit target_count : ℕ) (p : Pool A)
    → A
    → length p.workers ≤ limit
    → ((q : Pool A) × Step limit target_count p q) ⊎ Stopped p
can_step limit target_count p r few = elim (Main-cases p.main) [
  | inl m ↦ elim (Bool-cases (leb limit (length p.workers))) [
    | inl full ↦ inl (record p { main = joining false }, all_created p m (ground arith))
    | inr room ↦ inl (record p { workers = p.workers ++ (ready ∷ []) }, create p m (ground arith))
  ]
  | inr joins ↦ elim (busy_worker p.workers) [
    | inl all ↦ inr (joins, all)
    | inr (w, x, at_w, busy) ↦ inl (thread_step target_count w r x p, work p w r x at_w busy)
  ]
]

-- In every state that can be reached, each step lowers a measure, so that no schedule runs for ever,
-- and some step can be taken unless the caller waits for threads that have all left.
pub Reach-terminates :
    {A : Type 0} (limit target_count : ℕ) (p : Pool A)
    → target_count + limit < 18446744073709551615
    → A
    → Reach limit target_count p
    → ((q : Pool A)
        → Step limit target_count p q
        → measure limit target_count q < measure limit target_count p)
      × (((q : Pool A) × Step limit target_count p q) ⊎ Stopped p)
Reach-terminates limit target_count p small r reach =
    let v = Reach-Inv limit target_count small reach in
    (λ q step. Step-measure limit target_count small step v, can_step limit target_count p r v.few)

at_least_one-le : (m : ℤ) → 1 ≤ at_least_one m
at_least_one-le (negsuc n) = omega arith
at_least_one-le (pos n) = ground arith

-- A call that creates threads has targets, and its limit is at least 1, at most 1024 and at most the
-- number of targets.
pub worker_pool_enter-bounds :
    (args_ok : Bool) (target_count : ℕ) (max_workers : ℤ) (alloc_ok : Bool) (limit : ℕ)
    → worker_pool_enter args_ok target_count max_workers alloc_ok ≡ runs limit
    → (1 ≤ limit) × (limit ≤ hard_cap_workers) × (limit ≤ target_count)
unfolding worker_pool_enter worker_limit
worker_pool_enter-bounds args_ok target_count max_workers alloc_ok limit h =
    ground (arith, at_least_one-le max_workers)
