-- ===== src/WorkerPool/Claim.antt =====
-- src/core/worker_pool.c: each index is handed out once, whatever the order of the steps.
use cytadel_scan.Base.Slots.{
  get_elem?, set_elem, length-set_elem, get_elem?-set_elem, sum_of, sum_of-append, sum_of-set_elem,
  sum_of-get_elem?, sum_of-le,
}
use cytadel_scan.Base.{
  ℕ, ◌+◌, ◌%◌, ◌^◌, ◌≤◌, ◌<◌, some, [], ◌∷◌, ◌++◌, ◌≡◌, refl, ◌∙◌, arith, length, length-append,
  leb, ◌==◌, Bool-cases, inl, inr,
}
use cytadel_scan.WorkerPool.{
  Worker, ready, scanning, finished, Pool, start, thread_step, Step, create, create_fails,
  all_created, work, Reach, started, later,
}
use cytadel_scan.WorkerPool.Weights.{
  holding, is_written, waiting, gone, Inv, gone-le, empty_slots-get_elem?, length-empty_slots,
  holding_self,
}

module _ {A : Type 0} (limit target_count : ℕ)
    (small : target_count + limit < 18446744073709551615) where
  start-Inv : Inv {A = A} limit target_count (start target_count)
  start-Inv = record {
    claimed = λ i h. ground (arith, empty_slots-get_elem? A target_count i);
    bounded = λ i h. refl;
    size = length-empty_slots A target_count;
    few = omega arith;
    cursor = omega arith;
    drained = λ h. absurd (omega arith);
  }

  create-Inv :
      (p : Pool A)
      → length p.workers < limit
      → Inv limit target_count p
      → Inv limit target_count (record p { workers = p.workers ++ (ready ∷ []) })
  create-Inv p room v = record {
    claimed =
        λ i h. rw (sum_of-append (holding i) p.workers (ready ∷ [])) (omega (arith, v.claimed i h));
    bounded = λ i h. omega (arith, sum_of-append (holding i) p.workers (ready ∷ []), v.bounded i h);
    size = v.size;
    few = omega (arith, length-append p.workers (ready ∷ []));
    cursor = omega (arith, sum_of-append gone p.workers (ready ∷ []), v.cursor);
    drained = λ h. v.drained (omega (arith, sum_of-append gone p.workers (ready ∷ [])));
  }

  pub fits :
      (p : Pool A) → Inv limit target_count p → (p.next_index + 1) % 2 ^ 64 ≡ p.next_index + 1
  fits p v = omega (arith, v.cursor, v.few, sum_of-le gone gone-le p.workers)

  -- The cursor is at the end: the thread leaves.
  leave-Inv :
      (p : Pool A) (w : ℕ)
      → get_elem? p.workers w ≡ some ready
      → target_count ≤ p.next_index
      → Inv limit target_count p
      → Inv limit target_count
          (record p { next_index = p.next_index + 1; workers = set_elem p.workers w finished })
  leave-Inv p w at_w past v = record {
    claimed = λ i h.
        ground (arith, v.claimed i h, sum_of-set_elem (holding i) p.workers w ready finished at_w);
    bounded = λ i h.
        omega (arith, v.bounded i h, sum_of-set_elem (holding i) p.workers w ready finished at_w);
    size = v.size;
    few = omega (arith, v.few, length-set_elem p.workers w finished);
    cursor = omega (arith, v.cursor, sum_of-set_elem gone p.workers w ready finished at_w);
    drained = λ h. omega arith;
  }

  -- The thread gets the index at the cursor.
  take-Inv :
      (p : Pool A) (w : ℕ)
      → get_elem? p.workers w ≡ some ready
      → p.next_index < target_count
      → Inv limit target_count p
      → Inv limit target_count (record p {
        next_index = p.next_index + 1;
        workers = set_elem p.workers w (scanning p.next_index);
      })
  take-Inv p w at_w front v = record {
    claimed = λ i h. ground (
      arith,
      v.claimed i h,
      sum_of-set_elem (holding i) p.workers w ready (scanning p.next_index) at_w,
    );
    bounded = λ i h. ground (
      arith,
      v.bounded i h,
      sum_of-set_elem (holding i) p.workers w ready (scanning p.next_index) at_w,
    );
    size = v.size;
    few = omega (arith, v.few, length-set_elem p.workers w (scanning p.next_index));
    cursor = omega (arith, v.cursor);
    drained = λ h.
        let same = sum_of-set_elem gone p.workers w ready (scanning p.next_index) at_w in
        let end = v.drained (omega (arith, same, h)) in absurd (omega (arith, end));
  }

  scanned-lt :
      (p : Pool A) (w k : ℕ)
      → get_elem? p.workers w ≡ some (scanning k)
      → Inv limit target_count p
      → k < target_count
  scanned-lt p w k at_w v = elim (Bool-cases (leb target_count k)) [
    | inl e ↦ absurd (
        ground (
          arith,
          v.bounded k (ground arith),
          holding_self k,
          sum_of-get_elem? (holding k) p.workers w (scanning k) at_w,
        ))
    | inr e ↦ ground arith
  ]

  -- The thread writes its slot.
  write-Inv :
      (p : Pool A) (w k : ℕ) (r : A)
      → get_elem? p.workers w ≡ some (scanning k)
      → Inv limit target_count p
      → Inv limit target_count (record p {
        out_results = set_elem p.out_results k (some r);
        workers = set_elem p.workers w ready;
      })
  write-Inv p w k r at_w v =
      let in_range = scanned-lt p w k at_w v in
      record {
        claimed = λ i h.
            let after =
              get_elem?-set_elem p.out_results k i (some r) (omega (arith, v.size, in_range)) in
            let moved = sum_of-set_elem (holding i) p.workers w (scanning k) ready at_w in
            let was = v.claimed i h in
            elim (Bool-cases (k == i)) [
              | inl e ↦ rw after (rw e (ground (arith, moved, was)))
              | inr e ↦ rw after (rw e (ground (arith, moved, was)))
            ];
        bounded = λ i h.
            omega (
              arith,
              v.bounded i h,
              sum_of-set_elem (holding i) p.workers w (scanning k) ready at_w,
            );
        size = length-set_elem p.out_results k (some r) ∙ v.size;
        few = omega (arith, v.few, length-set_elem p.workers w ready);
        cursor = omega (arith, v.cursor, sum_of-set_elem gone p.workers w (scanning k) ready at_w);
        drained = λ h.
            v.drained (omega (arith, h, sum_of-set_elem gone p.workers w (scanning k) ready at_w));
      }

  thread_step-Inv :
      (p : Pool A) (w : ℕ) (r : A) (x : Worker)
      → get_elem? p.workers w ≡ some x
      → Inv limit target_count p
      → Inv limit target_count (thread_step target_count w r x p)
  unfolding thread_step
  thread_step-Inv p w r finished at_w v = v
  thread_step-Inv p w r (scanning k) at_w v = write-Inv p w k r at_w v
  thread_step-Inv p w r ready at_w v = elim (Bool-cases (leb target_count p.next_index)) [
    | inl e ↦ rw (e, fits p v) (leave-Inv p w at_w (ground arith) v)
    | inr e ↦ rw (e, fits p v) (take-Inv p w at_w (ground arith) v)
  ]

  Step-Inv :
      {p q : Pool A}
      → Step limit target_count p q
      → Inv limit target_count p
      → Inv limit target_count q
  Step-Inv (create p m room) v = create-Inv p room v
  Step-Inv (create_fails p m room) v = record {
    claimed = v.claimed;
    bounded = v.bounded;
    size = v.size;
    few = v.few;
    cursor = v.cursor;
    drained = v.drained;
  }
  Step-Inv (all_created p m full) v = record {
    claimed = v.claimed;
    bounded = v.bounded;
    size = v.size;
    few = v.few;
    cursor = v.cursor;
    drained = v.drained;
  }
  Step-Inv (work p w r x at_w busy) v = thread_step-Inv p w r x at_w v

  pub Reach-Inv : {p : Pool A} → Reach limit target_count p → Inv limit target_count p
  Reach-Inv started = start-Inv
  Reach-Inv (later s step) = Step-Inv step (Reach-Inv s)

-- In every state that a schedule can reach, each index of a target is in exactly one of three
-- states: the cursor has not come to it, one thread alone scans it, or its slot is written.
pub Reach-Claimed :
    {A : Type 0} (limit target_count : ℕ) (p : Pool A)
    → target_count + limit < 18446744073709551615
    → Reach limit target_count p
    → (i : ℕ) → i < target_count
    → sum_of (holding i) p.workers + is_written (get_elem? p.out_results i) + waiting i p.next_index
      ≡ 1
Reach-Claimed limit target_count p small reach i h =
    (Reach-Inv limit target_count small reach).claimed i h
