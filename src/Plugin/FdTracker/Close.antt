-- ===== src/Plugin/FdTracker/Close.antt =====
-- src/plugin/fd_tracker.c: the steps that close.
use cytadel_scan.Base.Slots.{
  get_elem?, set_elem, get_elem?-bound, length-set_elem, get_elem?-set_elem, sum_of, sum_of-append,
  sum_of-set_elem,
}
use cytadel_scan.Base.{
  ℕ, ◌+◌, ◌<◌, true, false, Option, none, some, List, [], ◌∷◌, ◌++◌, ◌≡◌, refl, sym, ◌∙◌, ap, arith,
  length, ◌==◌, if◌then◌else◌, Bool-cases, inl, inr, ◌⊎◌,
}
use cytadel_scan.Plugin.FdTracker.{
  is_unset, FdTracker, fd_tracker_mark_closed, open_fds, all_closed, fd_tracker_force_close_all,
  fd_tracker_is_closed, fd_tracker_is_tracked, Socket, socket_close, Run, closed_at, swept,
}
use cytadel_scan.Plugin.FdTracker.Held.{
  is_it, times_closed, in_slot, loose, IsBacked, Inv, open_fds-sum, all_closed-sum,
  length-all_closed, get_elem?-all_closed, All-map, All-set_elem, All-get_elem?, sock_of,
}

-- What a step owes to the invariant when it changes the tracker and passes descriptors to `close`.
pub record Moves (t : FdTracker) (lost : ℕ → ℕ) (u : FdTracker) (passed : List ℕ) : Type 0 where
  pub moved :
      (f : ℕ) → times_closed f passed + sum_of (in_slot f) u.fds ≡ sum_of (in_slot f) t.fds + lost f
  pub still_sized : u.freed ≡ false → length u.fds ≡ u.count
  pub still_backed : (s : Socket) → IsBacked t s → IsBacked u s

pub swept-Inv :
    (r : Run) (u : FdTracker) (passed : List ℕ)
    → Inv r
    → Moves r.tracker (λ f. 0) u passed
    → Inv (record r { tracker = u; closes = r.closes ++ passed })
swept-Inv r u passed v m = record {
  once = λ f. omega (arith, v.once f, m.moved f, sum_of-append (is_it f) r.closes passed);
  fresh = λ f h. omega (arith, v.fresh f h, m.moved f, sum_of-append (is_it f) r.closes passed);
  sized = m.still_sized;
  backed = All-map (IsBacked r.tracker) (IsBacked u) r.sockets m.still_backed v.backed;
}

pub closed_at-Inv :
    (r : Run) (i : ℕ) (s s' : Socket) (u : FdTracker) (passed : List ℕ)
    → Inv r
    → get_elem? r.sockets i ≡ some s
    → ((f : ℕ) → loose f s' ≡ 0)
    → IsBacked u s'
    → Moves r.tracker (λ f. loose f s) u passed
    → Inv (record r { tracker = u; sockets = set_elem r.sockets i s'; closes = r.closes ++ passed })
closed_at-Inv r i s s' u passed v at_i tight back m = record {
  once = λ f. omega (
    arith,
    v.once f,
    m.moved f,
    sum_of-append (is_it f) r.closes passed,
    tight f,
    sum_of-set_elem (loose f) r.sockets i s s' at_i,
  );
  fresh = λ f h. omega (
    arith,
    v.fresh f h,
    m.moved f,
    sum_of-append (is_it f) r.closes passed,
    tight f,
    sum_of-set_elem (loose f) r.sockets i s s' at_i,
  );
  sized = m.still_sized;
  backed =
      All-set_elem (IsBacked u) r.sockets i s' back
        (All-map (IsBacked r.tracker) (IsBacked u) r.sockets m.still_backed v.backed);
}

pub stay-Moves :
    (t : FdTracker) (lost : ℕ → ℕ)
    → (t.freed ≡ false → length t.fds ≡ t.count)
    → (passed : List ℕ) → ((f : ℕ) → times_closed f passed ≡ lost f)
    → Moves t lost t passed
stay-Moves t lost sized passed same = record {
  moved = λ f. omega (arith, same f);
  still_sized = sized;
  still_backed = λ s b. b;
}

pub force_close_all-cases :
    (t : FdTracker)
    → ((t.freed ≡ true) × (fd_tracker_force_close_all t ≡ record { tracker = t; passed = [] }))
      ⊎ ((t.freed ≡ false)
          × (fd_tracker_force_close_all t
              ≡ record { tracker = record t { fds = all_closed t.fds }; passed = open_fds t.fds }))
unfolding fd_tracker_force_close_all
force_close_all-cases t = elim (Bool-cases t.freed) [
  | inl e ↦ inl (
    e,
    ap
        (λ b.
          if b
          then (record { tracker = t; passed = [] })
          else (record { tracker = record t { fds = all_closed t.fds }; passed = open_fds t.fds }))
        e,
  )
  | inr e ↦ inr (
    e,
    ap
        (λ b.
          if b
          then (record { tracker = t; passed = [] })
          else (record { tracker = record t { fds = all_closed t.fds }; passed = open_fds t.fds }))
        e,
  )
]

pub sweep-Inv : (r : Run) → Inv r → Inv (swept r (fd_tracker_force_close_all r.tracker))
sweep-Inv r v = elim (force_close_all-cases r.tracker) [
  | inl (e, same) ↦
      rw same (swept-Inv r r.tracker [] v (stay-Moves r.tracker (λ f. 0) v.sized [] (λ f. refl)))
  | inr (e, same) ↦
      let t = r.tracker in
      let moves : Moves t (λ f. 0) (record t { fds = all_closed t.fds }) (open_fds t.fds) = record {
        moved = λ f. omega (arith, open_fds-sum f t.fds, all_closed-sum f t.fds);
        still_sized = λ h. length-all_closed t.fds ∙ v.sized h;
        still_backed = λ s b i f at_i at_f.
            let (bound, rest) = b i f at_i at_f in
            (bound, λ h. inr (get_elem?-all_closed t.fds i (omega (arith, bound, v.sized h))));
      } in
      rw same (swept-Inv r (record t { fds = all_closed t.fds }) (open_fds t.fds) v moves)
]

abbrev pub with_slot : FdTracker → ℕ → FdTracker
with_slot t k = record t { fds = set_elem t.fds k none }

pub mark-Moves :
    (t : FdTracker) (k f : ℕ)
    → (t.freed ≡ false → length t.fds ≡ t.count)
    → get_elem? t.fds k ≡ some (some f)
    → Moves t (λ g. 0) (with_slot t k) (f ∷ [])
mark-Moves t k f sized at_k = record {
  moved = λ g. omega (arith, sum_of-set_elem (in_slot g) t.fds k (some f) none at_k);
  still_sized = λ h. length-set_elem t.fds k none ∙ sized h;
  still_backed =
      λ s b i g at_i at_g. let (bound, rest) = b i g at_i at_g in (bound, λ h. slot i g (rest h));
}
  where
    slot :
        (i g : ℕ)
        → (get_elem? t.fds i ≡ some (some g)) ⊎ (get_elem? t.fds i ≡ some none)
        → (get_elem? (set_elem t.fds k none) i ≡ some (some g))
          ⊎ (get_elem? (set_elem t.fds k none) i ≡ some none)
    slot i g old =
        let put = get_elem?-set_elem t.fds k i none (get_elem?-bound t.fds k (some f) at_k) in
        elim (Bool-cases (k == i)) [
          | inl e ↦ inr (put ∙ rw e refl)
          | inr e ↦
              let same : get_elem? (set_elem t.fds k none) i ≡ get_elem? t.fds i =
                put ∙ rw e refl in
              elim old [ inl x ↦ inl (same ∙ x) | inr x ↦ inr (same ∙ x) ]
        ]

pub tracked_lem : (t : FdTracker) (k : ℕ) → k < t.count → fd_tracker_is_tracked t (some k) ≡ true
unfolding fd_tracker_is_tracked
tracked_lem t k h = ground arith

pub is_closed_freed :
    (t : FdTracker) (k : ℕ) → t.freed ≡ true → fd_tracker_is_closed t (some k) ≡ true
unfolding fd_tracker_is_closed
is_closed_freed t k h = ground arith

pub is_closed_live :
    (t : FdTracker) (k : ℕ)
    → k < t.count
    → t.freed ≡ false
    → fd_tracker_is_closed t (some k) ≡ is_unset (get_elem? t.fds k)
unfolding fd_tracker_is_closed
is_closed_live t k bound h = ground arith

pub mark_closed_live :
    (t : FdTracker) (k : ℕ)
    → k < t.count
    → t.freed ≡ false
    → fd_tracker_mark_closed t (some k) ≡ with_slot t k
unfolding fd_tracker_mark_closed
mark_closed_live t k bound h = ground arith

pub close_skips :
    (t : FdTracker) (f k : ℕ)
    → fd_tracker_is_tracked t (some k) ≡ true
    → fd_tracker_is_closed t (some k) ≡ true
    → socket_close t (sock_of (some f) (some k))
      ≡ record { tracker = t; sock = sock_of none (some k); passed = [] }
unfolding socket_close
close_skips t f k tracked closed = rw (tracked, closed) refl

pub close_marks :
    (t : FdTracker) (f k : ℕ)
    → fd_tracker_is_tracked t (some k) ≡ true
    → fd_tracker_is_closed t (some k) ≡ false
    → socket_close t (sock_of (some f) (some k)) ≡ record {
      tracker = fd_tracker_mark_closed t (some k);
      sock = sock_of none (some k);
      passed = f ∷ [];
    }
unfolding socket_close
close_marks t f k tracked closed = rw (tracked, closed) refl

pub shut-IsBacked : (t : FdTracker) (index : Option ℕ) → IsBacked t (sock_of none index)
shut-IsBacked t index i f at_i at_f = absurd (cc)

pub shut_loose : (index : Option ℕ) (f : ℕ) → loose f (sock_of none index) ≡ 0
shut_loose none f = refl
shut_loose (some k) f = refl

pub close-Inv :
    (r : Run) (i : ℕ) (fd index : Option ℕ)
    → Inv r
    → get_elem? r.sockets i ≡ some (sock_of fd index)
    → Inv (closed_at r i (socket_close r.tracker (sock_of fd index)))
unfolding socket_close fd_tracker_is_tracked
close-Inv r i none index v at_i =
    closed_at-Inv r i (sock_of none index) (sock_of none index) r.tracker [] v at_i
      (shut_loose index) (shut-IsBacked r.tracker index)
      (stay-Moves r.tracker (λ f. loose f (sock_of none index)) v.sized []
        (λ f. sym (shut_loose index f)))
close-Inv r i (some f) none v at_i =
    closed_at-Inv r i (sock_of (some f) none) (sock_of none none) r.tracker (f ∷ []) v at_i
      (shut_loose none) (shut-IsBacked r.tracker none)
      (stay-Moves r.tracker (λ g. is_it g f) v.sized (f ∷ []) (λ g. omega arith))
close-Inv r i (some f) (some k) v at_i =
    let s = sock_of (some f) (some k) in
    let (bound, slot) =
      All-get_elem? (IsBacked r.tracker) r.sockets i (sock_of (some f) (some k)) at_i v.backed k f
        refl refl in
    let tracked = tracked_lem r.tracker k bound in
    let skipped : fd_tracker_is_closed r.tracker (some k) ≡ true
        → Inv (closed_at r i (socket_close r.tracker s)) =
      λ closed. rw (close_skips r.tracker f k tracked closed) (
        closed_at-Inv r i s (sock_of none (some k)) r.tracker [] v at_i (shut_loose (some k))
          (shut-IsBacked r.tracker (some k))
          (stay-Moves r.tracker (λ g. 0) v.sized [] (λ g. refl))) in
    elim (Bool-cases r.tracker.freed) [
      | inl freed ↦ skipped (is_closed_freed r.tracker k freed)
      | inr live ↦
          let closed_is = is_closed_live r.tracker k bound live in
          elim (slot live) [
            | inr unset ↦ skipped (closed_is ∙ ap is_unset unset)
            | inl held_there ↦
                rw
                  (
                    close_marks r.tracker f k tracked (closed_is ∙ ap is_unset held_there),
                    mark_closed_live r.tracker k bound live,
                  )
                  (closed_at-Inv r i s (sock_of none (some k)) (with_slot r.tracker k) (f ∷ []) v
                    at_i (shut_loose (some k)) (shut-IsBacked (with_slot r.tracker k) (some k))
                    (mark-Moves r.tracker k f v.sized held_there))
          ]
    ]
