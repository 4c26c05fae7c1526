-- ===== src/Plugin/FdTracker/Open.antt =====
-- src/plugin/fd_tracker.c: the steps that open.
use cytadel_scan.Base.Slots.{sum_of, sum_of-append}
use cytadel_scan.Base.{
  ℕ, ◌+◌, ◌*◌, ◌≤◌, ◌<◌, Bool, true, false, Option, none, some, [], ◌∷◌, ◌≡◌, refl, ◌∙◌, ap, arith,
  length, length-append, ◌==◌, if◌then◌else◌, Bool-cases, inl, inr, ◌⊎◌, All-append,
}
use cytadel_scan.Plugin.FdTracker.{FdTracker, tracked_fd, fd_tracker_add, Socket, Run, opened}
use cytadel_scan.Plugin.FdTracker.Held.{
  is_it, in_slot, loose, held, IsBacked, Inv, All-map, get_elem?-append, get_elem?-snoc, sock_of,
}

-- What a step owes when it adds a socket with the next name.
pub record Gains (r : Run) (u : FdTracker) (index : Option ℕ) : Type 0 where
  pub gained :
      (f : ℕ)
      → sum_of (in_slot f) u.fds + loose f (sock_of (some r.next) index)
        ≡ sum_of (in_slot f) r.tracker.fds + is_it f r.next
  pub grown_sized : u.freed ≡ false → length u.fds ≡ u.count
  pub grown_backed : (s : Socket) → IsBacked r.tracker s → IsBacked u s
  pub new_backed : IsBacked u (sock_of (some r.next) index)

pub is_it-small : (f g : ℕ) → is_it f g ≤ 1
is_it-small f g = ground arith

pub is_it-below : (f g : ℕ) → g < f → is_it f g ≡ 0
is_it-below f g h = ground arith

pub opened-Inv :
    (r : Run) (u : FdTracker) (index : Option ℕ)
    → Inv r
    → Gains r u index
    → Inv (opened r (record { tracker = u; index = index }))
opened-Inv r u index v g =
    let s = sock_of (some r.next) index in
    let total : (f : ℕ)
        → held f (opened r (record { tracker = u; index = index })) ≡ held f r + is_it f r.next =
      λ f. omega (arith, g.gained f, sum_of-append (loose f) r.sockets (s ∷ [])) in
    record {
      once = λ f. elim (Bool-cases (f == r.next)) [
        | inl e ↦
            let same : f ≡ r.next = ground arith in
            omega (arith, total f, v.fresh f (omega (arith, same)), is_it-small f r.next)
        | inr e ↦
            let other : is_it f r.next ≡ 0 = ground arith in omega (arith, total f, v.once f, other)
      ];
      fresh = λ f h.
          omega
            (arith, total f, v.fresh f (omega (arith, h)), is_it-below f r.next (omega (arith, h)));
      sized = g.grown_sized;
      backed =
          All-append (IsBacked u) r.sockets (s ∷ [])
            (All-map (IsBacked r.tracker) (IsBacked u) r.sockets g.grown_backed v.backed)
            (g.new_backed, tt);
    }

pub untracked-Gains : (r : Run) → Inv r → Gains r r.tracker none
untracked-Gains r v = record {
  gained = λ f. omega arith;
  grown_sized = v.sized;
  grown_backed = λ s b. b;
  new_backed = λ i f at_i at_f. absurd (cc);
}

pub tracked_fd-Gains :
    (r : Run) (capacity : ℕ)
    → r.tracker.freed ≡ false
    → Inv r
    → Gains r (tracked_fd r.tracker r.next capacity).tracker (some r.tracker.count)
tracked_fd-Gains r capacity live v =
    let t = r.tracker in
    let size = v.sized live in
    record {
      gained = λ f. omega (arith, sum_of-append (in_slot f) t.fds (some r.next ∷ []));
      grown_sized = λ h. omega (arith, length-append t.fds (some r.next ∷ []), size);
      grown_backed = λ s b i f at_i at_f.
          let (bound, slot) = b i f at_i at_f in
          let same = get_elem?-append t.fds (some r.next ∷ []) i (omega (arith, bound, size)) in
          (
            omega (arith, bound),
            λ h. elim (slot h) [ inl x ↦ inl (same ∙ x) | inr x ↦ inr (same ∙ x) ],
          );
      new_backed = λ i f at_i at_f.
          let is_last : t.count ≡ i = cc in
          let is_new : r.next ≡ f = cc in
          (
            omega (arith, is_last),
            λ h. inl (
                get_elem?-snoc t.fds (some r.next) i (size ∙ is_last)
                ∙ ap (λ n. some (some n)) is_new),
          );
    }

pub add-cases :
    (realloc_ok : Bool) (t : FdTracker) (fd : ℕ)
    → (fd_tracker_add realloc_ok t fd ≡ record { tracker = t; index = none })
      ⊎ ((capacity : ℕ) × (fd_tracker_add realloc_ok t fd ≡ tracked_fd t fd capacity))
unfolding fd_tracker_add
add-cases realloc_ok t fd = elim (Bool-cases (t.count == t.capacity)) [
  | inr e ↦ inr (t.capacity, rw e refl)
  | inl e ↦ grow realloc_ok e
]
  where
    grow :
        (ok : Bool)
        → (t.count == t.capacity) ≡ true
        → (fd_tracker_add ok t fd ≡ record { tracker = t; index = none })
          ⊎ ((capacity : ℕ) × (fd_tracker_add ok t fd ≡ tracked_fd t fd capacity))
    grow false e = inl (rw e refl)
    grow true e = inr (if t.capacity == 0 then 8 else t.capacity * 2, rw e refl)

pub open-Inv :
    (r : Run) (realloc_ok : Bool)
    → r.tracker.freed ≡ false
    → Inv r
    → Inv (opened r (fd_tracker_add realloc_ok r.tracker r.next))
open-Inv r realloc_ok live v = elim (add-cases realloc_ok r.tracker r.next) [
  | inl e ↦ rw e (opened-Inv r r.tracker none v (untracked-Gains r v))
  | inr (capacity, e) ↦ rw e (
      opened-Inv r (tracked_fd r.tracker r.next capacity).tracker (some r.tracker.count) v
        (tracked_fd-Gains r capacity live v))
]
