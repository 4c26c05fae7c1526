-- ===== src/Plugin/FdTracker/Once.antt =====
-- src/plugin/fd_tracker.c: no descriptor is closed twice.
use cytadel_scan.Base.Slots.{get_elem?, sum_of-append, sum_of-get_elem?}
use cytadel_scan.Base.{
  [], ◌∷◌, All-append_left, ℕ, ◌≤◌, true, false, some, ◌≡◌, refl, sym, ◌∙◌, arith, inl, inr,
}
use cytadel_scan.Plugin.FdTracker.{
  Added, fd_tracker_add, opened, without_socket, open_raises, open_fds, fd_tracker_force_close_all,
  fd_tracker_free, Run, begin, swept, FdStep, open_sock, close_sock, sweep, release, FdReach, begun,
  and_then,
}
use cytadel_scan.Plugin.FdTracker.Held.{
  loose, sock_of, is_it, times_closed, in_slot, IsBacked, Inv, open_fds-sum, All-map,
}
use cytadel_scan.Plugin.FdTracker.Close.{force_close_all-cases, sweep-Inv, close-Inv}
use cytadel_scan.Plugin.FdTracker.Open.{open-Inv}

begin-Inv : Inv begin
begin-Inv = record {
  once = λ f. omega arith;
  fresh = λ f h. omega arith;
  sized = λ h. refl;
  backed = tt;
}

release-Inv : (r : Run) → Inv r → Inv (record r { tracker = fd_tracker_free r.tracker })
unfolding fd_tracker_free
release-Inv r v = record {
  once = λ f. omega (arith, v.once f);
  fresh = λ f h. omega (arith, v.fresh f h);
  sized = λ h. absurd (cc);
  backed =
      All-map (IsBacked r.tracker) (IsBacked (fd_tracker_free r.tracker)) r.sockets
        (λ s b i f at_i at_f. ((b i f at_i at_f).0, λ h. absurd (cc))) v.backed;
}

without_socket-Inv : (r : Run) (a : Added) → Inv (opened r a) → Inv (without_socket r a)
without_socket-Inv r a v =
    let s = sock_of (some r.next) a.index in
    record {
      once = λ f. omega (arith, v.once f, sum_of-append (loose f) r.sockets (s ∷ []));
      fresh = λ f h. omega (arith, v.fresh f h, sum_of-append (loose f) r.sockets (s ∷ []));
      sized = v.sized;
      backed = All-append_left (IsBacked a.tracker) r.sockets (s ∷ []) v.backed;
    }

step-Inv : (p q : Run) → FdStep p q → Inv p → Inv q
step-Inv p q (open_sock r realloc_ok live) v = open-Inv r realloc_ok live v
step-Inv p q (open_raises r realloc_ok live) v =
    without_socket-Inv r (fd_tracker_add realloc_ok r.tracker r.next) (open-Inv r realloc_ok live v)
step-Inv p q (close_sock r i s at_i) v = close-Inv r i s.fd s.track_idx v at_i
step-Inv p q (sweep r) v = sweep-Inv r v
step-Inv p q (release r) v = release-Inv r v

reach-Inv : (r : Run) → FdReach r → Inv r
reach-Inv r begun = begin-Inv
reach-Inv r (and_then {p} {q} before step) = step-Inv p q step (reach-Inv p before)

-- In every run, however its plugin, the finalizers and the sweep are ordered, no descriptor goes to
-- `close` twice; a sweep before the tracker is freed leaves none open that the tracker knows, each
-- of them closed once.
pub FdReach-once :
    (r : Run)
    → FdReach r
    → ((f : ℕ) → times_closed f r.closes ≤ 1)
      × ((i f : ℕ)
          → r.tracker.freed ≡ false
          → get_elem? r.tracker.fds i ≡ some (some f)
          → times_closed f (swept r (fd_tracker_force_close_all r.tracker)).closes ≡ 1)
FdReach-once r reach =
    let v = reach-Inv r reach in
    (
      λ f. omega (arith, v.once f),
      λ i f live at_i. elim (force_close_all-cases r.tracker) [
        | inl (freed, e) ↦ let bad : true ≡ false = sym freed ∙ live in absurd (cc)
        | inr (free, e) ↦
            let one : in_slot f (some f) ≡ 1 = ground arith in
            let there = sum_of-get_elem? (in_slot f) r.tracker.fds i (some f) at_i in
            let sum = sum_of-append (is_it f) r.closes (open_fds r.tracker.fds) in
            let all = open_fds-sum f r.tracker.fds in
            rw e (omega (arith, v.once f, one, there, sum, all))
      ],
    )
