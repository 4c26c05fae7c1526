-- ===== src/Plugin/FdTracker/Held.antt =====
-- src/plugin/fd_tracker.c: the descriptors that a run holds, and what stays true of them.
use cytadel_scan.Base.Slots.{get_elem?, set_elem, sum_of}
use cytadel_scan.Base.{
  ℕ, zero, suc, ◌+◌, ◌≤◌, ◌<◌, false, Option, none, some, List, [], ◌∷◌, ◌++◌, ◌≡◌, refl, ap, arith,
  length, ◌==◌, if◌then◌else◌, ◌⊎◌, All,
}
use cytadel_scan.Plugin.FdTracker.{FdTracker, open_fds, all_closed, Socket, Run}

abbrev pub is_it : ℕ → ℕ → ℕ
is_it f g = if f == g then 1 else 0

-- How often a descriptor went to `close`, and the slots and the untracked sockets that hold it.
abbrev pub times_closed : ℕ → List ℕ → ℕ
times_closed f closes = sum_of (is_it f) closes

abbrev pub in_slot : ℕ → Option ℕ → ℕ
in_slot f none = 0
in_slot f (some g) = is_it f g

abbrev pub loose_fd : ℕ → Option ℕ → Option ℕ → ℕ
loose_fd f fd (some i) = 0
loose_fd f fd none = in_slot f fd

abbrev pub loose : ℕ → Socket → ℕ
loose f s = loose_fd f s.fd s.track_idx

abbrev pub held : ℕ → Run → ℕ
held f r = times_closed f r.closes + sum_of (in_slot f) r.tracker.fds + sum_of (loose f) r.sockets

-- A tracked socket that is open has its descriptor in its slot, or the slot is closed.
abbrev pub IsBacked : FdTracker → Socket → Type 0
IsBacked t s =
    (i f : ℕ)
    → s.track_idx ≡ some i
    → s.fd ≡ some f
    → (i < t.count)
      × (t.freed ≡ false → (get_elem? t.fds i ≡ some (some f)) ⊎ (get_elem? t.fds i ≡ some none))

pub record Inv (r : Run) : Type 0 where
  pub once : (f : ℕ) → held f r ≤ 1
  pub fresh : (f : ℕ) → r.next ≤ f → held f r ≡ 0
  pub sized : r.tracker.freed ≡ false → length r.tracker.fds ≡ r.tracker.count
  pub backed : All (IsBacked r.tracker) r.sockets

pub open_fds-sum :
    (f : ℕ) (fds : List (Option ℕ)) → sum_of (is_it f) (open_fds fds) ≡ sum_of (in_slot f) fds
open_fds-sum f [] = refl
open_fds-sum f (none ∷ fds) = omega (arith, open_fds-sum f fds)
open_fds-sum f (some g ∷ fds) = omega (arith, open_fds-sum f fds)

pub all_closed-sum : (f : ℕ) (fds : List (Option ℕ)) → sum_of (in_slot f) (all_closed fds) ≡ 0
all_closed-sum f [] = refl
all_closed-sum f (x ∷ fds) = omega (arith, all_closed-sum f fds)

pub length-all_closed : (fds : List (Option ℕ)) → length (all_closed fds) ≡ length fds
length-all_closed [] = refl
length-all_closed (x ∷ fds) = ap suc (length-all_closed fds)

pub get_elem?-all_closed :
    (fds : List (Option ℕ)) (i : ℕ) → i < length fds → get_elem? (all_closed fds) i ≡ some none
unfolding get_elem?
get_elem?-all_closed [] i h = absurd (omega (arith, h))
get_elem?-all_closed (x ∷ fds) zero h = refl
get_elem?-all_closed (x ∷ fds) (suc i) h = get_elem?-all_closed fds i (omega (arith, h))

pub All-map :
    {A : Type 0} (P Q : A → Type 0) (xs : List A) → ((a : A) → P a → Q a) → All P xs → All Q xs
All-map P Q [] f h = tt
All-map P Q (x ∷ xs) f h = (f x h.0, All-map P Q xs f h.1)

pub All-set_elem :
    {A : Type 0} (P : A → Type 0) (xs : List A) (i : ℕ) (a : A)
    → P a
    → All P xs
    → All P (set_elem xs i a)
unfolding set_elem
All-set_elem P [] i a p h = tt
All-set_elem P (x ∷ xs) zero a p h = (p, h.1)
All-set_elem P (x ∷ xs) (suc i) a p h = (h.0, All-set_elem P xs i a p h.1)

pub All-get_elem? :
    {A : Type 0} (P : A → Type 0) (xs : List A) (i : ℕ) (a : A)
    → get_elem? xs i ≡ some a
    → All P xs
    → P a
unfolding get_elem?
All-get_elem? P [] i a e h = absurd (cc)
All-get_elem? P (x ∷ xs) zero a e h = let eq : x ≡ a = cc in rw eq at h.0
All-get_elem? P (x ∷ xs) (suc i) a e h = All-get_elem? P xs i a e h.1

pub get_elem?-append :
    {A : Type 0} (xs ys : List A) (i : ℕ) → i < length xs → get_elem? (xs ++ ys) i ≡ get_elem? xs i
unfolding get_elem?
get_elem?-append [] ys i h = absurd (omega (arith, h))
get_elem?-append (x ∷ xs) ys zero h = refl
get_elem?-append (x ∷ xs) ys (suc i) h = get_elem?-append xs ys i (omega (arith, h))

pub get_elem?-snoc :
    {A : Type 0} (xs : List A) (a : A) (n : ℕ)
    → length xs ≡ n
    → get_elem? (xs ++ (a ∷ [])) n ≡ some a
unfolding get_elem?
get_elem?-snoc [] a zero h = refl
get_elem?-snoc [] a (suc n) h = absurd (omega (arith, h))
get_elem?-snoc (x ∷ xs) a zero h = absurd (omega (arith, h))
get_elem?-snoc (x ∷ xs) a (suc n) h = get_elem?-snoc xs a n (omega (arith, h))

abbrev pub sock_of : Option ℕ → Option ℕ → Socket
sock_of fd index = record { fd = fd; track_idx = index }
