-- ===== src/Plugin/FdTracker.antt =====
-- src/plugin/fd_tracker.c, and the closing of a socket in src/plugin/api_socket.c: the descriptors
-- that a plugin's run opens. A descriptor is named by the call that opened it, so that a number that
-- the system gives out again is another name; a closed one is `none` where the source has -1.
pub mod Held
pub mod Close
pub mod Open
pub mod Once
mod Tests
use cytadel_scan.Base.Slots.{get_elem?, set_elem}
use cytadel_scan.Base.{
  ℕ, ◌+◌, ◌*◌, Bool, true, false, not, ◌&&◌, ◌||◌, Option, none, some, List, [], ◌∷◌, ◌++◌, ◌≡◌,
  length, leb, ◌==◌, if◌then◌else◌,
}

pub record FdTracker : Type 0 where
  pub fds : List (Option ℕ)
  pub count : ℕ
  pub capacity : ℕ
  pub freed : Bool

-- The index is `none` where the source has `(size_t)-1`.
pub record Added : Type 0 where
  pub tracker : FdTracker
  pub index : Option ℕ

abbrev pub tracked_fd : FdTracker → ℕ → ℕ → Added
tracked_fd t fd capacity = record {
  tracker = record t { fds = t.fds ++ (some fd ∷ []); count = t.count + 1; capacity = capacity };
  index = some t.count;
}

unfoldable pub fd_tracker_add : Bool → FdTracker → ℕ → Added
fd_tracker_add realloc_ok t fd =
    if t.count == t.capacity
    then (if not realloc_ok
        then record { tracker = t; index = none }
        else tracked_fd t fd (if t.capacity == 0 then 8 else t.capacity * 2))
    else tracked_fd t fd t.capacity

unfoldable pub fd_tracker_mark_closed : FdTracker → Option ℕ → FdTracker
fd_tracker_mark_closed t none = t
fd_tracker_mark_closed t (some track_idx) =
    if t.freed || leb t.count track_idx then t else record t { fds = set_elem t.fds track_idx none }

abbrev pub open_fds : List (Option ℕ) → List ℕ
open_fds [] = []
open_fds (none ∷ fds) = open_fds fds
open_fds (some fd ∷ fds) = fd ∷ open_fds fds

abbrev pub all_closed : List (Option ℕ) → List (Option ℕ)
all_closed [] = []
all_closed (fd ∷ fds) = none ∷ all_closed fds

-- The tracker behind the call, and what it passed to `close`.
pub record Swept : Type 0 where
  pub tracker : FdTracker
  pub passed : List ℕ

unfoldable pub fd_tracker_force_close_all : FdTracker → Swept
fd_tracker_force_close_all t =
    if t.freed
    then record { tracker = t; passed = [] }
    else record { tracker = record t { fds = all_closed t.fds }; passed = open_fds t.fds }

abbrev pub is_unset : Option (Option ℕ) → Bool
is_unset none = true
is_unset (some none) = true
is_unset (some (some fd)) = false

unfoldable pub fd_tracker_is_closed : FdTracker → Option ℕ → Bool
fd_tracker_is_closed t none = true
fd_tracker_is_closed t (some track_idx) =
    if leb t.count track_idx
    then true
    else if t.freed
    then true
    else is_unset (get_elem? t.fds track_idx)

unfoldable pub fd_tracker_is_tracked : FdTracker → Option ℕ → Bool
fd_tracker_is_tracked t none = false
fd_tracker_is_tracked t (some track_idx) = not (leb t.count track_idx)

unfoldable pub fd_tracker_free : FdTracker → FdTracker
fd_tracker_free t = record { fds = []; count = t.count; capacity = 0; freed = true }

-- `cytadel_plugin_socket_t`
pub record Socket : Type 0 where
  pub fd : Option ℕ
  pub track_idx : Option ℕ

pub record Closed : Type 0 where
  pub tracker : FdTracker
  pub sock : Socket
  pub passed : List ℕ

abbrev pub shut : Socket → Socket
shut sock = record sock { fd = none }

abbrev close_open : FdTracker → Socket → ℕ → Closed
close_open t sock fd =
    let tracked = fd_tracker_is_tracked t sock.track_idx in
    if tracked && fd_tracker_is_closed t sock.track_idx
    then record { tracker = t; sock = shut sock; passed = [] }
    else record {
      tracker = if tracked then fd_tracker_mark_closed t sock.track_idx else t;
      sock = shut sock;
      passed = fd ∷ [];
    }

unfoldable pub socket_close : FdTracker → Socket → Closed
socket_close t sock = elim sock.fd [
  | none ↦ record { tracker = t; sock = sock; passed = [] }
  | some fd ↦ close_open t sock fd
]

-- A run: its tracker, the sockets of its plugin, what went to `close`, and the next name.
pub record Run : Type 0 where
  pub tracker : FdTracker
  pub sockets : List Socket
  pub closes : List ℕ
  pub next : ℕ

abbrev pub begin : Run
begin = record {
  tracker = record { fds = []; count = 0; capacity = 0; freed = false };
  sockets = [];
  closes = [];
  next = 0;
}

abbrev pub opened : Run → Added → Run
opened r a = record {
  tracker = a.tracker;
  sockets = r.sockets ++ (record { fd = some r.next; track_idx = a.index } ∷ []);
  closes = r.closes;
  next = r.next + 1;
}

-- Lua has no memory for the socket: the call raises, and only the tracker knows the descriptor.
abbrev pub without_socket : Run → Added → Run
without_socket r a = record {
  tracker = a.tracker;
  sockets = r.sockets;
  closes = r.closes;
  next = r.next + 1;
}

abbrev pub closed_at : Run → ℕ → Closed → Run
closed_at r i c = record r {
  tracker = c.tracker;
  sockets = set_elem r.sockets i c.sock;
  closes = r.closes ++ c.passed;
}

abbrev pub swept : Run → Swept → Run
swept r s = record r { tracker = s.tracker; closes = r.closes ++ s.passed }

-- What can happen, in any order: a socket is opened while the tracker lives, closed from Lua or by a
-- finalizer, the sweep runs, the tracker is freed.
pub data FdStep : Run → Run → Type 0 where
  open_sock :
      (r : Run) (realloc_ok : Bool)
      → r.tracker.freed ≡ false
      → FdStep r (opened r (fd_tracker_add realloc_ok r.tracker r.next))
  open_raises :
      (r : Run) (realloc_ok : Bool)
      → r.tracker.freed ≡ false
      → FdStep r (without_socket r (fd_tracker_add realloc_ok r.tracker r.next))
  close_sock :
      (r : Run) (i : ℕ) (s : Socket)
      → get_elem? r.sockets i ≡ some s
      → FdStep r (closed_at r i (socket_close r.tracker s))
  sweep : (r : Run) → FdStep r (swept r (fd_tracker_force_close_all r.tracker))
  release : (r : Run) → FdStep r (record r { tracker = fd_tracker_free r.tracker })

pub data FdReach : Run → Type 0 where
  begun : FdReach begin
  and_then : {p q : Run} → FdReach p → FdStep p q → FdReach q
