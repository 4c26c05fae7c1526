-- ===== src/Plugin/FdTracker/Tests.antt =====
-- src/plugin/fd_tracker.c: a run with one socket, and the theorem at it.
use cytadel_scan.Base.Slots.{get_elem?, set_elem}
use cytadel_scan.Base.{ℕ, ◌≤◌, ◌≡◌, refl, false, true, some, none, [], ◌∷◌}
use cytadel_scan.Plugin.FdTracker.Held.{times_closed}
use cytadel_scan.Plugin.FdTracker.Once.{FdReach-once}
use cytadel_scan.Plugin.FdTracker.{
  fd_tracker_add, fd_tracker_mark_closed, fd_tracker_force_close_all, fd_tracker_is_closed,
  fd_tracker_is_tracked, fd_tracker_free, socket_close, Run, begin, opened, swept, open_sock,
  FdReach, begun, and_then,
}

tracker : Unit {0}
unfolding get_elem? set_elem fd_tracker_add fd_tracker_mark_closed fd_tracker_force_close_all
    fd_tracker_is_closed fd_tracker_is_tracked fd_tracker_free socket_close
tracker = tt

-- One socket is opened.
abbrev one_open : Run
one_open = opened begin (fd_tracker_add true begin.tracker 0)

one_open-FdReach : FdReach one_open
one_open-FdReach = and_then begun (open_sock begin true refl)

-- The sweep closes the socket, and the finalizer behind it leaves it alone.
behind_sweep :
    (socket_close
      (fd_tracker_force_close_all one_open.tracker).tracker
      (record { fd = some 0; track_idx = some 0 })).passed
    ≡ []
unfolding tracker
behind_sweep = refl

behind_free :
    (socket_close
      (fd_tracker_free one_open.tracker)
      (record { fd = some 0; track_idx = some 0 })).passed
    ≡ []
unfolding tracker
behind_free = refl

untracked :
    (socket_close one_open.tracker (record { fd = some 1; track_idx = none })).passed ≡ 1 ∷ []
unfolding tracker
untracked = refl

FdReach-once_example :
    ((f : ℕ) → times_closed f one_open.closes ≤ 1)
    × ((i f : ℕ)
        → one_open.tracker.freed ≡ false
        → get_elem? one_open.tracker.fds i ≡ some (some f)
        → times_closed f (swept one_open (fd_tracker_force_close_all one_open.tracker)).closes ≡ 1)
FdReach-once_example = FdReach-once one_open one_open-FdReach
