-- ===== src/Shutdown/Wait.antt =====
-- When a shutdown is graceful.
use pusher.Base.{
  ℕ, zero, suc, Bool, true, false, List, [], ◌∷◌, some, ◌≡◌, arith, leb, if◌then◌else◌,
}
use pusher.Shutdown.{
  Event, done_called, time_up, gracefully, by_timeout, still_waiting, graceful_shutdown,
}

-- The calls of Done until the time is up, and whether it is up at all.
abbrev pub releases : List Event → ℕ
releases [] = 0
releases (done_called ∷ es) = suc (releases es)
releases (time_up ∷ es) = 0

abbrev pub ends : List Event → Bool
ends [] = false
ends (done_called ∷ es) = ends es
ends (time_up ∷ es) = true

-- With a wait group, the shutdown is graceful if as many releases as there are messages in flight
-- come before the time is up; otherwise it ends by the timeout, and waits as long as the time is
-- not up.
pub graceful_shutdown_lem :
    (pending : ℕ) (es : List Event)
    → graceful_shutdown (some pending) es ≡ (
        if leb pending (releases es)
        then gracefully
        else if ends es
        then by_timeout
        else still_waiting)
unfolding graceful_shutdown
graceful_shutdown_lem zero es = ground arith
graceful_shutdown_lem (suc n) [] = ground arith
graceful_shutdown_lem (suc n) (done_called ∷ es) = ground (arith, graceful_shutdown_lem n es)
graceful_shutdown_lem (suc n) (time_up ∷ es) = ground arith
