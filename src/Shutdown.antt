-- ===== src/Shutdown.antt =====
-- pusher/common.go: how a pusher waits for the messages in flight before it exits.
pub mod Wait
use pusher.Base.{ℕ, zero, suc, Bool, true, false, List, [], ◌∷◌, Option, none, some}

-- What happens while WaitTimeout waits: a call of Done, or the end of the timeout.
pub data Event : Type 0 where
  done_called time_up : Event

-- WaitTimeout of a counter: `true` for a timeout; `none` as long as it waits.
unfoldable pub wait_timeout : ℕ → List Event → Option Bool
wait_timeout zero es = some false
wait_timeout (suc n) [] = none
wait_timeout (suc n) (done_called ∷ es) = wait_timeout n es
wait_timeout (suc n) (time_up ∷ es) = some true

-- How GracefulShutdown ends, by what it logs.
pub data Exit : Type 0 where
  at_once gracefully by_timeout still_waiting : Exit

abbrev pub exit_of : Option Bool → Exit
exit_of none = still_waiting
exit_of (some false) = gracefully
exit_of (some true) = by_timeout

unfoldable pub graceful_shutdown : Option ℕ → List Event → Exit
unfolding wait_timeout
graceful_shutdown none es = at_once
graceful_shutdown (some pending) es = exit_of (wait_timeout pending es)
