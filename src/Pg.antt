-- ===== src/Pg.antt =====
-- extensions/pg.go: the wait for PostgreSQL.
pub mod Wait
use pusher.Base.{ℕ, Bool, true, false, List, [], ◌∷◌, Option, none, some, ◌==◌, if◌then◌else◌}
use pusher.Value.Decode.{ℤ, pos, int_leb}

-- IsConnected, by what `select 1` returned: an error, or a number of rows.
unfoldable pub is_connected : Option ℕ → Bool
is_connected none = false
is_connected (some rows) = rows == 1

-- A round of the loop: what the database answered, and the time since the start in milliseconds,
-- which is read if it did not answer well.
pub record Round : Type 0 where
  pub reply : Option ℕ
  pub ellapsed : ℕ

pub data WaitResult : Type 0 where
  connected timed_out waiting : WaitResult

-- The time is read once more behind the loop.
abbrev pub finish : ℤ → ℕ → WaitResult
finish timeout last = if int_leb (pos last) timeout then connected else timed_out

-- WaitForConnection, over the rounds that the loop may take.
unfoldable pub wait_for_connection : ℤ → List Round → ℕ → WaitResult
unfolding is_connected
wait_for_connection timeout [] last = waiting
wait_for_connection timeout (r ∷ rs) last =
    let rest = wait_for_connection timeout rs last in
    if is_connected r.reply
    then finish timeout last
    else if int_leb (pos r.ellapsed) timeout
    then rest
    else finish timeout last
