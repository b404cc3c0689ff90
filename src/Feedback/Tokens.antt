-- ===== src/Feedback/Tokens.antt =====
-- feedback/invalid_token.go: invalid tokens are kept in a buffer, and deleted from the database by
-- game and platform when the buffer is full or time is up.
use pusher.Base.{
  ℕ, suc, ◌-◌, List, [], ◌∷◌, ◌++◌, Option, none, some, Text, codes, ◌≟◌, length, ltb, leb, ◌==◌,
  if◌then◌else◌,
}
use pusher.Value.Decode.{pos, format_uint}
use pusher.Effects.{Report, report, report_metric_count}
use pusher.Feedback.{InvalidToken, apns_platform, gcm_platform}

-- `map[string][]string`: a list of tokens for a game. The maps of the two platforms.
abbrev pub Games : Type 0
Games = List (Text × List Text)

pub record Groups : Type 0 where
  pub apns : Games
  pub gcm : Games

-- `m[game] = append(m[game], token)`
unfoldable pub add_to_game : Text → Text → Games → Games
add_to_game game token [] = (game, token ∷ []) ∷ []
add_to_game game token ((g, ts) ∷ m) =
    if g ≟ game then (g, ts ++ token ∷ []) ∷ m else (g, ts) ∷ add_to_game game token m

-- A write to the map of any other platform, which is nil, panics: `none`.
unfoldable pub add_token : InvalidToken → Groups → Option Groups
add_token t m =
    if t.platform ≟ apns_platform
    then some (record m { apns = add_to_game t.game t.token m.apns })
    else if t.platform ≟ gcm_platform
    then some (record m { gcm = add_to_game t.game t.token m.gcm })
    else none

abbrev pub and_then {ℓ κ} : {A : Type ℓ} {B : Type κ} → Option A → (A → Option B) → Option B
and_then none f = none
and_then (some a) f = f a

unfoldable pub add_tokens : List InvalidToken → Groups → Option Groups
add_tokens [] m = some m
add_tokens (t ∷ ts) m = and_then (add_token t m) (add_tokens ts)

unfoldable pub split_tokens : List InvalidToken → Option Groups
unfolding add_tokens
split_tokens ts = add_tokens ts (record { apns = []; gcm = [] })

-- The loop that writes the placeholders from `?j` on, and the closing bracket behind the last.
unfoldable pub write_placeholders : ℕ → List Text → Text
write_placeholders j [] = []
write_placeholders j (t ∷ ts) =
    codes "?"
    ++ (format_uint j
        ++ ((if length ts == 0 then codes ")" else codes ", ") ++ write_placeholders (suc j) ts))

unfoldable pub delete_query : List Text → Text → Text → Text
delete_query tokens game platform =
    codes "DELETE FROM "
    ++ (game
        ++ (codes "_"
            ++ (platform
                ++ (codes " WHERE token IN (" ++ (write_placeholders 0 tokens ++ codes ";")))))

-- `DB.Exec`: the rows affected, the error "pg: no rows in result set", or another error.
pub data ExecResult : Type 0 where
  rows : ℕ → ExecResult
  no_rows failed : ExecResult

-- The database, over a state `D`; the parameters are the tokens.
pub record Database (D : Type 0) : Type 0 where
  pub exec : Text → List Text → D → ExecResult × D

abbrev pub count_of : Text → ℕ → Text → Text → List ℕ → List Report
count_of metric n game platform rs = report rs (report_metric_count metric (pos n) game platform)

-- What is reported for the result of a deletion of so many tokens.
unfoldable pub deletion_reports : List ℕ → ℕ → Text → Text → ExecResult → List Report
deletion_reports rs n game platform failed =
    count_of (codes "tokens_delete_error") n game platform rs
deletion_reports rs n game platform no_rows =
    count_of (codes "tokens_delete_nonexistent") n game platform rs
deletion_reports rs n game platform (rows k) =
    (if ltb k n then count_of (codes "tokens_delete_nonexistent") (n - k) game platform rs else [])
    ++ count_of (codes "tokens_delete_success") k game platform rs

module _ {D : Type 0} (db : Database D) (reporters : List ℕ) where
  unfoldable pub delete_tokens_from_game : List Text → Text → Text → D → List Report × D
  delete_tokens_from_game tokens game platform s =
      let (result, s') = db.exec (delete_query tokens game platform) tokens s in
      (deletion_reports reporters (length tokens) game platform result, s')

  unfoldable pub delete_games : Text → Games → D → List Report × D
  delete_games platform [] s = ([], s)
  delete_games platform ((game, tokens) ∷ m) s =
      let (reports, s') = delete_tokens_from_game tokens game platform s in
      let (more, s'') = delete_games platform m s' in (reports ++ more, s'')

  -- deleteTokens, with the platforms in one of the two orders that `range` may take; a failure of one
  -- deletion does not stop the others. `none` is the panic of splitTokens.
  abbrev pub delete_groups : Option Groups → D → Option (List Report × D)
  delete_groups none s = none
  delete_groups (some m) s =
      let (reports, s') = delete_games apns_platform m.apns s in
      let (more, s'') = delete_games gcm_platform m.gcm s' in some (reports ++ more, s'')

  unfoldable pub delete_tokens : List InvalidToken → D → Option (List Report × D)
  delete_tokens tokens s = delete_groups (split_tokens tokens) s

-- What wakes processMessages.
pub data Event : Type 0 where
  received : InvalidToken → Event
  flush_tick in_chan_closed : Event

-- One round of processMessages: the buffer afterwards, and the tokens handed to deleteTokens.
unfoldable pub process_event : ℕ → Event → List InvalidToken → List InvalidToken × List InvalidToken
process_event buffer_size (received t) buffer =
    let grown = buffer ++ t ∷ [] in
    if leb buffer_size (length grown) then ([], grown) else (grown, [])
process_event buffer_size flush_tick buffer = ([], buffer)
process_event buffer_size in_chan_closed buffer = (buffer, [])

-- A run of rounds: the buffer at the end, and all that was handed to deleteTokens, in order.
unfoldable pub process_events :
    ℕ → List Event → List InvalidToken → List InvalidToken × List InvalidToken
process_events buffer_size [] buffer = (buffer, [])
process_events buffer_size (e ∷ es) buffer =
    let (buffer', flushed) = process_event buffer_size e buffer in
    let (rest, more) = process_events buffer_size es buffer' in (rest, flushed ++ more)
