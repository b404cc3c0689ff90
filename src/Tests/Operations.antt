-- ===== src/Tests/Operations.antt =====
-- Reports, the database's connection, and the shutdown.
use pusher.Base.{true, List, [], ◌∷◌, none, some, ◌≡◌, refl, All, arith, leb, if◌then◌else◌}
use pusher.Value.Decode.{pos, int_leb}
use pusher.Apns.Messages.{handle_messages}
use pusher.Statsd.Labels.{EffectIsSent, handle_messages-EffectIsSent, allow-IsSent}
use pusher.Pg.{Round, connected, wait_for_connection}
use pusher.Pg.Wait.{any_connected, wait_for_connection_lem}
use pusher.Shutdown.{
  Event, done_called, time_up, graceful_shutdown, gracefully, by_timeout, still_waiting,
}
use pusher.Shutdown.Wait.{releases, ends, graceful_shutdown_lem}
use pusher.Tests.Data.{services, apns_handler, env, apns_message, memory, limiter}

handle_messages-EffectIsSent_example :
    All EffectIsSent (handle_messages services apns_handler env apns_message []).0
handle_messages-EffectIsSent_example =
    handle_messages-EffectIsSent services apns_handler env (allow-IsSent memory limiter 7)
      apns_message []

abbrev rounds : List Round
rounds = record { reply = none; ellapsed = 3 } ∷ record { reply = some 1; ellapsed = 13 } ∷ []

is_connected_at_last : wait_for_connection (pos 100) rounds 14 ≡ connected
unfolding wait_for_connection
is_connected_at_last = refl

wait_for_connection_lem_example :
    (any_connected rounds ≡ true) × (int_leb (pos 14) (pos 100) ≡ true)
wait_for_connection_lem_example =
    wait_for_connection_lem (pos 100) rounds 14 (omega arith, (omega arith, tt))
      is_connected_at_last

abbrev events : List Event
events = done_called ∷ time_up ∷ done_called ∷ []

graceful_shutdown_lem_example : graceful_shutdown (some 2) events ≡ (
    if leb 2 (releases events)
    then gracefully
    else if ends events
    then by_timeout
    else still_waiting)
graceful_shutdown_lem_example = graceful_shutdown_lem 2 events
