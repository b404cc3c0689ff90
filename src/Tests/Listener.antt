-- ===== src/Tests/Listener.antt =====
-- The feedback listener with channels of one place and a buffer of two tokens.
use pusher.Base.{Option, some, none, ◌≤◌, true, false, List, [], ◌∷◌, ◌++◌, ◌≡◌, refl, codes}
use pusher.Feedback.{QueueMessage, InvalidToken, gcm_platform}
use pusher.Listener.{
  serving, handler_stopped, polling, selecting, waiting, broker_returned, Sizes, Listener,
  send_on_closed, Outcome, went, panicked, Event, poll, put, take, put_token, confirm, read,
  receive, tick, cleanup, run,
}
use pusher.Listener.Invariant.{Ensures}
use pusher.Listener.Tokens.{IsAccounted, run-IsAccounted}
use pusher.Listener.Stopping.{cleanup_panics, left_behind}
use pusher.Tests.Feedback.{libraries, broker, gcm_message}

abbrev sizes : Sizes
sizes = record { messages = 1; tokens = 1; buffer_size = 2 }

abbrev fresh : Listener
fresh = record {
  stage = serving;
  pending = 0;
  consumer = selecting;
  in_chan = [];
  broker = waiting;
  out_chan = [];
  handler_running = true;
  buffer = [];
  routed = [];
  flushed = [];
}

fresh-IsAccounted : IsAccounted fresh
fresh-IsAccounted = record { counted = refl; tokens = refl; told = tt }

abbrev one_message : List Event
one_message = poll ∷ read gcm_message ∷ put ∷ take ∷ put_token ∷ confirm ∷ receive ∷ []

-- Two messages fill the buffer, a third is handled while the listener stops.
abbrev busy_day : List Event
busy_day =
    one_message
    ++ (one_message
        ++ poll ∷ read gcm_message ∷ cleanup ∷ put ∷ cleanup ∷ take ∷ put_token ∷ tick ∷ [])

abbrev token : InvalidToken
token = record { token = codes "token"; game = codes "mygame"; platform = gcm_platform }

abbrev flushed_after : Outcome → Option (List InvalidToken)
flushed_after (went l) = some l.flushed
flushed_after _ = none

busy_day_flushed :
    flushed_after (run libraries broker sizes busy_day fresh) ≡ some (token ∷ token ∷ [])
unfolding run pusher.Feedback.process_message pusher.Feedback.route_gcm_message
    pusher.Feedback.Tokens.process_event
busy_day_flushed = refl

run-IsAccounted_example : Ensures IsAccounted (run libraries broker sizes busy_day fresh)
run-IsAccounted_example =
    run-IsAccounted libraries broker sizes refl busy_day fresh fresh-IsAccounted

abbrev with_message : Listener
with_message = record fresh { pending = 1; in_chan = gcm_message ∷ [] }

cleanup_panics_example :
    run libraries broker sizes (take ∷ cleanup ∷ cleanup ∷ cleanup ∷ put_token ∷ []) with_message
    ≡ panicked send_on_closed
unfolding pusher.Feedback.process_message pusher.Feedback.route_gcm_message
cleanup_panics_example =
    cleanup_panics libraries broker sizes with_message gcm_message [] token [] refl refl refl refl

abbrev stopped : Listener
stopped = record with_message {
  stage = handler_stopped;
  consumer = polling;
  broker = broker_returned;
  handler_running = false;
  buffer = token ∷ [];
  routed = token ∷ [];
}

left_behind_example :
    Ensures
      (λ t. (t.flushed ≡ []) × (t.buffer ≡ token ∷ []) × (1 ≤ t.pending))
      (run libraries broker sizes (read gcm_message ∷ tick ∷ []) stopped)
left_behind_example =
    left_behind libraries broker sizes refl stopped
      (record { counted = refl; tokens = refl; told = tt }) refl refl (read gcm_message ∷ tick ∷ [])
