-- ===== src/Tests/Firebase.antt =====
-- The goroutines of a Firebase pusher with four workers.
use pusher.Base.{ℕ, Option, List, [], ◌∷◌, ◌++◌, none, some, ◌≡◌, refl, codes, true, arith}
use pusher.Effects.{Services}
use pusher.Fcm.{Message}
use pusher.Fcm.Responses.{SendError, push_error, plain}
use pusher.Firebase.{
  System, Event, read, put, route, route_act, answer, deliver, give_back, respond, respond_act, run,
  Outcome, went, blocked, panicked,
}
use pusher.Firebase.Sound.{IsSound, Runs, run-Runs}
use pusher.Firebase.Rest.{Rests, firebase_comes_to_rest}
use pusher.Tests.Fcm.{handler, fcm_env, fcm_message}

abbrev calm : Services Unit
calm = record {
  is_unique = λ device msg game platform s. (true, s);
  allow = λ device game platform s. (true, [], s);
}

abbrev start : System Unit
start = record {
  pending = 0;
  reading = none;
  msg_chan = [];
  router = [];
  free = 4;
  senders = [];
  response_chan = [];
  handlers = 0 ∷ 0 ∷ 0 ∷ 0 ∷ [];
  services = tt;
  unrouted = 0;
}

start-IsSound : IsSound 4 start
start-IsSound = record { balanced = refl; leases = refl; all_handlers = refl }

abbrev sends : List Event
sends = read fcm_message ∷ put ∷ route fcm_env ∷ route_act ∷ []

abbrev two_messages : List Event
two_messages =
    sends
    ++ (sends
        ++ answer 1 (some (plain (codes "no route"))) 3
          ∷ deliver 1
          ∷ respond 2
          ∷ answer 0 none 9
          ∷ give_back 1
          ∷ respond_act 2
          ∷ deliver 0
          ∷ [])

abbrev pending_after : Outcome Unit → Option ℕ
pending_after (went s) = some s.pending
pending_after _ = none

-- One message is done, the other one is on the response channel.
two_messages_answered : pending_after (run calm handler 1 two_messages start) ≡ some 1
unfolding run pusher.Firebase.acts pusher.Pusher.route_message pusher.Pusher.handler_of
    pusher.Fcm.Handler.handle_messages pusher.Fcm.Handler.parse_message
    pusher.Value.Decode.unmarshal pusher.Fcm.fcm_message_field pusher.Value.Decode.lower
    pusher.Value.Decode.to_text pusher.Value.Decode.to_map pusher.Apns.is_expired
    pusher.Fcm.Handler.check_duplicate pusher.Fcm.Handler.create_dedup_content_from_payload
    pusher.Fcm.Handler.report_latency pusher.Effects.report pusher.Fcm.Responses.handle_response
    pusher.Fcm.Responses.send_push pusher.Fcm.Responses.notification_failure
    pusher.Effects.send_feedback_to_all pusher.Effects.wait_group_done
two_messages_answered = refl

run-Runs_example :
    Runs calm handler 1 refl two_messages start (run calm handler 1 two_messages start)
run-Runs_example = run-Runs calm handler 1 refl two_messages start start-IsSound

abbrev busy : System Unit
busy = record start { pending = 1; reading = some fcm_message }

firebase_comes_to_rest_example : Rests calm handler 1 busy
firebase_comes_to_rest_example =
    firebase_comes_to_rest calm handler 1 fcm_env refl (omega arith) (omega arith) busy
      (record { balanced = refl; leases = refl; all_handlers = refl })
