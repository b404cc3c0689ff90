-- ===== src/Tests/Pipeline.antt =====
-- The pipeline of an app with channels of one place and one worker.
use pusher.Base.{
  ◌+◌, ◌≤◌, ◌<◌, true, List, [], ◌∷◌, ◌++◌, none, some, ◌≡◌, refl, codes, length, total, arith,
}
use pusher.Value.{str, int64, end, field}
use pusher.Effects.{Services}
use pusher.Apns.{ApnsNotification, ApnsMessageHandler, KafkaMessage}
use pusher.Apns.Reasons.{too_many_requests}
use pusher.Apns.Responses.{ResponseWithMetadata, push_worker}
use pusher.Apns.Retry.{response}
use pusher.Pipeline.{
  Act, release, send, Worker, idle, pushing, answering, Sizes, System, Outcome, went, blocked,
  panicked, Event, read, put, route, route_act, take, answer, deliver, respond, respond_act, run,
}
use pusher.Pipeline.Balance.{IsBalanced, run-IsBalanced}
use pusher.Pipeline.Deadlock.{IsDeadlocked, SameQueue, deadlock_forever}
use pusher.Pipeline.Invariant.{Ensures, After}
use pusher.Pipeline.Load.{load, added}
use pusher.Pipeline.Drain.{run_terminates}
use pusher.Pipeline.Progress.{IsUsable}
use pusher.Pipeline.Rest.{Rests, comes_to_rest}
use pusher.Tests.Data.{apns_handler, env, apns_message, apns2, notification}
use pusher.Tests.Data

abbrev calm : Services Unit
calm = record {
  is_unique = λ device msg game platform s. (true, s);
  allow = λ device game platform s. (true, [], s);
}

abbrev sizes : Sizes
sizes = record { messages = 1; pushes = 1; responses = 1; clients = 1 }

abbrev start : System Unit
start = record {
  pending = 0;
  reading = none;
  msg_chan = [];
  router = [];
  push_chan = [];
  workers = idle ∷ [];
  response_chan = [];
  responder = [];
  services = tt;
  unrouted = 0;
  unanswered = 0;
}

abbrev sends : List Event
sends = read apns_message ∷ put ∷ route env ∷ route_act ∷ []

abbrev refused : Event
refused = answer 0 (some (Data.answer too_many_requests))

-- Four messages, of which APNS refuses three.
abbrev rush : List Event
rush =
    sends
    ++ take 0
      ∷ refused
      ∷ deliver 0
      ∷ respond 3
      ∷ (sends ++ take 0 ∷ (sends ++ refused ∷ deliver 0 ∷ take 0 ∷ (sends ++ refused ∷ [])))

abbrev sent : ApnsNotification
sent = record notification {
  metadata = some (
      field (codes "job") (str (codes "daily")) (
        field (codes "game") (str (codes "mygame")) (
          field (codes "deviceToken") (str (codes "device")) (
            field (codes "hostname") (str (codes "host"))
              (field (codes "timestamp") (int64 1) end)))));
}

abbrev refusal : ResponseWithMetadata
refusal = response apns2 apns_handler 3 (Data.answer too_many_requests) sent

abbrev stuck : System Unit
stuck = record {
  pending = 4;
  reading = none;
  msg_chan = [];
  router = [];
  push_chan = sent ∷ [];
  workers = answering refusal ∷ [];
  response_chan = refusal ∷ [];
  responder = send (record sent { send_attempts = 2 }) ∷ [];
  services = tt;
  unrouted = 0;
  unanswered = 0;
}

rush-stuck : run calm apns_handler apns2 sizes rush start ≡ went stuck
unfolding run pusher.Pipeline.acts pusher.Pusher.route_message pusher.Pusher.handler_of
    pusher.Apns.Messages.handle_messages pusher.Apns.parse_kafka_message
    pusher.Value.Decode.unmarshal pusher.Value.Decode.lower pusher.Value.Decode.to_text
    pusher.Value.Decode.to_map pusher.Apns.create_dedup_content_from_payload
    pusher.Apns.add_metadata_to_payload pusher.Value.get pusher.Value.value_at pusher.Value.put
    pusher.Apns.build_and_validate_notification pusher.Apns.send_notification push_worker
    pusher.Effects.stats_reporter_report_send_notification_latency pusher.Effects.report
    pusher.Effects.stats_reporter_handle_notification_sent pusher.Apns.tracked
    pusher.Apns.Responses.handle_apns_response
rush-stuck = refl

stuck-IsDeadlocked : IsDeadlocked sizes stuck
stuck-IsDeadlocked = record {
  full = omega arith;
  full_responses = omega arith;
  waiting = (tt, tt);
  again = record sent { send_attempts = 2 };
  todo = [];
  retries = refl;
}

deadlock_forever_example :
    Ensures
      (λ t. SameQueue stuck t × (3 < t.pending))
      (run calm apns_handler apns2 sizes sends stuck)
deadlock_forever_example =
    deadlock_forever calm apns_handler apns2 sizes stuck refl stuck-IsDeadlocked refl sends

run-IsBalanced_example : Ensures IsBalanced (run calm apns_handler apns2 sizes rush start)
run-IsBalanced_example = run-IsBalanced calm apns_handler apns2 sizes refl rush start refl

run_terminates_example :
    After
      (λ t.
        load apns_handler t + length rush
        ≤ load apns_handler start + total (added apns_handler) rush)
      (run calm apns_handler apns2 sizes rush start)
run_terminates_example = run_terminates calm apns_handler apns2 sizes refl rush start

start-IsUsable : IsUsable sizes 1
start-IsUsable = record {
  room_for_messages = omega arith;
  room_for_pushes = omega arith;
  room_for_responses = omega arith;
  has_client = omega arith;
  has_worker = omega arith;
}

abbrev busy : System Unit
busy = record start { pending = 1; response_chan = refusal ∷ [] }

comes_to_rest_example : Rests calm apns_handler apns2 sizes busy
comes_to_rest_example =
    comes_to_rest calm apns_handler apns2 sizes env refl busy refl start-IsUsable
