-- ===== src/Tests/Feedback.antt =====
-- The feedback listener.
use pusher.Base.{true, List, [], ◌∷◌, ◌++◌, none, some, ◌≡◌, inl, inr, refl, Text, codes, arith}
use pusher.Value.{Value, str}
use pusher.Apns.Reasons.{Reason, no_reason, unregistered, deletes_token, key_reason}
use pusher.Apns.Responses.{encode_response, failed_response}
use pusher.Feedback.{
  QueueMessage, InvalidToken, Libraries, Broker, process_messages, apns_platform, gcm_platform,
}
use pusher.Feedback.Tokens.{Event, received, flush_tick, split_tokens, Groups, delete_query}
use pusher.Feedback.Groups.{split_tokens_lem, tokens_for, matching, IsFilled}
use pusher.Feedback.Query.{delete_query_lem, join, placeholders}
use pusher.Feedback.EndToEnd.{
  fresh_consumer, tokens_of, failed_push_reaches_broker, firebase_tokens, firebase_feedback_lem,
}
use pusher.Consumer.{
  KafkaConsumer, received, receive_message, queue_message, send_feedback, Poll, timed_out, message,
  stop_closed, consume_rounds,
}
use pusher.Consumer.Laws.{Consumed, consume_rounds_lem}
use pusher.Tests.Data.{apns2, failure}

abbrev pub libraries : Libraries
libraries = record {
  reason_of = key_reason;
  decode_ccs_message = λ v. record { from = codes "token"; error = codes "DEVICE_UNREGISTERED" };
}

abbrev pub broker : Broker
broker = record { invalid_token_enabled = true; pending_messages_wg = true }

abbrev pub gcm_message : QueueMessage
gcm_message = record { game = codes "mygame"; platform = codes "gcm"; value = none }

abbrev ios_message : QueueMessage
ios_message = record { game = codes "mygame"; platform = codes "ios"; value = none }

abbrev token_one : InvalidToken
token_one = record { token = codes "t1"; game = codes "mygame"; platform = apns_platform }

abbrev token_two : InvalidToken
token_two = record { token = codes "t2"; game = codes "mygame"; platform = gcm_platform }

abbrev tokens : List InvalidToken
tokens = token_one ∷ token_two ∷ []

split_tokens_lem_example :
    (m : Groups) × (split_tokens tokens ≡ some m)
    × ((g : Text) → tokens_for g m.apns ≡ matching apns_platform g tokens)
    × ((g : Text) → tokens_for g m.gcm ≡ matching gcm_platform g tokens)
    × (IsFilled m.apns × IsFilled m.gcm)
split_tokens_lem_example = split_tokens_lem tokens (inl refl, (inr refl, tt))

delete_query_lem_example :
    delete_query (codes "t1" ∷ codes "t2" ∷ []) (codes "mygame") (codes "apns")
    ≡ codes "DELETE FROM "
      ++ (codes "mygame"
          ++ (codes "_"
              ++ (codes "apns"
                  ++ (codes " WHERE token IN ("
                      ++ ((join (placeholders 0 (codes "t1" ∷ codes "t2" ∷ [])) ++ codes ")")
                          ++ codes ";")))))
delete_query_lem_example =
    delete_query_lem (codes "t1" ∷ codes "t2" ∷ []) (codes "mygame") (codes "apns") (omega arith)

abbrev events : List Event
events = received token_one ∷ received token_two ∷ flush_tick ∷ received token_one ∷ []

abbrev encoded : Value
encoded = elim (encode_response apns2 (failed_response apns2 failure)) [
  | none ↦ str []
  | some v ↦ v
]

is_encoded : encode_response apns2 (failed_response apns2 failure) ≡ some encoded
unfolding encode_response
is_encoded = refl

failed_push_reaches_broker_example :
    let (topic, value) = send_feedback (codes "mygame") apns_platform encoded in
    (q : KafkaConsumer QueueMessage) × (receive_message queue_message topic value fresh_consumer
      ≡ received q)
    × ((process_messages libraries broker q.msg_chan).0
        ≡ tokens_of apns2 libraries broker (codes "mygame") failure)
unfolding pusher.Apns.Reasons.map_error_reason pusher.Topic.goes_on
failed_push_reaches_broker_example =
    failed_push_reaches_broker apns2 libraries broker (codes "mygame") failure refl refl is_encoded

-- A message, and then one whose topic panics.
abbrev polls : List Poll
polls =
    timed_out
    ∷ message (codes "push-mygame-apns-feedbacks") none
    ∷ message [] none
    ∷ stop_closed
    ∷ []

consume_rounds_lem_example :
    Consumed queue_message polls fresh_consumer (consume_rounds queue_message polls fresh_consumer)
consume_rounds_lem_example = consume_rounds_lem queue_message polls fresh_consumer

counts_the_panic : (consume_rounds queue_message polls fresh_consumer).0.pending ≡ some 2
unfolding consume_rounds receive_message pusher.Topic.get_game_and_platform_from_topic
    pusher.Topic.goes_on pusher.Topic.scan
counts_the_panic = refl

firebase_feedback_lem_example :
    let (topic, value) = send_feedback (codes "mygame") (codes "ios") (str (codes "feedback")) in
    (q : KafkaConsumer QueueMessage) × (receive_message queue_message topic value fresh_consumer
      ≡ received q)
    × ((process_messages libraries broker q.msg_chan).0
        ≡ firebase_tokens libraries broker (codes "mygame") (codes "ios") (str (codes "feedback")))
unfolding pusher.Topic.goes_on
firebase_feedback_lem_example =
    firebase_feedback_lem libraries broker (codes "mygame") (codes "ios") (str (codes "feedback"))
      refl (inr refl)
