-- ===== src/Tests/Apns.antt =====
-- The message handler of APNS.
use pusher.Base.{
  ◌+◌, ◌-◌, ◌≤◌, ◌&&◌, not, false, List, [], ◌∷◌, none, some, ◌≡◌, refl, length, All, is_some,
  if◌then◌else◌, arith,
}
use pusher.Value.{Value, obj, Fields, end, field, value_at}
use pusher.Effects.{dones, pushes, pushed}
use pusher.Apns.{
  PusherApnsKafkaMessage, zero_message, add_metadata_to_payload, parse_kafka_message, is_expired,
}
use pusher.Apns.Messages.{handle_messages}
use pusher.Apns.Metadata.{Merged, add_metadata_to_payload-Merged}
use pusher.Apns.Settles.{handle_messages-settles}
use pusher.Apns.Outcome.{
  answering, duplicate_never_blocks, IsPushFor, is_allowed, handle_messages-IsPushFor,
}
use pusher.Apns.Reasons.{too_many_requests, no_reason}
use pusher.Apns.Responses.{ApnsResponse}
use pusher.Apns.Retry.{lifetime, lifetime_bounded, lifetime_releases}
use pusher.Tests.Data.{
  services, apns_handler, env, metadata, m_entry, payload, apns_message, notification, answer,
  apns2,
}

handle_messages-settles_example :
    dones (handle_messages services apns_handler env apns_message []).0
      + pushes (handle_messages services apns_handler env apns_message []).0
    ≡ 1
handle_messages-settles_example =
    handle_messages-settles services apns_handler env refl apns_message []

duplicate_never_blocks_example :
    pushed (handle_messages (answering false services) apns_handler env apns_message []).0
    ≡ pushed (handle_messages services apns_handler env apns_message []).0
duplicate_never_blocks_example =
    duplicate_never_blocks services apns_handler env false apns_message []

abbrev parsed_message : PusherApnsKafkaMessage
parsed_message = elim (parse_kafka_message apns_handler env apns_message) [
  | none ↦ zero_message
  | some n ↦ n
]

is_parsed : parse_kafka_message apns_handler env apns_message ≡ some parsed_message
unfolding parse_kafka_message pusher.Value.Decode.unmarshal pusher.Value.Decode.lower
    pusher.Value.Decode.to_text pusher.Value.Decode.to_map
is_parsed = refl

handle_messages-IsPushFor_example :
    let sent = pushed (handle_messages services apns_handler env apns_message []).0 in
    All (IsPushFor apns_handler env parsed_message) sent
    × (length sent ≡ (
        if is_allowed services apns_handler env parsed_message []
          && not (is_expired parsed_message.push_expiry env.make_timestamp)
          && is_some (env.marshal parsed_message.payload)
        then 1
        else 0))
handle_messages-IsPushFor_example =
    handle_messages-IsPushFor services apns_handler env apns_message [] is_parsed

abbrev with_metadata : PusherApnsKafkaMessage
with_metadata = record zero_message { payload = obj payload; metadata = some metadata }

add_metadata_to_payload-Merged_example :
    (q : Fields) × ((add_metadata_to_payload with_metadata).payload ≡ obj q)
    × Merged payload m_entry metadata q
unfolding value_at
add_metadata_to_payload-Merged_example =
    add_metadata_to_payload-Merged with_metadata payload m_entry metadata refl refl refl (tt, tt)

abbrev answers : List ApnsResponse
answers = answer too_many_requests ∷ answer too_many_requests ∷ answer no_reason ∷ []

lifetime_bounded_example :
    (pushes (lifetime apns2 apns_handler 3 answers notification) ≤ 2 - 1)
    × (dones (lifetime apns2 apns_handler 3 answers notification) ≤ 1)
lifetime_bounded_example = lifetime_bounded apns2 apns_handler 3 answers notification refl

lifetime_releases_example : dones (lifetime apns2 apns_handler 3 answers notification) ≡ 1
lifetime_releases_example =
    lifetime_releases apns2 apns_handler 3 answers notification refl (omega arith)
