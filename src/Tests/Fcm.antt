-- ===== src/Tests/Fcm.antt =====
-- The message handler of Firebase.
use pusher.Base.{◌+◌, ◌&&◌, not, true, [], ◌∷◌, some, ◌≡◌, refl, Text, codes, is_some, none, ◌≟◌}
use pusher.Value.{obj, str, end, field}
use pusher.Effects.{dones, pushes, new_push_error}
use pusher.Apns.{KafkaMessage}
use pusher.Fcm.{Message, zero_fcm_message, zero_notification}
use pusher.Fcm.Handler.{MessageHandler, Env, handle_messages}
use pusher.Fcm.Responses.{Response, push_error}
use pusher.Fcm.Settles.{fcm_handle_messages-settles}
use pusher.Fcm.Client.{expiration, ios_headers, lookup_string, to_firebase_message}
use pusher.Value.Decode.{format_int}
use pusher.Fcm.Client.Laws.{ios_headers_lem, to_firebase_message_lem}
use pusher.Tests.Data.{services, marshal, metadata}

abbrev pub handler : MessageHandler
handler = record {
  app = codes "mygame";
  stats_reporters = 0 ∷ [];
  feedback_reporters = 0 ∷ [];
  pending_messages_wait_group = true;
  concurrent_workers = 4;
}

abbrev pub fcm_env : Env
fcm_env = record { make_timestamp = 1000; elapsed = 2; marshal = marshal }

abbrev pub fcm_message : KafkaMessage
fcm_message = record {
  game = codes "mygame";
  platform = codes "gcm";
  topic = codes "push-mygame_gcm-single";
  value =
      some
        (obj (field (codes "to") (str (codes "token")) (field (codes "data") (obj metadata) end)));
}

abbrev ios_message : Message
ios_message = record zero_fcm_message.message {
  to = codes "token";
  priority = codes "10";
  platform = codes "ios";
  time_to_live = some 60;
  notification = some (record zero_notification { title = codes "hello" });
}

fcm_handle_messages-settles_example :
    dones (handle_messages services handler fcm_env fcm_message []).0
      + pushes (handle_messages services handler fcm_env fcm_message []).0
    ≡ 1
fcm_handle_messages-settles_example =
    fcm_handle_messages-settles services handler fcm_env refl fcm_message []

abbrev bad_response : Response
bad_response = record {
  msg = ios_message;
  error = some (push_error (new_push_error (codes "DEVICE_UNREGISTERED") []));
}

ios_headers_lem_example :
    let header = λ (key : Text). lookup_string key (ios_headers 5 ios_message) in
    (header (codes "apns-push-type") ≡ some (codes "alert"))
    × (header (codes "apns-priority") ≡ some (codes "10"))
    × (header (codes "apns-collapse-id") ≡ none)
    × (is_some (header (codes "apns-expiration")) ≡ true)
ios_headers_lem_example = ios_headers_lem 5 ios_message

-- Ten thousand million seconds wrap to a duration that goes back, to before 1970 at an early time.
before_1970 : format_int (expiration 5 10000000000) ≡ codes "-8446744074"
unfolding expiration format_int
before_1970 = refl

to_firebase_message_lem_example :
    let f = to_firebase_message 5 ios_message in
    (f.token ≡ ios_message.to)
    × (is_some f.apns ≡ (ios_message.platform ≟ codes "ios"))
    × (is_some f.android
        ≡ (not (ios_message.platform ≟ codes "ios") && is_some ios_message.notification))
    × (is_some f.notification ≡ is_some ios_message.notification)
to_firebase_message_lem_example = to_firebase_message_lem 5 ios_message
