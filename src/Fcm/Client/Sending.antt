-- ===== src/Fcm/Client/Sending.antt =====
-- SendPush of extensions/firebase/client/firebase.go, the translation of errors, and the project id.
use pusher.Base.{Bool, Option, none, some, Text, codes, if◌then◌else◌, ℕ}
use pusher.Value.{Value, str, obj, get}
use pusher.Effects.{PushError, new_push_error}
use pusher.Fcm.{Message}
use pusher.Fcm.Responses.{SendError, push_error}
use pusher.Fcm.Client.{FirebaseMessage, to_firebase_message}

-- An error of the Firebase SDK: what its predicates say of it, and its text.
pub record FirebaseError : Type 0 where
  pub is_invalid_argument : Bool
  pub is_unregistered : Bool
  pub is_sender_id_mismatch : Bool
  pub is_quota_exceeded : Bool
  pub is_unavailable : Bool
  pub is_internal : Bool
  pub is_third_party_auth_error : Bool
  pub text : Text

-- The key of translateError's first case that holds.
unfoldable pub error_key : FirebaseError → Text
error_key e =
    if e.is_invalid_argument
    then codes "INVALID_JSON"
    else if e.is_unregistered
    then codes "DEVICE_UNREGISTERED"
    else if e.is_sender_id_mismatch
    then codes "SENDER_ID_MISMATCH"
    else if e.is_quota_exceeded
    then codes "DEVICE_MESSAGE_RATE_EXCEEDED"
    else if e.is_unavailable
    then codes "UNAVAILABLE"
    else if e.is_internal
    then codes "INTERNAL_SERVER_ERROR"
    else if e.is_third_party_auth_error
    then codes "THIRD_PARTY_AUTH_ERROR"
    else codes "UNKNOWN"

unfoldable pub translate_error : FirebaseError → PushError
unfolding error_key
translate_error e = new_push_error (error_key e) e.text

abbrev send_result : Option FirebaseError → Option SendError
send_result none = none
send_result (some e) = some (push_error (translate_error e))

-- SendPush, over the SDK's `Send`.
unfoldable pub send_push : (FirebaseMessage → Option FirebaseError) → ℕ → Message → Option SendError
send_push firebase_send now m = send_result (firebase_send (to_firebase_message now m))

-- getProjectIDFromJson; `none` of the result is an error, and a project id that is no string panics.
pub data ProjectId : Type 0 where
  found : Text → ProjectId
  failed panics : ProjectId

abbrev as_project_id : Option Value → ProjectId
as_project_id none = failed
as_project_id (some (str t)) = found t
as_project_id (some _) = panics

unfoldable pub get_project_id_from_json : Option Value → ProjectId
get_project_id_from_json (some (obj m)) = as_project_id (get (codes "project_id") m)
get_project_id_from_json (some Value.nil) = failed
get_project_id_from_json _ = failed
