-- ===== src/Fcm/Client.antt =====
-- extensions/firebase/client: the message that is sent to Firebase, for Android and for iOS.
pub mod Laws
pub mod Sending
use pusher.Base.{
  ℕ, ◌+◌, ◌-◌, ◌*◌, ◌/◌, ◌%◌, ◌^◌, zero, suc, Bool, true, false, ◌&&◌, List, [], ◌∷◌, ◌++◌, Option,
  none, some, Text, codes, ◌≟◌, ltb, leb, ◌==◌, if◌then◌else◌, map_option,
}
use pusher.Value.{Value, str, obj, Fields, end, field, get}
use pusher.Value.Decode.{ℤ, pos, negsuc, parse_int, format_int}
use pusher.Effects.{PushError, new_push_error}
use pusher.Fcm.{Notification, Message}
use pusher.Fcm.Responses.{SendError, push_error}

-- The fields of messaging.Message and its parts that the program sets.
pub record FirebaseNotification : Type 0 where
  pub title : Text
  pub body : Text
  pub image_url : Text

pub record AndroidNotification : Type 0 where
  pub title : Text
  pub body : Text
  pub icon : Text
  pub color : Text
  pub sound : Text
  pub tag : Text
  pub click_action : Text
  pub body_loc_key : Text
  pub body_loc_args : List Text
  pub title_loc_key : Text
  pub title_loc_args : List Text

-- `ttl` is the bit pattern of a time.Duration, in nanoseconds.
pub record AndroidConfig : Type 0 where
  pub collapse_key : Text
  pub priority : Text
  pub ttl : Option ℕ
  pub notification : AndroidNotification

pub record ApsAlert : Type 0 where
  pub title : Text
  pub body : Text
  pub loc_key : Text
  pub loc_args : List Text
  pub title_loc_key : Text
  pub title_loc_args : List Text

pub record Aps : Type 0 where
  pub content_available : Bool
  pub alert : Option ApsAlert
  pub sound : Text
  pub badge : Option ℤ

pub record ApnsConfig : Type 0 where
  pub headers : List (Text × Text)
  pub aps : Aps

pub record FirebaseMessage : Type 0 where
  pub token : Text
  pub strings : List (Text × Text)  -- Data
  pub notification : Option FirebaseNotification
  pub android : Option AndroidConfig
  pub apns : Option ApnsConfig

-- `result[k] = v` and `m[k]` on a map from strings to strings.
unfoldable pub put_string : Text → Text → List (Text × Text) → List (Text × Text)
put_string k v [] = (k, v) ∷ []
put_string k v ((j, w) ∷ m) = if j ≟ k then (k, v) ∷ m else (j, w) ∷ put_string k v m

unfoldable pub lookup_string : Text → List (Text × Text) → Option Text
lookup_string k [] = none
lookup_string k ((j, w) ∷ m) = if j ≟ k then some w else lookup_string k m

-- The loop of toMapString, over the entries that are left: what is no string is left out.
unfoldable pub add_strings : List (Text × Text) → Fields → List (Text × Text)
add_strings result end = result
add_strings result (field k (str s) rest) = add_strings (put_string k s result) rest
add_strings result (field k _ rest) = add_strings result rest

unfoldable pub to_map_string : Fields → List (Text × Text)
unfolding add_strings
to_map_string m = add_strings [] m

abbrev pub strings_of : Option Fields → List (Text × Text)
strings_of none = []
strings_of (some m) = to_map_string m

abbrev pub singleton_unless_empty : Text → List Text
singleton_unless_empty [] = []
singleton_unless_empty (c ∷ t) = (c ∷ t) ∷ []

abbrev pub firebase_notification : Notification → FirebaseNotification
firebase_notification n = record { title = n.title; body = n.body; image_url = n.image_url }

-- `time.Duration(int(secs)) * time.Second`, in 64 bits.
abbrev pub duration_of_seconds : ℕ → ℕ
duration_of_seconds secs = (secs * 10 ^ 9) % 2 ^ 64

abbrev pub android_config : Message → Notification → AndroidConfig
android_config m n = record {
  collapse_key = m.collapse_key;
  priority = m.priority;
  ttl = map_option duration_of_seconds m.time_to_live;
  notification = record {
    title = n.title;
    body = n.body;
    icon = n.icon;
    color = n.color;
    sound = n.sound;
    tag = n.tag;
    click_action = n.click_action;
    body_loc_key = n.body_loc_key;
    body_loc_args = singleton_unless_empty n.body_loc_args;
    title_loc_key = n.title_loc_key;
    title_loc_args = singleton_unless_empty n.title_loc_args;
  };
}

unfoldable pub build_android_message : Message → FirebaseMessage
build_android_message m = record {
  token = m.to;
  strings = strings_of m.payload;
  notification = map_option firebase_notification m.notification;
  android = map_option (android_config m) m.notification;
  apns = none;
}

abbrev pub push_type : Option Notification → Bool → Text
push_type none true = codes "background"
push_type _ _ = codes "alert"

unfoldable pub apns_push_type : Message → Text
apns_push_type m = push_type m.notification m.content_available

-- `time.Now().Add(d).Unix()` for a duration `d` as a bit pattern and the time now in nanoseconds. A
-- duration that wraps to a negative one goes back in time, and before 1970 the seconds are negative,
-- rounded down: -(n + 1) for the nanoseconds from -(n + 1) · 10⁹ on, up to -n · 10⁹.
unfoldable pub expiration : ℕ → ℕ → ℤ
expiration now_nano secs =
    let d = duration_of_seconds secs in
    let back = 2 ^ 64 - d in
    if ltb d (2 ^ 63)
    then pos ((now_nano + d) / 10 ^ 9)
    else if leb back now_nano
    then pos ((now_nano - back) / 10 ^ 9)
    else negsuc ((back - now_nano - 1) / 10 ^ 9)

abbrev pub with_collapse : Text → List (Text × Text) → List (Text × Text)
with_collapse [] hs = hs
with_collapse (c ∷ t) hs = put_string (codes "apns-collapse-id") (c ∷ t) hs

abbrev pub with_message_priority : Text → List (Text × Text) → List (Text × Text)
with_message_priority [] hs = hs
with_message_priority (c ∷ t) hs = put_string (codes "apns-priority") (c ∷ t) hs

abbrev pub with_priority : Text → Text → List (Text × Text) → List (Text × Text)
with_priority kind priority hs =
    if kind ≟ codes "background"
    then put_string (codes "apns-priority") (codes "5") hs
    else with_message_priority priority hs

abbrev pub with_expiration : ℕ → Option ℕ → List (Text × Text) → List (Text × Text)
with_expiration now none hs = hs
with_expiration now (some secs) hs =
    put_string (codes "apns-expiration") (format_int (expiration now secs)) hs

unfoldable pub ios_headers : ℕ → Message → List (Text × Text)
ios_headers now m =
    let kind = apns_push_type m in
    with_expiration now m.time_to_live (
      with_priority kind m.priority
        (with_collapse m.collapse_key ((codes "apns-push-type", kind) ∷ [])))

abbrev pub aps_of : Bool → Option Notification → Aps
aps_of content none = record { content_available = content; alert = none; sound = []; badge = none }
aps_of content (some n) = record {
  content_available = content;
  alert = some (record {
    title = n.title;
    body = n.body;
    loc_key = n.body_loc_key;
    loc_args = singleton_unless_empty n.body_loc_args;
    title_loc_key = n.title_loc_key;
    title_loc_args = singleton_unless_empty n.title_loc_args;
  });
  sound = n.sound;
  badge = parse_int n.badge;
}

unfoldable pub build_ios_message : ℕ → Message → FirebaseMessage
build_ios_message now m = record {
  token = m.to;
  strings = strings_of m.payload;
  notification = map_option firebase_notification m.notification;
  android = none;
  apns =
      some
        (record { headers = ios_headers now m; aps = aps_of m.content_available m.notification });
}

unfoldable pub to_firebase_message : ℕ → Message → FirebaseMessage
to_firebase_message now m =
    if m.platform ≟ codes "ios" then build_ios_message now m else build_android_message m
