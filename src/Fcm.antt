-- ===== src/Fcm.antt =====
-- interfaces/client.go and the message type of extensions/firebase/message_handler.go: the FCM
-- message that a Kafka message holds, and how it is decoded.
pub mod Client
pub mod Handler
pub mod Responses
pub mod Settles
use pusher.Base.{
  ℕ, ◌^◌, ltb, Bool, true, false, List, [], ◌∷◌, Option, none, some, Text, codes, if◌then◌else◌,
}
use pusher.Value.{Value, nil, number, str, obj, Fields, end, field}
use pusher.Value.Decode.{
  ℤ, pos, Decoded, FieldDecoder, same_key, to_text, to_bool, to_int, to_map, magnitude,
  decode_fields,
}

pub record Notification : Type 0 where
  pub title : Text
  pub body : Text
  pub sound : Text
  pub click_action : Text
  pub body_loc_key : Text
  pub body_loc_args : Text
  pub title_loc_key : Text
  pub title_loc_args : Text
  pub image_url : Text
  pub icon : Text
  pub tag : Text
  pub color : Text
  pub badge : Text

pub record Message : Type 0 where
  pub to : Text
  pub message_id : Text
  pub message_type : Text
  pub collapse_key : Text
  pub priority : Text
  pub content_available : Bool
  pub time_to_live : Option ℕ
  pub delivery_receipt_requested : Bool
  pub dry_run : Bool
  pub payload : Option Fields  -- Data
  pub notification : Option Notification
  pub platform : Text

-- kafkaFCMMessage: a message, its metadata and its expiry.
pub record KafkaFcmMessage : Type 0 where
  pub message : Message
  pub metadata : Option Fields
  pub push_expiry : ℤ

abbrev pub zero_notification : Notification
zero_notification = record {
  title = [];
  body = [];
  sound = [];
  click_action = [];
  body_loc_key = [];
  body_loc_args = [];
  title_loc_key = [];
  title_loc_args = [];
  image_url = [];
  icon = [];
  tag = [];
  color = [];
  badge = [];
}

abbrev pub zero_fcm_message : KafkaFcmMessage
zero_fcm_message = record {
  message = record {
    to = [];
    message_id = [];
    message_type = [];
    collapse_key = [];
    priority = [];
    content_available = false;
    time_to_live = none;
    delivery_receipt_requested = false;
    dry_run = false;
    payload = none;
    notification = none;
    platform = [];
  };
  metadata = none;
  push_expiry = pos 0;
}

-- A field that is a string, by its getter and setter.
abbrev text_into : {A : Type 0} → (A → Text) → (A → Text → A) → Value → A → Decoded A
text_into old new v a = let (t, good) = to_text (old a) v in (new a t, good)

unfoldable pub notification_field : FieldDecoder Notification
notification_field k v n =
    if same_key k (codes "title")
    then text_into (λ x. x.title) (λ x t. record x { title = t }) v n
    else if same_key k (codes "body")
    then text_into (λ x. x.body) (λ x t. record x { body = t }) v n
    else if same_key k (codes "sound")
    then text_into (λ x. x.sound) (λ x t. record x { sound = t }) v n
    else if same_key k (codes "click_action")
    then text_into (λ x. x.click_action) (λ x t. record x { click_action = t }) v n
    else if same_key k (codes "body_loc_key")
    then text_into (λ x. x.body_loc_key) (λ x t. record x { body_loc_key = t }) v n
    else if same_key k (codes "body_loc_args")
    then text_into (λ x. x.body_loc_args) (λ x t. record x { body_loc_args = t }) v n
    else if same_key k (codes "title_loc_key")
    then text_into (λ x. x.title_loc_key) (λ x t. record x { title_loc_key = t }) v n
    else if same_key k (codes "title_loc_args")
    then text_into (λ x. x.title_loc_args) (λ x t. record x { title_loc_args = t }) v n
    else if same_key k (codes "image_url")
    then text_into (λ x. x.image_url) (λ x t. record x { image_url = t }) v n
    else if same_key k (codes "icon")
    then text_into (λ x. x.icon) (λ x t. record x { icon = t }) v n
    else if same_key k (codes "tag")
    then text_into (λ x. x.tag) (λ x t. record x { tag = t }) v n
    else if same_key k (codes "color")
    then text_into (λ x. x.color) (λ x t. record x { color = t }) v n
    else if same_key k (codes "badge")
    then text_into (λ x. x.badge) (λ x t. record x { badge = t }) v n
    else (n, true)

abbrev or_zero : Option Notification → Notification
or_zero none = zero_notification
or_zero (some n) = n

-- `*Notification`: null is nil, an object fills the notification that is there or a new one.
unfoldable pub to_notification : Option Notification → Value → Decoded (Option Notification)
unfolding notification_field
to_notification old nil = (none, true)
to_notification old (obj m) =
    let (n, good) = decode_fields notification_field m (or_zero old, true) in (some n, good)
to_notification old _ = (old, false)

abbrev uint_or : Option ℕ → Option ℕ → Decoded (Option ℕ)
uint_or old none = (old, false)
uint_or old (some n) = if ltb n (2 ^ 64) then (some n, true) else (old, false)

-- `*uint`: digits only, within 64 bits.
unfoldable pub to_uint : Option ℕ → Value → Decoded (Option ℕ)
to_uint old nil = (none, true)
to_uint old (number t) = uint_or old (magnitude t)
to_uint old _ = (old, false)

unfoldable pub message_only_field : FieldDecoder Message
message_only_field k v m =
    if same_key k (codes "to")
    then text_into (λ x. x.to) (λ x t. record x { to = t }) v m
    else if same_key k (codes "message_id")
    then text_into (λ x. x.message_id) (λ x t. record x { message_id = t }) v m
    else if same_key k (codes "message_type")
    then text_into (λ x. x.message_type) (λ x t. record x { message_type = t }) v m
    else if same_key k (codes "collapse_key")
    then text_into (λ x. x.collapse_key) (λ x t. record x { collapse_key = t }) v m
    else if same_key k (codes "priority")
    then text_into (λ x. x.priority) (λ x t. record x { priority = t }) v m
    else if same_key k (codes "content_available")
    then (let (b, good) = to_bool m.content_available v in
        (record m { content_available = b }, good))
    else if same_key k (codes "time_to_live")
    then (let (t, good) = to_uint m.time_to_live v in (record m { time_to_live = t }, good))
    else if same_key k (codes "delivery_receipt_requested")
    then (let (b, good) = to_bool m.delivery_receipt_requested v in
        (record m { delivery_receipt_requested = b }, good))
    else if same_key k (codes "dry_run")
    then (let (b, good) = to_bool m.dry_run v in (record m { dry_run = b }, good))
    else if same_key k (codes "data")
    then (let (d, good) = to_map m.payload v in (record m { payload = d }, good))
    else if same_key k (codes "notification")
    then (let (n, good) = to_notification m.notification v in (record m { notification = n }, good))
    else (m, true)

unfoldable pub fcm_message_field : FieldDecoder KafkaFcmMessage
unfolding message_only_field to_notification to_uint
fcm_message_field k v km =
    if same_key k (codes "metadata")
    then (let (m, good) = to_map km.metadata v in (record km { metadata = m }, good))
    else if same_key k (codes "push_expiry")
    then (let (i, good) = to_int km.push_expiry v in (record km { push_expiry = i }, good))
    else (let (m, good) = message_only_field k v km.message in (record km { message = m }, good))
