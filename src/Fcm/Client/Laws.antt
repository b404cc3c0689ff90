-- ===== src/Fcm/Client/Laws.antt =====
-- What a Firebase message says of the message it is made from.
use pusher.Base.{
  ℕ, false, List, [], ◌∷◌, Option, none, some, ◌≡◌, inl, inr, refl, ◌∙◌, ap, Text, codes, ◌≟◌,
  ≟_iff, ≟-eq, Bool, true, false, ap, ◌<◌, ◌+◌, ◌*◌, ◌/◌, ◌%◌, ◌^◌, if◌then◌else◌, Bool-cases,
  or_else, is_some, map_option, not, ◌&&◌, arith,
}
use pusher.Value.{Value, str, Fields, end, field, get}
use pusher.Apns.Metadata.{Absent, IsMap}
use pusher.Fcm.{Message, Notification}
use pusher.Value.Decode.{pos, format_int}
use pusher.Fcm.Client.{
  put_string, lookup_string, add_strings, to_map_string, apns_push_type, push_type, ios_headers,
  expiration, with_collapse, with_priority, with_message_priority, with_expiration,
  build_ios_message, build_android_message, to_firebase_message,
}

or_else-none : (o : Option Text) → or_else o none ≡ o
or_else-none none = refl
or_else-none (some t) = refl

some_map {ℓ κ} :
    {A : Type ℓ} {B : Type κ} (f : A → B) (o : Option A) → is_some (map_option f o) ≡ is_some o
some_map f none = refl
some_map f (some a) = refl

lookup-put_string :
    (k j v : Text) (m : List (Text × Text))
    → lookup_string j (put_string k v m) ≡ (if k ≟ j then some v else lookup_string j m)
unfolding put_string lookup_string
lookup-put_string k j v [] = refl
lookup-put_string k j v ((i, w) ∷ m) =
    ground (arith, ≟_iff k j, ≟_iff i k, ≟_iff i j, lookup-put_string k j v m)

abbrev Headers : Type 0
Headers = List (Text × Text)

-- A header of another key is seen through the later writes.
through_expiration :
    (now : ℕ) (k : Text) (ttl : Option ℕ) (hs : Headers)
    → (codes "apns-expiration" ≟ k) ≡ false
    → lookup_string k (with_expiration now ttl hs) ≡ lookup_string k hs
through_expiration now k none hs ne = refl
through_expiration now k (some secs) hs ne = lookup-put_string _ k _ hs ∙ rw ne

through_collapse :
    (k key : Text) (hs : Headers)
    → (codes "apns-collapse-id" ≟ k) ≡ false
    → lookup_string k (with_collapse key hs) ≡ lookup_string k hs
through_collapse k [] hs ne = refl
through_collapse k (c ∷ t) hs ne = lookup-put_string _ k _ hs ∙ rw ne

through_priority :
    (k kind priority : Text) (hs : Headers)
    → (codes "apns-priority" ≟ k) ≡ false
    → lookup_string k (with_priority kind priority hs) ≡ lookup_string k hs
through_priority k kind priority hs ne = elim (Bool-cases (kind ≟ codes "background")) [
  | inl e ↦ rw e (lookup-put_string _ k _ hs ∙ rw ne)
  | inr e ↦ rw e (unset priority)
]
  where
    unset : (p : Text) → lookup_string k (with_message_priority p hs) ≡ lookup_string k hs
    unset [] = refl
    unset (c ∷ t) = lookup-put_string _ k _ hs ∙ rw ne

abbrev pub if_set : Text → Option Text
if_set [] = none
if_set (c ∷ t) = some (c ∷ t)

priority_header :
    (kind priority : Text) (hs : Headers)
    → lookup_string (codes "apns-priority") hs ≡ none
    → lookup_string (codes "apns-priority") (with_priority kind priority hs)
      ≡ (if kind ≟ codes "background" then some (codes "5") else if_set priority)
priority_header kind priority hs unset = elim (Bool-cases (kind ≟ codes "background")) [
  | inl e ↦ rw e (lookup-put_string (codes "apns-priority") _ (codes "5") hs)
  | inr e ↦ rw e (set priority)
]
  where
    set : (p : Text) → lookup_string (codes "apns-priority") (with_message_priority p hs) ≡ if_set p
    set [] = unset
    set (c ∷ t) = lookup-put_string (codes "apns-priority") _ (c ∷ t) hs

collapse_header :
    (key : Text) (hs : Headers)
    → lookup_string (codes "apns-collapse-id") hs ≡ none
    → lookup_string (codes "apns-collapse-id") (with_collapse key hs) ≡ if_set key
collapse_header [] hs unset = unset
collapse_header (c ∷ t) hs unset = lookup-put_string (codes "apns-collapse-id") _ (c ∷ t) hs

expiration_header :
    (now : ℕ) (ttl : Option ℕ) (hs : Headers)
    → lookup_string (codes "apns-expiration") hs ≡ none
    → is_some (lookup_string (codes "apns-expiration") (with_expiration now ttl hs)) ≡ is_some ttl
expiration_header now none hs unset = rw unset refl
expiration_header now (some secs) hs unset =
    rw
      (lookup-put_string (codes "apns-expiration") (codes "apns-expiration")
        (format_int (expiration now secs)) hs)
      refl

-- Below the range of 64 bits it is the time now and the time to live, in whole seconds.
expiration_lem :
    (now secs : ℕ)
    → secs * 10 ^ 9 < 2 ^ 63
    → expiration now secs ≡ pos ((now + secs * 10 ^ 9) / 10 ^ 9)
unfolding expiration
expiration_lem now secs small =
    let fits : (secs * 10 ^ 9) % 2 ^ 64 ≡ secs * 10 ^ 9 = omega arith in rw fits (ground arith)

-- No notification, and content available: a background push.
abbrev pub is_silent : Message → Bool
is_silent m = not (is_some m.notification) && m.content_available

-- Its kind, and the test that the priority waits for.
push_type-is_silent :
    (m : Message)
    → (push_type m.notification m.content_available
        ≡ (if is_silent m then codes "background" else codes "alert"))
      × ((push_type m.notification m.content_available ≟ codes "background") ≡ is_silent m)
push_type-is_silent m = by_cases m.notification m.content_available
  where
    by_cases :
        (n : Option Notification) (content : Bool)
        → (push_type n content
            ≡ (if not (is_some n) && content then codes "background" else codes "alert"))
          × ((push_type n content ≟ codes "background") ≡ (not (is_some n) && content))
    by_cases none true = (refl, refl)
    by_cases none false = (refl, refl)
    by_cases (some n) content = (refl, refl)

-- The headers of an iOS message: the push type is `background` for a message without notification
-- that has content available and `alert` for any other; the priority is 5 for a background push, also
-- where the message has a priority, and otherwise the message's own, left out if that is empty; the
-- collapse id is the message's, left out if it is empty; an expiration is there exactly if the message
-- has a time to live.
pub ios_headers_lem :
    (now : ℕ) (m : Message)
    → let header = λ (key : Text). lookup_string key (ios_headers now m) in
      (header (codes "apns-push-type")
        ≡ some (if is_silent m then codes "background" else codes "alert"))
      × (header (codes "apns-priority")
          ≡ (if is_silent m then some (codes "5") else if_set m.priority))
      × (header (codes "apns-collapse-id") ≡ if_set m.collapse_key)
      × (is_some (header (codes "apns-expiration")) ≡ is_some m.time_to_live)
unfolding ios_headers apns_push_type lookup_string
ios_headers_lem now m =
    let kind = push_type m.notification m.content_available in
    let (kind_is, test_is) = push_type-is_silent m in
    let first : Headers = (codes "apns-push-type", kind) ∷ [] in
    let second = with_collapse m.collapse_key first in
    let third = with_priority kind m.priority second in
    (
      through_expiration now _ m.time_to_live _ refl
          ∙ through_priority _ kind m.priority second refl
          ∙ through_collapse _ m.collapse_key first refl
          ∙ base kind
          ∙ ap some kind_is,
      through_expiration now _ m.time_to_live _ refl
          ∙ priority_header kind m.priority second
              (through_collapse _ m.collapse_key first refl ∙ no_priority kind)
          ∙ rw test_is refl,
      through_expiration now _ m.time_to_live _ refl
          ∙ through_priority _ kind m.priority second refl
          ∙ collapse_header m.collapse_key first refl,
      expiration_header now m.time_to_live third (
          through_priority _ kind m.priority second refl
          ∙ through_collapse _ m.collapse_key first refl),
    )
  where
    base :
        (kind : Text)
        → lookup_string (codes "apns-push-type") ((codes "apns-push-type", kind) ∷ []) ≡ some kind
    base kind = refl

    no_priority :
        (kind : Text)
        → lookup_string (codes "apns-priority") ((codes "apns-push-type", kind) ∷ []) ≡ none
    no_priority kind = refl

abbrev pub string_in : Option Value → Option Text
string_in (some (str s)) = some s
string_in _ = none

Absent-get : (k : Text) (m : Fields) → Absent k m → get k m ≡ none
unfolding get
Absent-get k end h = refl
Absent-get k (field j v m) h = rw (h.0) (Absent-get k m h.1)

-- What one entry of the data adds.
abbrev add_string : Text → Value → List (Text × Text) → List (Text × Text)
add_string k (str s) result = put_string k s result
add_string k _ result = result

add_strings-field :
    (result : List (Text × Text)) (k : Text) (v : Value) (rest : Fields)
    → add_strings result (field k v rest) ≡ add_strings (add_string k v result) rest
unfolding add_strings
add_strings-field result k (str s) rest = refl
add_strings-field result k _ rest = refl

lookup-add_string :
    (result : List (Text × Text)) (j k : Text) (v : Value)
    → lookup_string k (add_string j v result) ≡ (
        if j ≟ k
        then or_else (string_in (some v)) (lookup_string k result)
        else lookup_string k result)
lookup-add_string result j k (str s) = lookup-put_string j k s result
lookup-add_string result j k _ = ground arith

lookup-add_strings :
    (m : Fields) (result : List (Text × Text)) (k : Text)
    → IsMap m
    → lookup_string k (add_strings result m)
      ≡ or_else (string_in (get k m)) (lookup_string k result)
unfolding get
lookup-add_strings end result k h = unfold add_strings in refl
lookup-add_strings (field j v rest) result k h =
    ap (lookup_string k) (add_strings-field result j v rest)
    ∙ lookup-add_strings rest (add_string j v result) k h.1
    ∙ elim (Bool-cases (j ≟ k)) [
      | inl e ↦
          rw (e, Absent-get k rest (rw (≟-eq j k e) at h.0), lookup-add_string result j k v, e)
      | inr e ↦ rw (e, lookup-add_string result j k v, e)
    ]

-- Of the data of a message, with one entry for a key, exactly the strings are sent, each under its
-- key.
lookup-to_map_string :
    (m : Fields) (k : Text) → IsMap m → lookup_string k (to_map_string m) ≡ string_in (get k m)
unfolding to_map_string lookup_string
lookup-to_map_string m k h = lookup-add_strings m [] k h ∙ or_else-none _

-- A Firebase message goes to the token of the message, and has a notification exactly if the
-- message has one. For the platform `ios` it has an APNS part and no Android part; for any other
-- it has no APNS part, and an Android part exactly if the message has a notification.
pub to_firebase_message_lem :
    (now : ℕ) (m : Message)
    → let f = to_firebase_message now m in
      (f.token ≡ m.to)
      × (is_some f.apns ≡ (m.platform ≟ codes "ios"))
      × (is_some f.android ≡ (not (m.platform ≟ codes "ios") && is_some m.notification))
      × (is_some f.notification ≡ is_some m.notification)
unfolding to_firebase_message build_ios_message build_android_message
to_firebase_message_lem now m = elim (Bool-cases (m.platform ≟ codes "ios")) [
  | inl e ↦ rw e (refl, refl, refl, some_map _ m.notification)
  | inr e ↦ rw e (refl, refl, some_map _ m.notification, some_map _ m.notification)
]
