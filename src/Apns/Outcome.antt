-- ===== src/Apns/Outcome.antt =====
-- What HandleMessages pushes, and what stops it.
use pusher.Base.{
  ◌+◌, Bool, true, false, List, [], ◌∷◌, Option, none, some, ◌≡◌, inl, inr, refl, Option-cases,
  Bool-cases, if◌then◌else◌, Text, All, sym, ◌∙◌, length, ◌&&◌, not, is_some, subst,
}
use pusher.Value.Decode.{unmarshal}
use pusher.Effects.{Services, pushed}
use pusher.Effects.Count.{only_pushed, pushed-wait_group_done}
use pusher.Apns.{
  KafkaMessage, PusherApnsKafkaMessage, ApnsNotification, ApnsMessageHandler, Env, is_expired,
  parse_kafka_message, message_field, zero_message, keep_if, build_and_validate_notification,
  send_notification, create_dedup_content_from_payload,
}
use pusher.Apns.Messages.{
  apns, report_duplicate, dedup_with, check_duplicate, send_valid, send_allowed, handle_parsed,
  handle_messages,
}

abbrev N : Type 0
N = ApnsNotification

abbrev pub sent_once : N → N
sent_once n = record n { send_attempts = n.send_attempts + 1 }

abbrev pub optional : Option N → List N
optional none = []
optional (some n) = sent_once n ∷ []

abbrev pub if_allowed : Bool → List N → List N
if_allowed true ns = ns
if_allowed false ns = []

-- The same services, with another answer of the deduplication.
abbrev pub answering : {S : Type 0} → Bool → Services S → Services S
answering b sv = record {
  is_unique = λ device msg game platform s. (b, (sv.is_unique device msg game platform s).1);
  allow = sv.allow;
}

module _ {S : Type 0} (sv : Services S) (a : ApnsMessageHandler) (env : Env) where
  pushed-send_valid :
      (topic : Text) (n : Option N) → pushed (send_valid sv a env topic n) ≡ optional n
  unfolding send_notification
  pushed-send_valid topic none = pushed-wait_group_done N _
  pushed-send_valid topic (some n) = simp only_pushed

  pushed-send_allowed :
      (topic : Text) (n : PusherApnsKafkaMessage) (allowed : Bool)
      → pushed (send_allowed sv a env topic n allowed)
        ≡ if_allowed allowed (optional (build_and_validate_notification a env n))
  pushed-send_allowed topic n true =
      pushed-send_valid topic (build_and_validate_notification a env n)
  pushed-send_allowed topic n false = simp only_pushed

  pushed-report_duplicate : (b : Bool) → pushed (report_duplicate sv a env b) ≡ []
  pushed-report_duplicate true = refl
  pushed-report_duplicate false = simp only_pushed

  pushed-dedup_with :
      (device : Text) (content : Option Text) (s : S)
      → pushed (dedup_with sv a env device content s).0 ≡ []
  pushed-dedup_with device none s = refl
  pushed-dedup_with device (some msg) s = pushed-report_duplicate _

  pub pushed-check_duplicate :
      (n : PusherApnsKafkaMessage) (s : S) → pushed (check_duplicate sv a env n s).0 ≡ []
  unfolding check_duplicate
  pushed-check_duplicate n s =
      pushed-dedup_with n.device_token (create_dedup_content_from_payload env n) s

  -- The rate limiter's answer for a message, after the deduplication.
  abbrev pub is_allowed : PusherApnsKafkaMessage → S → Bool
  is_allowed n s = (sv.allow n.device_token a.app_name apns (check_duplicate sv a env n s).1).0

  pushed-handle_parsed :
      (topic : Text) (n : PusherApnsKafkaMessage) (s : S)
      → pushed (handle_parsed sv a env topic (some n) s).0
        ≡ if_allowed (is_allowed n s) (optional (build_and_validate_notification a env n))
  pushed-handle_parsed topic n s =
      simp (only_pushed, pushed-check_duplicate n s) (pushed-send_allowed topic n (is_allowed n s))

  pub pushed-handle_messages :
      (message : KafkaMessage) (s : S) {n : PusherApnsKafkaMessage}
      → parse_kafka_message a env message ≡ some n
      → pushed (handle_messages sv a env message s).0
        ≡ if_allowed (is_allowed n s) (optional (build_and_validate_notification a env n))
  unfolding handle_messages
  pushed-handle_messages message s {n} e = rw e (pushed-handle_parsed message.topic n s)

  -- A message that is not parsed pushes nothing.
  pub pushed-unparsed :
      (message : KafkaMessage) (s : S)
      → parse_kafka_message a env message ≡ none
      → pushed (handle_messages sv a env message s).0 ≡ []
  unfolding handle_messages
  pushed-unparsed message s e = rw e (pushed-wait_group_done N _)

check_duplicate-answering :
    {S : Type 0} (sv : Services S) (a : ApnsMessageHandler) (env : Env) (b : Bool)
    (n : PusherApnsKafkaMessage) (s : S)
    → (check_duplicate (answering b sv) a env n s).1 ≡ (check_duplicate sv a env n s).1
unfolding check_duplicate
check_duplicate-answering sv a env b n s =
    elim (Option-cases (create_dedup_content_from_payload env n)) [
      | inl e ↦ rw e
      | inr (c, e) ↦ rw e
    ]

-- A duplicate is only reported: whatever the deduplication answers, HandleMessages pushes the same
-- notifications.
pub duplicate_never_blocks :
    {S : Type 0} (sv : Services S) (a : ApnsMessageHandler) (env : Env) (b : Bool)
    (message : KafkaMessage) (s : S)
    → pushed (handle_messages (answering b sv) a env message s).0
      ≡ pushed (handle_messages sv a env message s).0
duplicate_never_blocks sv a env b message s =
    elim (Option-cases (parse_kafka_message a env message)) [
      | inl e ↦
          rw (pushed-unparsed (answering b sv) a env message s e)
            (sym (pushed-unparsed sv a env message s e))
      | inr (n, e) ↦
          let ours = pushed-handle_messages sv a env message s e in
          let theirs = pushed-handle_messages (answering b sv) a env message s e in
          theirs ∙ rw (check_duplicate-answering sv a env b n s) (sym ours)
    ]

-- What a notification that is pushed for a message says: the handler's topic, the message's device
-- and collapse id, a fresh id, one attempt, the payload as JSON, and the metadata for the feedback.
pub record IsPushFor (a : ApnsMessageHandler) (env : Env) (n : PusherApnsKafkaMessage) (x : N)
    : Type 0 where
  pub topic : x.topic ≡ a.apns_topic
  pub device : x.device_token ≡ n.device_token
  pub collapse : x.collapse_id ≡ n.collapse_id
  pub fresh : x.apns_id ≡ env.new_uuid
  pub first : x.send_attempts ≡ 1
  pub payload : env.marshal n.payload ≡ some x.payload
  pub metadata : x.metadata ≡ n.metadata
  pub unexpired : is_expired n.push_expiry env.make_timestamp ≡ false

keep_if-All {ℓ κ} :
    {A : Type ℓ} (P : A → Type κ) (b : Bool) {a a' : A} → P a → keep_if b a ≡ some a' → P a'
keep_if-All P true p e = subst P (cc e) p
keep_if-All P false p e = cc e

-- The id of a parsed message is the fresh one.
parse_kafka_message-id :
    (a : ApnsMessageHandler) (env : Env) (message : KafkaMessage) {n : PusherApnsKafkaMessage}
    → parse_kafka_message a env message ≡ some n
    → n.apns_id ≡ env.new_uuid
unfolding parse_kafka_message
parse_kafka_message-id a env message {n} e =
    keep_if-All (λ m. m.apns_id ≡ env.new_uuid)
      (unmarshal message_field zero_message message.value).1 refl e

optional-IsPushFor :
    (a : ApnsMessageHandler) (env : Env) (n : PusherApnsKafkaMessage)
    → n.apns_id ≡ env.new_uuid
    → All (IsPushFor a env n) (optional (build_and_validate_notification a env n))
unfolding build_and_validate_notification
optional-IsPushFor a env n id = elim (Bool-cases (is_expired n.push_expiry env.make_timestamp)) [
  | inl e ↦ rw e tt
  | inr e ↦ rw e (elim (Option-cases (env.marshal n.payload)) [
    | inl m ↦ rw m tt
    | inr (p, m) ↦ rw m (
      record {
        topic = refl;
        device = refl;
        collapse = refl;
        fresh = id;
        first = refl;
        payload = m;
        metadata = refl;
        unexpired = e;
      },
      tt,
    )
  ])
]

if_allowed-All : (P : N → Type 0) (b : Bool) (ns : List N) → All P ns → All P (if_allowed b ns)
if_allowed-All P true ns h = h
if_allowed-All P false ns h = tt

length-optional :
    (a : ApnsMessageHandler) (env : Env) (n : PusherApnsKafkaMessage) (allowed : Bool)
    → length (if_allowed allowed (optional (build_and_validate_notification a env n))) ≡ (
        if allowed
          && not (is_expired n.push_expiry env.make_timestamp)
          && is_some (env.marshal n.payload)
        then 1
        else 0)
unfolding build_and_validate_notification
length-optional a env n false = refl
length-optional a env n true = elim (Bool-cases (is_expired n.push_expiry env.make_timestamp)) [
  | inl e ↦ rw e
  | inr e ↦ rw e (elim (Option-cases (env.marshal n.payload)) [ inl m ↦ rw m | inr (p, m) ↦ rw m ])
]

-- For a message that is parsed, HandleMessages pushes one notification if the rate limiter allows it,
-- the message has not expired and its payload can be encoded, and none otherwise; and what it pushes
-- is the message's: its device, payload, collapse id and metadata, with the handler's topic, the id
-- that was made anew for it and one attempt.
pub handle_messages-IsPushFor :
    {S : Type 0} (sv : Services S) (a : ApnsMessageHandler) (env : Env) (message : KafkaMessage)
    (s : S) {n : PusherApnsKafkaMessage}
    → parse_kafka_message a env message ≡ some n
    → let sent = pushed (handle_messages sv a env message s).0 in
      All (IsPushFor a env n) sent
      × (length sent ≡ (
          if is_allowed sv a env n s
            && not (is_expired n.push_expiry env.make_timestamp)
            && is_some (env.marshal n.payload)
          then 1
          else 0))
handle_messages-IsPushFor sv a env message s {n} e =
    rw (pushed-handle_messages sv a env message s e) (
      if_allowed-All (IsPushFor a env n) (is_allowed sv a env n s) _
          (optional-IsPushFor a env n (parse_kafka_message-id a env message e)),
      length-optional a env n (is_allowed sv a env n s),
    )
