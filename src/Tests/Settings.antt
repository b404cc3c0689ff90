-- ===== src/Tests/Settings.antt =====
-- A configuration of two lists: what is set, and the defaults.
use pusher.Base.{
  leb, ℕ, Bool, true, false, List, [], ◌∷◌, ◌++◌, Option, none, some, ◌≡◌, ◌∙◌, sym, refl, inl, inr,
  Bool-cases, subst, Text, codes, ◌≟◌, ≟-eq, ≟_refl, is_some, or_else, map, if◌then◌else◌, arith,
}
use pusher.Value.Decode.{ℤ, pos, lower}
use pusher.Settings.{
  Setting, text, number, flag, texts, Viper, Documented, starts_with, apart, set_defaults, made,
  panics, Element, pushed_message, queued_message,
}
use pusher.Settings.Kafka.{
  ConsumerConfig, configure_consumer, new_kafka_consumer, new_feedback_consumer, producer_from,
  producer_defaults,
}
use pusher.Settings.Queues.{new_apns_message_handler}
use pusher.Settings.Reads.{setting}
use pusher.Settings.Laws.{
  with_queue_by, queue_by, consumer_by, new_apns_message_handler_lem, new_consumers_lem,
  producer_topic_lem,
}

abbrev pub Pairs : Type 0
Pairs = List (Text × Setting)

abbrev find : Text → Pairs → Option Setting
find k [] = none
find k ((j, s) ∷ ps) = if k ≟ j then some s else find k ps

abbrev as_text : Option Setting → Text
as_text (some (text t)) = t
as_text _ = []

abbrev as_int : Option Setting → ℤ
as_int (some (number n)) = n
as_int _ = pos 0

abbrev as_uint : Option Setting → ℕ
as_uint (some (number (pos n))) = n
as_uint _ = 0

abbrev as_bool : Option Setting → Bool
as_bool (some (flag b)) = b
as_bool _ = false

-- Of durations only one second is needed.
abbrev as_duration : Option Setting → ℤ
as_duration (some (text t)) = if t ≟ codes "1s" then pos 1000000000 else pos 0
as_duration _ = pos 0

abbrev as_texts : Option Setting → List Text
as_texts (some (texts ts)) = ts
as_texts _ = []

abbrev pub lists : Viper (Pairs × Pairs)
lists = record {
  get = λ k v. or_else (find k v.0) (find k v.1);
  set_default = λ k s v. (v.0, (k, s) ∷ v.1);
  to_string = as_text;
  to_int = as_int;
  to_uint = as_uint;
  to_bool = as_bool;
  to_duration = as_duration;
  to_string_slice = as_texts;
}

abbrev is_set : Text → Pairs × Pairs → Bool
is_set k v = is_some (find k v.0)

starts_with_refl : (t : Text) → starts_with t t ≡ true
starts_with_refl [] = refl
starts_with_refl (c ∷ t) = ground (arith, starts_with_refl t)

apart-same : (k : Text) → apart k k ≡ false
unfolding apart
apart-same k = ground (arith, starts_with_refl (map lower k ++ codes "."))

apart-≟ : (k j : Text) → apart k j ≡ true → (k ≟ j) ≡ false
apart-≟ k j e = elim (Bool-cases (k ≟ j)) [
  | inl same ↦
      let never = apart-same k in
      let far = subst (λ (i : Text). apart k i ≡ true) (sym (≟-eq k j same)) e in cc
  | inr other ↦ other
]

or_else-is_some : (o p q : Option Setting) → is_some o ≡ true → or_else o p ≡ or_else o q
or_else-is_some none p q e = cc
or_else-is_some (some s) p q e = refl

or_else-not : (o p : Option Setting) → is_some o ≡ false → or_else o p ≡ p
or_else-not none p e = refl
or_else-not (some s) p e = cc

lists-Documented : Documented lists is_set
lists-Documented = record {
  same_is_set = λ k j s v. refl;
  explicit_wins = λ k j s v e. or_else-is_some (find k v.0) _ _ e;
  default_taken = λ k s v e. or_else-not (find k v.0) _ e ∙ rw (≟_refl k) refl;
  others_kept = λ k j s v e. rw (apart-≟ k j e) refl;
}

-- Room for a million elements of each kind.
abbrev pub room : Element → ℕ → Bool
room e n = leb n 1000000

abbrev settings : Pairs × Pairs
settings = ((codes "apns.pushQueueSize", number (pos 5)) ∷ [], [])

new_apns_message_handler_lem_example :
    (new_apns_message_handler lists room false true settings).0
    ≡ with_queue_by lists room
        (setting lists is_set settings)
        (queue_by lists room (setting lists is_set settings))
new_apns_message_handler_lem_example =
    new_apns_message_handler_lem lists is_set lists-Documented room settings

-- The size that is set, and the defaults of the others.
configured :
    (new_apns_message_handler lists room false true settings).0
    ≡ made (record {
      log_stats_interval = pos 5000;
      cache_cleaning_interval = pos 300000;
      retry_interval = pos 1000000000;
      max_retry_attempts = 3;
      push_queue = some (record {
        connection_pool_size = pos 1;
        push_queue_size = pos 5;
        response_channel_size = pos 100;
        concurrent_workers = pos 10;
      });
    })
unfolding new_apns_message_handler
configured = refl

-- A channel that there is no room for.
without_room : (new_apns_message_handler lists (λ e n. false) false true settings).0 ≡ panics
unfolding new_apns_message_handler
without_room = refl

abbrev makes : ConsumerConfig → Bool
makes c = true

new_consumers_lem_example :
    ((new_kafka_consumer lists room makes false settings).0
      ≡ configure_consumer lists room makes pushed_message false
          (consumer_by lists (codes "queue.") (setting lists is_set settings)))
    × ((new_feedback_consumer lists room makes false settings).0
        ≡ configure_consumer lists room makes queued_message false
            (consumer_by lists (codes "feedbackListeners.queue.") (setting lists is_set settings)))
new_consumers_lem_example =
    new_consumers_lem lists is_set lists-Documented room makes false settings

producer_topic_lem_example :
    (producer_from lists (set_defaults lists producer_defaults settings)).topic
    ≡ as_text (or_else (find (codes "feedback.kafka.topics") settings.0) none)
producer_topic_lem_example = producer_topic_lem lists is_set lists-Documented room settings
