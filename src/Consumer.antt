-- ===== src/Consumer.antt =====
-- The Kafka consumers, extensions/kafka_consumer.go and feedback/kafka_consumer.go, and the producer
-- of feedback, extensions/kafka_producer.go.
pub mod Laws
use pusher.Base.{
  ℕ, suc, ◌+◌, Bool, true, false, List, [], ◌∷◌, ◌++◌, Option, none, some, Text, codes, ◌≟◌,
  if◌then◌else◌,
}
use pusher.Value.{Value}
use pusher.Topic.{ParsedTopic, get_game_and_platform_from_topic, feedback_topic}
use pusher.Apns.{KafkaMessage}
use pusher.Feedback.{QueueMessage}

-- KafkaConsumer: the wait group's counter, if there is one, and the message channel, oldest first.
pub record KafkaConsumer (M : Type 0) : Type 0 where
  pub pending : Option ℕ
  pub msg_chan : List M

abbrev pub add_one : Option ℕ → Option ℕ
add_one none = none
add_one (some n) = some (suc n)

-- A message as the two consumers put it on their channels.
abbrev pub kafka_message : Text → Option Value → ParsedTopic → KafkaMessage
kafka_message topic value parsed = record {
  game = parsed.game;
  platform = parsed.platform;
  topic = topic;
  value = value;
}

abbrev pub queue_message : Text → Option Value → ParsedTopic → QueueMessage
queue_message topic value parsed = record {
  game = parsed.game;
  platform = parsed.platform;
  value = value;
}

-- How receiveMessage ends: with the message on the channel, or with the panic of a topic that does not
-- parse.
pub data Received (M : Type 0) : Type 0 where
  received topic_panics : KafkaConsumer M → Received M

abbrev pub put_on_channel :
    {M : Type 0} → (ParsedTopic → M) → Option ParsedTopic → KafkaConsumer M → Received M
put_on_channel make none q = topic_panics q
put_on_channel make (some parsed) q =
    received (record q { msg_chan = q.msg_chan ++ make parsed ∷ [] })

-- receiveMessage: the wait group is told first, before the topic is parsed.
unfoldable pub receive_message :
    {M : Type 0}
    → (Text → Option Value → ParsedTopic → M)
    → Text
    → Option Value
    → KafkaConsumer M
    → Received M
receive_message make topic value q =
    put_on_channel (make topic value) (get_game_and_platform_from_topic topic)
      (record q { pending = add_one q.pending })

-- What a round of ConsumeLoop meets: the stop channel closed, the context done, a timeout of the
-- read, another error, or a message.
pub data Poll : Type 0 where
  stop_closed context_done timed_out read_error : Poll
  message : Text → Option Value → Poll

-- How the rounds end: the loop returns, a panic, or it is still running.
pub data LoopEnd : Type 0 where
  returned panicked running : LoopEnd

module _ {M : Type 0} (make : Text → Option Value → ParsedTopic → M) where
  unfoldable pub consume_rounds : List Poll → KafkaConsumer M → KafkaConsumer M × LoopEnd
  consume_rounds [] q = (q, running)
  consume_rounds (stop_closed ∷ ps) q = (q, returned)
  consume_rounds (context_done ∷ ps) q = (q, returned)
  consume_rounds (timed_out ∷ ps) q = consume_rounds ps q
  consume_rounds (read_error ∷ ps) q = consume_rounds ps q
  consume_rounds (message topic value ∷ ps) q = elim (receive_message make topic value q) [
    | topic_panics q' ↦ (q', panicked)
    | received q' ↦ consume_rounds ps q'
  ]

-- How ConsumeLoop of extensions/kafka_consumer.go ends. `regexp.Compile` is asked of every topic
-- first, and a nil result is used at once where it fails; then the consumer subscribes.
pub data ConsumeResult : Type 0 where
  invalid_topic subscribe_error : ConsumeResult
  consumed : KafkaConsumer KafkaMessage → LoopEnd → ConsumeResult

abbrev pub all_compile : (Text → Bool) → List Text → Bool
all_compile compiles [] = true
all_compile compiles (t ∷ ts) = if compiles t then all_compile compiles ts else false

unfoldable pub consume_loop :
    (Text → Bool) → Bool → List Text → List Poll → KafkaConsumer KafkaMessage → ConsumeResult
consume_loop compiles subscribes topics polls q =
    if all_compile compiles topics
    then (if subscribes
        then (let (q', end) = consume_rounds kafka_message polls q in consumed q' end)
        else subscribe_error)
    else invalid_topic

-- Pause and Resume: the partitions of the topic among those assigned.
pub record TopicPartition : Type 0 where
  pub topic : Text
  pub partition : ℕ

unfoldable pub of_topic : Text → List TopicPartition → List TopicPartition
of_topic topic [] = []
of_topic topic (tp ∷ tps) =
    let rest = of_topic topic tps in if tp.topic ≟ topic then tp ∷ rest else rest

pub data PauseResult : Type 0 where
  assignment_error not_subscribed : PauseResult
  forwarded : List TopicPartition → PauseResult

abbrev pub forward : List TopicPartition → PauseResult
forward [] = not_subscribed
forward (tp ∷ tps) = forwarded (tp ∷ tps)

-- What is handed to the client's `Pause`; `none` is an error of `Assignment`.
unfoldable pub pause : Text → Option (List TopicPartition) → PauseResult
unfolding of_topic
pause topic none = assignment_error
pause topic (some assigned) = forward (of_topic topic assigned)

unfoldable pub resume : Text → Option (List TopicPartition) → PauseResult
unfolding of_topic
resume topic none = assignment_error
resume topic (some assigned) = forward (of_topic topic assigned)

-- SendFeedback of the KafkaProducer: the topic and the value of the message it produces.
unfoldable pub send_feedback : Text → Text → Value → Text × Option Value
send_feedback game platform feedback = (feedback_topic game platform, some feedback)
