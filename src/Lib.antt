-- ===== src/Lib.antt =====
-- The pusher: a service that reads push notifications from Kafka, sends them to APNS and Firebase,
-- and collects the feedback about device tokens that are no longer valid.
--
-- Parts and files (paths from the repository's root):
-- - Topic: topics and their parser, extensions/common.go (GetGameAndPlatformFromTopic) and the topic
--   names of pusher/apns.go, pusher/gcm.go, extensions/kafka_producer.go. Bytes are numbers. The
--   regular expression is a scan that prefers the longest game, as Go's leftmost-first matching does.
-- - Value: the dynamic values of encoding/json and the decoding of structs. A Kafka message holds the
--   parsed document, `none` for bytes that are no document; the parsing of bytes is not modelled.
-- - Effects: errors/push.go, the reporter loops of extensions/common.go, and the list of effects that
--   stands for what a handler does: a report, a feedback, a push, a release of the wait group.
-- - Apns: extensions/apns/apns_message_handler.go. `handle_messages` is HandleMessages,
--   `handle_apns_response` is handleAPNSResponse, `push_worker` the body of pushWorker in
--   extensions/apns/apns_push_queue.go, and `lifetime` the way of one notification through its answers.
-- - Fcm: extensions/firebase/message_handler.go (Fcm/Handler, Fcm/Responses) and
--   extensions/firebase/client (Fcm/Client). `Fcm.Client.Sending.send_push` is SendPush.
-- - Redis, RateLimiter, Dedup: extensions/rate_limiter.go and extensions/dedup_messages.go over a
--   parameter for the Redis server; its documented behaviour is a record of laws.
-- - Consumer: extensions/kafka_consumer.go, feedback/kafka_consumer.go and
--   extensions/kafka_producer.go. The rounds of the loop run over a list of what each round meets.
-- - Feedback: feedback/broker.go and feedback/invalid_token.go. `process_message` is a round of the
--   broker, `process_event` one of the invalid token handler.
-- - Pusher, Config: pusher/*.go, config/config.go, util/config.go: topics, handlers, routing, lists of
--   apps and reporters.
-- - Pipeline: the goroutines of an APNS pusher with their channels and wait group, as a step relation:
--   receiveMessage, routeMessages, pushWorker and HandleResponses of one app, which is the case of a
--   pusher with one app. `step` moves one goroutine, `run` follows a schedule, and a schedule ends where
--   it chooses a goroutine that has to wait. Pipeline/Balance, Drain, Rest and Deadlock hold the proofs.
-- - Firebase: the same for a Firebase pusher, with the goroutines of sendPush, the leases that bound their
--   number, and the response handlers, in extensions/firebase/message_handler.go.
-- - Listener: the goroutines of feedback/listener.go, ConsumeLoop of feedback/kafka_consumer.go,
--   processMessages of the broker and of the invalid token handler, and Cleanup, in the same way.
-- - TimeoutHeap: extensions/timeout_heap.go. `up` and `down` are those of container/heap, and
--   TimeoutHeap/Refines relates the heap to a list of requests.
-- - Settings: the constructors, which read viper: extensions/apns (Queues), the Kafka clients (Kafka),
--   the feedback listener with extensions/pg.go (Listening), the reporters (Reporters), Redis and the
--   Firebase handler (Services), and both pushers as a whole (Pushers; Serving and Reaching hold the
--   proofs). viper is a parameter with its documented order of values as laws.
-- - Statsd: extensions/datadog_statsd.go, the metrics and tags of each report; `none` is a panic.
-- - Pg: the wait for the database in extensions/pg.go. Shutdown: pusher/common.go.
-- - Base: shared operators and lemmas; Tests: the theorems at concrete inputs.
--
-- How the parts meet: a Consumer reads topics that Pusher subscribed to, parses them with Topic and
-- counts the wait group up; Pusher hands the message to the handler of its game; the handler asks
-- Dedup and RateLimiter, pushes, and later handles the answer, which releases the wait group and sends
-- feedback; Feedback reads that with its own consumer and deletes invalid tokens.
--
-- Bounds: loops are recursions on the list of inputs. Decimal digits are made with 20 steps, which are
-- enough for 64 bits. The hash is taken modulo 2 ^ 64. In the timeout heap `up` has the place of the node
-- as fuel, which halves in each round, and `down` the number of nodes, above which no place lies. Times in
-- the heap are natural numbers, far from the end of 64 bits. In Pipeline, Firebase and Listener a schedule is the
-- list of steps; a channel has the capacity of its configuration, which is at least one: the rendezvous
-- of a channel without capacity is not modelled. The room that the Go runtime has for channels is a
-- parameter of the constructors. A worker of APNS takes a client from the pool and puts it back in one
-- step. The wait before a retry is the wait for a later step.
--
-- Not modelled: logs, the loading of keys and certificates, the reading of configuration files and of
-- bytes of JSON, the tickers of statistics, the reports of the Go runtime, pprof, the
-- command line. Several apps of one pusher share the wait group and the router; their pipelines are
-- modelled one at a time.
pub mod Base
pub mod Topic
pub mod Value
pub mod Effects
pub mod Apns
pub mod Fcm
pub mod Redis
pub mod RateLimiter
pub mod Dedup
pub mod Feedback
pub mod Consumer
pub mod Config
pub mod Pusher
pub mod Pg
pub mod Settings
pub mod Pipeline
pub mod Firebase
pub mod Listener
pub mod TimeoutHeap
pub mod Shutdown
pub mod Statsd
pub mod Tests
