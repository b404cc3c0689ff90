-- ===== src/Pipeline.antt =====
-- The way of messages through the pusher of one APNS app, as its goroutines take it in any order:
-- the Kafka consumer (receiveMessage), routeMessages, the workers of the push queue (pushWorker) and
-- HandleResponses, with the channels between them and the wait group that they share.
pub mod Balance
pub mod Deadlock
pub mod Invariant
pub mod Progress
pub mod Load
pub mod Drain
pub mod Rest
use pusher.Base.{
  ℕ, suc, ◌+◌, ◌-◌, Bool, List, [], ◌∷◌, ◌++◌, Option, none, some, length, total, get_elem?, set,
  Text, ltb, ◌==◌, is_some, if◌then◌else◌,
}
use pusher.Effects.{Effect, stat, feedback, push, done, Services}
use pusher.Apns.{KafkaMessage, ApnsNotification, ApnsMessageHandler, Env}
use pusher.Apns.Messages.{handle_messages}
use pusher.Apns.Responses.{
  ResponseWithMetadata, ApnsResponse, Apns2, push_worker, handle_apns_response,
}
use pusher.Pusher.{Handlers, Handle, handler_of, route_message}

-- What a handler does to the wait group and to the push channel.
pub data Act : Type 0 where
  release : Act
  send : ApnsNotification → Act

unfoldable pub acts : List (Effect ApnsNotification) → List Act
acts [] = []
acts (stat r ∷ es) = acts es
acts (feedback r game platform v ∷ es) = acts es
acts (push n ∷ es) = send n ∷ acts es
acts (done ∷ es) = release ∷ acts es

-- Where a worker of the push queue stands: before the push channel, at APNS, or before the response
-- channel.
pub data Worker : Type 0 where
  idle : Worker
  pushing : ApnsNotification → Worker
  answering : ResponseWithMetadata → Worker

-- The capacities of the channels; `clients` is how many clients of APNS the pool is filled with.
pub record Sizes : Type 0 where
  pub messages : ℕ
  pub pushes : ℕ
  pub responses : ℕ
  pub clients : ℕ

-- `reading` is the message that the consumer counted and has yet to put on its channel; `router` and
-- `responder` are what is left to do of HandleMessages and of handleAPNSResponse. The last two count
-- the messages without a handler and the notifications without a response.
pub record System (S : Type 0) : Type 0 where
  pub pending : ℕ
  pub reading : Option KafkaMessage
  pub msg_chan : List KafkaMessage
  pub router : List Act
  pub push_chan : List ApnsNotification
  pub workers : List Worker
  pub response_chan : List ResponseWithMetadata
  pub responder : List Act
  pub services : S
  pub unrouted : ℕ
  pub unanswered : ℕ

-- A goroutine that can go on, one that has to wait, or a panic: `Done` of a counter at zero.
pub data Outcome (S : Type 0) : Type 0 where
  went : System S → Outcome S
  blocked panicked : Outcome S

-- Which goroutine moves, with what it is given from outside.
pub data Event : Type 0 where
  read : KafkaMessage → Event
  put : Event
  route : Env → Event
  route_act : Event
  take : ℕ → Event
  answer : ℕ → Option ApnsResponse → Event
  deliver : ℕ → Event
  respond : ℕ → Event
  respond_act : Event

module _ {S : Type 0} (sv : Services S) (a : ApnsMessageHandler) (lib : Apns2) (z : Sizes) where
  unfoldable pub perform : Act → System S → Outcome S
  perform release s =
      if s.pending == 0 then panicked else went (record s { pending = s.pending - 1 })
  perform (send n) s =
      if ltb (length s.push_chan) z.pushes
      then went (record s { push_chan = s.push_chan ++ n ∷ [] })
      else blocked

  -- receiveMessage: the wait group first, then the channel.
  unfoldable pub read_message : KafkaMessage → Option KafkaMessage → System S → Outcome S
  read_message m none s = went (record s { reading = some m; pending = suc s.pending })
  read_message m (some m') s = blocked

  unfoldable pub put_message : Option KafkaMessage → System S → Outcome S
  put_message none s = blocked
  put_message (some m) s =
      if ltb (length s.msg_chan) z.messages
      then went (record s { reading = none; msg_chan = s.msg_chan ++ m ∷ [] })
      else blocked

  abbrev pub app_handlers : Env → Handlers (Handle ApnsNotification S)
  app_handlers env = (a.app_name, handle_messages sv a env) ∷ []

  -- routeMessages takes a message when it is done with the one before.
  unfoldable pub route_next : Env → List Act → List KafkaMessage → System S → Outcome S
  route_next env (act ∷ todo) ms s = blocked
  route_next env [] [] s = blocked
  route_next env [] (m ∷ ms) s =
      let (es, services) = route_message (app_handlers env) m s.services in
      went (record s {
        msg_chan = ms;
        router = acts es;
        services = services;
        unrouted =
            if is_some (handler_of m.game (app_handlers env)) then s.unrouted else suc s.unrouted;
      })

  unfoldable pub run_router : List Act → System S → Outcome S
  unfolding perform
  run_router [] s = blocked
  run_router (act ∷ todo) s = perform act (record s { router = todo })

  -- pushWorker: take a notification, take a client from the pool and put it back, ask APNS, hand the
  -- response over. A pool that has a client has one again at once; an empty pool is waited for for good.
  unfoldable pub take_push : ℕ → Option Worker → List ApnsNotification → System S → Outcome S
  take_push i (some idle) (n ∷ ns) s =
      went (record s { push_chan = ns; workers = set s.workers i (pushing n) })
  take_push i _ _ s = blocked

  unfoldable pub answer_push : ℕ → Option ResponseWithMetadata → System S → Outcome S
  answer_push i none s =
      went (record s { workers = set s.workers i idle; unanswered = suc s.unanswered })
  answer_push i (some r) s = went (record s { workers = set s.workers i (answering r) })

  unfoldable pub ask_apns : ℕ → Option ApnsResponse → Option Worker → System S → Outcome S
  unfolding answer_push
  ask_apns i r (some (pushing n)) s =
      if z.clients == 0 then blocked else answer_push i (push_worker r n) s
  ask_apns i r _ s = blocked

  unfoldable pub deliver_response : ℕ → Option Worker → System S → Outcome S
  deliver_response i (some (answering r)) s =
      if ltb (length s.response_chan) z.responses
      then went
          (record s { workers = set s.workers i idle; response_chan = s.response_chan ++ r ∷ [] })
      else blocked
  deliver_response i _ s = blocked

  -- HandleResponses takes a response when it is done with the one before. The wait before a retry is
  -- part of the wait for `respond_act`.
  unfoldable pub respond_next : ℕ → List Act → List ResponseWithMetadata → System S → Outcome S
  respond_next elapsed (act ∷ todo) rs s = blocked
  respond_next elapsed [] [] s = blocked
  respond_next elapsed [] (r ∷ rs) s =
      went
        (record s { response_chan = rs; responder = acts (handle_apns_response lib a elapsed r) })

  unfoldable pub run_responder : List Act → System S → Outcome S
  unfolding perform
  run_responder [] s = blocked
  run_responder (act ∷ todo) s = perform act (record s { responder = todo })

  unfoldable pub step : Event → System S → Outcome S
  unfolding read_message put_message route_next run_router take_push ask_apns deliver_response
      respond_next run_responder
  step (read m) s = read_message m s.reading s
  step put s = put_message s.reading s
  step (route env) s = route_next env s.router s.msg_chan s
  step route_act s = run_router s.router s
  step (take i) s = take_push i (get_elem? s.workers i) s.push_chan s
  step (answer i r) s = ask_apns i r (get_elem? s.workers i) s
  step (deliver i) s = deliver_response i (get_elem? s.workers i) s
  step (respond elapsed) s = respond_next elapsed s.responder s.response_chan s
  step respond_act s = run_responder s.responder s

  -- A schedule; it ends where a goroutine is chosen that has to wait.
  unfoldable pub run : List Event → System S → Outcome S
  unfolding step
  run [] s = went s
  run (e ∷ es) s = elim (step e s) [ blocked ↦ blocked | panicked ↦ panicked | went t ↦ run es t ]
