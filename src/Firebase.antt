-- ===== src/Firebase.antt =====
-- The way of messages through the Firebase pusher of one app, as its goroutines take it in any order:
-- the Kafka consumer, routeMessages, the goroutines of sendPush with the leases that bound their
-- number, and the response handlers of HandleResponses, in extensions/firebase/message_handler.go.
pub mod Sound
pub mod Load
pub mod Progress
pub mod Rest
use pusher.Base.{
  ℕ, zero, suc, ◌+◌, ◌-◌, Bool, List, [], ◌∷◌, ◌++◌, Option, none, some, length, get_elem?, set,
  ltb, ◌==◌, is_some, if◌then◌else◌,
}
use pusher.Effects.{Effect, stat, feedback, push, done, dones, Services}
use pusher.Apns.{KafkaMessage}
use pusher.Fcm.{Message}
use pusher.Fcm.Handler.{MessageHandler, Env, Job, handle_messages}
use pusher.Fcm.Responses.{SendError, Response, send_push, handle_response}
use pusher.Pusher.{Handlers, Handle, handler_of, route_message}

-- What a handler does to the wait group, and the messages that it hands to sendPush.
pub data Act : Type 0 where
  release : Act
  send : Job → Act

unfoldable pub acts : List (Effect Job) → List Act
acts [] = []
acts (stat r ∷ es) = acts es
acts (feedback r game platform v ∷ es) = acts es
acts (push j ∷ es) = send j ∷ acts es
acts (done ∷ es) = release ∷ acts es

-- Where a goroutine of sendPush stands: at Firebase, before the response channel, before it gives its
-- lease back, or at its end.
pub data Sender : Type 0 where
  calling : Job → Sender
  delivering : Response → Sender
  returning gone : Sender

-- `free` is what is on sendPushConcurrencyControl; `handlers` is how often each response handler
-- has yet to release.
pub record System (S : Type 0) : Type 0 where
  pub pending : ℕ
  pub reading : Option KafkaMessage
  pub msg_chan : List KafkaMessage
  pub router : List Act
  pub free : ℕ
  pub senders : List Sender
  pub response_chan : List Response
  pub handlers : List ℕ
  pub services : S
  pub unrouted : ℕ

pub data Outcome (S : Type 0) : Type 0 where
  went : System S → Outcome S
  blocked panicked : Outcome S

-- Which goroutine moves, with what it is given from outside; `answer` has that of Firebase and how long
-- it took.
pub data Event : Type 0 where
  read : KafkaMessage → Event
  put : Event
  route : Env → Event
  route_act : Event
  answer : ℕ → Option SendError → ℕ → Event
  deliver : ℕ → Event
  give_back : ℕ → Event
  respond : ℕ → Event
  respond_act : ℕ → Event

-- The capacity of the consumer's channel is `messages`.
module _ {S : Type 0} (sv : Services S) (h : MessageHandler) (messages : ℕ) where
  unfoldable pub read_message : KafkaMessage → Option KafkaMessage → System S → Outcome S
  read_message m none s = went (record s { reading = some m; pending = suc s.pending })
  read_message m (some m') s = blocked

  unfoldable pub put_message : Option KafkaMessage → System S → Outcome S
  put_message none s = blocked
  put_message (some m) s =
      if ltb (length s.msg_chan) messages
      then went (record s { reading = none; msg_chan = s.msg_chan ++ m ∷ [] })
      else blocked

  abbrev pub app_handlers : Env → Handlers (Handle Job S)
  app_handlers env = (h.app, handle_messages sv h env) ∷ []

  unfoldable pub route_next : Env → List Act → List KafkaMessage → System S → Outcome S
  route_next env (act ∷ todo) ms s = blocked
  route_next env [] [] s = blocked
  route_next env [] (m ∷ ms) s =
      let (es, services) = route_message (app_handlers env) m s.services in
      went (record s {
        msg_chan = ms;
        router = acts es;
        services = services;
        unrouted =
            if is_some (handler_of m.game (app_handlers env)) then s.unrouted else suc s.unrouted;
      })

  -- waitGroupDone
  unfoldable pub release_one : System S → Outcome S
  release_one s = if s.pending == 0 then panicked else went (record s { pending = s.pending - 1 })

  -- sendPush waits for a lease before it starts its goroutine.
  unfoldable pub start_push : Job → System S → Outcome S
  start_push j s =
      if s.free == 0
      then blocked
      else went (record s { free = s.free - 1; senders = s.senders ++ calling j ∷ [] })

  unfoldable pub run_router : List Act → System S → Outcome S
  unfolding release_one start_push
  run_router [] s = blocked
  run_router (release ∷ todo) s = release_one (record s { router = todo })
  run_router (send j ∷ todo) s = start_push j (record s { router = todo })

  -- The goroutine of sendPush: ask Firebase, which may answer equal messages differently, hand the response over, give the lease back.
  unfoldable pub ask_firebase : ℕ → Option SendError → ℕ → Option Sender → System S → Outcome S
  ask_firebase i error latency (some (calling j)) s =
      went
        (record s { senders = set s.senders i (delivering (send_push h (λ m. error) latency j).1) })
  ask_firebase i error latency _ s = blocked

  unfoldable pub deliver_response : ℕ → Option Sender → System S → Outcome S
  deliver_response i (some (delivering r)) s =
      if ltb (length s.response_chan) h.concurrent_workers
      then went (record s {
        senders = set s.senders i returning;
        response_chan = s.response_chan ++ r ∷ [];
      })
      else blocked
  deliver_response i _ s = blocked

  unfoldable pub return_lease : ℕ → Option Sender → System S → Outcome S
  return_lease i (some returning) s =
      if ltb s.free h.concurrent_workers
      then went (record s { free = suc s.free; senders = set s.senders i gone })
      else blocked
  return_lease i _ s = blocked

  -- A round of a response handler.
  unfoldable pub respond_next : ℕ → Option ℕ → List Response → System S → Outcome S
  respond_next i (some zero) (r ∷ rs) s =
      went
        (record s { response_chan = rs; handlers = set s.handlers i (dones (handle_response h r)) })
  respond_next i _ _ s = blocked

  unfoldable pub run_handler : ℕ → Option ℕ → System S → Outcome S
  unfolding release_one
  run_handler i (some (suc n)) s = release_one (record s { handlers = set s.handlers i n })
  run_handler i _ s = blocked

  unfoldable pub step : Event → System S → Outcome S
  unfolding read_message put_message route_next run_router ask_firebase deliver_response
      return_lease respond_next run_handler
  step (read m) s = read_message m s.reading s
  step put s = put_message s.reading s
  step (route env) s = route_next env s.router s.msg_chan s
  step route_act s = run_router s.router s
  step (answer i error latency) s = ask_firebase i error latency (get_elem? s.senders i) s
  step (deliver i) s = deliver_response i (get_elem? s.senders i) s
  step (give_back i) s = return_lease i (get_elem? s.senders i) s
  step (respond i) s = respond_next i (get_elem? s.handlers i) s.response_chan s
  step (respond_act i) s = run_handler i (get_elem? s.handlers i) s

  unfoldable pub run : List Event → System S → Outcome S
  unfolding step
  run [] s = went s
  run (e ∷ es) s = elim (step e s) [ blocked ↦ blocked | panicked ↦ panicked | went t ↦ run es t ]
