-- ===== src/Pipeline/Balance.antt =====
-- The wait group counts the messages in flight, whatever order the goroutines run in.
use pusher.Base.{
  ℕ, suc, ◌+◌, true, List, [], ◌∷◌, Option, none, some, ◌≡◌, inl, inr, refl, ◌∙◌, length,
  length-append, ◌≟◌, total, total-set, get_elem?, ◌==◌, is_some, if◌then◌else◌, Bool-cases, arith,
}
use pusher.Effects.{Effect, stat, feedback, push, done, Services, settled}
use pusher.Apns.{KafkaMessage, ApnsNotification, ApnsMessageHandler, Env}
use pusher.Apns.Responses.{
  ResponseWithMetadata, ApnsResponse, Apns2, push_worker, handle_apns_response,
}
use pusher.Apns.Settles.{handle_messages-settles}
use pusher.Apns.Retry.{handle_apns_response-settles}
use pusher.Pusher.{handler_of, route_message}
use pusher.Pipeline.Invariant.{Ensures, run_invariant}
use pusher.Pipeline.{
  Act, release, send, acts, Worker, idle, pushing, answering, Sizes, System, Event, read, put,
  route, route_act, take, answer, deliver, respond, respond_act, perform, read_message, put_message,
  app_handlers, route_next, run_router, take_push, answer_push, ask_apns, deliver_response,
  respond_next, run_responder, step, run,
}

abbrev pub is_busy : Worker → ℕ
is_busy idle = 0
is_busy (pushing n) = 1
is_busy (answering r) = 1

abbrev pub held : {A : Type 0} → Option A → ℕ
held none = 0
held (some a) = 1

-- The messages and notifications that some goroutine or channel holds.
abbrev pub in_flight : {S : Type 0} → System S → ℕ
in_flight s =
    held s.reading
    + length s.msg_chan
    + length s.router
    + length s.push_chan
    + total is_busy s.workers
    + length s.response_chan
    + length s.responder

-- The counter of the wait group, and the messages that will never be released.
abbrev pub IsBalanced : {S : Type 0} → System S → Type 0
IsBalanced s = s.pending ≡ in_flight s + s.unrouted + s.unanswered

pub length-acts : (es : List (Effect ApnsNotification)) → length (acts es) ≡ settled es
unfolding acts
length-acts [] = refl
length-acts (stat r ∷ es) = omega (arith, length-acts es)
length-acts (feedback r game platform v ∷ es) = omega (arith, length-acts es)
length-acts (push n ∷ es) = omega (arith, length-acts es)
length-acts (done ∷ es) = omega (arith, length-acts es)

module _ {S : Type 0} (sv : Services S) (a : ApnsMessageHandler) (lib : Apns2) (z : Sizes)
    (counted : a.pending_messages_wg ≡ true) where
  read_message-IsBalanced :
      (m : KafkaMessage) (o : Option KafkaMessage) (s : System S)
      → s.reading ≡ o
      → IsBalanced s
      → Ensures IsBalanced (read_message sv a lib z m o s)
  unfolding read_message
  read_message-IsBalanced m none s e h = ground arith
  read_message-IsBalanced m (some m') s e h = tt

  put_message-IsBalanced :
      (o : Option KafkaMessage) (s : System S)
      → s.reading ≡ o
      → IsBalanced s
      → Ensures IsBalanced (put_message sv a lib z o s)
  unfolding put_message
  put_message-IsBalanced none s e h = tt
  put_message-IsBalanced (some m) s e h = ground (arith, length-append s.msg_chan (m ∷ []))

  -- Enough is in flight for the act to be released.
  perform-IsBalanced :
      (act : Act) (s : System S)
      → s.pending ≡ suc (in_flight s + s.unrouted + s.unanswered)
      → Ensures IsBalanced (perform sv a lib z act s)
  unfolding perform
  perform-IsBalanced release s h = ground arith
  perform-IsBalanced (send n) s h = ground (arith, length-append s.push_chan (n ∷ []))

  run_router-IsBalanced :
      (todo : List Act) (s : System S)
      → s.router ≡ todo
      → IsBalanced s
      → Ensures IsBalanced (run_router sv a lib z todo s)
  unfolding run_router
  run_router-IsBalanced [] s e h = tt
  run_router-IsBalanced (act ∷ todo) s e h =
      perform-IsBalanced act (record s { router = todo }) (ground arith)

  run_responder-IsBalanced :
      (todo : List Act) (s : System S)
      → s.responder ≡ todo
      → IsBalanced s
      → Ensures IsBalanced (run_responder sv a lib z todo s)
  unfolding run_responder
  run_responder-IsBalanced [] s e h = tt
  run_responder-IsBalanced (act ∷ todo) s e h =
      perform-IsBalanced act (record s { responder = todo }) (ground arith)

  -- A routed message leaves one act, unless its game has no handler.
  pub route_message-acts :
      (env : Env) (m : KafkaMessage) (services : S)
      → length (acts (route_message (app_handlers sv a lib z env) m services).0)
        ≡ (if is_some (handler_of m.game (app_handlers sv a lib z env)) then 1 else 0)
  unfolding route_message handler_of acts
  route_message-acts env m services = elim (Bool-cases (a.app_name ≟ m.game)) [
    | inl e ↦ rw e (length-acts _ ∙ handle_messages-settles sv a env counted m services)
    | inr n ↦ rw n refl
  ]

  route_next-IsBalanced :
      (env : Env) (todo : List Act) (ms : List KafkaMessage) (s : System S)
      → s.router ≡ todo
      → s.msg_chan ≡ ms
      → IsBalanced s
      → Ensures IsBalanced (route_next sv a lib z env todo ms s)
  unfolding route_next
  route_next-IsBalanced env (act ∷ todo) ms s e f h = tt
  route_next-IsBalanced env [] [] s e f h = tt
  route_next-IsBalanced env [] (m ∷ ms) s e f h =
      ground (arith, route_message-acts env m s.services)

  take_push-IsBalanced :
      (i : ℕ) (w : Option Worker) (ns : List ApnsNotification) (s : System S)
      → get_elem? s.workers i ≡ w
      → s.push_chan ≡ ns
      → IsBalanced s
      → Ensures IsBalanced (take_push sv a lib z i w ns s)
  unfolding take_push
  take_push-IsBalanced i (some idle) (n ∷ ns) s e f h =
      ground (arith, total-set is_busy s.workers i (pushing n) {w = idle} e)
  take_push-IsBalanced i (some idle) [] s e f h = tt
  take_push-IsBalanced i (some (pushing n)) ns s e f h = tt
  take_push-IsBalanced i (some (answering r)) ns s e f h = tt
  take_push-IsBalanced i none ns s e f h = tt

  answer_push-IsBalanced :
      (i : ℕ) (n : ApnsNotification) (r : Option ResponseWithMetadata) (s : System S)
      → get_elem? s.workers i ≡ some (pushing n)
      → IsBalanced s
      → Ensures IsBalanced (answer_push sv a lib z i r s)
  unfolding answer_push
  answer_push-IsBalanced i n none s e h =
      ground (arith, total-set is_busy s.workers i idle {w = pushing n} e)
  answer_push-IsBalanced i n (some r) s e h =
      ground (arith, total-set is_busy s.workers i (answering r) {w = pushing n} e)

  ask_apns-IsBalanced :
      (i : ℕ) (r : Option ApnsResponse) (w : Option Worker) (s : System S)
      → get_elem? s.workers i ≡ w
      → IsBalanced s
      → Ensures IsBalanced (ask_apns sv a lib z i r w s)
  unfolding ask_apns
  ask_apns-IsBalanced i r (some (pushing n)) s e h = elim (Bool-cases (z.clients == 0)) [
    | inl none_left ↦ rw none_left tt
    | inr some_left ↦ rw some_left (answer_push-IsBalanced i n (push_worker r n) s e h)
  ]
  ask_apns-IsBalanced i r (some idle) s e h = tt
  ask_apns-IsBalanced i r (some (answering r')) s e h = tt
  ask_apns-IsBalanced i r none s e h = tt

  deliver_response-IsBalanced :
      (i : ℕ) (w : Option Worker) (s : System S)
      → get_elem? s.workers i ≡ w
      → IsBalanced s
      → Ensures IsBalanced (deliver_response sv a lib z i w s)
  unfolding deliver_response
  deliver_response-IsBalanced i (some (answering r)) s e h = ground (
    arith,
    length-append s.response_chan (r ∷ []),
    total-set is_busy s.workers i idle {w = answering r} e,
  )
  deliver_response-IsBalanced i (some idle) s e h = tt
  deliver_response-IsBalanced i (some (pushing n)) s e h = tt
  deliver_response-IsBalanced i none s e h = tt

  respond_next-IsBalanced :
      (elapsed : ℕ) (todo : List Act) (rs : List ResponseWithMetadata) (s : System S)
      → s.responder ≡ todo
      → s.response_chan ≡ rs
      → IsBalanced s
      → Ensures IsBalanced (respond_next sv a lib z elapsed todo rs s)
  unfolding respond_next
  respond_next-IsBalanced elapsed (act ∷ todo) rs s e f h = tt
  respond_next-IsBalanced elapsed [] [] s e f h = tt
  respond_next-IsBalanced elapsed [] (r ∷ rs) s e f h = ground (
    arith,
    length-acts (handle_apns_response lib a elapsed r),
    (handle_apns_response-settles lib a elapsed r counted).0,
  )

  pub step-IsBalanced :
      (e : Event) (s : System S) → IsBalanced s → Ensures IsBalanced (step sv a lib z e s)
  unfolding step
  step-IsBalanced (read m) s h = read_message-IsBalanced m s.reading s refl h
  step-IsBalanced put s h = put_message-IsBalanced s.reading s refl h
  step-IsBalanced (route env) s h = route_next-IsBalanced env s.router s.msg_chan s refl refl h
  step-IsBalanced route_act s h = run_router-IsBalanced s.router s refl h
  step-IsBalanced (take i) s h =
      take_push-IsBalanced i (get_elem? s.workers i) s.push_chan s refl refl h
  step-IsBalanced (answer i r) s h = ask_apns-IsBalanced i r (get_elem? s.workers i) s refl h
  step-IsBalanced (deliver i) s h = deliver_response-IsBalanced i (get_elem? s.workers i) s refl h
  step-IsBalanced (respond elapsed) s h =
      respond_next-IsBalanced elapsed s.responder s.response_chan s refl refl h
  step-IsBalanced respond_act s h = run_responder-IsBalanced s.responder s refl h

  -- With a wait group, from a state whose counter is balanced, whatever order the goroutines of
  -- an APNS pusher run in and whatever APNS answers: no `Done` finds the wait group at zero, and
  -- the counter is the number of messages and notifications in flight, with the messages of other
  -- games and the pushes without a response, which it keeps for good.
  pub run-IsBalanced :
      (es : List Event) (s : System S) → IsBalanced s → Ensures IsBalanced (run sv a lib z es s)
  run-IsBalanced = run_invariant sv a lib z IsBalanced step-IsBalanced
