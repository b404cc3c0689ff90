-- ===== src/Pipeline/Drain.antt =====
-- A bound on the steps of a schedule: what is in flight runs out, retries included.
use pusher.Base.{
  ℕ, ◌+◌, ◌≤◌, ◌<◌, true, List, [], ◌∷◌, Option, none, some, ◌≡◌, inl, inr, refl, ◌∙◌, ap, length,
  total, total-append, total-set, get_elem?, ◌==◌, Bool-cases, arith,
}
use pusher.Effects.{Services}
use pusher.Effects.Count.{pushes-length}
use pusher.Apns.{KafkaMessage, ApnsNotification, ApnsMessageHandler, Env}
use pusher.Apns.Responses.{
  ResponseWithMetadata, ApnsResponse, Apns2, push_worker, is_retried, handle_apns_response,
}
use pusher.Apns.Retry.{handle_apns_response-settles, response}
use pusher.Pusher.{route_message}
use pusher.Pipeline.Balance.{route_message-acts}
use pusher.Pipeline.Invariant.{After, After-map}
use pusher.Pipeline.{
  Act, release, send, acts, Worker, idle, pushing, answering, Sizes, System, Outcome, went, blocked,
  panicked, Event, read, put, route, route_act, take, answer, deliver, respond, respond_act,
  perform, read_message, put_message, app_handlers, route_next, run_router, take_push, answer_push,
  ask_apns, deliver_response, respond_next, run_responder, step, run,
}
use pusher.Pipeline.Load.{
  rounds, of_act, of_push, of_worker, of_response, of_message, load, total-of_act, added,
  total-acts,
}

module _ {S : Type 0} (sv : Services S) (a : ApnsMessageHandler) (lib : Apns2) (z : Sizes)
    (counted : a.pending_messages_wg ≡ true) where
  -- A response that is handled leaves less to do than it stood for.
  respond-less :
      (elapsed : ℕ) (r : ResponseWithMetadata)
      → total (of_act a) (acts (handle_apns_response lib a elapsed r)) < of_response a r
  respond-less elapsed r =
      let es = handle_apns_response lib a elapsed r in
      let (once, again) = handle_apns_response-settles lib a elapsed r counted in
      let left = ap (total (λ (n : ApnsNotification). rounds a n + 6)) again in
      let sent = pushes-length es ∙ ap length again in
      elim (Bool-cases (is_retried lib a elapsed r)) [
        | inl e ↦
            let left' = rw e at left in
            let sent' = rw e at sent in ground (arith, total-acts a es, once, left', sent')
        | inr e ↦ let left' = rw e at left in omega (arith, total-acts a es, once, left')
      ]

  route-less :
      (env : Env) (m : KafkaMessage) (services : S)
      → total (of_act a) (acts (route_message (app_handlers sv a lib z env) m services).0)
        < of_message a
  route-less env m services =
      total-of_act a (acts (route_message (app_handlers sv a lib z env) m services).0)
        (ground (arith, route_message-acts sv a lib z counted env m services))

  -- What is left after the event `e` of a state with the load `k`.
  abbrev Less : Event → ℕ → System S → Type 0
  Less e k t = load a t < k + added a e

  perform-Less :
      (act : Act) (k : ℕ) (s : System S)
      → load a s + of_act a act ≤ k
      → After (λ t. load a t < k) (perform sv a lib z act s)
  unfolding perform
  perform-Less release k s h = ground arith
  perform-Less (send n) k s h = ground (arith, total-append (of_push a) s.push_chan (n ∷ []))

  read_message-Less :
      (m : KafkaMessage) (o : Option KafkaMessage) (s : System S)
      → s.reading ≡ o
      → After (Less (read m) (load a s)) (read_message sv a lib z m o s)
  unfolding read_message
  read_message-Less m none s e = ground arith
  read_message-Less m (some m') s e = tt

  put_message-Less :
      (o : Option KafkaMessage) (s : System S)
      → s.reading ≡ o
      → After (Less put (load a s)) (put_message sv a lib z o s)
  unfolding put_message
  put_message-Less none s e = tt
  put_message-Less (some m) s e =
      ground (arith, total-append (λ (m : KafkaMessage). of_message a) s.msg_chan (m ∷ []))

  route_next-Less :
      (env : Env) (todo : List Act) (ms : List KafkaMessage) (s : System S)
      → s.router ≡ todo
      → s.msg_chan ≡ ms
      → After (Less (route env) (load a s)) (route_next sv a lib z env todo ms s)
  unfolding route_next
  route_next-Less env (act ∷ todo) ms s e f = tt
  route_next-Less env [] [] s e f = tt
  route_next-Less env [] (m ∷ ms) s e f = ground (arith, route-less env m s.services)

  run_router-Less :
      (todo : List Act) (s : System S)
      → s.router ≡ todo
      → After (Less route_act (load a s)) (run_router sv a lib z todo s)
  unfolding run_router
  run_router-Less [] s e = tt
  run_router-Less (act ∷ todo) s e =
      perform-Less act (load a s + 0) (record s { router = todo }) (ground arith)

  run_responder-Less :
      (todo : List Act) (s : System S)
      → s.responder ≡ todo
      → After (Less respond_act (load a s)) (run_responder sv a lib z todo s)
  unfolding run_responder
  run_responder-Less [] s e = tt
  run_responder-Less (act ∷ todo) s e =
      perform-Less act (load a s + 0) (record s { responder = todo }) (ground arith)

  take_push-Less :
      (i : ℕ) (w : Option Worker) (ns : List ApnsNotification) (s : System S)
      → get_elem? s.workers i ≡ w
      → s.push_chan ≡ ns
      → After (Less (take i) (load a s)) (take_push sv a lib z i w ns s)
  unfolding take_push
  take_push-Less i (some idle) (n ∷ ns) s e f =
      ground (arith, total-set (of_worker a) s.workers i (pushing n) {w = idle} e)
  take_push-Less i (some idle) [] s e f = tt
  take_push-Less i (some (pushing n)) ns s e f = tt
  take_push-Less i (some (answering r)) ns s e f = tt
  take_push-Less i none ns s e f = tt

  answer_push-Less :
      (i : ℕ) (r : Option ApnsResponse) (n : ApnsNotification) (s : System S)
      → get_elem? s.workers i ≡ some (pushing n)
      → After (Less (answer i r) (load a s)) (answer_push sv a lib z i (push_worker r n) s)
  unfolding answer_push push_worker
  answer_push-Less i none n s e =
      ground (arith, total-set (of_worker a) s.workers i idle {w = pushing n} e)
  answer_push-Less i (some r) n s e = ground (
    arith,
    total-set (of_worker a) s.workers i (answering (response lib a 0 r n)) {w = pushing n} e,
  )

  ask_apns-Less :
      (i : ℕ) (r : Option ApnsResponse) (w : Option Worker) (s : System S)
      → get_elem? s.workers i ≡ w
      → After (Less (answer i r) (load a s)) (ask_apns sv a lib z i r w s)
  unfolding ask_apns
  ask_apns-Less i r (some (pushing n)) s e = elim (Bool-cases (z.clients == 0)) [
    | inl none_left ↦ rw none_left tt
    | inr some_left ↦ rw some_left (answer_push-Less i r n s e)
  ]
  ask_apns-Less i r (some idle) s e = tt
  ask_apns-Less i r (some (answering r')) s e = tt
  ask_apns-Less i r none s e = tt

  deliver_response-Less :
      (i : ℕ) (w : Option Worker) (s : System S)
      → get_elem? s.workers i ≡ w
      → After (Less (deliver i) (load a s)) (deliver_response sv a lib z i w s)
  unfolding deliver_response
  deliver_response-Less i (some (answering r)) s e = ground (
    arith,
    total-append (of_response a) s.response_chan (r ∷ []),
    total-set (of_worker a) s.workers i idle {w = answering r} e,
  )
  deliver_response-Less i (some idle) s e = tt
  deliver_response-Less i (some (pushing n)) s e = tt
  deliver_response-Less i none s e = tt

  respond_next-Less :
      (elapsed : ℕ) (todo : List Act) (rs : List ResponseWithMetadata) (s : System S)
      → s.responder ≡ todo
      → s.response_chan ≡ rs
      → After (Less (respond elapsed) (load a s)) (respond_next sv a lib z elapsed todo rs s)
  unfolding respond_next
  respond_next-Less elapsed (act ∷ todo) rs s e f = tt
  respond_next-Less elapsed [] [] s e f = tt
  respond_next-Less elapsed [] (r ∷ rs) s e f = ground (arith, respond-less elapsed r)

  pub step-Less : (e : Event) (s : System S) → After (Less e (load a s)) (step sv a lib z e s)
  unfolding step
  step-Less (read m) s = read_message-Less m s.reading s refl
  step-Less put s = put_message-Less s.reading s refl
  step-Less (route env) s = route_next-Less env s.router s.msg_chan s refl refl
  step-Less route_act s = run_router-Less s.router s refl
  step-Less (take i) s = take_push-Less i (get_elem? s.workers i) s.push_chan s refl refl
  step-Less (answer i r) s = ask_apns-Less i r (get_elem? s.workers i) s refl
  step-Less (deliver i) s = deliver_response-Less i (get_elem? s.workers i) s refl
  step-Less (respond elapsed) s = respond_next-Less elapsed s.responder s.response_chan s refl refl
  step-Less respond_act s = run_responder-Less s.responder s refl

  -- What is left after a schedule, and the steps that it took.
  abbrev Spent : List Event → ℕ → System S → Type 0
  Spent es k t = load a t + length es ≤ k + total (added a) es

  After-next :
      (e : Event) (es : List Event) (k : ℕ) (o : Outcome S)
      → ((t : System S) → After (Spent es (load a t)) (run sv a lib z es t))
      → After (Less e k) o
      → After
          (Spent (e ∷ es) k)
          (elim o [ blocked ↦ blocked | panicked ↦ panicked | went t ↦ run sv a lib z es t ])
  After-next e es k (went t) rest h =
      After-map (Spent es (load a t)) (Spent (e ∷ es) k) (run sv a lib z es t)
        (λ u m. omega (arith, m, h)) (rest t)
  After-next e es k blocked rest h = tt
  After-next e es k panicked rest h = tt

  -- With a wait group, whatever order the goroutines run in and whatever APNS answers: a schedule
  -- that is run to its end has at most as many steps as the load of the state it starts in, and 6
  -- · maxRetryAttempts + 9 more for every message that it reads, and the load of the state it
  -- ends in is at most what then is left.
  pub run_terminates :
      (es : List Event) (s : System S)
      → After (λ t. load a t + length es ≤ load a s + total (added a) es) (run sv a lib z es s)
  unfolding run
  run_terminates [] s = omega arith
  run_terminates (e ∷ es) s =
      After-next e es (load a s) (step sv a lib z e s) (λ t. run_terminates es t) (step-Less e s)
