-- ===== src/Pipeline/Progress.antt =====
-- Some goroutine can go on, as long as something is in flight.
use pusher.Base.{
  ℕ, suc, ◌+◌, ◌<◌, List, [], ◌∷◌, Option, none, some, ◌≡◌, ◌⊎◌, inl, inr, refl, length, total,
  get_elem?, ◌==◌, false, arith,
}
use pusher.Effects.{Services}
use pusher.Apns.{KafkaMessage, ApnsNotification, ApnsMessageHandler, Env}
use pusher.Apns.Responses.{ResponseWithMetadata, Apns2, push_worker}
use pusher.Pipeline.Balance.{is_busy, held, in_flight, IsBalanced}
use pusher.Pipeline.Load.{added}
use pusher.Pipeline.{
  Act, release, send, Worker, idle, pushing, answering, Sizes, System, Outcome, went, blocked,
  panicked, Event, put, route, route_act, take, answer, deliver, respond, respond_act, perform,
  put_message, route_next, run_router, take_push, answer_push, ask_apns, deliver_response,
  respond_next, run_responder, step,
}

-- A worker at work, with its place, unless there is none.
busy_worker :
    (ws : List Worker)
    → (total is_busy ws ≡ 0)
      ⊎ ((i : ℕ) × (w : Worker) × (get_elem? ws i ≡ some w) × (is_busy w ≡ 1))
busy_worker [] = inl refl
busy_worker (idle ∷ ws) = elim (busy_worker ws) [
  | inl e ↦ inl (omega arith)
  | inr (i, w, e, b) ↦ inr (suc i, w, e, b)
]
busy_worker (pushing n ∷ ws) = inr (0, pushing n, refl, refl)
busy_worker (answering r ∷ ws) = inr (0, answering r, refl, refl)

idle_worker : (ws : List Worker) → total is_busy ws ≡ 0 → 0 < length ws → get_elem? ws 0 ≡ some idle
idle_worker [] h k = absurd (omega arith)
idle_worker (idle ∷ ws) h k = refl
idle_worker (pushing n ∷ ws) h k = absurd (omega arith)
idle_worker (answering r ∷ ws) h k = absurd (omega arith)

-- Every channel holds something, there is a client in the pool, and there is a worker.
pub record IsUsable (z : Sizes) (workers : ℕ) : Type 0 where
  pub room_for_messages : 0 < z.messages
  pub room_for_pushes : 0 < z.pushes
  pub room_for_responses : 0 < z.responses
  pub has_client : 0 < z.clients
  pub has_worker : 0 < workers

-- HandleResponses does not wait for room on the push channel.
abbrev pub IsFree : {S : Type 0} → Sizes → System S → List Act → Type 0
IsFree z s [] = Unit
IsFree z s (release ∷ todo) = Unit
IsFree z s (send n ∷ todo) = length s.push_chan < z.pushes

abbrev pub GoesOn : {S : Type 0} → Outcome S → Type 0
GoesOn (went s) = Unit
GoesOn blocked = ⊥
GoesOn panicked = ⊥

module _ {S : Type 0} (sv : Services S) (a : ApnsMessageHandler) (lib : Apns2) (z : Sizes)
    (env : Env) where
  -- An event that reads no message and leads on.
  abbrev pub Moves : System S → Type 0
  Moves s = (e : Event) × (added a e ≡ 0) × GoesOn (step sv a lib z e s)

  perform-GoesOn :
      (act : Act) (s : System S)
      → 0 < s.pending
      → IsFree z s (act ∷ [])
      → GoesOn (perform sv a lib z act s)
  unfolding perform
  perform-GoesOn release s h f = ground arith
  perform-GoesOn (send n) s h f = ground arith

  module _ (s : System S) (usable : IsUsable z (length s.workers)) (pending : 0 < s.pending) where
    open usable use {room_for_messages, room_for_pushes, room_for_responses, has_client, has_worker}

    reading-Moves :
        (o : Option KafkaMessage) → s.reading ≡ o → s.msg_chan ≡ [] → 0 < held o → Moves s
    unfolding step put_message
    reading-Moves none e f h = absurd (omega arith)
    reading-Moves (some m) e f h = (put, refl, ground arith)

    messages-Moves :
        (ms : List KafkaMessage)
        → s.msg_chan ≡ ms
        → s.router ≡ []
        → 0 < held s.reading + length ms
        → Moves s
    unfolding step route_next
    messages-Moves [] e f h = reading-Moves s.reading refl e (omega arith)
    messages-Moves (m ∷ ms) e f h = (route env, refl, rw (e, f) tt)

    router-Moves :
        (todo : List Act)
        → s.router ≡ todo
        → s.push_chan ≡ []
        → 0 < held s.reading + length s.msg_chan + length todo
        → Moves s
    unfolding step run_router
    router-Moves [] e f h = messages-Moves s.msg_chan refl e (omega arith)
    router-Moves (release ∷ todo) e f h =
        (route_act, refl, rw e (perform-GoesOn release (record s { router = todo }) pending tt))
    router-Moves (send n ∷ todo) e f h = (
      route_act,
      refl,
      rw e (perform-GoesOn (send n) (record s { router = todo }) pending (ground arith)),
    )

    pushes-Moves :
        (ns : List ApnsNotification)
        → s.push_chan ≡ ns
        → total is_busy s.workers ≡ 0
        → 0 < held s.reading + length s.msg_chan + length s.router + length ns
        → Moves s
    unfolding step take_push
    pushes-Moves [] e f h = router-Moves s.router refl e (omega arith)
    pushes-Moves (n ∷ ns) e f h = (take 0, refl, rw (e, idle_worker s.workers f has_worker) tt)

    worker-Moves :
        (i : ℕ) (w : Worker)
        → get_elem? s.workers i ≡ some w
        → is_busy w ≡ 1
        → s.response_chan ≡ []
        → Moves s
    unfolding step ask_apns answer_push push_worker deliver_response
    worker-Moves i idle e b f = absurd (omega arith)
    worker-Moves i (pushing n) e b f = (
      answer i none,
      refl,
      let some_left : (z.clients == 0) ≡ false = ground arith in rw (e, some_left) tt,
    )
    worker-Moves i (answering r) e b f = (deliver i, refl, ground arith)

    responses-Moves :
        (rs : List ResponseWithMetadata)
        → s.response_chan ≡ rs
        → s.responder ≡ []
        → 0 < in_flight s
        → Moves s
    unfolding step respond_next
    responses-Moves [] e f h = elim (busy_worker s.workers) [
      | inl calm ↦ pushes-Moves s.push_chan refl calm (ground arith)
      | inr (i, w, found, busy) ↦ worker-Moves i w found busy e
    ]
    responses-Moves (r ∷ rs) e f h = (respond 0, refl, rw (e, f) tt)

    responder-Moves :
        (todo : List Act) → s.responder ≡ todo → IsFree z s todo → 0 < in_flight s → Moves s
    unfolding step run_responder
    responder-Moves [] e f h = responses-Moves s.response_chan refl e h
    responder-Moves (release ∷ todo) e f h = (
      respond_act,
      refl,
      rw e (perform-GoesOn release (record s { responder = todo }) pending tt),
    )
    responder-Moves (send n ∷ todo) e f h = (
      respond_act,
      refl,
      rw e (perform-GoesOn (send n) (record s { responder = todo }) pending f),
    )

  -- With a wait group that counts what is in flight, channels that hold something, a client of APNS and at
  -- least one worker: as long as something is in flight, some goroutine can go on without a new message, unless
  -- HandleResponses has a notification to send again and the push channel is full.
  pub progress :
      (s : System S)
      → IsBalanced s
      → IsUsable z (length s.workers)
      → IsFree z s s.responder
      → 0 < in_flight s
      → Moves s
  progress s h usable free flying =
      responder-Moves s usable (omega (arith, h, flying)) s.responder refl free flying
