-- ===== src/Firebase/Progress.antt =====
-- As long as something is left to do, some goroutine of a Firebase pusher can go on.
use pusher.Base.{
  ℕ, zero, suc, ◌+◌, ◌<◌, List, [], ◌∷◌, Option, none, some, ◌≡◌, ◌⊎◌, inl, inr, refl, length,
  total, total-set, get_elem?, arith,
}
use pusher.Effects.{Services}
use pusher.Apns.{KafkaMessage}
use pusher.Fcm.Handler.{MessageHandler, Env}
use pusher.Fcm.Responses.{Response}
use pusher.Firebase.Load.{has_lease, of_act, of_sender, seven, of_reading, load, added, left}
use pusher.Firebase.{
  Act, release, send, Sender, calling, delivering, returning, gone, System, Outcome, went, blocked,
  panicked, Event, put, route, route_act, answer, deliver, give_back, respond, respond_act,
  put_message, route_next, release_one, start_push, run_router, ask_firebase, deliver_response,
  return_lease, respond_next, run_handler, step,
}
use pusher.Firebase.Sound.{IsSound}

-- A goroutine of sendPush that is not at its end, with its place, unless there is none.
busy_sender :
    (ss : List Sender)
    → ((total of_sender ss ≡ 0) × (total has_lease ss ≡ 0))
      ⊎ ((i : ℕ) × (w : Sender) × (get_elem? ss i ≡ some w) × (0 < of_sender w))
busy_sender [] = inl (refl, refl)
busy_sender (gone ∷ ss) = elim (busy_sender ss) [
  | inl e ↦ inl (omega (arith, e.0), omega (arith, e.1))
  | inr (i, w, e, b) ↦ inr (suc i, w, e, b)
]
busy_sender (calling j ∷ ss) = inr (0, calling j, refl, omega arith)
busy_sender (delivering r ∷ ss) = inr (0, delivering r, refl, omega arith)
busy_sender (returning ∷ ss) = inr (0, returning, refl, omega arith)

busy_handler :
    (hs : List ℕ) → (total left hs ≡ 0) ⊎ ((i : ℕ) × (n : ℕ) × (get_elem? hs i ≡ some (suc n)))
busy_handler [] = inl refl
busy_handler (zero ∷ hs) = elim (busy_handler hs) [
  | inl e ↦ inl (omega (arith, e))
  | inr (i, n, e) ↦ inr (suc i, n, e)
]
busy_handler (suc n ∷ hs) = inr (0, n, refl)

ready_handler : (hs : List ℕ) → total left hs ≡ 0 → 0 < length hs → get_elem? hs 0 ≡ some zero
ready_handler [] e h = absurd (omega arith)
ready_handler (zero ∷ hs) e h = refl
ready_handler (suc n ∷ hs) e h = absurd (omega arith)

abbrev pub GoesOn : {S : Type 0} → Outcome S → Type 0
GoesOn (went s) = Unit
GoesOn blocked = ⊥
GoesOn panicked = ⊥

module _ {S : Type 0} (sv : Services S) (h : MessageHandler) (messages : ℕ) (env : Env)
    (has_room : 0 < messages) (has_worker : 0 < h.concurrent_workers) where
  -- An event that reads no message and leads on.
  abbrev pub Moves : System S → Type 0
  Moves s = (e : Event) × (added e ≡ 0) × GoesOn (step sv h messages e s)

  module _ (s : System S) (sound : IsSound h.concurrent_workers s) where
    reading-Moves :
        (o : Option KafkaMessage) → s.reading ≡ o → s.msg_chan ≡ [] → 0 < of_reading o → Moves s
    unfolding step put_message
    reading-Moves none e f l = absurd (omega arith)
    reading-Moves (some m) e f l = (put, refl, ground arith)

    messages-Moves :
        (ms : List KafkaMessage)
        → s.msg_chan ≡ ms
        → s.router ≡ []
        → 0 < of_reading s.reading + total seven ms
        → Moves s
    unfolding step route_next
    messages-Moves [] e f l = reading-Moves s.reading refl e (omega arith)
    messages-Moves (m ∷ ms) e f l = (route env, refl, rw (e, f) tt)

    router-Moves :
        (todo : List Act)
        → s.router ≡ todo
        → total has_lease s.senders ≡ 0
        → 0 < of_reading s.reading + total seven s.msg_chan + total of_act todo
        → Moves s
    unfolding step run_router release_one start_push
    router-Moves [] e f l = messages-Moves s.msg_chan refl e (omega arith)
    router-Moves (release ∷ todo) e f l =
        let counted : 0 < s.pending = ground (arith, sound.balanced) in
        (route_act, refl, ground arith)
    router-Moves (send j ∷ todo) e f l =
        let free : 0 < s.free = omega (arith, sound.leases) in (route_act, refl, ground arith)

    sender-Moves :
        (i : ℕ) (w : Sender)
        → get_elem? s.senders i ≡ some w
        → 0 < of_sender w
        → s.response_chan ≡ []
        → Moves s
    unfolding step ask_firebase deliver_response return_lease
    sender-Moves i (calling j) e b f = (answer i none 0, refl, rw e tt)
    sender-Moves i (delivering r) e b f = (deliver i, refl, ground arith)
    sender-Moves i returning e b f =
        let others = total-set has_lease s.senders i gone {w = returning} e in
        (give_back i, refl, ground (arith, others, sound.leases))
    sender-Moves i gone e b f = absurd (omega arith)

    responses-Moves :
        (rs : List Response)
        → s.response_chan ≡ rs
        → total left s.handlers ≡ 0
        → 0 < load s
        → Moves s
    unfolding step respond_next
    responses-Moves [] e f l = elim (busy_sender s.senders) [
      | inl (calm, no_lease) ↦ router-Moves s.router refl no_lease (ground arith)
      | inr (i, w, found, busy) ↦ sender-Moves i w found busy e
    ]
    responses-Moves (r ∷ rs) e f l =
        let many : 0 < length s.handlers = omega (arith, sound.all_handlers) in
        (respond 0, refl, rw (e, ready_handler s.handlers f many) tt)

    handler-Moves : (i n : ℕ) → get_elem? s.handlers i ≡ some (suc n) → Moves s
    unfolding step run_handler release_one
    handler-Moves i n e =
        let some_left = total-set left s.handlers i 0 {w = suc n} e in
        let counted : 0 < s.pending = omega (arith, sound.balanced, some_left) in
        (respond_act i, refl, ground arith)

    -- Nothing but a lack of messages stops a Firebase pusher.
    pub progress : 0 < load s → Moves s
    progress l = elim (busy_handler s.handlers) [
      | inl calm ↦ responses-Moves s.response_chan refl calm l
      | inr (i, n, found) ↦ handler-Moves i n found
    ]
