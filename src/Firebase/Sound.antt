-- ===== src/Firebase/Sound.antt =====
-- The wait group, the leases and the load after every step of a Firebase pusher.
use pusher.Base.{
  ℕ, zero, suc, ◌+◌, ◌≤◌, ◌<◌, true, List, [], ◌∷◌, Option, none, some, ◌≡◌, ◌∙◌, inl, inr, refl,
  length, length-append, total, total-append, total-set, length-set, get_elem?, ◌≟◌, is_some,
  if◌then◌else◌, Bool-cases, arith,
}
use pusher.Effects.{Services, dones}
use pusher.Apns.{KafkaMessage}
use pusher.Fcm.Handler.{MessageHandler, Env}
use pusher.Fcm.Responses.{SendError, Response, send_push, handle_response}
use pusher.Fcm.Settles.{fcm_handle_messages-settles, handle_response-settles}
use pusher.Pusher.{handler_of, route_message}
use pusher.Firebase.Load.{
  is_busy, has_lease, in_flight, of_act, of_sender, twice, seven, load, added, length-acts,
  total-of_act, left,
}
use pusher.Firebase.{
  Act, release, send, acts, Sender, calling, delivering, returning, gone, System, Outcome, went,
  blocked, panicked, Event, read, put, route, route_act, answer, deliver, give_back, respond,
  respond_act, read_message, put_message, app_handlers, route_next, release_one, start_push,
  run_router, ask_firebase, deliver_response, return_lease, respond_next, run_handler, step, run,
}

abbrev pub Ensures : {S : Type 0} → (System S → Type 0) → Outcome S → Type 0
Ensures P (went s) = P s
Ensures P blocked = Unit
Ensures P panicked = ⊥

pub Ensures-map :
    {S : Type 0} {P Q : System S → Type 0} (o : Outcome S)
    → ((s : System S) → P s → Q s)
    → Ensures P o
    → Ensures Q o
Ensures-map (went s) f p = f s p
Ensures-map blocked f p = tt
Ensures-map panicked f p = p

-- The wait group counts what is in flight and what has no handler; every lease is free or held by a
-- goroutine; and there are as many response handlers as leases.
pub record IsSound {S : Type 0} (workers : ℕ) (s : System S) : Type 0 where
  pub balanced : s.pending ≡ in_flight s + s.unrouted
  pub leases : s.free + total has_lease s.senders ≡ workers
  pub all_handlers : length s.handlers ≡ workers

module _ {S : Type 0} (sv : Services S) (h : MessageHandler) (messages : ℕ)
    (counted : h.pending_messages_wait_group ≡ true) where
  -- After the event `e` of `s`.
  abbrev pub Keeps : Event → System S → Outcome S → Type 0
  Keeps e s = Ensures (λ t. IsSound h.concurrent_workers t × (load t < load s + added e))

  abbrev Sound : System S → Type 0
  Sound = IsSound h.concurrent_workers

  read_message-Keeps :
      (m : KafkaMessage) (o : Option KafkaMessage) (s : System S)
      → s.reading ≡ o
      → Sound s
      → Keeps (read m) s (read_message sv h messages m o s)
  unfolding read_message
  read_message-Keeps m none s e k = ground arith
  read_message-Keeps m (some m') s e k = tt

  put_message-Keeps :
      (o : Option KafkaMessage) (s : System S)
      → s.reading ≡ o
      → Sound s
      → Keeps put s (put_message sv h messages o s)
  unfolding put_message
  put_message-Keeps none s e k = tt
  put_message-Keeps (some m) s e k =
      ground (arith, length-append s.msg_chan (m ∷ []), total-append seven s.msg_chan (m ∷ []))

  route_message-acts :
      (env : Env) (m : KafkaMessage) (services : S)
      → length (acts (route_message (app_handlers sv h messages env) m services).0)
        ≡ (if is_some (handler_of m.game (app_handlers sv h messages env)) then 1 else 0)
  unfolding route_message handler_of acts
  route_message-acts env m services = elim (Bool-cases (h.app ≟ m.game)) [
    | inl e ↦ rw e (length-acts _ ∙ fcm_handle_messages-settles sv h env counted m services)
    | inr n ↦ rw n refl
  ]

  route_next-Keeps :
      (env : Env) (todo : List Act) (ms : List KafkaMessage) (s : System S)
      → s.router ≡ todo
      → s.msg_chan ≡ ms
      → Sound s
      → Keeps (route env) s (route_next sv h messages env todo ms s)
  unfolding route_next
  route_next-Keeps env (act ∷ todo) ms s e f k = tt
  route_next-Keeps env [] [] s e f k = tt
  route_next-Keeps env [] (m ∷ ms) s e f k =
      let todo = acts (route_message (app_handlers sv h messages env) m s.services).0 in
      let one = route_message-acts env m s.services in
      let light : total of_act todo ≤ 6 = total-of_act todo (ground (arith, one)) in
      ground (arith, one, light)

  run_router-Keeps :
      (todo : List Act) (s : System S)
      → s.router ≡ todo
      → Sound s
      → Keeps route_act s (run_router sv h messages todo s)
  unfolding run_router release_one start_push
  run_router-Keeps [] s e k = tt
  run_router-Keeps (release ∷ todo) s e k = ground arith
  run_router-Keeps (send j ∷ todo) s e k = ground (
    arith,
    total-append is_busy s.senders (calling j ∷ []),
    total-append has_lease s.senders (calling j ∷ []),
    total-append of_sender s.senders (calling j ∷ []),
  )

  -- The numbers of a goroutine that goes from `w` to `v`.
  ask_firebase-Keeps :
      (i : ℕ) (error : Option SendError) (latency : ℕ) (w : Option Sender) (s : System S)
      → get_elem? s.senders i ≡ w
      → Sound s
      → Keeps (answer i error latency) s (ask_firebase sv h messages i error latency w s)
  unfolding ask_firebase
  ask_firebase-Keeps i error latency (some (calling j)) s e k =
      let v = delivering (send_push h (λ m. error) latency j).1 in
      ground (
        arith,
        total-set is_busy s.senders i v {w = calling j} e,
        total-set has_lease s.senders i v {w = calling j} e,
        total-set of_sender s.senders i v {w = calling j} e,
      )
  ask_firebase-Keeps i error latency (some (delivering r)) s e k = tt
  ask_firebase-Keeps i error latency (some returning) s e k = tt
  ask_firebase-Keeps i error latency (some gone) s e k = tt
  ask_firebase-Keeps i error latency none s e k = tt

  deliver_response-Keeps :
      (i : ℕ) (w : Option Sender) (s : System S)
      → get_elem? s.senders i ≡ w
      → Sound s
      → Keeps (deliver i) s (deliver_response sv h messages i w s)
  unfolding deliver_response
  deliver_response-Keeps i (some (delivering r)) s e k = ground (
    arith,
    length-append s.response_chan (r ∷ []),
    total-append twice s.response_chan (r ∷ []),
    total-set is_busy s.senders i returning {w = delivering r} e,
    total-set has_lease s.senders i returning {w = delivering r} e,
    total-set of_sender s.senders i returning {w = delivering r} e,
  )
  deliver_response-Keeps i (some (calling j)) s e k = tt
  deliver_response-Keeps i (some returning) s e k = tt
  deliver_response-Keeps i (some gone) s e k = tt
  deliver_response-Keeps i none s e k = tt

  return_lease-Keeps :
      (i : ℕ) (w : Option Sender) (s : System S)
      → get_elem? s.senders i ≡ w
      → Sound s
      → Keeps (give_back i) s (return_lease sv h messages i w s)
  unfolding return_lease
  return_lease-Keeps i (some returning) s e k = ground (
    arith,
    total-set is_busy s.senders i gone {w = returning} e,
    total-set has_lease s.senders i gone {w = returning} e,
    total-set of_sender s.senders i gone {w = returning} e,
  )
  return_lease-Keeps i (some (calling j)) s e k = tt
  return_lease-Keeps i (some (delivering r)) s e k = tt
  return_lease-Keeps i (some gone) s e k = tt
  return_lease-Keeps i none s e k = tt

  respond_next-Keeps :
      (i : ℕ) (w : Option ℕ) (rs : List Response) (s : System S)
      → get_elem? s.handlers i ≡ w
      → s.response_chan ≡ rs
      → Sound s
      → Keeps (respond i) s (respond_next sv h messages i w rs s)
  unfolding respond_next
  respond_next-Keeps i (some zero) (r ∷ rs) s e f k =
      let (once, p) = handle_response-settles h r counted in
      ground (
        arith,
        once,
        total-set left s.handlers i (dones (handle_response h r)) {w = zero} e,
        length-set s.handlers i (dones (handle_response h r)),
      )
  respond_next-Keeps i (some zero) [] s e f k = tt
  respond_next-Keeps i (some (suc n)) rs s e f k = tt
  respond_next-Keeps i none rs s e f k = tt

  run_handler-Keeps :
      (i : ℕ) (w : Option ℕ) (s : System S)
      → get_elem? s.handlers i ≡ w
      → Sound s
      → Keeps (respond_act i) s (run_handler sv h messages i w s)
  unfolding run_handler release_one
  run_handler-Keeps i (some (suc n)) s e k =
      ground (arith, total-set left s.handlers i n {w = suc n} e, length-set s.handlers i n)
  run_handler-Keeps i (some zero) s e k = tt
  run_handler-Keeps i none s e k = tt

  pub step-Keeps : (e : Event) (s : System S) → Sound s → Keeps e s (step sv h messages e s)
  unfolding step
  step-Keeps (read m) s k = read_message-Keeps m s.reading s refl k
  step-Keeps put s k = put_message-Keeps s.reading s refl k
  step-Keeps (route env) s k = route_next-Keeps env s.router s.msg_chan s refl refl k
  step-Keeps route_act s k = run_router-Keeps s.router s refl k
  step-Keeps (answer i error latency) s k =
      ask_firebase-Keeps i error latency (get_elem? s.senders i) s refl k
  step-Keeps (deliver i) s k = deliver_response-Keeps i (get_elem? s.senders i) s refl k
  step-Keeps (give_back i) s k = return_lease-Keeps i (get_elem? s.senders i) s refl k
  step-Keeps (respond i) s k =
      respond_next-Keeps i (get_elem? s.handlers i) s.response_chan s refl refl k
  step-Keeps (respond_act i) s k = run_handler-Keeps i (get_elem? s.handlers i) s refl k

  -- What a schedule keeps, and the steps that it took.
  abbrev pub Runs : List Event → System S → Outcome S → Type 0
  Runs es s =
      Ensures (λ t. IsSound h.concurrent_workers t × (load t + length es ≤ load s + total added es))

  Runs-next :
      (e : Event) (es : List Event) (s : System S) (o : Outcome S)
      → ((t : System S) → Sound t → Runs es t (run sv h messages es t))
      → Keeps e s o
      → Runs
          (e ∷ es)
          s
          (elim o [ blocked ↦ blocked | panicked ↦ panicked | went t ↦ run sv h messages es t ])
  Runs-next e es s (went t) rest k =
      Ensures-map (run sv h messages es t) (λ u m. (m.0, omega (arith, m.1, k.1))) (rest t k.0)
  Runs-next e es s blocked rest k = tt
  Runs-next e es s panicked rest k = k

  -- With a wait group, from a sound state, whatever order the goroutines of a Firebase pusher run in and
  -- whatever Firebase answers: no `Done` finds the wait group at zero; the wait group counts what is in
  -- flight and the messages of other games; every lease is free or held by one goroutine, so no more
  -- calls of Firebase run at a time than there are leases; and the schedule has at most as many steps as
  -- the load of its first state, and nine more for every message that it reads.
  pub run-Runs :
      (es : List Event) (s : System S)
      → IsSound h.concurrent_workers s
      → Runs es s (run sv h messages es s)
  unfolding run
  run-Runs [] s k = (k, omega arith)
  run-Runs (e ∷ es) s k =
      Runs-next e es s (step sv h messages e s) (λ t. run-Runs es t) (step-Keeps e s k)
