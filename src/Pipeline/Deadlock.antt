-- ===== src/Pipeline/Deadlock.antt =====
-- The two channels of the push queue can fill up for good.
use pusher.Base.{
  ℕ, zero, suc, ◌+◌, ◌≤◌, ◌<◌, subst, total, true, List, [], ◌∷◌, Option, none, some, ◌≡◌, ◌∙◌, ap,
  refl, length, All, get_elem?, arith,
}
use pusher.Effects.{Services}
use pusher.Apns.{KafkaMessage, ApnsNotification, ApnsMessageHandler, Env}
use pusher.Apns.Responses.{ResponseWithMetadata, ApnsResponse, Apns2}
use pusher.Pipeline.Balance.{IsBalanced, is_busy, step-IsBalanced}
use pusher.Pipeline.Invariant.{Ensures, After, Ensures-After, Ensures-map, run_invariant}
use pusher.Pipeline.{
  Act, release, send, Worker, idle, pushing, answering, Sizes, System, Event, read, put, route,
  route_act, take, answer, deliver, respond, respond_act, perform, read_message, put_message,
  route_next, run_router, take_push, ask_apns, deliver_response, respond_next, run_responder, step,
  run,
}

abbrev pub IsAnswering : Worker → Type 0
IsAnswering idle = ⊥
IsAnswering (pushing n) = ⊥
IsAnswering (answering r) = Unit

-- Both channels are full, every worker has a response to hand over, and HandleResponses has a
-- notification to send again.
pub record IsDeadlocked {S : Type 0} (z : Sizes) (s : System S) : Type 0 where
  pub full : z.pushes ≤ length s.push_chan
  pub full_responses : z.responses ≤ length s.response_chan
  pub waiting : All IsAnswering s.workers
  pub again : ApnsNotification
  pub todo : List Act
  pub retries : s.responder ≡ send again ∷ todo

-- The queue stands where it stood.
pub record SameQueue {S : Type 0} (s t : System S) : Type 0 where
  pub same_pushes : t.push_chan ≡ s.push_chan
  pub same_responses : t.response_chan ≡ s.response_chan
  pub same_workers : t.workers ≡ s.workers
  pub same_responder : t.responder ≡ s.responder

IsAnswering-get_elem? :
    (ws : List Worker) (i : ℕ) {w : Worker}
    → All IsAnswering ws
    → get_elem? ws i ≡ some w
    → IsAnswering w
IsAnswering-get_elem? [] i h e = cc
IsAnswering-get_elem? (w ∷ ws) zero h e =
    subst (λ (o : Option Worker). elim o [ none ↦ Unit | some x ↦ IsAnswering x ]) e h.0
IsAnswering-get_elem? (w ∷ ws) (suc i) h e = IsAnswering-get_elem? ws i h.1 e

module _ {S : Type 0} (sv : Services S) (a : ApnsMessageHandler) (lib : Apns2) (z : Sizes)
    (s : System S) (stuck : IsDeadlocked z s) where
  open stuck use {full, full_responses, waiting, again, todo, retries}

  abbrev Same : System S → Type 0
  Same t = SameQueue s t

  perform-Same : (act : Act) (t : System S) → SameQueue s t → After Same (perform sv a lib z act t)
  unfolding perform
  perform-Same release t h = ground arith
  perform-Same (send n) t h = ground arith

  read_message-Same :
      (m : KafkaMessage) (o : Option KafkaMessage) (t : System S)
      → SameQueue s t
      → After Same (read_message sv a lib z m o t)
  unfolding read_message
  read_message-Same m none t h = ground arith
  read_message-Same m (some m') t h = tt

  put_message-Same :
      (o : Option KafkaMessage) (t : System S)
      → SameQueue s t
      → After Same (put_message sv a lib z o t)
  unfolding put_message
  put_message-Same none t h = tt
  put_message-Same (some m) t h = ground arith

  route_next-Same :
      (env : Env) (todo : List Act) (ms : List KafkaMessage) (t : System S)
      → SameQueue s t
      → After Same (route_next sv a lib z env todo ms t)
  unfolding route_next
  route_next-Same env (act ∷ todo) ms t h = tt
  route_next-Same env [] [] t h = tt
  route_next-Same env [] (m ∷ ms) t h = ground arith

  run_router-Same :
      (todo : List Act) (t : System S) → SameQueue s t → After Same (run_router sv a lib z todo t)
  unfolding run_router
  run_router-Same [] t h = tt
  run_router-Same (act ∷ todo) t h = perform-Same act (record t { router = todo }) (ground arith)

  -- No worker goes on: it has a response for a full channel.
  take_push-Same :
      (i : ℕ) (w : Option Worker) (ns : List ApnsNotification) (t : System S)
      → get_elem? t.workers i ≡ w
      → SameQueue s t
      → After Same (take_push sv a lib z i w ns t)
  unfolding take_push
  take_push-Same i (some idle) (n ∷ ns) t e h =
      absurd (IsAnswering-get_elem? s.workers i {w = idle} waiting (rw h.same_workers at e))
  take_push-Same i (some idle) [] t e h = tt
  take_push-Same i (some (pushing n)) ns t e h = tt
  take_push-Same i (some (answering r)) ns t e h = tt
  take_push-Same i none ns t e h = tt

  ask_apns-Same :
      (i : ℕ) (r : Option ApnsResponse) (w : Option Worker) (t : System S)
      → get_elem? t.workers i ≡ w
      → SameQueue s t
      → After Same (ask_apns sv a lib z i r w t)
  unfolding ask_apns
  ask_apns-Same i r (some (pushing n)) t e h =
      absurd (IsAnswering-get_elem? s.workers i {w = pushing n} waiting (rw h.same_workers at e))
  ask_apns-Same i r (some idle) t e h = tt
  ask_apns-Same i r (some (answering r')) t e h = tt
  ask_apns-Same i r none t e h = tt

  deliver_response-Same :
      (i : ℕ) (w : Option Worker) (t : System S)
      → SameQueue s t
      → After Same (deliver_response sv a lib z i w t)
  unfolding deliver_response
  deliver_response-Same i (some (answering r)) t h = ground arith
  deliver_response-Same i (some idle) t h = tt
  deliver_response-Same i (some (pushing n)) t h = tt
  deliver_response-Same i none t h = tt

  respond_next-Same :
      (elapsed : ℕ) (todo : List Act) (rs : List ResponseWithMetadata) (t : System S)
      → t.responder ≡ todo
      → SameQueue s t
      → After Same (respond_next sv a lib z elapsed todo rs t)
  unfolding respond_next
  respond_next-Same elapsed (act ∷ more) rs t e h = tt
  respond_next-Same elapsed [] [] t e h = tt
  respond_next-Same elapsed [] (r ∷ rs) t e h = absurd (ground (arith, h.same_responder, retries))

  run_responder-Same :
      (more : List Act) (t : System S)
      → t.responder ≡ more
      → SameQueue s t
      → After Same (run_responder sv a lib z more t)
  unfolding run_responder perform
  run_responder-Same [] t e h = tt
  run_responder-Same (release ∷ more) t e h = absurd (ground (arith, h.same_responder, retries))
  run_responder-Same (send n ∷ more) t e h = ground arith

  step-Same : (e : Event) (t : System S) → SameQueue s t → After Same (step sv a lib z e t)
  unfolding step
  step-Same (read m) t h = read_message-Same m t.reading t h
  step-Same put t h = put_message-Same t.reading t h
  step-Same (route env) t h = route_next-Same env t.router t.msg_chan t h
  step-Same route_act t h = run_router-Same t.router t h
  step-Same (take i) t h = take_push-Same i (get_elem? t.workers i) t.push_chan t refl h
  step-Same (answer i r) t h = ask_apns-Same i r (get_elem? t.workers i) t refl h
  step-Same (deliver i) t h = deliver_response-Same i (get_elem? t.workers i) t h
  step-Same (respond elapsed) t h = respond_next-Same elapsed t.responder t.response_chan t refl h
  step-Same respond_act t h = run_responder-Same t.responder t refl h

total-IsAnswering : (ws : List Worker) → All IsAnswering ws → total is_busy ws ≡ length ws
total-IsAnswering [] h = refl
total-IsAnswering (idle ∷ ws) h = absurd h.0
total-IsAnswering (pushing n ∷ ws) h = absurd h.0
total-IsAnswering (answering r ∷ ws) h = omega (arith, total-IsAnswering ws h.1)

-- With a wait group that counts what is in flight: where both channels of the push queue are
-- full, every worker has a response to hand over and HandleResponses has a notification to send
-- again, this stays so after every schedule. No notification is taken, no response is delivered
-- or handled, and the wait group stays above the capacities of the two channels and the number of
-- workers together.
pub deadlock_forever :
    {S : Type 0} (sv : Services S) (a : ApnsMessageHandler) (lib : Apns2) (z : Sizes) (s : System S)
    → a.pending_messages_wg ≡ true
    → IsDeadlocked z s
    → IsBalanced s
    → (es : List Event)
    → Ensures
        (λ t. SameQueue s t × (z.pushes + length s.workers + z.responses < t.pending))
        (run sv a lib z es s)
deadlock_forever {S} sv a lib z s counted stuck h es =
    Ensures-map (λ t. IsBalanced t × SameQueue s t) _ (run sv a lib z es s)
      (λ t k. (k.1, above t k.0 k.1))
      (run_invariant sv a lib z (λ t. IsBalanced t × SameQueue s t)
        (λ e t k.
          Ensures-After IsBalanced (SameQueue s) (step sv a lib z e t)
            (step-IsBalanced sv a lib z counted e t k.0) (step-Same sv a lib z s stuck e t k.1))
        es s
        (
          h,
          record {
            same_pushes = refl;
            same_responses = refl;
            same_workers = refl;
            same_responder = refl;
          },
        ))
  where
    above :
        (t : System S)
        → IsBalanced t
        → SameQueue s t
        → z.pushes + length s.workers + z.responses < t.pending
    above t k same =
        let busy : total is_busy t.workers ≡ length s.workers =
          rw same.same_workers (total-IsAnswering s.workers stuck.waiting) in
        let pushes = ap length same.same_pushes in
        let responses = ap length same.same_responses in
        let one = ap length (same.same_responder ∙ stuck.retries) in
        omega (arith, stuck.full, stuck.full_responses)
