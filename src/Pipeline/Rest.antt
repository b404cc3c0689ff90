-- ===== src/Pipeline/Rest.antt =====
-- Where the goroutines come to a stop.
use pusher.Base.{
  zero_or_pos, lt_or_ge, ℕ, zero, suc, ◌+◌, ◌≤◌, ◌<◌, true, List, [], ◌∷◌, Option, none, some, ◌≡◌,
  ◌⊎◌, inl, inr, sym, refl, length, total, get_elem?, ◌==◌, Bool-cases, length-set, arith, subst,
}
use pusher.Effects.{Services}
use pusher.Apns.{ApnsNotification, ApnsMessageHandler, Env}
use pusher.Apns.Responses.{ResponseWithMetadata, ApnsResponse, Apns2, push_worker}
use pusher.Pipeline.Balance.{in_flight, IsBalanced, step-IsBalanced}
use pusher.Pipeline.Invariant.{After, Ensures}
use pusher.Pipeline.Load.{added, load}
use pusher.Pipeline.Drain.{step-Less}
use pusher.Pipeline.Progress.{IsUsable, IsFree, GoesOn, progress}
use pusher.Pipeline.{
  Act, release, send, Worker, idle, pushing, answering, Sizes, System, Outcome, went, blocked,
  panicked, Event, read, put, route, route_act, take, answer, deliver, respond, respond_act,
  perform, read_message, put_message, route_next, run_router, take_push, answer_push, ask_apns,
  deliver_response, respond_next, run_responder, step, run,
}

-- HandleResponses has a notification to send again to a push channel that is full.
pub record WaitsToSend {S : Type 0} (z : Sizes) (s : System S) : Type 0 where
  pub again : ApnsNotification
  pub todo : List Act
  pub retries : s.responder ≡ send again ∷ todo
  pub full : z.pushes ≤ length s.push_chan

module _ {S : Type 0} (sv : Services S) (a : ApnsMessageHandler) (lib : Apns2) (z : Sizes) where
  abbrev SameWorkers : System S → Outcome S → Type 0
  SameWorkers s o = After (λ t. length t.workers ≡ length s.workers) o

  perform-SameWorkers : (act : Act) (s : System S) → SameWorkers s (perform sv a lib z act s)
  unfolding perform
  perform-SameWorkers release s = ground arith
  perform-SameWorkers (send n) s = ground arith

  answer_push-SameWorkers :
      (i : ℕ) (r : Option ResponseWithMetadata) (s : System S)
      → SameWorkers s (answer_push sv a lib z i r s)
  unfolding answer_push
  answer_push-SameWorkers i none s = length-set s.workers i idle
  answer_push-SameWorkers i (some r) s = length-set s.workers i _

  ask_apns-SameWorkers :
      (i : ℕ) (r : Option ApnsResponse) (w : Option Worker) (s : System S)
      → SameWorkers s (ask_apns sv a lib z i r w s)
  unfolding ask_apns
  ask_apns-SameWorkers i r (some (pushing n)) s = elim (Bool-cases (z.clients == 0)) [
    | inl none_left ↦ rw none_left tt
    | inr some_left ↦ rw some_left (answer_push-SameWorkers i (push_worker r n) s)
  ]
  ask_apns-SameWorkers i r (some idle) s = tt
  ask_apns-SameWorkers i r (some (answering r')) s = tt
  ask_apns-SameWorkers i r none s = tt

  take_push-SameWorkers :
      (i : ℕ) (w : Option Worker) (ns : List ApnsNotification) (s : System S)
      → SameWorkers s (take_push sv a lib z i w ns s)
  unfolding take_push
  take_push-SameWorkers i (some idle) (n ∷ ns) s = length-set s.workers i (pushing n)
  take_push-SameWorkers i (some idle) [] s = tt
  take_push-SameWorkers i (some (pushing n)) ns s = tt
  take_push-SameWorkers i (some (answering r)) ns s = tt
  take_push-SameWorkers i none ns s = tt

  run_router-SameWorkers :
      (todo : List Act) (s : System S) → SameWorkers s (run_router sv a lib z todo s)
  unfolding run_router
  run_router-SameWorkers [] s = tt
  run_router-SameWorkers (act ∷ todo) s = perform-SameWorkers act (record s { router = todo })

  run_responder-SameWorkers :
      (todo : List Act) (s : System S) → SameWorkers s (run_responder sv a lib z todo s)
  unfolding run_responder
  run_responder-SameWorkers [] s = tt
  run_responder-SameWorkers (act ∷ todo) s = perform-SameWorkers act (record s { responder = todo })

  step-SameWorkers : (e : Event) (s : System S) → SameWorkers s (step sv a lib z e s)
  unfolding step put_message read_message route_next deliver_response respond_next
  step-SameWorkers (read m) s = ground arith
  step-SameWorkers put s = ground arith
  step-SameWorkers (route env) s = ground arith
  step-SameWorkers route_act s = run_router-SameWorkers s.router s
  step-SameWorkers (take i) s = take_push-SameWorkers i (get_elem? s.workers i) s.push_chan s
  step-SameWorkers (answer i r) s = ask_apns-SameWorkers i r (get_elem? s.workers i) s
  step-SameWorkers (deliver i) s = ground (arith, length-set s.workers i idle)
  step-SameWorkers (respond elapsed) s = ground arith
  step-SameWorkers respond_act s = run_responder-SameWorkers s.responder s

  responder_cases :
      (s : System S) (todo : List Act)
      → s.responder ≡ todo
      → IsFree z s s.responder ⊎ WaitsToSend z s
  responder_cases s [] e = inl (rw e tt)
  responder_cases s (release ∷ todo) e = inl (rw e tt)
  responder_cases s (send n ∷ todo) e = elim (lt_or_ge (length s.push_chan) z.pushes) [
    | inl room ↦ inl (rw e room)
    | inr full ↦ inr (record { again = n; todo = todo; retries = e; full = full })
  ]

  -- Everything is done, but for what has no handler or got no response; or the queue is stuck.
  abbrev pub AtRest : System S → Type 0
  AtRest s = ((in_flight s ≡ 0) × (s.pending ≡ s.unrouted + s.unanswered)) ⊎ WaitsToSend z s

  abbrev pub Reaches : (System S → Type 0) → Outcome S → Type 0
  Reaches P (went t) = P t
  Reaches P blocked = ⊥
  Reaches P panicked = ⊥

  abbrev pub Rests : System S → Type 0
  Rests s = (es : List Event) × (total (added a) es ≡ 0) × Reaches AtRest (run sv a lib z es s)

  continue :
      (e : Event) (s : System S) (o : Outcome S)
      → added a e ≡ 0
      → step sv a lib z e s ≡ o
      → GoesOn o
      → Reaches Rests o
      → Rests s
  unfolding run
  continue e s (went t) calm eq go (es, none_read, reached) = (
    e ∷ es,
    omega arith,
    subst
        (λ (o : Outcome S).
          Reaches AtRest
            (elim o [ blocked ↦ blocked | panicked ↦ panicked | went t ↦ run sv a lib z es t ]))
        (sym eq) reached,
  )
  continue e s blocked calm eq go h = absurd go
  continue e s panicked calm eq go h = absurd go

  module _ (env : Env) (counted : a.pending_messages_wg ≡ true) where
    reaches :
        (e : Event) (s : System S) (o : Outcome S)
        → added a e ≡ 0
        → GoesOn o
        → Ensures IsBalanced o
        → SameWorkers s o
        → After (λ t. load a t < load a s + added a e) o
        → IsUsable z (length s.workers)
        → ((t : System S)
            → load a t < load a s
            → IsBalanced t
            → IsUsable z (length t.workers)
            → Rests t)
        → Reaches Rests o
    reaches e s (went t) silent go bal same less usable ih =
        ih t (omega arith) bal (subst (IsUsable z) (sym same) usable)
    reaches e s blocked silent go bal same less usable ih = absurd go
    reaches e s panicked silent go bal same less usable ih = absurd go

    rest_step :
        (s : System S)
        → IsBalanced s
        → IsUsable z (length s.workers)
        → ((t : System S)
            → load a t < load a s
            → IsBalanced t
            → IsUsable z (length t.workers)
            → Rests t)
        → Rests s
    unfolding run
    rest_step s h usable ih = elim (zero_or_pos (in_flight s)) [
      | inl calm ↦ ([], refl, inl (calm, omega (arith, h, calm)))
      | inr flying ↦ elim (responder_cases s s.responder refl) [
        | inr waits ↦ ([], refl, inr waits)
        | inl free ↦
            let (e, silent, go) = progress sv a lib z env s h usable free flying in
            let less = step-Less sv a lib z counted e s in
            continue e s (step sv a lib z e s) silent refl go (
              reaches e s (step sv a lib z e s) silent go (step-IsBalanced sv a lib z counted e s h)
                (step-SameWorkers e s) less usable ih)
      ]
    ]

    rest_within :
        (k : ℕ) (s : System S)
        → load a s < k
        → IsBalanced s
        → IsUsable z (length s.workers)
        → Rests s
    rest_within zero s l h usable = absurd (omega arith)
    rest_within (suc k) s l h usable =
        rest_step s h usable (λ t less. rest_within k t (omega arith))

    -- With a wait group, from every state in which it counts what is in flight, with channels
    -- that hold something, at least one worker and a client of APNS, the goroutines can come to rest without
    -- another message: then nothing is in flight and the wait group counts only what has no
    -- handler or got no response, or HandleResponses waits to send a notification again to a full
    -- push channel.
    pub comes_to_rest : (s : System S) → IsBalanced s → IsUsable z (length s.workers) → Rests s
    comes_to_rest s h usable = rest_within (suc (load a s)) s (omega arith) h usable
