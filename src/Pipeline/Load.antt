-- ===== src/Pipeline/Load.antt =====
-- What a state of the pipeline can still do, by numbers.
use pusher.Base.{
  ℕ, suc, ◌+◌, ◌-◌, ◌*◌, ◌≤◌, ◌<◌, List, [], ◌∷◌, Option, none, some, ◌≡◌, length, total, arith,
}
use pusher.Effects.{Effect, stat, feedback, push, done, dones, pushed}
use pusher.Apns.{KafkaMessage, ApnsNotification, ApnsMessageHandler}
use pusher.Apns.Responses.{ResponseWithMetadata}
use pusher.Pipeline.{
  Act, release, send, acts, Worker, idle, pushing, answering, System, Event, read,
}

-- The steps that a notification, an act, a worker, a response and a message can still cause. A round
-- of a notification is six steps: it is sent, taken, answered, delivered, handled, and sent again.
module _ (a : ApnsMessageHandler) where
  abbrev pub rounds : ApnsNotification → ℕ
  rounds n = 6 * (a.max_retry_attempts - n.send_attempts)

  abbrev pub of_act : Act → ℕ
  of_act release = 1
  of_act (send n) = rounds n + 6

  abbrev pub of_push : ApnsNotification → ℕ
  of_push n = rounds n + 5

  abbrev pub of_worker : Worker → ℕ
  of_worker idle = 0
  of_worker (pushing n) = rounds n + 4
  of_worker (answering r) = rounds r.notification + 3

  abbrev pub of_response : ResponseWithMetadata → ℕ
  of_response r = rounds r.notification + 2

  abbrev pub of_message : ℕ
  of_message = 6 * a.max_retry_attempts + 7

  abbrev pub of_reading : Option KafkaMessage → ℕ
  of_reading none = 0
  of_reading (some m) = suc of_message

  abbrev pub of_messages : List KafkaMessage → ℕ
  of_messages = total (λ (m : KafkaMessage). of_message)

  abbrev pub load : {S : Type 0} → System S → ℕ
  load s =
      of_reading s.reading
      + of_messages s.msg_chan
      + total of_act s.router
      + total of_push s.push_chan
      + total of_worker s.workers
      + total of_response s.response_chan
      + total of_act s.responder

  of_act_bound : (act : Act) → of_act act ≤ 6 * a.max_retry_attempts + 6
  of_act_bound release = omega arith
  of_act_bound (send n) = omega arith

  -- At most one act, so at most what a message may cause.
  pub total-of_act : (todo : List Act) → length todo ≤ 1 → total of_act todo < of_message
  total-of_act [] h = omega arith
  total-of_act (act ∷ []) h = omega (arith, of_act_bound act)
  total-of_act (act ∷ b ∷ todo) h = absurd (omega arith)

-- What one event may add: only a message that is read.
abbrev pub added : ApnsMessageHandler → Event → ℕ
added a (read m) = suc (suc (of_message a))
added a _ = 0

-- What the effects of a handler leave to do, by what they release and what they push.
pub total-acts :
    (a : ApnsMessageHandler) (es : List (Effect ApnsNotification))
    → total (of_act a) (acts es)
      ≡ dones es + total (λ (n : ApnsNotification). rounds a n + 6) (pushed es)
unfolding acts
total-acts a [] = omega arith
total-acts a (stat r ∷ es) = omega (arith, total-acts a es)
total-acts a (feedback r game platform v ∷ es) = omega (arith, total-acts a es)
total-acts a (push n ∷ es) = omega (arith, total-acts a es)
total-acts a (done ∷ es) = omega (arith, total-acts a es)
