-- ===== src/Firebase/Load.antt =====
-- What the goroutines of a Firebase pusher hold, and what they can still do, by numbers.
use pusher.Base.{ℕ, ◌+◌, ◌≤◌, List, [], ◌∷◌, Option, none, some, ◌≡◌, refl, length, total, arith}
use pusher.Effects.{Effect, stat, feedback, push, done, settled}
use pusher.Apns.{KafkaMessage}
use pusher.Fcm.Handler.{Job}
use pusher.Firebase.{
  Act, release, send, acts, Sender, calling, delivering, returning, gone, System, Event, read,
}

abbrev pub held : {A : Type 0} → Option A → ℕ
held none = 0
held (some a) = 1

-- A message on its way, and a lease.
abbrev pub is_busy : Sender → ℕ
is_busy (calling j) = 1
is_busy (delivering r) = 1
is_busy _ = 0

abbrev pub has_lease : Sender → ℕ
has_lease gone = 0
has_lease _ = 1

abbrev pub left : ℕ → ℕ
left n = n

abbrev pub in_flight : {S : Type 0} → System S → ℕ
in_flight s =
    held s.reading
    + length s.msg_chan
    + length s.router
    + total is_busy s.senders
    + length s.response_chan
    + total left s.handlers

-- The steps that each can still cause.
abbrev pub of_act : Act → ℕ
of_act release = 1
of_act (send j) = 6

abbrev pub of_sender : Sender → ℕ
of_sender (calling j) = 5
of_sender (delivering r) = 4
of_sender returning = 1
of_sender gone = 0

abbrev pub twice : {A : Type 0} → A → ℕ
twice a = 2

abbrev pub seven : {A : Type 0} → A → ℕ
seven a = 7

abbrev pub of_reading : Option KafkaMessage → ℕ
of_reading none = 0
of_reading (some m) = 8

abbrev pub load : {S : Type 0} → System S → ℕ
load s =
    of_reading s.reading
    + total seven s.msg_chan
    + total of_act s.router
    + total of_sender s.senders
    + total twice s.response_chan
    + total left s.handlers

abbrev pub added : Event → ℕ
added (read m) = 9
added _ = 0

pub length-acts : (es : List (Effect Job)) → length (acts es) ≡ settled es
unfolding acts
length-acts [] = refl
length-acts (stat r ∷ es) = omega (arith, length-acts es)
length-acts (feedback r game platform v ∷ es) = omega (arith, length-acts es)
length-acts (push j ∷ es) = omega (arith, length-acts es)
length-acts (done ∷ es) = omega (arith, length-acts es)

pub total-of_act : (todo : List Act) → length todo ≤ 1 → total of_act todo ≤ 6
total-of_act [] h = omega arith
total-of_act (release ∷ []) h = omega arith
total-of_act (send j ∷ []) h = omega arith
total-of_act (act ∷ b ∷ todo) h = absurd (omega arith)
