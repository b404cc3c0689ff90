-- ===== src/Listener/Stopping.antt =====
-- What Cleanup of the feedback listener leaves behind.
use pusher.Base.{◌≤◌, true, false, List, [], ◌∷◌, ◌≡◌, refl, length, length-append, arith}
use pusher.Feedback.{Broker, Libraries, QueueMessage, InvalidToken, process_message}
use pusher.Listener.Invariant.{Ensures, run_invariant}
use pusher.Listener.Tokens.{IsAccounted, step-Keeps}
use pusher.Listener.{
  serving, ConsumerAt, selecting, polling, holding, consumer_returned, waiting, broker_returned,
  Sizes, Listener, negative_counter, send_on_closed, Outcome, went, blocked, panicked, Event, poll,
  time_out, put, take, put_token, confirm, broker_sees_stop, read, consumer_sees_stop, receive,
  tick, handler_sees_stop, cleanup, poll_next, poll_ends, read_message, put_message, stop_consumer,
  take_message, put_out, cleanup_next, step, run,
}

module _ (lib : Libraries) (b : Broker) (z : Sizes) where
  -- Whatever the state of a listener that serves: where the broker is about to take a message that has a
  -- token to delete, Cleanup can close the channel of tokens before the broker puts this token on it, and
  -- then the broker panics.
  pub cleanup_panics :
      (l : Listener) (m : QueueMessage) (ms : List QueueMessage) (t : InvalidToken)
      (ts : List InvalidToken)
      → l.stage ≡ serving
      → l.broker ≡ waiting
      → l.in_chan ≡ m ∷ ms
      → (process_message lib b m).0 ≡ t ∷ ts
      → run lib b z (take ∷ cleanup ∷ cleanup ∷ cleanup ∷ put_token ∷ []) l
        ≡ panicked send_on_closed
  unfolding run step take_message cleanup_next put_out
  cleanup_panics l m ms t ts serves waits next found = ground arith

-- The broker and the handler have returned; what they left is that of `l`.
record IsLeft (l t : Listener) : Type 0 where
  broker_gone : t.broker ≡ broker_returned
  handler_gone : t.handler_running ≡ false
  same_buffer : t.buffer ≡ l.buffer
  same_flushed : t.flushed ≡ l.flushed
  still_there : length l.in_chan ≤ length t.in_chan

module _ (lib : Libraries) (b : Broker) (z : Sizes) (l : Listener) where
  put-IsLeft :
      (c : ConsumerAt) (t : Listener) → IsLeft l t → Ensures (IsLeft l) (put_message lib b z c t)
  unfolding put_message
  put-IsLeft selecting t h = tt
  put-IsLeft polling t h = tt
  put-IsLeft (holding m) t h = ground (arith, length-append t.in_chan (m ∷ []))
  put-IsLeft consumer_returned t h = tt

  step-IsLeft : (e : Event) (t : Listener) → IsLeft l t → Ensures (IsLeft l) (step lib b z e t)
  unfolding step poll_next poll_ends read_message put_message stop_consumer cleanup_next
  step-IsLeft poll t h = ground arith
  step-IsLeft time_out t h = ground arith
  step-IsLeft (read m) t h = ground arith
  step-IsLeft put t h = put-IsLeft t.consumer t h
  step-IsLeft consumer_sees_stop t h = ground arith
  step-IsLeft take t h = rw h.broker_gone tt
  step-IsLeft put_token t h = rw h.broker_gone tt
  step-IsLeft confirm t h = rw h.broker_gone tt
  step-IsLeft broker_sees_stop t h = rw h.broker_gone tt
  step-IsLeft receive t h = rw h.handler_gone tt
  step-IsLeft tick t h = rw h.handler_gone tt
  step-IsLeft handler_sees_stop t h = rw h.handler_gone tt
  step-IsLeft cleanup t h = ground arith

both :
    (P Q R : Listener → Type 0) (o : Outcome)
    → ((t : Listener) → P t → Q t → R t)
    → Ensures P o
    → Ensures Q o
    → Ensures R o
both P Q R (went t) f p q = f t p q
both P Q R blocked f p q = tt
both P Q R (panicked negative_counter) f p q = p
both P Q R (panicked send_on_closed) f p q = tt

module _ (lib : Libraries) (b : Broker) (z : Sizes) (has_group : b.pending_messages_wg ≡ true) where
  -- With a wait group, from a listener whose messages and tokens are accounted for, once the
  -- broker and the invalid token handler have returned: after every schedule no further token was
  -- handed to deleteTokens, the buffer is what it was, and the wait group stays at or above the
  -- number of messages that the broker left on its channel.
  pub left_behind :
      (l : Listener)
      → IsAccounted l
      → l.broker ≡ broker_returned
      → l.handler_running ≡ false
      → (es : List Event)
      → Ensures
          (λ t. (t.flushed ≡ l.flushed) × (t.buffer ≡ l.buffer) × (length l.in_chan ≤ t.pending))
          (run lib b z es l)
  left_behind l h broker_gone handler_gone es =
      both IsAccounted (IsLeft l) _ (run lib b z es l)
        (λ t k left.
          (left.same_flushed, left.same_buffer, omega (arith, k.counted, left.still_there)))
        (run_invariant lib b z IsAccounted (step-Keeps lib b z has_group) es l h)
        (run_invariant lib b z (IsLeft l) (step-IsLeft lib b z l) es l (record {
          broker_gone = broker_gone;
          handler_gone = handler_gone;
          same_buffer = refl;
          same_flushed = refl;
          still_there = omega arith;
        }))
