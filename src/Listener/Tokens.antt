-- ===== src/Listener/Tokens.antt =====
-- From the broker to the database no invalid token is lost, made up or put in another order, and the
-- wait group counts the messages, in every order of the goroutines.
use mathlib.Core.List.{append_assoc, append-nil}
use pusher.Base.{
  ℕ, ◌+◌, Bool, true, false, List, [], ◌∷◌, ◌++◌, ◌≡◌, ◌∙◌, ap, sym, refl, length, length-append,
  if◌then◌else◌, arith,
}
use pusher.Feedback.{Broker, Libraries, QueueMessage, InvalidToken, process_message}
use pusher.Feedback.Tokens.{received, process_event}
use pusher.Feedback.Buffer.{process_event_conserves}
use pusher.Listener.Invariant.{Ensures, run_invariant}
use pusher.Listener.{
  Stage, serving, consumer_stopped, broker_stopped, tokens_closed, handler_stopped, ConsumerAt,
  selecting, polling, holding, consumer_returned, BrokerAt, waiting, routing, broker_returned,
  Sizes, Listener, Outcome, blocked, Event, poll, time_out, put, take, put_token, confirm,
  broker_sees_stop, read, consumer_sees_stop, receive, tick, handler_sees_stop, cleanup, poll_next,
  poll_ends, read_message, put_message, stop_consumer, take_message, put_out, confirm_message,
  stop_broker, receive_token, flush_buffer, cleanup_next, step, run,
}

abbrev pub held : ConsumerAt → ℕ
held (holding m) = 1
held _ = 0

abbrev pub busy : BrokerAt → ℕ
busy (routing ts told) = 1
busy _ = 0

abbrev pub to_put : BrokerAt → List InvalidToken
to_put (routing ts told) = ts
to_put _ = []

abbrev pub IsTold : BrokerAt → Type 0
IsTold (routing ts told) = told ≡ true
IsTold _ = Unit

-- The wait group counts the messages that are counted and not confirmed; and the tokens that the broker found are,
-- in order, those handed to deleteTokens, those in the buffer, those on the channel and those to be put on it.
pub record IsAccounted (l : Listener) : Type 0 where
  pub counted : l.pending ≡ held l.consumer + length l.in_chan + busy l.broker
  pub tokens : l.flushed ++ (l.buffer ++ (l.out_chan ++ to_put l.broker)) ≡ l.routed
  pub told : IsTold l.broker

join :
    (f b c d : List InvalidToken) {r : List InvalidToken}
    → f ++ (b ++ (c ++ [])) ≡ r
    → f ++ (b ++ (c ++ d)) ≡ r ++ d
join f b c d e = rw (sym e) (simp (append_assoc, append-nil))

-- A token moves from the channel to the buffer or further.
shift :
    (f b f' b' : List InvalidToken) (t : InvalidToken) (x : List InvalidToken)
    {r : List InvalidToken}
    → f' ++ b' ≡ b ++ t ∷ []
    → f ++ (b ++ (t ∷ x)) ≡ r
    → (f ++ f') ++ (b' ++ x) ≡ r
shift f b f' b' t x kept e =
    append_assoc f f' (b' ++ x)
    ∙ ap (λ y. f ++ y)
        (sym (append_assoc f' b' x) ∙ ap (λ y. y ++ x) kept ∙ append_assoc b (t ∷ []) x)
    ∙ e

module _ (lib : Libraries) (b : Broker) (z : Sizes) (has_group : b.pending_messages_wg ≡ true) where
  abbrev pub Keeps : Outcome → Type 0
  Keeps o = Ensures IsAccounted o

  poll_next-Keeps :
      (c : ConsumerAt) (l : Listener)
      → l.consumer ≡ c
      → IsAccounted l
      → Keeps (poll_next lib b z c l)
  unfolding poll_next
  poll_next-Keeps selecting l e h = ground arith
  poll_next-Keeps polling l e h = tt
  poll_next-Keeps (holding m) l e h = tt
  poll_next-Keeps consumer_returned l e h = tt

  poll_ends-Keeps :
      (c : ConsumerAt) (l : Listener)
      → l.consumer ≡ c
      → IsAccounted l
      → Keeps (poll_ends lib b z c l)
  unfolding poll_ends
  poll_ends-Keeps selecting l e h = tt
  poll_ends-Keeps polling l e h = ground arith
  poll_ends-Keeps (holding m) l e h = tt
  poll_ends-Keeps consumer_returned l e h = tt

  read_message-Keeps :
      (m : QueueMessage) (c : ConsumerAt) (l : Listener)
      → l.consumer ≡ c
      → IsAccounted l
      → Keeps (read_message lib b z m c l)
  unfolding read_message
  read_message-Keeps m selecting l e h = tt
  read_message-Keeps m polling l e h = ground arith
  read_message-Keeps m (holding n) l e h = tt
  read_message-Keeps m consumer_returned l e h = tt

  put_message-Keeps :
      (c : ConsumerAt) (l : Listener)
      → l.consumer ≡ c
      → IsAccounted l
      → Keeps (put_message lib b z c l)
  unfolding put_message
  put_message-Keeps selecting l e h = tt
  put_message-Keeps polling l e h = tt
  put_message-Keeps (holding m) l e h = ground (arith, length-append l.in_chan (m ∷ []))
  put_message-Keeps consumer_returned l e h = tt

  stop_consumer-Keeps :
      (c : ConsumerAt) (l : Listener)
      → l.consumer ≡ c
      → IsAccounted l
      → Keeps (stop_consumer lib b z c l)
  unfolding stop_consumer
  stop_consumer-Keeps selecting l e h = ground arith
  stop_consumer-Keeps polling l e h = tt
  stop_consumer-Keeps (holding m) l e h = tt
  stop_consumer-Keeps consumer_returned l e h = tt

  -- The tokens of a message join those that were to come before.
  take_message-Keeps :
      (s : BrokerAt) (ms : List QueueMessage) (l : Listener)
      → l.broker ≡ s
      → l.in_chan ≡ ms
      → IsAccounted l
      → Keeps (take_message lib b z s ms l)
  unfolding take_message process_message
  take_message-Keeps waiting [] l e f h = tt
  take_message-Keeps waiting (m ∷ ms) l e f h = record {
    counted = ground (arith, h.counted);
    tokens = join l.flushed l.buffer l.out_chan _ (rw e at h.tokens);
    told = has_group;
  }
  take_message-Keeps (routing ts told) ms l e f h = tt
  take_message-Keeps broker_returned ms l e f h = tt

  put_out-Keeps :
      (s : BrokerAt) (l : Listener) → l.broker ≡ s → IsAccounted l → Keeps (put_out lib b z s l)
  unfolding put_out
  put_out-Keeps waiting l e h = tt
  put_out-Keeps (routing [] told) l e h = tt
  put_out-Keeps (routing (t ∷ ts) told) l e h = ground (arith, append_assoc l.out_chan (t ∷ []) ts)
  put_out-Keeps broker_returned l e h = tt

  confirm_message-Keeps :
      (s : BrokerAt) (l : Listener)
      → l.broker ≡ s
      → IsAccounted l
      → Keeps (confirm_message lib b z s l)
  unfolding confirm_message
  confirm_message-Keeps waiting l e h = tt
  confirm_message-Keeps (routing [] true) l e h = ground arith
  confirm_message-Keeps (routing [] false) l e h = ground arith
  confirm_message-Keeps (routing (t ∷ ts) true) l e h = tt
  confirm_message-Keeps (routing (t ∷ ts) false) l e h = tt
  confirm_message-Keeps broker_returned l e h = tt

  stop_broker-Keeps :
      (s : BrokerAt) (l : Listener) → l.broker ≡ s → IsAccounted l → Keeps (stop_broker lib b z s l)
  unfolding stop_broker
  stop_broker-Keeps waiting l e h = ground arith
  stop_broker-Keeps (routing ts told) l e h = tt
  stop_broker-Keeps broker_returned l e h = tt

  receive_token-Keeps :
      (ts : List InvalidToken) (l : Listener)
      → l.out_chan ≡ ts
      → IsAccounted l
      → Keeps (receive_token lib b z ts l)
  unfolding receive_token
  receive_token-Keeps [] l e h = ground arith
  receive_token-Keeps (t ∷ ts) l e h = record {
    counted = h.counted;
    tokens =
        shift l.flushed l.buffer (process_event z.buffer_size (received t) l.buffer).1
          (process_event z.buffer_size (received t) l.buffer).0 t (ts ++ to_put l.broker)
          (process_event_conserves z.buffer_size (received t) l.buffer) (rw e at h.tokens);
    told = h.told;
  }

  flush_buffer-Keeps : (l : Listener) → IsAccounted l → Keeps (flush_buffer lib b z l)
  unfolding flush_buffer process_event
  flush_buffer-Keeps l h = record {
    counted = h.counted;
    tokens = append_assoc l.flushed l.buffer (l.out_chan ++ to_put l.broker) ∙ h.tokens;
    told = h.told;
  }

  cleanup_next-Keeps : (s : Stage) (l : Listener) → IsAccounted l → Keeps (cleanup_next lib b z s l)
  unfolding cleanup_next
  cleanup_next-Keeps serving l h = record { counted = h.counted; tokens = h.tokens; told = h.told }
  cleanup_next-Keeps consumer_stopped l h = record {
    counted = h.counted;
    tokens = h.tokens;
    told = h.told;
  }
  cleanup_next-Keeps broker_stopped l h = record {
    counted = h.counted;
    tokens = h.tokens;
    told = h.told;
  }
  cleanup_next-Keeps tokens_closed l h = record {
    counted = h.counted;
    tokens = h.tokens;
    told = h.told;
  }
  cleanup_next-Keeps handler_stopped l h = tt

  if_running : (running : Bool) (o : Outcome) → Keeps o → Keeps (if running then o else blocked)
  if_running true o h = h
  if_running false o h = tt

  pub step-Keeps : (e : Event) (l : Listener) → IsAccounted l → Keeps (step lib b z e l)
  unfolding step
  step-Keeps poll l h = poll_next-Keeps l.consumer l refl h
  step-Keeps time_out l h = poll_ends-Keeps l.consumer l refl h
  step-Keeps (read m) l h = read_message-Keeps m l.consumer l refl h
  step-Keeps put l h = put_message-Keeps l.consumer l refl h
  step-Keeps consumer_sees_stop l h = stop_consumer-Keeps l.consumer l refl h
  step-Keeps take l h = take_message-Keeps l.broker l.in_chan l refl refl h
  step-Keeps put_token l h = put_out-Keeps l.broker l refl h
  step-Keeps confirm l h = confirm_message-Keeps l.broker l refl h
  step-Keeps broker_sees_stop l h = stop_broker-Keeps l.broker l refl h
  step-Keeps receive l h =
      if_running l.handler_running (receive_token lib b z l.out_chan l)
        (receive_token-Keeps l.out_chan l refl h)
  step-Keeps tick l h =
      if_running l.handler_running (flush_buffer lib b z l) (flush_buffer-Keeps l h)
  step-Keeps handler_sees_stop l h = ground arith
  step-Keeps cleanup l h = cleanup_next-Keeps l.stage l h

  -- With a wait group, from a listener whose messages and tokens are accounted for, in every
  -- order of its goroutines and of its Cleanup: no `Done` finds the wait group at zero, the wait
  -- group counts the messages that are read and not confirmed, and the tokens that the broker
  -- found are, in this order and with none lost or made up, those handed to deleteTokens, those
  -- in the buffer, those on the channel and those to be put on it. A send on the closed channel
  -- ends the schedule.
  pub run-IsAccounted :
      (es : List Event) (l : Listener) → IsAccounted l → Ensures IsAccounted (run lib b z es l)
  run-IsAccounted = run_invariant lib b z IsAccounted step-Keeps
