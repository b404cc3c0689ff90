-- ===== src/Listener.antt =====
-- The feedback listener of feedback/listener.go at work: its Kafka consumer, broker and invalid token
-- handler with the channels between them, and Cleanup, which stops them, as goroutines that run in any
-- order.
pub mod Invariant
pub mod Tokens
pub mod Stopping
use pusher.Base.{
  ℕ, zero, suc, ◌-◌, Bool, true, false, List, [], ◌∷◌, ◌++◌, Option, none, some, length, ltb, ◌==◌,
  if◌then◌else◌,
}
use pusher.Feedback.{Broker, Libraries, QueueMessage, InvalidToken, process_message}
use pusher.Feedback.Tokens.{received, flush_tick, in_chan_closed, process_event}

-- Where ConsumeLoop stands: at its select, in ReadMessage, at the channel with a message that it
-- has counted, or at its end.
pub data ConsumerAt : Type 0 where
  selecting polling : ConsumerAt
  holding : QueueMessage → ConsumerAt
  consumer_returned : ConsumerAt

-- Where processMessages of the broker stands: at its select, with a message whose tokens it has yet to
-- put out before it confirms the message, or at its end.
pub data BrokerAt : Type 0 where
  waiting : BrokerAt
  routing : List InvalidToken → Bool → BrokerAt
  broker_returned : BrokerAt

-- How far Start of the listener is: it waits for a signal; then Cleanup stops the consumer, closes the
-- broker's stop channel, closes its channel of tokens, and closes the stop channel of the handler.
pub data Stage : Type 0 where
  serving consumer_stopped broker_stopped tokens_closed handler_stopped : Stage

-- The capacities of the two channels, and bufferSize.
pub record Sizes : Type 0 where
  pub messages : ℕ
  pub tokens : ℕ
  pub buffer_size : ℕ

-- `routed` and `flushed` note all the tokens that the broker has found, and all that were handed to deleteTokens.
pub record Listener : Type 0 where
  pub stage : Stage
  pub pending : ℕ
  pub consumer : ConsumerAt
  pub in_chan : List QueueMessage
  pub broker : BrokerAt
  pub out_chan : List InvalidToken
  pub handler_running : Bool
  pub buffer : List InvalidToken
  pub routed : List InvalidToken
  pub flushed : List InvalidToken

-- A wait group below zero, or a send on a channel that is closed.
pub data Panic : Type 0 where
  negative_counter send_on_closed : Panic

pub data Outcome : Type 0 where
  went : Listener → Outcome
  blocked : Outcome
  panicked : Panic → Outcome

pub data Event : Type 0 where
  poll time_out put take put_token confirm broker_sees_stop : Event
  read : QueueMessage → Event
  consumer_sees_stop receive tick handler_sees_stop cleanup : Event

abbrev pub is_serving : Stage → Bool
is_serving serving = true
is_serving _ = false

-- The channel of invalid tokens is closed.
abbrev pub is_closed : Stage → Bool
is_closed tokens_closed = true
is_closed handler_stopped = true
is_closed _ = false

-- The stop channel of the broker is closed.
abbrev pub stops_broker : Stage → Bool
stops_broker serving = false
stops_broker consumer_stopped = false
stops_broker _ = true

abbrev pub stops_handler : Stage → Bool
stops_handler handler_stopped = true
stops_handler _ = false

module _ (lib : Libraries) (b : Broker) (z : Sizes) where
  -- ConsumeLoop: the default case of the select only where nothing tells it to stop.
  unfoldable pub poll_next : ConsumerAt → Listener → Outcome
  poll_next selecting l =
      if is_serving l.stage then went (record l { consumer = polling }) else blocked
  poll_next _ l = blocked

  unfoldable pub poll_ends : ConsumerAt → Listener → Outcome
  poll_ends polling l = went (record l { consumer = selecting })
  poll_ends _ l = blocked

  -- receiveMessage: the wait group first, then the channel.
  unfoldable pub read_message : QueueMessage → ConsumerAt → Listener → Outcome
  read_message m polling l = went (record l {
    consumer = holding m;
    pending = if b.pending_messages_wg then suc l.pending else l.pending;
  })
  read_message m _ l = blocked

  unfoldable pub put_message : ConsumerAt → Listener → Outcome
  put_message (holding m) l =
      if ltb (length l.in_chan) z.messages
      then went (record l { consumer = selecting; in_chan = l.in_chan ++ m ∷ [] })
      else blocked
  put_message _ l = blocked

  unfoldable pub stop_consumer : ConsumerAt → Listener → Outcome
  stop_consumer selecting l =
      if is_serving l.stage then blocked else went (record l { consumer = consumer_returned })
  stop_consumer _ l = blocked

  -- processMessages of the broker.
  unfoldable pub take_message : BrokerAt → List QueueMessage → Listener → Outcome
  take_message waiting (m ∷ ms) l =
      let (tokens, told) = process_message lib b m in
      went (record l { in_chan = ms; broker = routing tokens told; routed = l.routed ++ tokens })
  take_message _ _ l = blocked

  unfoldable pub put_out : BrokerAt → Listener → Outcome
  put_out (routing (t ∷ ts) told) l =
      if is_closed l.stage
      then panicked send_on_closed
      else if ltb (length l.out_chan) z.tokens
      then went (record l { broker = routing ts told; out_chan = l.out_chan ++ t ∷ [] })
      else blocked
  put_out _ l = blocked

  -- confirmMessage
  unfoldable pub confirm_message : BrokerAt → Listener → Outcome
  confirm_message (routing [] true) l =
      if l.pending == 0
      then panicked negative_counter
      else went (record l { broker = waiting; pending = l.pending - 1 })
  confirm_message (routing [] false) l = went (record l { broker = waiting })
  confirm_message _ l = blocked

  unfoldable pub stop_broker : BrokerAt → Listener → Outcome
  stop_broker waiting l =
      if stops_broker l.stage then went (record l { broker = broker_returned }) else blocked
  stop_broker _ l = blocked

  -- processMessages of the handler: a token, a closed channel, or the ticker.
  unfoldable pub receive_token : List InvalidToken → Listener → Outcome
  receive_token [] l = if is_closed l.stage then went l else blocked
  receive_token (t ∷ ts) l =
      let (buffer, flushed) = process_event z.buffer_size (received t) l.buffer in
      went (record l { out_chan = ts; buffer = buffer; flushed = l.flushed ++ flushed })

  unfoldable pub flush_buffer : Listener → Outcome
  flush_buffer l =
      let (buffer, flushed) = process_event z.buffer_size flush_tick l.buffer in
      went (record l { buffer = buffer; flushed = l.flushed ++ flushed })

  -- Cleanup, step by step; Queue.Cleanup closes the client of Kafka.
  unfoldable pub cleanup_next : Stage → Listener → Outcome
  cleanup_next serving l = went (record l { stage = consumer_stopped })
  cleanup_next consumer_stopped l = went (record l { stage = broker_stopped })
  cleanup_next broker_stopped l = went (record l { stage = tokens_closed })
  cleanup_next tokens_closed l = went (record l { stage = handler_stopped })
  cleanup_next handler_stopped l = blocked

  unfoldable pub step : Event → Listener → Outcome
  unfolding poll_next poll_ends read_message put_message stop_consumer take_message put_out
      confirm_message stop_broker receive_token flush_buffer cleanup_next
  step poll l = poll_next l.consumer l
  step time_out l = poll_ends l.consumer l
  step (read m) l = read_message m l.consumer l
  step put l = put_message l.consumer l
  step consumer_sees_stop l = stop_consumer l.consumer l
  step take l = take_message l.broker l.in_chan l
  step put_token l = put_out l.broker l
  step confirm l = confirm_message l.broker l
  step broker_sees_stop l = stop_broker l.broker l
  step receive l = if l.handler_running then receive_token l.out_chan l else blocked
  step tick l = if l.handler_running then flush_buffer l else blocked
  step handler_sees_stop l =
      if l.handler_running
      then (if stops_handler l.stage then went (record l { handler_running = false }) else blocked)
      else blocked
  step cleanup l = cleanup_next l.stage l

  unfoldable pub run : List Event → Listener → Outcome
  unfolding step
  run [] l = went l
  run (e ∷ es) l = elim (step e l) [
    | blocked ↦ blocked
    | panicked p ↦ panicked p
    | went t ↦ run es t
  ]
