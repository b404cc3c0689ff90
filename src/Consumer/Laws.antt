-- ===== src/Consumer/Laws.antt =====
-- What the consume loop does with what it reads.
use pusher.Base.{
  ℕ, ◌+◌, List, [], ◌∷◌, ◌++◌, Option, none, some, ◌≡◌, inl, inr, refl, sym, ◌∙◌, ap, Text, Bool,
  true, false, ◌&&◌, is_some, if◌then◌else◌, Option-cases, length, arith,
}
use mathlib.Core.List.{append_assoc, append-nil}
use pusher.Value.{Value}
use pusher.Topic.{ParsedTopic, get_game_and_platform_from_topic}
use pusher.Consumer.{
  KafkaConsumer, add_one, receive_message, Poll, stop_closed, context_done, timed_out, read_error,
  message, LoopEnd, returned, panicked, running, consume_rounds,
}

-- The messages that the loop gets to see: those before a stop.
abbrev pub seen : List Poll → List (Text × Option Value)
seen [] = []
seen (stop_closed ∷ ps) = []
seen (context_done ∷ ps) = []
seen (timed_out ∷ ps) = seen ps
seen (read_error ∷ ps) = seen ps
seen (message t v ∷ ps) = (t, v) ∷ seen ps

-- They are put on the channel in turn, as far as their topics parse.
abbrev pub delivered :
    {M : Type 0} → (Text → Option Value → ParsedTopic → M) → List (Text × Option Value) → List M
delivered make [] = []
delivered make ((t, v) ∷ ms) = elim (get_game_and_platform_from_topic t) [
  | none ↦ []
  | some parsed ↦ make t v parsed ∷ delivered make ms
]

abbrev pub add_many : ℕ → Option ℕ → Option ℕ
add_many n none = none
add_many n (some k) = some (k + n)

add_many_zero : (p : Option ℕ) → p ≡ add_many 0 p
add_many_zero none = refl
add_many_zero (some n) = ap some (omega arith)

abbrev pub all_parse : List (Text × Option Value) → Bool
all_parse [] = true
all_parse ((t, v) ∷ ms) = is_some (get_game_and_platform_from_topic t) && all_parse ms

abbrev pub stops : List Poll → Bool
stops [] = false
stops (stop_closed ∷ ps) = true
stops (context_done ∷ ps) = true
stops (timed_out ∷ ps) = stops ps
stops (read_error ∷ ps) = stops ps
stops (message t v ∷ ps) = stops ps

-- What the loop has done, with the messages that it got to see: those that are put on the channel are
-- counted, and the one whose topic panics as well.
pub record Consumed {M : Type 0} (make : Text → Option Value → ParsedTopic → M) (ps : List Poll)
    (q : KafkaConsumer M) (result : KafkaConsumer M × LoopEnd) : Type 0 where
  pub channel : result.0.msg_chan ≡ q.msg_chan ++ delivered make (seen ps)
  pub counted :
      result.0.pending
      ≡ add_many
          (length (delivered make (seen ps)) + (if all_parse (seen ps) then 0 else 1))
          q.pending
  pub ends :
      result.1
      ≡ (if all_parse (seen ps) then (if stops ps then returned else running) else panicked)

add_one-add_many : (n : ℕ) (p : Option ℕ) → add_many n (add_one p) ≡ add_many (1 + n) p
add_one-add_many n none = refl
add_one-add_many n (some k) = ap some (omega arith)

module _ {M : Type 0} (make : Text → Option Value → ParsedTopic → M) where
  nothing-Consumed :
      (ps : List Poll) (q : KafkaConsumer M) (end : LoopEnd)
      → seen ps ≡ []
      → end ≡ (if stops ps then returned else running)
      → Consumed make ps q (q, end)
  nothing-Consumed ps q end none_seen e = record {
    channel = rw none_seen (sym (append-nil q.msg_chan));
    counted = rw none_seen (add_many_zero q.pending);
    ends = rw none_seen e;
  }

  -- The loop puts every message that it reads before a stop on the channel, in order, up to the
  -- first whose topic panics. It adds one to the wait group, if there is one, for each of these and
  -- for the message whose topic panics. It ends with that panic, else it has returned if there was a
  -- stop, and is still running if there was none. Errors and timeouts of the read change nothing.
  pub consume_rounds_lem :
      (ps : List Poll) (q : KafkaConsumer M) → Consumed make ps q (consume_rounds make ps q)
  unfolding consume_rounds receive_message get_game_and_platform_from_topic
  consume_rounds_lem [] q = nothing-Consumed [] q running refl refl
  consume_rounds_lem (stop_closed ∷ ps) q = nothing-Consumed (stop_closed ∷ ps) q returned refl refl
  consume_rounds_lem (context_done ∷ ps) q =
      nothing-Consumed (context_done ∷ ps) q returned refl refl
  consume_rounds_lem (timed_out ∷ ps) q =
      let ih = consume_rounds_lem ps q in
      record { channel = ih.channel; counted = ih.counted; ends = ih.ends }
  consume_rounds_lem (read_error ∷ ps) q =
      let ih = consume_rounds_lem ps q in
      record { channel = ih.channel; counted = ih.counted; ends = ih.ends }
  consume_rounds_lem (message t v ∷ ps) q =
      elim (Option-cases (get_game_and_platform_from_topic t)) [
        | inl e ↦ record {
          channel = rw e (sym (append-nil q.msg_chan));
          counted = rw e (one_more q.pending);
          ends = rw e refl;
        }
        | inr (parsed, e) ↦
            let q' : KafkaConsumer M = record {
              pending = add_one q.pending;
              msg_chan = q.msg_chan ++ make t v parsed ∷ [];
            } in
            let ih = consume_rounds_lem ps q' in
            record {
              channel = rw e (ih.channel ∙ append_assoc q.msg_chan (make t v parsed ∷ []) _);
              counted = rw e (
                  ih.counted
                  ∙ add_one-add_many _ q.pending
                  ∙ ap (λ n. add_many n q.pending) (omega arith));
              ends = rw e ih.ends;
            }
      ]
    where
      one_more : (p : Option ℕ) → add_one p ≡ add_many 1 p
      one_more none = refl
      one_more (some n) = ap some (omega arith)
