-- ===== src/Feedback/Buffer.antt =====
-- The buffer of invalid tokens.
use pusher.Base.{
  ℕ, ◌<◌, List, [], ◌∷◌, ◌++◌, ◌≡◌, inl, inr, refl, sym, ◌∙◌, ap, length, length-append, leb,
  Bool-cases, arith,
}
use mathlib.Core.List.{append_assoc, append-nil}
use pusher.Feedback.{InvalidToken}
use pusher.Feedback.Tokens.{
  Event, received, flush_tick, in_chan_closed, process_event, process_events,
}

abbrev pub tokens_in : List Event → List InvalidToken
tokens_in [] = []
tokens_in (received t ∷ es) = t ∷ tokens_in es
tokens_in (_ ∷ es) = tokens_in es

abbrev token_of : Event → List InvalidToken
token_of (received t) = t ∷ []
token_of _ = []

tokens_in-cons : (e : Event) (es : List Event) → tokens_in (e ∷ es) ≡ token_of e ++ tokens_in es
tokens_in-cons (received t) es = refl
tokens_in-cons _ es = refl

pub process_event_conserves :
    (size : ℕ) (e : Event) (buffer : List InvalidToken)
    → (process_event size e buffer).1 ++ (process_event size e buffer).0 ≡ buffer ++ token_of e
unfolding process_event
process_event_conserves size (received t) buffer =
    elim (Bool-cases (leb size (length (buffer ++ t ∷ [])))) [
      | inl e ↦ rw e (append-nil _)
      | inr e ↦ rw e
    ]
process_event_conserves size flush_tick buffer = refl
process_event_conserves size in_chan_closed buffer = sym (append-nil buffer)

-- Nothing is lost, made up, or put in another order: what was flushed and what is still buffered are
-- the tokens of the buffer at the start and those received, in order.
process_events_conserve :
    (size : ℕ) (es : List Event) (buffer : List InvalidToken)
    → (process_events size es buffer).1 ++ (process_events size es buffer).0
      ≡ buffer ++ tokens_in es
unfolding process_events
process_events_conserve size [] buffer = sym (append-nil buffer)
process_events_conserve size (e ∷ es) buffer =
    let (buffer', flushed) = process_event size e buffer in
    let (rest, more) = process_events size es buffer' in
    append_assoc flushed more rest
    ∙ ap (λ x. flushed ++ x) (process_events_conserve size es buffer')
    ∙ sym (append_assoc flushed buffer' (tokens_in es))
    ∙ ap (λ x. x ++ tokens_in es) (process_event_conserves size e buffer)
    ∙ append_assoc buffer (token_of e) (tokens_in es)
    ∙ ap (λ x. buffer ++ x) (sym (tokens_in-cons e es))

process_event_bounded :
    (size : ℕ) (e : Event) (buffer : List InvalidToken)
    → length buffer < size
    → length (process_event size e buffer).0 < size
unfolding process_event
process_event_bounded size (received t) buffer h = ground (arith, length-append buffer (t ∷ []))
process_event_bounded size flush_tick buffer h = omega arith
process_event_bounded size in_chan_closed buffer h = h

-- From a buffer that is not full, the buffer is not full after any rounds.
process_events_bounded :
    (size : ℕ) (es : List Event) (buffer : List InvalidToken)
    → length buffer < size
    → length (process_events size es buffer).0 < size
unfolding process_events
process_events_bounded size [] buffer h = h
process_events_bounded size (e ∷ es) buffer h =
    process_events_bounded size es (process_event size e buffer).0
      (process_event_bounded size e buffer h)
