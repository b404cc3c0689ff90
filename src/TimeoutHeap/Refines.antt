-- ===== src/TimeoutHeap/Refines.antt =====
-- The timeout heap serves its requests as a plain list of them would.
use pusher.Base.{
  ℕ, suc, ◌+◌, ◌≤◌, ◌<◌, ◌≡◌, ap, inl, inr, refl, Bool, Bool-cases, true, false, List, [], ◌∷◌,
  ◌++◌, Option, none, some, Text, length, total, total-append, All, ltb, ◌==◌, arith,
}
use pusher.TimeoutHeap.{
  TimeoutNode, TimeoutHeap, node_at, heap_pop, new_timeout_node, new_timeout_heap, add_request,
  popped, complete_has_expired_request, without_time, has_expired_request,
}
use pusher.TimeoutHeap.Array.{deadline}
use pusher.TimeoutHeap.Up.{heap_push-IsHeap}
use pusher.TimeoutHeap.Down.{Takes, heap_pop-Takes}
use pusher.TimeoutHeap.Holds.{Pending, of_pending, Holds, root_request, All-deadlines}

-- What HasExpiredRequest may answer: no request is due, or one of the requests that expire first is due.
pub data Serves : ℕ → List Pending → Text × Bool → List Pending → Type 0 where
  waits : {now : ℕ} {b : List Pending} → All (λ p. now < p.0) b → Serves now b ([], false) b
  expires :
      {now : ℕ} {b : List Pending} (before : List Pending) (time : ℕ) (token : Text)
      (after : List Pending)
      → b ≡ before ++ (time, token) ∷ after
      → All (λ p. time ≤ p.0) b
      → time ≤ now
      → Serves now b (token, true) (before ++ after)

-- AddRequest puts the request behind the others.
add_request-Holds :
    (timeout_cte now : ℕ) (token : Text) (th : TimeoutHeap) (b : List Pending)
    → Holds th b
    → Holds (add_request timeout_cte now token th) (b ++ (now + timeout_cte, token) ∷ [])
unfolding add_request new_timeout_node
add_request-Holds timeout_cte now token th b h =
    let node = new_timeout_node timeout_cte now token in
    let (ordered, longer, added) = heap_push-IsHeap node th h.ordered in
    record {
      ordered = ordered;
      requests = λ f. omega (
        arith,
        added f,
        h.requests f,
        total-append (of_pending f) b ((now + timeout_cte, token) ∷ []),
      );
    }

-- An answer of HasExpiredRequest, no panic, that a list of the requests can give.
abbrev pub Answers : ℕ → List Pending → Option ((Text × Bool) × TimeoutHeap) → Type 0
Answers now b none = ⊥
Answers now b (some (answer, th)) = (b' : List Pending) × Serves now b answer b' × Holds th b'

popped-Answers :
    (now : ℕ) (th : TimeoutHeap) (b : List Pending) (o : Option (TimeoutNode × TimeoutHeap))
    → Holds th b
    → 0 < length th
    → deadline th 0 ≤ now
    → Takes th o
    → Answers now b (without_time (popped (node_at th 0) o))
popped-Answers now th b none h l due t = absurd t
popped-Answers now th b (some (last, front)) h l due t =
    let (before, after, e) = root_request th b h l in
    let root : Pending = (deadline th 0, (node_at th 0).device_token) in
    (
      before ++ after,
      expires before (deadline th 0) (node_at th 0).device_token after e
          (All-deadlines (deadline th 0) th b h (λ p. omega arith)) due,
      record {
        ordered = t.ordered;
        requests = λ f. omega (
          arith,
          t.split f,
          h.requests f,
          ap (total (of_pending f)) e,
          total-append (of_pending f) before (root ∷ after),
          total-append (of_pending f) before after,
        );
      },
    )

has_expired_request-Answers :
    (now : ℕ) (th : TimeoutHeap) (b : List Pending)
    → Holds th b
    → Answers now b (has_expired_request now th)
unfolding has_expired_request complete_has_expired_request
has_expired_request-Answers now th b h = elim (Bool-cases (length th == 0)) [
  | inl none_left ↦
      rw none_left (b, waits (All-deadlines (suc now) th b h (λ p. absurd (ground arith))), h)
  | inr some_left ↦ rw some_left (elim (Bool-cases (ltb now (deadline th 0))) [
    | inl early ↦ rw early (b, waits (All-deadlines (suc now) th b h (λ p. ground arith)), h)
    | inr due ↦
        let l : 0 < length th = ground arith in
        rw due
          (popped-Answers now th b (heap_pop th) h l (ground arith) (heap_pop-Takes th h.ordered l))
  ])
]

-- What a client asks of the heap, at a time that it is asked.
pub data Request : Type 0 where
  add_at : ℕ → Text → Request
  expire_at : ℕ → Request

abbrev and_then :
    Option ((Text × Bool) × TimeoutHeap)
    → (TimeoutHeap → Option (List (Text × Bool) × TimeoutHeap))
    → Option (List (Text × Bool) × TimeoutHeap)
and_then none next = none
and_then (some (answer, th)) next = elim (next th) [
  | none ↦ none
  | some (answers, last) ↦ some (answer ∷ answers, last)
]

-- The answers to a sequence of requests, and the heap after them; `none` is a panic.
unfoldable pub answers_to :
    ℕ → List Request → TimeoutHeap → Option (List (Text × Bool) × TimeoutHeap)
answers_to timeout_cte [] th = some ([], th)
answers_to timeout_cte (add_at now token ∷ rs) th =
    answers_to timeout_cte rs (add_request timeout_cte now token th)
answers_to timeout_cte (expire_at now ∷ rs) th =
    and_then (has_expired_request now th) (λ t. answers_to timeout_cte rs t)

-- The answers that a list of requests can give: a new request goes behind the others.
pub data Trace (timeout_cte : ℕ) : List Request → List Pending → List (Text × Bool) → Type 0 where
  stop : {b : List Pending} → Trace timeout_cte [] b []
  adds :
      {now : ℕ} {token : Text} {rs : List Request} {b : List Pending} {answers : List (Text × Bool)}
      → Trace timeout_cte rs (b ++ (now + timeout_cte, token) ∷ []) answers
      → Trace timeout_cte (add_at now token ∷ rs) b answers
  serves :
      {now : ℕ} {rs : List Request} {b b' : List Pending} {answer : Text × Bool}
      {answers : List (Text × Bool)}
      → Serves now b answer b'
      → Trace timeout_cte rs b' answers
      → Trace timeout_cte (expire_at now ∷ rs) b (answer ∷ answers)

abbrev pub Traces :
    ℕ → List Request → List Pending → Option (List (Text × Bool) × TimeoutHeap) → Type 0
Traces timeout_cte rs b none = ⊥
Traces timeout_cte rs b (some (answers, th)) = Trace timeout_cte rs b answers

and_then-Traces :
    (timeout_cte now : ℕ) (rs : List Request) (b : List Pending)
    (o : Option ((Text × Bool) × TimeoutHeap))
    → ((th : TimeoutHeap) (b' : List Pending)
        → Holds th b'
        → Traces timeout_cte rs b' (answers_to timeout_cte rs th))
    → Answers now b o
    → Traces timeout_cte (expire_at now ∷ rs) b (and_then o (λ t. answers_to timeout_cte rs t))
and_then-Traces timeout_cte now rs b none ih h = absurd h
and_then-Traces timeout_cte now rs b (some (answer, th)) ih (b', served, holds) =
    continue (answers_to timeout_cte rs th) (ih th b' holds)
  where
    continue :
        (o : Option (List (Text × Bool) × TimeoutHeap))
        → Traces timeout_cte rs b' o
        → Traces timeout_cte
            (expire_at now ∷ rs)
            b
            (elim o [ none ↦ none | some (answers, last) ↦ some (answer ∷ answers, last) ])
    continue none t = absurd t
    continue (some (answers, last)) t = serves served t

-- A timeout heap that holds the requests of a list answers any sequence of AddRequest and
-- HasExpiredRequest, at any times, as that list can, and never panics: a new request goes behind the
-- others; HasExpiredRequest says that there is none exactly where each request of the list has its
-- deadline after the time; and otherwise it gives the token of a request that is due and whose deadline
-- none of the others precedes, and takes this one request away.
pub answers_to-Traces :
    (timeout_cte : ℕ) (rs : List Request) (th : TimeoutHeap) (b : List Pending)
    → Holds th b
    → Traces timeout_cte rs b (answers_to timeout_cte rs th)
unfolding answers_to
answers_to-Traces timeout_cte [] th b h = stop
answers_to-Traces timeout_cte (add_at now token ∷ rs) th b h =
    adds_trace (answers_to timeout_cte rs (add_request timeout_cte now token th)) (
      answers_to-Traces timeout_cte rs (add_request timeout_cte now token th)
        (b ++ (now + timeout_cte, token) ∷ []) (add_request-Holds timeout_cte now token th b h))
  where
    adds_trace :
        (o : Option (List (Text × Bool) × TimeoutHeap))
        → Traces timeout_cte rs (b ++ (now + timeout_cte, token) ∷ []) o
        → Traces timeout_cte (add_at now token ∷ rs) b o
    adds_trace none t = absurd t
    adds_trace (some (answers, last)) t = adds t
answers_to-Traces timeout_cte (expire_at now ∷ rs) th b h =
    and_then-Traces timeout_cte now rs b (has_expired_request now th)
      (λ t b'. answers_to-Traces timeout_cte rs t b') (has_expired_request-Answers now th b h)

pub new_timeout_heap-Holds : Holds new_timeout_heap []
new_timeout_heap-Holds = record { ordered = λ k p l. absurd (omega arith); requests = λ f. refl }
