-- ===== src/Tests/Timeouts.antt =====
-- The timeout heap, with a timeout of ten milliseconds.
use pusher.Base.{true, false, List, [], ◌∷◌, some, ◌≡◌, refl, codes, map_option}
use pusher.TimeoutHeap.{TimeoutHeap, new_timeout_heap}
use pusher.TimeoutHeap.Refines.{
  Request, add_at, expire_at, answers_to, Traces, answers_to-Traces, new_timeout_heap-Holds,
}

-- The tokens come out by their deadlines, not in the order in which they came.
abbrev clients : List Request
clients =
    add_at 5 (codes "five")
    ∷ add_at 2 (codes "two")
    ∷ add_at 9 (codes "nine")
    ∷ add_at 3 (codes "three")
    ∷ expire_at 11
    ∷ expire_at 13
    ∷ expire_at 13
    ∷ expire_at 13
    ∷ expire_at 20
    ∷ []

clients_answered :
    map_option (λ x. x.0) (answers_to 10 clients new_timeout_heap)
    ≡ some (
        ([], false)
        ∷ (codes "two", true)
        ∷ (codes "three", true)
        ∷ ([], false)
        ∷ (codes "five", true)
        ∷ [])
unfolding answers_to pusher.TimeoutHeap.has_expired_request pusher.TimeoutHeap.add_request
clients_answered = refl

answers_to-Traces_example : Traces 10 clients [] (answers_to 10 clients new_timeout_heap)
answers_to-Traces_example = answers_to-Traces 10 clients new_timeout_heap [] new_timeout_heap-Holds
