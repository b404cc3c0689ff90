-- ===== src/TimeoutHeap/Holds.antt =====
-- The requests that the timeout heap holds, as a list of deadlines and tokens.
use pusher.Base.{
  ℕ, suc, ◌≤◌, ◌<◌, ◌≡◌, ◌∙◌, sym, ap, inl, inr, refl, Bool-cases, ◌&&◌, List, [], ◌∷◌, ◌++◌, Text,
  length, total, All, ltb, ◌==◌, ◌≟◌, ≟-eq, ≟_refl, if◌then◌else◌, arith,
}
use pusher.TimeoutHeap.{TimeoutHeap, node_at}
use pusher.TimeoutHeap.Array.{deadline, weigh}
use pusher.TimeoutHeap.Order.{IsHeap, root_first}

-- A request by its deadline and token; the list has them in the order in which they came.
abbrev pub Pending : Type 0
Pending = ℕ × Text

abbrev pub of_pending : (ℕ → Text → ℕ) → Pending → ℕ
of_pending f p = f p.0 p.1

-- The heap is in order and holds the requests of the list.
pub record Holds (th : TimeoutHeap) (b : List Pending) : Type 0 where
  pub ordered : IsHeap th
  pub requests : (f : ℕ → Text → ℕ) → total (weigh f) th ≡ total (of_pending f) b

-- One for a request before the time `d`; one for the request `p`.
abbrev before_time : ℕ → ℕ → Text → ℕ
before_time d t k = if ltb t d then 1 else 0

abbrev is_request : Pending → ℕ → Text → ℕ
is_request p t k = if t == p.0 && k ≟ p.1 then 1 else 0

total-before_time :
    (d : ℕ) (th : TimeoutHeap)
    → ((k : ℕ) → k < length th → d ≤ deadline th k)
    → total (weigh (before_time d)) th ≡ 0
total-before_time d [] h = refl
total-before_time d (n ∷ th) h =
    ground (arith, h 0 (omega arith), total-before_time d th (λ k l. h (suc k) (omega arith)))

before_time-All :
    (d : ℕ) (b : List Pending) → total (of_pending (before_time d)) b ≡ 0 → All (λ p. d ≤ p.0) b
before_time-All d [] h = tt
before_time-All d ((t, k) ∷ b) h = (ground arith, before_time-All d b (ground arith))

find_request :
    (p : Pending) (b : List Pending)
    → 0 < total (of_pending (is_request p)) b
    → (before : List Pending) × (after : List Pending) × (b ≡ before ++ p ∷ after)
find_request p [] h = absurd (omega arith)
find_request (t, k) ((u, j) ∷ b) h = elim (Bool-cases (u == t && j ≟ k)) [
  | inl e ↦
      let same : u ≡ t = ground arith in let text : j ≡ k = ≟-eq j k (ground arith) in ([], b, cc)
  | inr e ↦
      let (before, after, eq) = find_request (t, k) b (ground arith) in
      ((u, j) ∷ before, after, ap (◌∷◌ (u, j)) eq)
]

-- The root is one of the requests, and none expires before it.
pub root_request :
    (th : TimeoutHeap) (b : List Pending)
    → Holds th b
    → 0 < length th
    → (before : List Pending) × (after : List Pending) × (b
        ≡ before ++ (deadline th 0, (node_at th 0).device_token) ∷ after)
root_request [] b h l = absurd (omega arith)
root_request (n ∷ th) b h l =
    let p : Pending = (n.unix_time_stamp, n.device_token) in
    find_request p b (ground (arith, h.requests (is_request p), ≟_refl n.device_token))

pub All-deadlines :
    (d : ℕ) (th : TimeoutHeap) (b : List Pending)
    → Holds th b
    → (0 < length th → d ≤ deadline th 0)
    → All (λ p. d ≤ p.0) b
All-deadlines d th b h e = before_time-All d b (
    sym (h.requests (before_time d))
    ∙ total-before_time d th (λ k l.
      let first = root_first (length th) th (length th) k h.ordered l (omega arith) in
      omega (arith, e (omega arith))))
