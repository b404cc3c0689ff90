-- ===== src/TimeoutHeap.antt =====
-- extensions/timeout_heap.go: the requests that wait for an answer, by the time at which they
-- expire, with what they use of container/heap.
pub mod Array
pub mod Order
pub mod Up
pub mod Down
pub mod Holds
pub mod Refines
use pusher.Base.{
  ℕ, zero, suc, ◌+◌, ◌-◌, ◌*◌, ◌/◌, Bool, true, false, ◌&&◌, List, [], ◌∷◌, ◌++◌, Option, none,
  some, Text, length, set, ltb, leb, ◌==◌, if◌then◌else◌,
}
use pusher.Value.Decode.{ℤ, pos, negsuc}

-- timeoutNode
pub record TimeoutNode : Type 0 where
  pub unix_time_stamp : ℕ
  pub device_token : Text
  pub index : ℤ

abbrev pub TimeoutHeap : Type 0
TimeoutHeap = List TimeoutNode

abbrev pub zero_node : TimeoutNode
zero_node = record { unix_time_stamp = 0; device_token = []; index = pos 0 }

-- `th[i]`, for an index that is there.
abbrev pub node_at : TimeoutHeap → ℕ → TimeoutNode
node_at [] i = zero_node
node_at (n ∷ th) zero = n
node_at (n ∷ th) (suc i) = node_at th i

-- Less
unfoldable pub less : TimeoutHeap → ℕ → ℕ → Bool
less th i j = ltb (node_at th i).unix_time_stamp (node_at th j).unix_time_stamp

-- Swap: the nodes change places, and each notes its new place.
unfoldable pub swap : TimeoutHeap → ℕ → ℕ → TimeoutHeap
swap th i j =
    set (set th i (record (node_at th j) { index = pos i })) j
      (record (node_at th i) { index = pos j })

-- Push
unfoldable pub push : TimeoutNode → TimeoutHeap → TimeoutHeap
push node th = th ++ (record node { index = pos (length th) }) ∷ []

-- Pop of the last node; `none` is the panic of an empty heap.
unfoldable pub pop : TimeoutHeap → Option (TimeoutNode × TimeoutHeap)
pop [] = none
pop (n ∷ []) = some (record n { index = negsuc 0 }, [])
pop (n ∷ m ∷ th) = elim (pop (m ∷ th)) [ none ↦ none | some (last, front) ↦ some (last, n ∷ front) ]

-- `up` of container/heap: the node at `j` goes up while it expires before its parent.
unfoldable pub up : ℕ → ℕ → TimeoutHeap → TimeoutHeap
unfolding less swap
up zero j th = th
up (suc fuel) j th =
    let i = (j - 1) / 2 in
    let rest = up fuel i (swap th i j) in if i == j then th else if less th j i then rest else th

-- The child of `i` that expires first, among the first `n` nodes.
unfoldable pub first_child : ℕ → ℕ → TimeoutHeap → ℕ
unfolding less
first_child i n th =
    let j₁ = 2 * i + 1 in if ltb (j₁ + 1) n && less th (j₁ + 1) j₁ then j₁ + 1 else j₁

-- `down` of container/heap: the node at `i` goes down while a child expires before it.
unfoldable pub down : ℕ → ℕ → ℕ → TimeoutHeap → TimeoutHeap
unfolding less swap first_child
down zero i n th = th
down (suc fuel) i n th =
    let j = first_child i n th in
    let rest = down fuel j n (swap th i j) in
    if leb n (2 * i + 1) then th else if less th j i then rest else th

-- heap.Push; the fuel is the place at which the node starts.
unfoldable pub heap_push : TimeoutNode → TimeoutHeap → TimeoutHeap
unfolding push up
heap_push node th = up (length th) (length th) (push node th)

-- heap.Pop
unfoldable pub heap_pop : TimeoutHeap → Option (TimeoutNode × TimeoutHeap)
unfolding swap down pop
heap_pop th = let n = length th - 1 in pop (down n 0 n (swap th 0 n))

-- newTimeoutNode
unfoldable pub new_timeout_node : ℕ → ℕ → Text → TimeoutNode
new_timeout_node timeout_cte now token = record {
  unix_time_stamp = now + timeout_cte;
  device_token = token;
  index = pos 0;
}

-- NewTimeoutHeap, with heap.Init of no nodes.
abbrev pub new_timeout_heap : TimeoutHeap
new_timeout_heap = []

-- AddRequest
unfoldable pub add_request : ℕ → ℕ → Text → TimeoutHeap → TimeoutHeap
unfolding heap_push new_timeout_node
add_request timeout_cte now token th = heap_push (new_timeout_node timeout_cte now token) th

-- Empty
unfoldable pub is_empty : TimeoutHeap → Bool
is_empty th = length th == 0

-- completeHasExpiredRequest, with the heap that it leaves; `none` is a panic.
abbrev pub popped :
    TimeoutNode → Option (TimeoutNode × TimeoutHeap) → Option ((Text × ℕ × Bool) × TimeoutHeap)
popped node none = none
popped node (some (last, th)) = some ((node.device_token, node.unix_time_stamp, true), th)

unfoldable pub complete_has_expired_request :
    ℕ → TimeoutHeap → Option ((Text × ℕ × Bool) × TimeoutHeap)
unfolding heap_pop
complete_has_expired_request now th =
    let node = node_at th 0 in
    if length th == 0
    then some (([], 0, false), th)
    else if ltb now node.unix_time_stamp
    then some (([], 0, false), th)
    else popped node (heap_pop th)

-- HasExpiredRequest
abbrev pub without_time :
    Option ((Text × ℕ × Bool) × TimeoutHeap) → Option ((Text × Bool) × TimeoutHeap)
without_time none = none
without_time (some ((token, time, has), th)) = some ((token, has), th)

unfoldable pub has_expired_request : ℕ → TimeoutHeap → Option ((Text × Bool) × TimeoutHeap)
unfolding complete_has_expired_request
has_expired_request now th = without_time (complete_has_expired_request now th)
