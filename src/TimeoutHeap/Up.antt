-- ===== src/TimeoutHeap/Up.antt =====
-- The node that heap.Push brings goes up to its place.
use pusher.Base.{
  ℕ, zero, suc, ◌+◌, ◌-◌, ◌/◌, ◌≤◌, ◌<◌, ◌≢◌, ◌≡◌, ◌∙◌, inl, inr, Bool-cases, Text, length, total,
  ltb, ◌==◌, arith,
}
use pusher.TimeoutHeap.{TimeoutNode, TimeoutHeap, less, swap, up, push, heap_push}
use pusher.TimeoutHeap.Array.{
  deadline, weigh, length-swap, deadline-swap, length-push, deadline-push, total-push,
}
use pusher.TimeoutHeap.Order.{IsHeap, IsRearranged, IsRearranged-refl, IsRearranged-swap}

-- Only the node at `j` may expire before its parent, and its children do not expire before that parent.
pub record IsHeapBut (j : ℕ) (th : TimeoutHeap) : Type 0 where
  pub others : (k : ℕ) → 0 < k → k < length th → k ≢ j → deadline th ((k - 1) / 2) ≤ deadline th k
  pub over :
      (k : ℕ) → 0 < k → k < length th → (k - 1) / 2 ≡ j → deadline th ((j - 1) / 2) ≤ deadline th k

swap-IsHeapBut :
    (j : ℕ) (th : TimeoutHeap)
    → j < length th
    → (j - 1) / 2 ≢ j
    → deadline th j < deadline th ((j - 1) / 2)
    → IsHeapBut j th
    → IsHeapBut ((j - 1) / 2) (swap th ((j - 1) / 2) j)
swap-IsHeapBut j th l ne below h =
    let i = (j - 1) / 2 in
    let size = length-swap th i j in
    let at = deadline-swap th i j (omega arith) l in
    record {
      others = λ k p q r. ground (arith, at k, at ((k - 1) / 2), h.others k, h.over k);
      over = λ k p q r. ground (arith, at k, at ((i - 1) / 2), h.others k, h.others i, h.over k);
    }

pub up-IsHeap :
    (fuel j : ℕ) (th : TimeoutHeap)
    → j ≤ fuel
    → j < length th
    → IsHeapBut j th
    → IsHeap (up fuel j th) × IsRearranged th (up fuel j th)
unfolding up less
up-IsHeap zero j th e l h = (λ k p q. h.others k p q (omega arith), IsRearranged-refl th)
up-IsHeap (suc fuel) j th e l h =
    let i = (j - 1) / 2 in
    elim (Bool-cases (i == j)) [
      | inl top ↦ rw top (λ k p q. h.others k p q (ground arith), IsRearranged-refl th)
      | inr deep ↦ rw deep (elim (Bool-cases (ltb (deadline th j) (deadline th i))) [
        | inl below ↦
            let ne : i ≢ j = ground arith in
            let (ordered, same) =
              up-IsHeap fuel i (swap th i j) (omega arith) (omega (arith, length-swap th i j))
                (swap-IsHeapBut j th l ne (ground arith) h) in
            rw below (ordered, IsRearranged-swap th i j (omega arith) l same)
        | inr settled ↦ rw settled (λ k p q. ground (arith, h.others k), IsRearranged-refl th)
      ])
    ]

push-IsHeapBut :
    (node : TimeoutNode) (th : TimeoutHeap) → IsHeap th → IsHeapBut (length th) (push node th)
push-IsHeapBut node th h =
    let size = length-push node th in
    let at = deadline-push node th in
    record {
      others = λ k p q r. ground (arith, at k, at ((k - 1) / 2), h k);
      over = λ k p q r. absurd (omega arith);
    }

-- heap.Push keeps the order, and adds the node to the requests.
pub heap_push-IsHeap :
    (node : TimeoutNode) (th : TimeoutHeap)
    → IsHeap th
    → IsHeap (heap_push node th)
      × (length (heap_push node th) ≡ suc (length th))
      × ((f : ℕ → Text → ℕ)
          → total (weigh f) (heap_push node th) ≡ total (weigh f) th + weigh f node)
unfolding heap_push
heap_push-IsHeap node th h =
    let size = length-push node th in
    let (ordered, same) =
      up-IsHeap (length th) (length th) (push node th) (omega arith) (omega arith)
        (push-IsHeapBut node th h) in
    (ordered, same.same_length ∙ size, λ f. same.same_requests f ∙ total-push f node th)
