-- ===== src/TimeoutHeap/Order.antt =====
-- The order of the timeout heap: no node expires before its parent.
use pusher.Base.{ℕ, zero, suc, ◌-◌, ◌/◌, ◌≤◌, ◌<◌, ◌≡◌, ◌∙◌, refl, Text, length, total, arith}
use pusher.TimeoutHeap.{TimeoutHeap, swap}
use pusher.TimeoutHeap.Array.{deadline, weigh, length-swap, total-swap}

-- The first `n` nodes are in order.
abbrev pub IsHeapTo : ℕ → TimeoutHeap → Type 0
IsHeapTo n th = (k : ℕ) → 0 < k → k < n → deadline th ((k - 1) / 2) ≤ deadline th k

abbrev pub IsHeap : TimeoutHeap → Type 0
IsHeap th = IsHeapTo (length th) th

-- The same requests, and as many.
pub record IsRearranged (th th' : TimeoutHeap) : Type 0 where
  pub same_length : length th' ≡ length th
  pub same_requests : (f : ℕ → Text → ℕ) → total (weigh f) th' ≡ total (weigh f) th

pub IsRearranged-refl : (th : TimeoutHeap) → IsRearranged th th
IsRearranged-refl th = record { same_length = refl; same_requests = λ f. refl }

pub IsRearranged-swap :
    (th : TimeoutHeap) (i j : ℕ) {th' : TimeoutHeap}
    → i < length th
    → j < length th
    → IsRearranged (swap th i j) th'
    → IsRearranged th th'
IsRearranged-swap th i j hi hj h = record {
  same_length = h.same_length ∙ length-swap th i j;
  same_requests = λ f. h.same_requests f ∙ total-swap th i j hi hj f;
}

-- The root expires first.
pub root_first :
    (n : ℕ) (th : TimeoutHeap) (fuel k : ℕ)
    → IsHeapTo n th
    → k < n
    → k ≤ fuel
    → deadline th 0 ≤ deadline th k
root_first n th fuel zero h l e = omega arith
root_first n th zero (suc k) h l e = absurd (omega arith)
root_first n th (suc fuel) (suc k) h l e = omega (
  arith,
  h (suc k) (omega arith) l,
  root_first n th fuel ((suc k - 1) / 2) h (omega arith) (omega arith),
)
