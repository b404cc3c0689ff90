-- ===== src/TimeoutHeap/Down.antt =====
-- The node that heap.Pop puts first goes down to its place.
use pusher.Base.{
  ℕ, zero, suc, ◌+◌, ◌-◌, ◌*◌, ◌/◌, ◌≤◌, ◌<◌, ◌≢◌, ◌≡◌, ◌⊎◌, ◌∙◌, ap, inl, inr, refl, Bool-cases,
  ◌&&◌, Option, none, some, Text, length, total, ltb, leb, ◌==◌, arith,
}
use pusher.TimeoutHeap.{
  TimeoutNode, TimeoutHeap, node_at, less, swap, first_child, down, pop, heap_pop,
}
use pusher.TimeoutHeap.Array.{
  deadline, weigh, length-swap, deadline-swap, node_at-swap, total-swap, weigh-swap, Pops, pop-Pops,
}
use pusher.TimeoutHeap.Order.{IsHeapTo, IsHeap, IsRearranged, IsRearranged-refl, IsRearranged-swap}

-- Among the first `n` nodes only the children of `i` may expire before it, and they do not expire before
-- its parent.
pub record IsHeapAbove (i n : ℕ) (th : TimeoutHeap) : Type 0 where
  pub others : (k : ℕ) → 0 < k → k < n → (k - 1) / 2 ≢ i → deadline th ((k - 1) / 2) ≤ deadline th k
  pub over :
      (k : ℕ) → 0 < i → k < n → 0 < k → (k - 1) / 2 ≡ i → deadline th ((i - 1) / 2) ≤ deadline th k

record IsFirstChild (i n : ℕ) (th : TimeoutHeap) (j : ℕ) : Type 0 where
  inside : j < n
  child : (j ≡ 2 * i + 1) ⊎ (j ≡ 2 * i + 2)
  least : (k : ℕ) → 0 < k → k < n → (k - 1) / 2 ≡ i → deadline th j ≤ deadline th k

children : (k i : ℕ) → 0 < k → (k - 1) / 2 ≡ i → (k ≡ 2 * i + 1) ⊎ (k ≡ 2 * i + 1 + 1)
children k i p r = elim (Bool-cases (k == 2 * i + 1)) [
  | inl e ↦ inl (ground arith)
  | inr e ↦ inr (ground arith)
]

least_of :
    (i n j : ℕ) (th : TimeoutHeap)
    → deadline th j ≤ deadline th (2 * i + 1)
    → (2 * i + 1 + 1 < n → deadline th j ≤ deadline th (2 * i + 1 + 1))
    → (k : ℕ) → 0 < k
    → k < n
    → (k - 1) / 2 ≡ i
    → deadline th j ≤ deadline th k
least_of i n j th left right k p q r = elim (children k i p r) [
  | inl e ↦ rw e left
  | inr e ↦ rw e (right (omega arith))
]

first_child-IsFirstChild :
    (i n : ℕ) (th : TimeoutHeap) → 2 * i + 1 < n → IsFirstChild i n th (first_child i n th)
unfolding first_child less
first_child-IsFirstChild i n th h =
    elim (Bool-cases
      (ltb (2 * i + 1 + 1) n && ltb (deadline th (2 * i + 1 + 1)) (deadline th (2 * i + 1)))) [
        | inl e ↦ rw e (record {
          inside = ground arith;
          child = inr (omega arith);
          least = least_of i n (2 * i + 1 + 1) th (ground arith) (λ l. omega arith);
        })
        | inr e ↦ rw e (record {
          inside = omega arith;
          child = inl refl;
          least = least_of i n (2 * i + 1) th (omega arith) (λ l. ground arith);
        })
      ]

swap-IsHeapAbove :
    (i j n : ℕ) (th : TimeoutHeap)
    → n ≤ length th
    → IsFirstChild i n th j
    → deadline th j < deadline th i
    → IsHeapAbove i n th
    → IsHeapAbove j n (swap th i j)
swap-IsHeapAbove i j n th l s below h =
    let size = length-swap th i j in
    let parent : (j - 1) / 2 ≡ i = ground (arith, s.child) in
    let at = deadline-swap th i j (ground (arith, s.child, s.inside)) (omega (arith, s.inside)) in
    record {
      others = λ k p q r. ground (
        arith,
        at k,
        at ((k - 1) / 2),
        h.others k,
        h.over k,
        h.over j,
        s.least k,
        s.inside,
        s.child,
        parent,
      );
      over = λ k p q r t. ground (arith, at k, at ((j - 1) / 2), h.others k, parent);
    }

-- What `down` does to the first `n` nodes, and that it leaves the others alone.
record IsSifted (n : ℕ) (th th' : TimeoutHeap) : Type 0 where
  ordered : IsHeapTo n th'
  rearranged : IsRearranged th th'
  beyond : (k : ℕ) → n ≤ k → node_at th' k ≡ node_at th k

down-IsSifted :
    (fuel i n : ℕ) (th : TimeoutHeap)
    → n ≤ i + fuel
    → n ≤ length th
    → IsHeapAbove i n th
    → IsSifted n th (down fuel i n th)
unfolding down less
down-IsSifted zero i n th e l h = record {
  ordered = λ k p q. h.others k p q (omega arith);
  rearranged = IsRearranged-refl th;
  beyond = λ k p. refl;
}
down-IsSifted (suc fuel) i n th e l h =
    let j = first_child i n th in
    elim (Bool-cases (leb n (2 * i + 1))) [
      | inl leaf ↦ rw leaf (record {
        ordered = λ k p q. h.others k p q (ground arith);
        rearranged = IsRearranged-refl th;
        beyond = λ k p. refl;
      })
      | inr inner ↦
          let s = first_child-IsFirstChild i n th (ground arith) in
          let ij : i < j = ground (arith, s.child) in
          let jn = s.inside in
          rw inner (elim (Bool-cases (ltb (deadline th j) (deadline th i))) [
            | inl below ↦
                let r =
                  down-IsSifted fuel j n (swap th i j) (omega arith)
                    (omega (arith, length-swap th i j))
                    (swap-IsHeapAbove i j n th l s (ground arith) h) in
                rw below (record {
                  ordered = r.ordered;
                  rearranged = IsRearranged-swap th i j (omega arith) (omega arith) r.rearranged;
                  beyond = λ k p.
                      r.beyond k p
                      ∙ node_at-swap th i j (omega arith) (omega arith) k (omega arith)
                          (omega arith);
                })
            | inr settled ↦ rw settled (record {
              ordered = λ k p q. ground (arith, h.others k, s.least k);
              rearranged = IsRearranged-refl th;
              beyond = λ k p. refl;
            })
          ])
    ]

-- The first node of `th` is taken off, and the rest is in order.
pub record IsTaken (th : TimeoutHeap) (front : TimeoutHeap) : Type 0 where
  pub ordered : IsHeap front
  pub shorter : suc (length front) ≡ length th
  pub split :
      (f : ℕ → Text → ℕ) → total (weigh f) front + weigh f (node_at th 0) ≡ total (weigh f) th

abbrev pub Takes : TimeoutHeap → Option (TimeoutNode × TimeoutHeap) → Type 0
Takes th none = ⊥
Takes th (some (last, front)) = IsTaken th front

IsPopped-IsTaken :
    (th : TimeoutHeap) (n : ℕ) (th' : TimeoutHeap) (o : Option (TimeoutNode × TimeoutHeap))
    → length th ≡ suc n
    → IsSifted n (swap th 0 n) th'
    → Pops th' o
    → Takes th o
IsPopped-IsTaken th n th' none e s p = absurd p
IsPopped-IsTaken th n th' (some (last, front)) e s p =
    let size = s.rearranged.same_length ∙ length-swap th 0 n in
    let end : length front ≡ n = omega (arith, p.shorter, size) in
    record {
      ordered =
          λ k q r. ground (arith, p.same_front k, p.same_front ((k - 1) / 2), s.ordered k, end);
      shorter = omega (arith, end);
      split = λ f.
          let last_first : weigh f last ≡ weigh f (node_at th 0) =
            p.same_last f
            ∙ ap (λ (k : ℕ). weigh f (node_at th' k)) end
            ∙ ap (weigh f) (s.beyond n (omega arith))
            ∙ weigh-swap th 0 n (omega arith) (omega arith) f in
          omega (
            arith,
            last_first,
            p.split f,
            s.rearranged.same_requests f,
            total-swap th 0 n (omega arith) (omega arith) f,
          );
    }

first-IsHeapAbove :
    (th : TimeoutHeap) (n : ℕ) → length th ≡ suc n → IsHeap th → IsHeapAbove 0 n (swap th 0 n)
first-IsHeapAbove th n e h =
    let at = deadline-swap th 0 n (omega arith) (omega arith) in
    record {
      others = λ k p q r. ground (arith, at k, at ((k - 1) / 2), h k);
      over = λ k p. absurd (omega arith);
    }

-- heap.Pop, from nodes in order, takes off the first one, leaves the rest in order and loses no other.
pub heap_pop-Takes : (th : TimeoutHeap) → IsHeap th → 0 < length th → Takes th (heap_pop th)
unfolding heap_pop
heap_pop-Takes th h l =
    let n = length th - 1 in
    let e : length th ≡ suc n = omega arith in
    let size = length-swap th 0 n in
    let s =
      down-IsSifted n 0 n (swap th 0 n) (omega arith) (omega arith) (first-IsHeapAbove th n e h) in
    IsPopped-IsTaken th n (down n 0 n (swap th 0 n)) (pop (down n 0 n (swap th 0 n))) e s
      (pop-Pops (down n 0 n (swap th 0 n)) (omega (arith, s.rearranged.same_length, size)))
