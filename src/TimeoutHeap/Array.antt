-- ===== src/TimeoutHeap/Array.antt =====
-- The places of the timeout heap: what Swap, Push and Pop write, and that they lose no request.
use pusher.Base.{
  ℕ, zero, suc, ◌+◌, ◌<◌, [], ◌∷◌, ◌++◌, Option, none, some, ◌≡◌, ◌≢◌, refl, Text, length,
  length-append, total, total-append, set, length-set, ltb, ◌==◌, if◌then◌else◌, arith,
}
use pusher.Value.Decode.{pos, negsuc}
use pusher.TimeoutHeap.{TimeoutNode, TimeoutHeap, node_at, swap, push, pop}

abbrev pub deadline : TimeoutHeap → ℕ → ℕ
deadline th i = (node_at th i).unix_time_stamp

-- A measure of requests, by deadline and token. Two lists with the same total of every measure hold the same
-- requests, each as often.
abbrev pub weigh : (ℕ → Text → ℕ) → TimeoutNode → ℕ
weigh f n = f n.unix_time_stamp n.device_token

node_at-set :
    (th : TimeoutHeap) (i k : ℕ) (v : TimeoutNode)
    → i < length th
    → node_at (set th i v) k ≡ (if i == k then v else node_at th k)
node_at-set [] i k v h = absurd (omega arith)
node_at-set (n ∷ th) zero zero v h = refl
node_at-set (n ∷ th) zero (suc k) v h = ground arith
node_at-set (n ∷ th) (suc i) zero v h = ground arith
node_at-set (n ∷ th) (suc i) (suc k) v h = ground (arith, node_at-set th i k v)

total-set :
    (f : TimeoutNode → ℕ) (th : TimeoutHeap) (i : ℕ) (v : TimeoutNode)
    → i < length th
    → total f (set th i v) + f (node_at th i) ≡ total f th + f v
total-set f [] i v h = absurd (omega arith)
total-set f (n ∷ th) zero v h = omega arith
total-set f (n ∷ th) (suc i) v h = omega (arith, total-set f th i v (omega arith))

pub length-swap : (th : TimeoutHeap) (i j : ℕ) → length (swap th i j) ≡ length th
unfolding swap
length-swap th i j = simp length-set

module _ (th : TimeoutHeap) (i j : ℕ) (hi : i < length th) (hj : j < length th) where
  pub deadline-swap :
      (k : ℕ)
      → deadline (swap th i j) k
        ≡ (if j == k then deadline th i else if i == k then deadline th j else deadline th k)
  unfolding swap
  deadline-swap k =
      let a = record (node_at th j) { index = pos i } in
      let b = record (node_at th i) { index = pos j } in
      ground (arith, node_at-set (set th i a) j k b (rw length-set hj), node_at-set th i k a hi)

  pub node_at-swap : (k : ℕ) → k ≢ i → k ≢ j → node_at (swap th i j) k ≡ node_at th k
  unfolding swap
  node_at-swap k ni nj =
      let a = record (node_at th j) { index = pos i } in
      let b = record (node_at th i) { index = pos j } in
      ground (arith, node_at-set (set th i a) j k b (rw length-set hj), node_at-set th i k a hi)

  pub weigh-swap : (f : ℕ → Text → ℕ) → weigh f (node_at (swap th i j) j) ≡ weigh f (node_at th i)
  unfolding swap
  weigh-swap f =
      let a = record (node_at th j) { index = pos i } in
      let b = record (node_at th i) { index = pos j } in
      ground (arith, node_at-set (set th i a) j j b (rw length-set hj))

  pub total-swap : (f : ℕ → Text → ℕ) → total (weigh f) (swap th i j) ≡ total (weigh f) th
  unfolding swap
  total-swap f =
      let a = record (node_at th j) { index = pos i } in
      let b = record (node_at th i) { index = pos j } in
      ground (
        arith,
        total-set (weigh f) th i a hi,
        total-set (weigh f) (set th i a) j b (rw length-set hj),
        node_at-set th i j a hi,
      )

node_at-append :
    (m : TimeoutNode) (th : TimeoutHeap) (k : ℕ)
    → deadline (th ++ m ∷ []) k ≡ (
        if ltb k (length th)
        then deadline th k
        else if k == length th
        then m.unix_time_stamp
        else 0)
node_at-append m [] zero = refl
node_at-append m [] (suc k) = ground arith
node_at-append m (n ∷ th) zero = ground arith
node_at-append m (n ∷ th) (suc k) = ground (arith, node_at-append m th k)

pub deadline-push :
    (node : TimeoutNode) (th : TimeoutHeap) (k : ℕ)
    → deadline (push node th) k ≡ (
        if ltb k (length th)
        then deadline th k
        else if k == length th
        then node.unix_time_stamp
        else 0)
unfolding push
deadline-push node th k = node_at-append (record node { index = pos (length th) }) th k

pub length-push : (node : TimeoutNode) (th : TimeoutHeap) → length (push node th) ≡ suc (length th)
unfolding push
length-push node th = omega (arith, length-append th (record node { index = pos (length th) } ∷ []))

pub total-push :
    (f : ℕ → Text → ℕ) (node : TimeoutNode) (th : TimeoutHeap)
    → total (weigh f) (push node th) ≡ total (weigh f) th + weigh f node
unfolding push
total-push f node th =
    omega (arith, total-append (weigh f) th (record node { index = pos (length th) } ∷ []))

-- The last node is taken off, and notes that it has no place.
pub record IsPopped (th : TimeoutHeap) (last : TimeoutNode) (front : TimeoutHeap) : Type 0 where
  pub shorter : suc (length front) ≡ length th
  pub same_front : (k : ℕ) → k < length front → deadline front k ≡ deadline th k
  pub same_last : (f : ℕ → Text → ℕ) → weigh f last ≡ weigh f (node_at th (length front))
  pub no_place : last.index ≡ negsuc 0
  pub split : (f : ℕ → Text → ℕ) → total (weigh f) front + weigh f last ≡ total (weigh f) th

abbrev pub Pops : TimeoutHeap → Option (TimeoutNode × TimeoutHeap) → Type 0
Pops th none = ⊥
Pops th (some (last, front)) = IsPopped th last front

pop_next-Pops :
    (n : TimeoutNode) (th : TimeoutHeap) (o : Option (TimeoutNode × TimeoutHeap))
    → Pops th o
    → Pops (n ∷ th) (elim o [ none ↦ none | some (last, front) ↦ some (last, n ∷ front) ])
pop_next-Pops n th none h = absurd h
pop_next-Pops n th (some (last, front)) h = record {
  shorter = omega (arith, h.shorter);
  same_front = same;
  same_last = h.same_last;
  no_place = h.no_place;
  split = λ f. omega (arith, h.split f);
}
  where
    same : (k : ℕ) → k < suc (length front) → deadline (n ∷ front) k ≡ deadline (n ∷ th) k
    same zero l = refl
    same (suc k) l = h.same_front k (omega arith)

pub pop-Pops : (th : TimeoutHeap) → 0 < length th → Pops th (pop th)
unfolding pop
pop-Pops [] h = absurd (omega arith)
pop-Pops (n ∷ []) h = record {
  shorter = refl;
  same_front = λ k l. absurd (omega arith);
  same_last = λ f. refl;
  no_place = refl;
  split = λ f. omega arith;
}
pop-Pops (n ∷ m ∷ th) h = pop_next-Pops n (m ∷ th) (pop (m ∷ th)) (pop-Pops (m ∷ th) (omega arith))
