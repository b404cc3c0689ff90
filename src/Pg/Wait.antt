-- ===== src/Pg/Wait.antt =====
-- What the end of the wait for PostgreSQL tells.
use pusher.Base.{
  ℕ, ◌≤◌, Bool, true, false, ◌||◌, List, [], ◌∷◌, ◌≡◌, inl, inr, refl, arith, All, Bool-cases,
}
use pusher.Value.Decode.{ℤ, pos, negsuc, int_leb}
use pusher.Pg.{is_connected, Round, connected, finish, wait_for_connection}

abbrev pub any_connected : List Round → Bool
any_connected [] = false
any_connected (r ∷ rs) = is_connected r.reply || any_connected rs

int_leb-below : (m n : ℕ) (t : ℤ) → m ≤ n → int_leb (pos n) t ≡ true → int_leb (pos m) t ≡ true
int_leb-below m n (pos k) le h = ground arith
int_leb-below m n (negsuc k) le h = cc

finish-late : (t : ℤ) (last : ℕ) → int_leb (pos last) t ≡ false → finish t last ≡ connected → ⊥
finish-late t last late e = cc (rw late at e)

finish-in_time : (t : ℤ) (last : ℕ) → finish t last ≡ connected → int_leb (pos last) t ≡ true
finish-in_time t last e = elim (Bool-cases (int_leb (pos last) t)) [
  | inl y ↦ y
  | inr n ↦ absurd (finish-late t last n e)
]

-- With a clock that does not run backwards: where WaitForConnection ends without an error, the
-- database did answer in one of the rounds, and the time was not up.
pub wait_for_connection_lem :
    (timeout : ℤ) (rounds : List Round) (last : ℕ)
    → All (λ r. r.ellapsed ≤ last) rounds
    → wait_for_connection timeout rounds last ≡ connected
    → (any_connected rounds ≡ true) × (int_leb (pos last) timeout ≡ true)
unfolding wait_for_connection
wait_for_connection_lem timeout [] last clock e = cc
wait_for_connection_lem timeout (r ∷ rs) last clock e = elim (Bool-cases (is_connected r.reply)) [
  | inl y ↦ rw y (refl, finish-in_time timeout last (rw y at e))
  | inr n ↦ elim (Bool-cases (int_leb (pos r.ellapsed) timeout)) [
    | inl early ↦ rw n (wait_for_connection_lem timeout rs last clock.1 (rw (n, early) at e))
    | inr late ↦
        let up = finish-in_time timeout last (rw (n, late) at e) in
        absurd (cc (late, int_leb-below r.ellapsed last timeout clock.0 up))
  ]
]
