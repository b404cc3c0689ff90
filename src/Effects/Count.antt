-- ===== src/Effects/Count.antt =====
-- Reports and feedback neither release the wait group nor push.
use pusher.Base.{
  ℕ, ◌+◌, Bool, true, false, ap, List, [], ◌∷◌, ◌++◌, none, some, Option, ◌≡◌, refl, Text,
  total-append, length, arith,
}
use pusher.Value.{Value}
use pusher.Effects.{
  Report, Effect, push, stat, feedback, done, stats, send_feedback_to_all,
  send_to_feedback_reporters, wait_group_done, push, pushed, dones, pushes, settled,
}

module _ {P : Type 0} where
  pub dones-append : (a b : List (Effect P)) → dones (a ++ b) ≡ dones a + dones b
  dones-append a b = total-append _ a b

  pub pushes-append : (a b : List (Effect P)) → pushes (a ++ b) ≡ pushes a + pushes b
  pushes-append a b = total-append _ a b

module _ (P : Type 0) where
  pub dones-stats : (rs : List Report) → dones {P = P} (stats rs) ≡ 0
  dones-stats [] = refl
  dones-stats (r ∷ rs) = omega (arith, dones-stats rs)

  pub pushes-stats : (rs : List Report) → pushes {P = P} (stats rs) ≡ 0
  pushes-stats [] = refl
  pushes-stats (r ∷ rs) = omega (arith, pushes-stats rs)

  send_all-quiet :
      (rs : List ℕ) (game platform : Text) (v : Value)
      → (dones {P = P} (send_feedback_to_all rs game platform v) ≡ 0)
        × (pushes {P = P} (send_feedback_to_all rs game platform v) ≡ 0)
  unfolding send_feedback_to_all
  send_all-quiet [] game platform v = (refl, refl)
  send_all-quiet (r ∷ rs) game platform v =
      let (d, p) = send_all-quiet rs game platform v in (omega arith, omega arith)

  pub dones-send_feedback_to_all :
      (rs : List ℕ) (game platform : Text) (v : Value)
      → dones {P = P} (send_feedback_to_all rs game platform v) ≡ 0
  dones-send_feedback_to_all rs game platform v = (send_all-quiet rs game platform v).0

  pub pushes-send_feedback_to_all :
      (rs : List ℕ) (game platform : Text) (v : Value)
      → pushes {P = P} (send_feedback_to_all rs game platform v) ≡ 0
  pushes-send_feedback_to_all rs game platform v = (send_all-quiet rs game platform v).1

  pub dones-send_to_feedback_reporters :
      (rs : List ℕ) (v : Option Value) (game platform : Text)
      → dones {P = P} (send_to_feedback_reporters rs v game platform) ≡ 0
  unfolding send_to_feedback_reporters
  dones-send_to_feedback_reporters rs none game platform = refl
  dones-send_to_feedback_reporters rs (some v) game platform = (send_all-quiet rs game platform v).0

  pub pushes-send_to_feedback_reporters :
      (rs : List ℕ) (v : Option Value) (game platform : Text)
      → pushes {P = P} (send_to_feedback_reporters rs v game platform) ≡ 0
  unfolding send_to_feedback_reporters
  pushes-send_to_feedback_reporters rs none game platform = refl
  pushes-send_to_feedback_reporters rs (some v) game platform =
      (send_all-quiet rs game platform v).1

  pub dones-wait_group_done : dones {P = P} (wait_group_done true) ≡ 1
  unfolding wait_group_done
  dones-wait_group_done = refl

  pub pushes-wait_group_done : (b : Bool) → pushes {P = P} (wait_group_done b) ≡ 0
  unfolding wait_group_done
  pushes-wait_group_done b = ground arith

pub settled-append : {P : Type 0} (a b : List (Effect P)) → settled (a ++ b) ≡ settled a + settled b
settled-append a b = omega (arith, dones-append a b, pushes-append a b)

pub settled-stats : (P : Type 0) (rs : List Report) → settled {P = P} (stats rs) ≡ 0
settled-stats P rs = omega (arith, dones-stats P rs, pushes-stats P rs)

pub settled-feedback :
    (P : Type 0) (rs : List ℕ) (v : Option Value) (game platform : Text)
    → settled {P = P} (send_to_feedback_reporters rs v game platform) ≡ 0
settled-feedback P rs v game platform = omega (
  arith,
  dones-send_to_feedback_reporters P rs v game platform,
  pushes-send_to_feedback_reporters P rs v game platform,
)

pub settled-wait_group_done :
    (P : Type 0) (b : Bool) → b ≡ true → settled {P = P} (wait_group_done b) ≡ 1
unfolding wait_group_done
settled-wait_group_done P b h = ground arith

pub pushed-append : {P : Type 0} (a b : List (Effect P)) → pushed (a ++ b) ≡ pushed a ++ pushed b
pushed-append [] b = refl
pushed-append (push x ∷ a) b = ap (◌∷◌ x) (pushed-append a b)
pushed-append (_ ∷ a) b = pushed-append a b

pub pushes-length : {P : Type 0} (a : List (Effect P)) → pushes a ≡ length (pushed a)
pushes-length [] = refl
pushes-length (push x ∷ a) = omega (arith, pushes-length a)
pushes-length (stat r ∷ a) = omega (arith, pushes-length a)
pushes-length (feedback r g p v ∷ a) = omega (arith, pushes-length a)
pushes-length (done ∷ a) = omega (arith, pushes-length a)

pub pushed-stats : (P : Type 0) (rs : List Report) → pushed {P = P} (stats rs) ≡ []
pushed-stats P [] = refl
pushed-stats P (r ∷ rs) = pushed-stats P rs

pub pushed-wait_group_done : (P : Type 0) (b : Bool) → pushed {P = P} (wait_group_done b) ≡ []
unfolding wait_group_done
pushed-wait_group_done P true = refl
pushed-wait_group_done P false = refl

pushed-send_all :
    (P : Type 0) (rs : List ℕ) (game platform : Text) (v : Value)
    → pushed {P = P} (send_feedback_to_all rs game platform v) ≡ []
unfolding send_feedback_to_all
pushed-send_all P [] game platform v = refl
pushed-send_all P (r ∷ rs) game platform v = pushed-send_all P rs game platform v

pub pushed-feedback :
    (P : Type 0) (rs : List ℕ) (v : Option Value) (game platform : Text)
    → pushed {P = P} (send_to_feedback_reporters rs v game platform) ≡ []
unfolding send_to_feedback_reporters
pushed-feedback P rs none game platform = refl
pushed-feedback P rs (some v) game platform = pushed-send_all P rs game platform v

pub ruleset only_pushed = (pushed-append, pushed-stats, pushed-wait_group_done, pushed-feedback)

pub ruleset quiet = (
  dones-send_feedback_to_all, pushes-send_feedback_to_all, dones-append, pushes-append, dones-stats,
  pushes-stats, dones-send_to_feedback_reporters, pushes-send_to_feedback_reporters,
  dones-wait_group_done, pushes-wait_group_done,
)
