-- ===== src/Effects.antt =====
-- What the handlers do to the world: errors/push.go, the loops over reporters of
-- extensions/common.go, and the calls of the wait group.
pub mod Count
use pusher.Base.{
  ℕ, ◌+◌, Bool, true, false, List, [], ◌∷◌, ◌++◌, map, Option, none, some, Text, codes, total,
}
use pusher.Value.{Value}
use pusher.Value.Decode.{ℤ, pos}

-- errors.PushError
pub record PushError : Type 0 where
  pub key : Text
  pub description : Text

unfoldable pub new_push_error : Text → Text → PushError
new_push_error key description = record { key = key; description = description }

-- `(e *PushError) Error()`
unfoldable pub error_message : PushError → Text
error_message e =
    codes "Sending push notification failed with error "
    ++ (e.key ++ (codes " (" ++ (e.description ++ codes ").")))

-- The methods of interfaces.StatsReporter that are called on the way of a message.
pub data StatCall : Type 0 where
  handle_notification_sent : Text → Text → Text → StatCall
  handle_notification_success : Text → Text → StatCall
  handle_notification_failure : Text → Text → PushError → StatCall
  notification_rate_limit_reached : Text → Text → StatCall
  notification_rate_limit_failed : Text → Text → StatCall
  initialize_failure : Text → Text → StatCall
  report_send_notification_latency : ℕ → Text → Text → List Text → StatCall
  report_firebase_latency : ℕ → Text → StatCall
  report_metric_count : Text → ℤ → Text → Text → StatCall
  report_metric_gauge : Text → ℕ → Text → Text → StatCall

-- One call of one reporter; a reporter goes by its place in the list.
abbrev pub Report : Type 0
Report = ℕ × StatCall

-- `for _, statsReporter := range statsReporters { statsReporter.Call(...) }`
unfoldable pub report : List ℕ → StatCall → List Report
report [] c = []
report (r ∷ rs) c = (r, c) ∷ report rs c

-- extensions/common.go
unfoldable pub stats_reporter_handle_notification_sent : List ℕ → Text → Text → Text → List Report
stats_reporter_handle_notification_sent rs game platform topic =
    report rs (handle_notification_sent game platform topic)

unfoldable pub stats_reporter_handle_notification_success : List ℕ → Text → Text → List Report
stats_reporter_handle_notification_success rs game platform =
    report rs (handle_notification_success game platform)

unfoldable pub stats_reporter_handle_notification_failure :
    List ℕ → Text → Text → PushError → List Report
stats_reporter_handle_notification_failure rs game platform e =
    report rs (handle_notification_failure game platform e)

unfoldable pub stats_reporter_notification_rate_limit_reached : List ℕ → Text → Text → List Report
stats_reporter_notification_rate_limit_reached rs game platform =
    report rs (notification_rate_limit_reached game platform)

unfoldable pub stats_reporter_notification_rate_limit_failed : List ℕ → Text → Text → List Report
stats_reporter_notification_rate_limit_failed rs game platform =
    report rs (notification_rate_limit_failed game platform)

unfoldable pub stats_reporter_report_send_notification_latency :
    List ℕ → ℕ → Text → Text → List Text → List Report
stats_reporter_report_send_notification_latency rs latency game platform labels =
    report rs (report_send_notification_latency latency game platform labels)

unfoldable pub stats_reporter_duplicate_message_detected : List ℕ → Text → Text → List Report
stats_reporter_duplicate_message_detected rs game platform =
    report rs (report_metric_count (codes "duplicated_messages") (pos 1) game platform)

-- What a handler does, in order. `P` is what it hands on to be pushed.
pub data Effect (P : Type 0) : Type 0 where
  stat : Report → Effect P
  feedback : ℕ → Text → Text → Value → Effect P
  push : P → Effect P
  done : Effect P

module _ {P : Type 0} where
  abbrev pub stats : List Report → List (Effect P)
  stats = map stat

  -- `for _, feedbackReporter := range feedbackReporters { feedbackReporter.SendFeedback(...) }`
  unfoldable pub send_feedback_to_all : List ℕ → Text → Text → Value → List (Effect P)
  send_feedback_to_all [] game platform v = []
  send_feedback_to_all (r ∷ rs) game platform v =
      feedback r game platform v ∷ send_feedback_to_all rs game platform v

  -- `SendToFeedbackReporters`; `none` is a value that `json.Marshal` refuses.
  unfoldable pub send_to_feedback_reporters : List ℕ → Option Value → Text → Text → List (Effect P)
  unfolding send_feedback_to_all
  send_to_feedback_reporters rs none game platform = []
  send_to_feedback_reporters rs (some v) game platform = send_feedback_to_all rs game platform v

  -- `waitGroupDone`, with a wait group that may be nil.
  unfoldable pub wait_group_done : Bool → List (Effect P)
  wait_group_done true = done ∷ []
  wait_group_done false = []

  -- How often the effects release the wait group, and how many notifications they push.
  abbrev is_done : Effect P → ℕ
  is_done done = 1
  is_done _ = 0

  abbrev is_push : Effect P → ℕ
  is_push (push _) = 1
  is_push _ = 0

  abbrev pub dones : List (Effect P) → ℕ
  dones = total is_done

  abbrev pub pushes : List (Effect P) → ℕ
  pushes = total is_push

  -- How often the effects let go of a message: it is pushed, or the wait group is told.
  abbrev pub settled : List (Effect P) → ℕ
  settled es = dones es + pushes es

-- What is handed on to be pushed, in order.
abbrev pub pushed : {P : Type 0} → List (Effect P) → List P
pushed [] = []
pushed (push x ∷ es) = x ∷ pushed es
pushed (_ ∷ es) = pushed es

-- What the message handlers use of interfaces.Dedup and interfaces.RateLimiter, over a state `S` of
-- the services behind them: `IsUnique(device, msg, game, platform)` and
-- `Allow(device, game, platform)` with the reports that the limiter makes.
pub record Services (S : Type 0) : Type 0 where
  pub is_unique : Text → Text → Text → Text → S → Bool × S
  pub allow : Text → Text → Text → S → Bool × List Report × S
