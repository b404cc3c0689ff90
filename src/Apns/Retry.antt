-- ===== src/Apns/Retry.antt =====
-- The answers to one notification, with its retries.
use pusher.Base.{
  ℕ, ◌+◌, ◌-◌, ◌≤◌, ◌<◌, true, false, List, [], ◌∷◌, ◌++◌, Option, none, some, ◌≡◌, ap, ◌∙◌, inl,
  inr, Bool-cases, if◌then◌else◌, length, arith,
}
use pusher.Effects.{Effect, pushed, dones, pushes, settled}
use pusher.Effects.Count.{
  pushes-length, quiet, pushes-wait_group_done, settled-wait_group_done, dones-append,
  pushes-append, only_pushed,
}
use pusher.Apns.{ApnsNotification, ApnsMessageHandler}
use pusher.Apns.Outcome.{sent_once}
use pusher.Apns.Settles.{send_notification-settled}
use pusher.Apns.Reasons.{is_success}
use pusher.Apns.Responses.{
  ResponseWithMetadata, ApnsResponse, Apns2, push_worker, handle_failure, handle_final, is_retried,
  handle_apns_response,
}

abbrev N : Type 0
N = ApnsNotification

module _ (lib : Apns2) (a : ApnsMessageHandler) (elapsed : ℕ) where
  handle_failure-quiet :
      (r : ResponseWithMetadata)
      → (settled (handle_failure lib a elapsed r) ≡ 0)
        × (pushed (handle_failure lib a elapsed r) ≡ [])
  unfolding handle_failure
  handle_failure-quiet r = (simp quiet, simp only_pushed)

  handle_final-settled :
      (r : ResponseWithMetadata)
      → a.pending_messages_wg ≡ true
      → (settled (handle_final lib a elapsed r) ≡ 1) × (pushed (handle_final lib a elapsed r) ≡ [])
  unfolding handle_final
  handle_final-settled r h =
      let (calm, empty) = handle_failure-quiet r in
      let once = settled-wait_group_done N _ h in
      let one = pushes-wait_group_done N a.pending_messages_wg in
      elim (Bool-cases (is_success r.reason)) [
        | inl e ↦ rw e (simp quiet (omega arith), simp only_pushed)
        | inr e ↦ rw e (simp quiet (omega arith), simp (only_pushed, empty))
      ]

  -- An answer of APNS to a message that the wait group counts either sends the notification once
  -- more, with the attempt counted, or releases the wait group once. It is sent again exactly when
  -- APNS complains of too many requests and attempts are left.
  pub handle_apns_response-settles :
      (r : ResponseWithMetadata)
      → a.pending_messages_wg ≡ true
      → (settled (handle_apns_response lib a elapsed r) ≡ 1)
        × (pushed (handle_apns_response lib a elapsed r)
            ≡ (if is_retried lib a elapsed r then sent_once r.notification ∷ [] else []))
  unfolding handle_apns_response
  handle_apns_response-settles r h = elim (Bool-cases (is_retried lib a elapsed r)) [
    | inl e ↦ rw e (
      (send_notification-settled a r.notification elapsed).0,
      (send_notification-settled a r.notification elapsed).1,
    )
    | inr e ↦ rw e (handle_final-settled r h)
  ]

  -- The answer to a notification, as pushWorker hands it over.
  abbrev pub response : ApnsResponse → N → ResponseWithMetadata
  response r n = record {
    sent = r.sent;
    status_code = r.status_code;
    reason = r.reason;
    apns_id = r.apns_id;
    err = none;
    device_token = n.device_token;
    timestamp = 0;
    metadata = none;
    notification = n;
  }

  abbrev handle_answer : Option ResponseWithMetadata → List (Effect N)
  handle_answer none = []
  handle_answer (some r) = handle_apns_response lib a elapsed r

  -- The effects of the answers to one notification: each is handled, and a notification that is
  -- pushed again meets the next answer.
  unfoldable pub lifetime : List ApnsResponse → N → List (Effect N)
  lifetime [] n = []
  lifetime (r ∷ rs) n =
      let es = handle_answer (push_worker (some r) n) in
      es ++ elim (pushed es) [ [] ↦ [] | n' ∷ _ ↦ lifetime rs n' ]

  lifetime_retried :
      (r : ApnsResponse) (rs : List ApnsResponse) (n : N)
      → is_retried lib a elapsed (response r n) ≡ true
      → a.pending_messages_wg ≡ true
      → lifetime (r ∷ rs) n
        ≡ handle_apns_response lib a elapsed (response r n) ++ lifetime rs (sent_once n)
  unfolding lifetime push_worker
  lifetime_retried r rs n e h = rw ((handle_apns_response-settles (response r n) h).1, e)

  lifetime_final :
      (r : ApnsResponse) (rs : List ApnsResponse) (n : N)
      → is_retried lib a elapsed (response r n) ≡ false
      → a.pending_messages_wg ≡ true
      → lifetime (r ∷ rs) n ≡ handle_apns_response lib a elapsed (response r n) ++ []
  unfolding lifetime push_worker
  lifetime_final r rs n e h = rw ((handle_apns_response-settles (response r n) h).1, e)

  is_retried-lt :
      (r : ApnsResponse) (n : N)
      → is_retried lib a elapsed (response r n) ≡ true
      → n.send_attempts < a.max_retry_attempts
  is_retried-lt r n e = ground arith

  -- One step of a lifetime, by numbers: what the handled answer pushes and releases.
  counted :
      (r : ApnsResponse) (n : N)
      → a.pending_messages_wg ≡ true
      → let es = handle_apns_response lib a elapsed (response r n) in
        (pushes es
          ≡ length (if is_retried lib a elapsed (response r n) then sent_once n ∷ [] else []))
        × (dones es + pushes es ≡ 1)
  counted r n h =
      let (once, sent) = handle_apns_response-settles (response r n) h in
      (pushes-length _ ∙ ap length sent, once)

  -- With a wait group: whatever APNS answers, a notification is sent again at most as often as
  -- there are attempts left, and the wait group is released at most once.
  pub lifetime_bounded :
      (rs : List ApnsResponse) (n : N)
      → a.pending_messages_wg ≡ true
      → (pushes (lifetime rs n) ≤ a.max_retry_attempts - n.send_attempts)
        × (dones (lifetime rs n) ≤ 1)
  unfolding lifetime
  lifetime_bounded [] n h = omega arith
  lifetime_bounded (r ∷ rs) n h =
      let es = handle_apns_response lib a elapsed (response r n) in
      let (p, once) = counted r n h in
      elim (Bool-cases (is_retried lib a elapsed (response r n))) [
        | inl e ↦
            let (more, released) = lifetime_bounded rs (sent_once n) h in
            let p' = rw e at p in
            rw (lifetime_retried r rs n e h) (
              omega (
                arith,
                dones-append es (lifetime rs (sent_once n)),
                pushes-append es (lifetime rs (sent_once n)),
                is_retried-lt r n e,
              ))
        | inr e ↦
            let p' = rw e at p in
            rw (lifetime_final r rs n e h) (omega (arith, dones-append es [], pushes-append es []))
      ]

  -- With a wait group, a notification that gets more answers than it has attempts left releases
  -- the wait group exactly once.
  pub lifetime_releases :
      (rs : List ApnsResponse) (n : N)
      → a.pending_messages_wg ≡ true
      → a.max_retry_attempts - n.send_attempts < length rs
      → dones (lifetime rs n) ≡ 1
  lifetime_releases [] n h enough = absurd (omega arith)
  lifetime_releases (r ∷ rs) n h enough =
      let es = handle_apns_response lib a elapsed (response r n) in
      let (p, once) = counted r n h in
      elim (Bool-cases (is_retried lib a elapsed (response r n))) [
        | inl e ↦
            let p' = rw e at p in
            let left = is_retried-lt r n e in
            rw (lifetime_retried r rs n e h) (
              omega (
                arith,
                dones-append es (lifetime rs (sent_once n)),
                lifetime_releases rs (sent_once n) h (omega arith),
              ))
        | inr e ↦
            let p' = rw e at p in rw (lifetime_final r rs n e h) (omega (arith, dones-append es []))
      ]
