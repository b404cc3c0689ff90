-- ===== src/Pusher.antt =====
-- pusher/pusher.go, pusher/apns.go and pusher/gcm.go: the topics that a pusher consumes, its message
-- handlers, and the routing of messages to them.
pub mod Apps
pub mod Routing
pub mod Topics
use pusher.Base.{
  ℕ, Bool, true, false, ◌||◌, List, [], ◌∷◌, ◌++◌, Option, none, some, Text, codes, ◌≟◌,
  if◌then◌else◌,
}
use pusher.Topic.{single_topic, massive_topic}
use pusher.Effects.{Effect, Report, report, initialize_failure}
use pusher.Apns.{KafkaMessage}

-- `slices.Contains(topics, topic)`
unfoldable pub contains : Text → List Text → Bool
contains topic [] = false
contains topic (t ∷ ts) = t ≟ topic || contains topic ts

unfoldable pub add_topic : Text → List Text → List Text
unfolding contains
add_topic topic topics = if contains topic topics then topics else topics ++ topic ∷ []

-- The two topics of an app for a platform.
unfoldable pub add_app : Text → Text → List Text → List Text
unfolding add_topic
add_app platform app topics =
    add_topic (massive_topic app platform) (add_topic (single_topic app platform) topics)

-- The loop over the apps in `configure` of the APNSPusher, from the topics of the consumer on.
unfoldable pub apns_topics : List Text → List Text → List Text
unfolding add_app
apns_topics [] topics = topics
apns_topics (app ∷ apps) topics = apns_topics apps (add_app (codes "apns") app topics)

-- The same in NewGCMPusher, with the two platforms of Firebase.
unfoldable pub gcm_topics : List Text → List Text → List Text
unfolding add_app
gcm_topics [] topics = topics
gcm_topics (app ∷ apps) topics =
    gcm_topics apps (add_app (codes "ios") app (add_app (codes "gcm") app topics))

-- `map[string]interfaces.MessageHandler`: the last entry that was put for a key counts.
abbrev pub Handlers : Type 0 → Type 0
Handlers H = List (Text × H)

unfoldable pub handler_of : {H : Type 0} → Text → Handlers H → Option H
handler_of game [] = none
handler_of game ((app, h) ∷ m) = if app ≟ game then some h else handler_of game m

-- How the construction of the handlers ends: with the app whose handler failed and what is reported
-- of it, without any app, or with the handlers.
pub data Configured (H : Type 0) : Type 0 where
  failed_app : Text → List Report → Configured H
  no_app : Configured H
  configured : Handlers H → Configured H

module _ {H : Type 0} (stats_reporters : List ℕ) (new_handler : Text → Option H) where
  abbrev next_app : Text → Option H → (H → Configured H) → Configured H
  next_app app none k =
      failed_app app (report stats_reporters (initialize_failure app (codes "apns")))
  next_app app (some h) k = k h

  -- `len(a.MessageHandler) == 0` of the APNSPusher.
  abbrev not_empty : Handlers H → Configured H
  not_empty [] = no_app
  not_empty (h ∷ m) = configured (h ∷ m)

  unfoldable pub create_handlers : List Text → Handlers H → Configured H
  create_handlers [] m = not_empty m
  create_handlers (app ∷ apps) m =
      next_app app (new_handler app) (λ h. create_handlers apps ((app, h) ∷ m))

-- HandleMessages of interfaces.MessageHandler, over the state of the services it calls.
abbrev pub Handle : Type 0 → Type 0 → Type 0
Handle P S = KafkaMessage → S → List (Effect P) × S

module _ {P S : Type 0} (handlers : Handlers (Handle P S)) where
  abbrev pub call_handler : Option (Handle P S) → Handle P S
  call_handler none message s = ([], s)
  call_handler (some h) message s = h message s

  -- One round of routeMessages: a game without a handler is logged and no more.
  unfoldable pub route_message : Handle P S
  route_message message s = call_handler (handler_of message.game handlers) message s

  -- The messages of the channel in turn.
  unfoldable pub route_messages : List KafkaMessage → S → List (Effect P) × S
  route_messages [] s = ([], s)
  route_messages (message ∷ rest) s =
      let (es, s') = route_message message s in
      let (more, s'') = route_messages rest s' in (es ++ more, s'')
