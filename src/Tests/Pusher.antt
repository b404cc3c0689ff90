-- ===== src/Tests/Pusher.antt =====
-- The pusher.
use pusher.Base.{
  ℕ, ◌+◌, List, [], ◌∷◌, Option, none, some, ◌≡◌, refl, Text, codes, length, if◌then◌else◌, ◌≟◌,
}
use pusher.Effects.{dones, pushes}
use pusher.Apns.{KafkaMessage, ApnsNotification}
use pusher.Apns.Messages.{handle_messages}
use pusher.Pusher.{Handlers, Handle, configured, create_handlers, route_messages}
use pusher.Pusher.Routing.{unrouted, route_messages-settles, apns-Settles}
use pusher.Tests.Data.{services, apns_handler, env, apns_message}

abbrev apps : List Text
apps = codes "mygame" ∷ codes "other" ∷ []

abbrev handlers : Handlers (Handle ApnsNotification (List Text))
handlers = (codes "mygame", handle_messages services apns_handler env) ∷ []

abbrev stranger : KafkaMessage
stranger = record apns_message { game = codes "unknown" }

route_messages-settles_example :
    let es = (route_messages handlers (apns_message ∷ stranger ∷ apns_message ∷ []) []).0 in
    dones es + pushes es + unrouted handlers (apns_message ∷ stranger ∷ apns_message ∷ []) ≡ 3
route_messages-settles_example =
    route_messages-settles handlers (apns_message ∷ stranger ∷ apns_message ∷ []) []
      (apns-Settles services apns_handler env refl, tt)

abbrev new_handler : Text → Option ℕ
new_handler app = some (length app)

abbrev made : Handlers ℕ
made = (codes "other", 5) ∷ (codes "mygame", 6) ∷ []

are_made : create_handlers (0 ∷ []) new_handler apps [] ≡ configured made
unfolding create_handlers
are_made = refl

abbrev available : Text → Option (Option ℕ)
available name = if name ≟ codes "statsd" then some (some 1) else none
