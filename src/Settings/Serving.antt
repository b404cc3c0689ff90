-- ===== src/Settings/Serving.antt =====
-- What a pusher that was made from the configuration consumes, and what it has handlers for.
use pusher.Base.{ℕ, Bool, ◌||◌, List, [], ◌∷◌, ◌≡◌, Text, codes, is_some, subst, arith}
use pusher.Value.Decode.{ℤ}
use pusher.Config.{get_gcm_apps_array, get_apns_apps_array}
use pusher.Pusher.{contains, Handlers, handler_of, apns_topics, gcm_topics}
use pusher.Pusher.Apps.{handler_of-cons}
use pusher.Pusher.Topics.{any_app, is_app_topic, contains-apns_topics, contains-gcm_topics}
use pusher.Settings.{Viper, Element}
use pusher.Settings.Kafka.{ProducerConfig, ConsumerConfig}
use pusher.Settings.Pushers.{
  Built, built, rejected, panicked, exited, then_with, places, PusherSettings, ApnsApp, FirebaseApp,
  configured_pusher, handlers_for, some_app, new_apns_pusher, new_gcm_pusher,
}

-- What is made has the property; an error, a panic or an end of the process is excused.
abbrev IfBuilt : {A V : Type 0} → (A → Type 0) → Built A × V → Type 0
IfBuilt P (built a, v) = P a
IfBuilt P (rejected reports, v) = Unit
IfBuilt P (panicked, v) = Unit
IfBuilt P (exited, v) = Unit

IfBuilt-then_with :
    {A B V : Type 0} {P : A → Type 0} (Q : B → Type 0) (first : Built A × V)
    (rest : A → V → Built B × V)
    → IfBuilt P first
    → ((a : A) (v : V) → P a → IfBuilt Q (rest a v))
    → IfBuilt Q (then_with first rest)
unfolding then_with
IfBuilt-then_with Q (built a, v) rest p f = f a v p
IfBuilt-then_with Q (rejected reports, v) rest p f = tt
IfBuilt-then_with Q (panicked, v) rest p f = tt
IfBuilt-then_with Q (exited, v) rest p f = tt

IfBuilt-mono :
    {A V : Type 0} {P Q : A → Type 0} (x : Built A × V)
    → ((a : A) → P a → Q a)
    → IfBuilt P x
    → IfBuilt Q x
IfBuilt-mono (built a, v) f p = f a p
IfBuilt-mono (rejected reports, v) f p = tt
IfBuilt-mono (panicked, v) f p = tt
IfBuilt-mono (exited, v) f p = tt

-- Where nothing is asked of the first part.
IfBuilt-after :
    {A B V : Type 0} (Q : B → Type 0) (first : Built A × V) (rest : A → V → Built B × V)
    → ((a : A) (v : V) → IfBuilt Q (rest a v))
    → IfBuilt Q (then_with first rest)
unfolding then_with
IfBuilt-after Q (built a, v) rest f = f a v
IfBuilt-after Q (rejected reports, v) rest f = tt
IfBuilt-after Q (panicked, v) rest f = tt
IfBuilt-after Q (exited, v) rest f = tt

-- The handlers are those that were there and one for each app.
abbrev HandlerFor : {H : Type 0} → List Text → Handlers H → Handlers H → Type 0
HandlerFor apps before m =
    (game : Text)
    → is_some (handler_of game m) ≡ (is_some (handler_of game before) || contains game apps)

handlers_for-HandlerFor :
    {H V : Type 0} (new_app : Text → V → Built H × V) (apps : List Text) (before : Handlers H)
    (v : V)
    → IfBuilt (HandlerFor apps before) (handlers_for new_app apps before v)
unfolding handlers_for contains
handlers_for-HandlerFor new_app [] before v = λ game. ground arith
handlers_for-HandlerFor new_app (app ∷ apps) before v =
    IfBuilt-after (HandlerFor (app ∷ apps) before) (new_app app v) _ (λ h v'.
      IfBuilt-mono (handlers_for new_app apps ((app, h) ∷ before) v')
        (λ m all game. ground (arith, all game, handler_of-cons game app h before))
        (handlers_for-HandlerFor new_app apps ((app, h) ∷ before) v'))

some_app-HandlerFor :
    {H V : Type 0} (apps : List Text) (m : Handlers H) (v : V)
    → HandlerFor apps [] m
    → IfBuilt (HandlerFor apps []) (some_app m v)
some_app-HandlerFor apps [] v h = tt
some_app-HandlerFor apps (x ∷ m) v h = h

-- The handlers are those of the apps, and the topics those of the consumer and of the apps.
pub record Serves {H : Type 0} (apps : List Text) (of_app : Text → Text → Bool)
    (p : PusherSettings H) : Type 0 where
  pub handles : (game : Text) → is_some (handler_of game p.message_handler) ≡ contains game apps
  pub consumes :
      (t : Text)
      → contains t p.topics ≡ (contains t p.queue.topics || any_app (λ app. of_app app t) apps)

module _ {V : Type 0} (vp : Viper V) (room : Element → ℕ → Bool)
    (new_buffered : Text → ℤ → Bool × Bool) (statsd_given : Bool)
    (new_producer : ProducerConfig → Bool) (new_consumer : ConsumerConfig → Bool)
    (decode_games : Text → List (Text × ℤ)) (key_loads firebase_starts : Text → Bool) where
  abbrev made_by :
      {H : Type 0}
      → (List Text → List Text)
      → (List ℕ → V → Built (Handlers H) × V)
      → V
      → Built (PusherSettings H) × V
  made_by add_topics create_handlers v =
      configured_pusher vp room new_buffered statsd_given new_producer new_consumer decode_games
        key_loads firebase_starts add_topics create_handlers v

  configured_pusher-Serves :
      {H : Type 0} (apps : List Text) (of_app : Text → Text → Bool)
      (add_topics : List Text → List Text) (create_handlers : List ℕ → V → Built (Handlers H) × V)
      → ((t : Text) (ts : List Text)
          → contains t (add_topics ts) ≡ (contains t ts || any_app (λ app. of_app app t) apps))
      → ((stats : List ℕ) (v : V) → IfBuilt (HandlerFor apps []) (create_handlers stats v))
      → (v : V) → IfBuilt (Serves apps of_app) (made_by add_topics create_handlers v)
  unfolding configured_pusher handler_of
  configured_pusher-Serves apps of_app add_topics create_handlers topics all v =
      let Goal = Serves apps of_app in
      IfBuilt-after Goal _ _ (λ stats v1. IfBuilt-after Goal _ _ (λ feedback v2.
        IfBuilt-after Goal _ _ (λ q v3.
          IfBuilt-then_with Goal _ _ (all (places 0 stats) v3)
            (λ m v4 h. record { handles = λ game. h game; consumes = λ t. topics t q.topics }))))

  -- NewAPNSPusher, where it gives a pusher: this has a handler for exactly the games among its apps, and
  -- consumes exactly the topics that its consumer was configured with and, for each of its apps, the
  -- single and the massive one of APNS.
  pub new_apns_pusher-Serves :
      (queue_given : Bool) (apps : Text) (v : V) {p : PusherSettings ApnsApp} {v' : V}
      → new_apns_pusher vp room new_buffered statsd_given new_producer new_consumer decode_games
          key_loads firebase_starts queue_given apps v
        ≡ (built p, v')
      → Serves (get_apns_apps_array apps) (is_app_topic (codes "apns")) p
  unfolding new_apns_pusher
  new_apns_pusher-Serves queue_given apps v e =
      let names = get_apns_apps_array apps in
      let Goal = Serves names (is_app_topic (codes "apns")) in
      let with_apps =
        configured_pusher-Serves names (is_app_topic (codes "apns")) (apns_topics names) _
          (λ t ts. contains-apns_topics t names ts)
          (λ stats v1.
            IfBuilt-then_with (HandlerFor names []) _ _ (handlers_for-HandlerFor _ names [] v1)
              (λ m v2 h. some_app-HandlerFor names m v2 h))
          v in
      subst (λ x. IfBuilt Goal x) e with_apps

  -- NewGCMPusher, where it gives a pusher: this has a handler for exactly the games among its apps, and
  -- consumes exactly the topics that its consumer was configured with and, for each of its apps, the
  -- single and the massive one of the platforms `gcm` and `ios`.
  pub new_gcm_pusher-Serves :
      (apps : Text) (concurrent_workers : ℤ) (v : V) {p : PusherSettings FirebaseApp} {v' : V}
      → new_gcm_pusher vp room new_buffered statsd_given new_producer new_consumer decode_games
          key_loads firebase_starts apps concurrent_workers v
        ≡ (built p, v')
      → Serves
          (get_gcm_apps_array apps)
          (λ app t. is_app_topic (codes "gcm") app t || is_app_topic (codes "ios") app t)
          p
  unfolding new_gcm_pusher
  new_gcm_pusher-Serves apps concurrent_workers v e =
      let names = get_gcm_apps_array apps in
      let of_app = λ (app : Text) (t : Text).
        is_app_topic (codes "gcm") app t || is_app_topic (codes "ios") app t in
      let with_apps =
        configured_pusher-Serves names of_app (gcm_topics names) _
          (λ t ts. contains-gcm_topics t names ts)
          (λ stats v1. handlers_for-HandlerFor _ names [] v1) v in
      subst (λ x. IfBuilt (Serves names of_app) x) e with_apps
