-- ===== src/Tests/Topics.antt =====
-- Topics.
use pusher.Base.{false, ◌++◌, none, some, ◌≡◌, ◌↔◌, inl, inr, refl, Text, codes, length, ◌≤◌}
use pusher.Topic.{
  ParsedTopic, get_game_and_platform_from_topic, feedback_topic, single_topic, massive_topic,
}
use pusher.Topic.Parse.{parse-feedback_topic, parse-push_topic}
use pusher.Topic.Language.{IsSplit, parse-IsSplit, parse-none_iff}

parse-feedback_topic_example :
    get_game_and_platform_from_topic (feedback_topic (codes "my_game-2") (codes "gcm"))
    ≡ some (record { platform = codes "gcm"; game = codes "my_game-2" })
unfolding pusher.Topic.goes_on
parse-feedback_topic_example =
    parse-feedback_topic (codes "my_game-2") (codes "gcm") refl (inl refl)

parse-push_topic_example :
    (get_game_and_platform_from_topic (single_topic (codes "game") (codes "ios"))
      ≡ some (record { platform = codes "ios"; game = codes "game" }))
    × (get_game_and_platform_from_topic (massive_topic (codes "game") (codes "ios"))
        ≡ some (record { platform = codes "ios"; game = codes "game" }))
unfolding pusher.Topic.goes_on
parse-push_topic_example = parse-push_topic (codes "game") (codes "ios") refl (inr (inr refl))

-- A game whose name holds a platform: the longest reading counts.
abbrev double_topic : Text
double_topic = codes "push-a_gcm_apns-single"

abbrev double_parsed : ParsedTopic
double_parsed = record { platform = codes "apns"; game = codes "a_gcm" }

double : get_game_and_platform_from_topic double_topic ≡ some double_parsed
unfolding get_game_and_platform_from_topic pusher.Topic.scan
double = refl

parse-IsSplit_example :
    (u : Text) × (double_topic ≡ codes "push-" ++ u)
    × IsSplit false u (codes "a_gcm") (codes "apns")
    × ((g p : Text) → IsSplit false u g p → length g ≤ length (codes "a_gcm"))
parse-IsSplit_example = parse-IsSplit double_topic double_parsed double

parse-none_iff_example :
    (get_game_and_platform_from_topic (codes "push-game") ≡ none)
    ↔ ((u g p : Text) → codes "push-game" ≡ codes "push-" ++ u → ¬ IsSplit false u g p)
parse-none_iff_example = parse-none_iff (codes "push-game")
