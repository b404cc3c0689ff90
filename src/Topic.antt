-- ===== src/Topic.antt =====
-- extensions/common.go: the game and the platform that a Kafka topic names, and the topic names
-- that the program builds (pusher/apns.go, pusher/gcm.go, extensions/kafka_producer.go).
pub mod Parse
pub mod Language
use pusher.Base.{
  ℕ, Bool, true, false, ◌&&◌, ◌||◌, List, [], ◌∷◌, ◌++◌, Option, none, some, Text, codes, leb, ◌==◌,
  if◌then◌else◌, map_option, or_else, is_some, strip_prefix,
}

pub record ParsedTopic : Type 0 where
  pub platform : Text
  pub game : Text

-- `\w`
unfoldable pub is_word : ℕ → Bool
is_word c =
    (leb b'a' c && leb c b'z')
    || (leb b'A' c && leb c b'Z')
    || (leb b'0' c && leb c b'9')
    || c == b'_'

-- `[-_]`
unfoldable pub is_separator : ℕ → Bool
is_separator c = c == b'-' || c == b'_'

-- `(gcm|apns|ios)` at the front of a text.
unfoldable pub platform_at : Text → Option Text
platform_at t =
    if is_some (strip_prefix (codes "gcm") t)
    then some (codes "gcm")
    else if is_some (strip_prefix (codes "apns") t)
    then some (codes "apns")
    else if is_some (strip_prefix (codes "ios") t)
    then some (codes "ios")
    else none

abbrev pub end_here : Text → Text × Text
end_here platform = ([], platform)

abbrev pub extend : ℕ → Text × Text → Text × Text
extend c (game, platform) = (c ∷ game, platform)

-- The group goes on with the byte: a word byte, or a dash between two words. (`_` is a word byte.)
unfoldable pub goes_on : Bool → ℕ → Bool
unfolding is_word
goes_on after_word c = is_word c || (after_word && c == b'-')

unfoldable pub ends_before : Bool → ℕ → Bool
unfolding is_separator
ends_before after_word c = after_word && is_separator c

-- The matcher of `([\w]+(?:[_-][\w]+)*)[-_](gcm|apns|ios)` with the preference of Go's engine: the
-- group takes as much as it can. `after_word` tells if the group may end here.
unfoldable pub scan : Bool → Text → Option (Text × Text)
unfolding platform_at is_word goes_on ends_before
scan after_word [] = none
scan after_word (c ∷ rest) =
    let longer = scan (is_word c) rest in
    or_else (if goes_on after_word c then map_option (extend c) longer else none)
      (if ends_before after_word c then map_option end_here (platform_at rest) else none)

abbrev pub to_parsed : Text × Text → ParsedTopic
to_parsed (game, platform) = record { platform = platform; game = game }

abbrev pub parse_rest : Option Text → Option ParsedTopic
parse_rest none = none
parse_rest (some rest) = map_option to_parsed (scan false rest)

-- `none` is the panic of `res[2]` where the expression does not match.
unfoldable pub get_game_and_platform_from_topic : Text → Option ParsedTopic
get_game_and_platform_from_topic topic = parse_rest (strip_prefix (codes "push-") topic)

-- The topic that `KafkaProducer.SendFeedback` writes to.
unfoldable pub feedback_topic : Text → Text → Text
feedback_topic game platform =
    codes "push-" ++ (game ++ (codes "-" ++ (platform ++ codes "-feedbacks")))

-- The topics that the pushers subscribe to, for an app and a platform.
unfoldable pub single_topic : Text → Text → Text
single_topic app platform = codes "push-" ++ (app ++ (codes "_" ++ (platform ++ codes "-single")))

unfoldable pub massive_topic : Text → Text → Text
massive_topic app platform = codes "push-" ++ (app ++ (codes "_" ++ (platform ++ codes "-massive")))
