-- ===== src/Config.antt =====
-- config/config.go, util/config.go and the construction of reporters in pusher/reporters.go: what is
-- read of the configuration.
pub mod Laws
use pusher.Base.{
  ℕ, Bool, true, false, ◌&&◌, ◌||◌, List, [], ◌∷◌, ◌++◌, Option, none, some, Text, codes, ◌≟◌, ◌==◌,
  leb, if◌then◌else◌, map,
}
use pusher.Value.Decode.{lower}

-- `strings.Split(s, ",")`: one part more than there are commas.
abbrev on_first : ℕ → List Text → List Text
on_first c [] = (c ∷ []) ∷ []
on_first c (p ∷ ps) = (c ∷ p) ∷ ps

unfoldable pub split : Text → List Text
split [] = [] ∷ []
split (c ∷ t) = let rest = split t in if c == b',' then [] ∷ rest else on_first c rest

-- The ASCII characters that `strings.TrimSpace` takes off.
abbrev pub is_space : ℕ → Bool
is_space c = (leb 9 c && leb c 13) || c == 32

unfoldable pub trim_left : Text → Text
trim_left [] = []
trim_left (c ∷ t) = let rest = trim_left t in if is_space c then rest else c ∷ t

abbrev trim_cons : ℕ → Text → Text
trim_cons c [] = if is_space c then [] else c ∷ []
trim_cons c (d ∷ t) = c ∷ d ∷ t

unfoldable pub trim_right : Text → Text
trim_right [] = []
trim_right (c ∷ t) = trim_cons c (trim_right t)

abbrev pub trim_space : Text → Text
trim_space t = trim_right (trim_left t)

-- GetGcmAppsArray and GetApnsAppsArray, of the string in the configuration.
unfoldable pub get_gcm_apps_array : Text → List Text
unfolding split
get_gcm_apps_array apps = map trim_space (split apps)

unfoldable pub get_apns_apps_array : Text → List Text
unfolding split
get_apns_apps_array apps = map trim_space (split apps)

pub data Level : Type 0 where
  debug_level info_level warn_level error_level fatal_level panic_level : Level

-- ParseLogLevel; `strings.ToLower` of ASCII.
unfoldable pub parse_log_level : Text → Level
unfolding lower
parse_log_level level =
    let l = map lower level in
    if l ≟ codes "debug"
    then debug_level
    else if l ≟ codes "info"
    then info_level
    else if l ≟ codes "warn" || l ≟ codes "warning"
    then warn_level
    else if l ≟ codes "error"
    then error_level
    else if l ≟ codes "fatal"
    then fatal_level
    else if l ≟ codes "panic"
    then panic_level
    else info_level

-- How configureStatsReporters and configureFeedbackReporters end, with the name in the error.
pub data Reporters (R : Type 0) : Type 0 where
  not_available failed_to_initialize : Text → Reporters R
  reporters : List R → Reporters R

-- `available` is the map of initializers: `none` for a name that is not there, and an inner `none`
-- for an initializer that fails.
module _ {R : Type 0} (available : Text → Option (Option R)) where
  abbrev append_reporter : Text → Option (Option R) → (R → Reporters R) → Reporters R
  append_reporter name none k = not_available name
  append_reporter name (some none) k = failed_to_initialize name
  append_reporter name (some (some r)) k = k r

  -- The loop, with the reporters so far.
  unfoldable pub configure_from : List R → List Text → Reporters R
  configure_from rs [] = reporters rs
  configure_from rs (name ∷ names) =
      append_reporter name (available name) (λ r. configure_from (rs ++ r ∷ []) names)

  unfoldable pub configure_stats_reporters : List Text → Reporters R
  configure_stats_reporters names = configure_from [] names

  unfoldable pub configure_feedback_reporters : List Text → Reporters R
  configure_feedback_reporters names = configure_from [] names
