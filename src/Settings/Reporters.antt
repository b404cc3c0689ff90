-- ===== src/Settings/Reporters.antt =====
-- The reporters from the configuration: NewStatsD of extensions/datadog_statsd.go and the two
-- configureStatsReporters, of pusher/reporters.go and feedback/common.go.
use pusher.Base.{Bool, true, false, List, [], ◌∷◌, ◌++◌, Text, codes, ◌≟◌, if◌then◌else◌}
use pusher.Value.Decode.{ℤ, pos}
use pusher.Settings.{
  Setting, text, number, Viper, get_string, get_int, get_string_slice, set_defaults, Made, made,
  failed, panics,
}

-- What `statsd.NewBuffered` is given, and the namespace of its client.
pub record StatsdSettings : Type 0 where
  pub host : Text
  pub prefix : Text
  pub buflen : ℤ

abbrev pub statsd_defaults : List (Text × Setting)
statsd_defaults =
    (codes "stats.statsd.host", text (codes "localhost:8125"))
    ∷ (codes "stats.statsd.prefix", text (codes "test"))
    ∷ (codes "stats.statsd.buflen", number (pos 1))
    ∷ []

-- `NewBuffered` gives a client or nil, and an error or none; a namespace is written to the client before
-- the error is looked at.
abbrev pub buffered : Bool × Bool → StatsdSettings → Made StatsdSettings
buffered (false, err) s = panics
buffered (true, true) s = failed
buffered (true, false) s = made s

-- How configureStatsReporters ends.
pub data ReportersEnd : Type 0 where
  initialized : List StatsdSettings → ReportersEnd
  refused client_panics : ReportersEnd

module _ {V : Type 0} (vp : Viper V) (new_buffered : Text → ℤ → Bool × Bool)
    (client_given : Bool) where
  abbrev pub statsd_from : V → StatsdSettings
  statsd_from v = record {
    host = get_string vp (codes "stats.statsd.host") v;
    prefix = get_string vp (codes "stats.statsd.prefix") v;
    buflen = get_int vp (codes "stats.statsd.buflen") v;
  }

  -- NewStatsD
  unfoldable pub new_statsd : V → Made StatsdSettings × V
  unfolding set_defaults
  new_statsd v =
      let v' = set_defaults vp statsd_defaults v in
      let s = statsd_from v' in
      ((if client_given then made s else buffered (new_buffered s.host s.buflen) s), v')

  -- The loop over the names, with the reporters so far; only "statsd" has an initializer.
  abbrev append_statsd :
      List StatsdSettings
      → Made StatsdSettings × V
      → (List StatsdSettings → V → ReportersEnd × V)
      → ReportersEnd × V
  append_statsd rs (made s, v) next = next (rs ++ s ∷ []) v
  append_statsd rs (failed, v) next = (refused, v)
  append_statsd rs (panics, v) next = (client_panics, v)

  unfoldable pub reporters_from : List Text → List StatsdSettings → V → ReportersEnd × V
  unfolding new_statsd
  reporters_from [] rs v = (initialized rs, v)
  reporters_from (name ∷ names) rs v =
      let rest = append_statsd rs (new_statsd v) (λ rs' v'. reporters_from names rs' v') in
      if name ≟ codes "statsd" then rest else (refused, v)

  unfoldable pub configured_reporters : V → ReportersEnd × V
  unfolding reporters_from
  configured_reporters v = reporters_from (get_string_slice vp (codes "stats.reporters") v) [] v
