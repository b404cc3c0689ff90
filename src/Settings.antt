-- ===== src/Settings.antt =====
-- What the parts read of the configuration: viper, with the defaults that each loadConfigurationDefaults
-- sets in it. The configuration is one value that is handed on, since all parts share it.
pub mod Reads
pub mod Queues
pub mod Kafka
pub mod Reporters
pub mod Listening
pub mod Services
pub mod Pushers
pub mod Serving
pub mod Reaching
pub mod Laws
use pusher.Base.{
  ℕ, suc, Bool, true, false, ◌&&◌, ◌||◌, not, List, [], ◌∷◌, ◌++◌, Option, none, some, ◌≡◌, Text,
  codes, ◌≟◌, ◌==◌, if◌then◌else◌, map,
}
use pusher.Value.Decode.{ℤ, pos, negsuc, lower, format_int}

-- A value as SetDefault is given it.
pub data Setting : Type 0 where
  text : Text → Setting
  number : ℤ → Setting
  flag : Bool → Setting
  texts : List Text → Setting

-- viper.Viper: `Get`, `SetDefault`, and the conversions behind GetString, GetInt, GetUint, GetBool,
-- GetDuration (nanoseconds) and GetStringSlice.
pub record Viper (V : Type 0) : Type 0 where
  pub get : Text → V → Option Setting
  pub set_default : Text → Setting → V → V
  pub to_string : Option Setting → Text
  pub to_int : Option Setting → ℤ
  pub to_uint : Option Setting → ℕ
  pub to_bool : Option Setting → Bool
  pub to_duration : Option Setting → ℤ
  pub to_string_slice : Option Setting → List Text

-- The keys name the same setting, or one of them a group that holds the other.
abbrev pub starts_with : Text → Text → Bool
starts_with [] t = true
starts_with (c ∷ p) [] = false
starts_with (c ∷ p) (d ∷ t) = c == d && starts_with p t

unfoldable pub apart : Text → Text → Bool
unfolding lower
apart k j =
    let k' = map lower k ++ codes "." in
    let j' = map lower j ++ codes "." in not (starts_with k' j' || starts_with j' k')

-- The documented order of viper: a default is used where nothing else sets its key; `is_set` tells where
-- a file, the environment or a flag does.
pub record Documented {V : Type 0} (vp : Viper V) (is_set : Text → V → Bool) : Type 0 where
  pub same_is_set :
      (k j : Text) (s : Setting) (v : V) → is_set k (vp.set_default j s v) ≡ is_set k v
  pub explicit_wins :
      (k j : Text) (s : Setting) (v : V)
      → is_set k v ≡ true
      → vp.get k (vp.set_default j s v) ≡ vp.get k v
  pub default_taken :
      (k : Text) (s : Setting) (v : V)
      → is_set k v ≡ false
      → vp.get k (vp.set_default k s v) ≡ some s
  pub others_kept :
      (k j : Text) (s : Setting) (v : V)
      → apart k j ≡ true
      → vp.get k (vp.set_default j s v) ≡ vp.get k v

-- How a constructor ends: with its value, with an error, or with the panic of `make` of a negative size.
pub data Made (A : Type 0) : Type 0 where
  made : A → Made A
  failed panics : Made A

-- The elements of the channels and of the buffer that the constructors make, each with its own size.
pub data Element : Type 0 where
  apns_client apns_notification apns_response pushed_message queued_message : Element
  invalid_token buffered_token lease firebase_response : Element

-- `make(chan T, n)` before the rest: it panics for a negative size and for one that the Go runtime has no
-- room for; `room` is that of the runtime.
abbrev pub make_chan : {A : Type 0} → (Element → ℕ → Bool) → Element → ℤ → Made A → Made A
make_chan room e (pos n) rest = if room e n then rest else panics
make_chan room e (negsuc n) rest = panics

abbrev pub when_ok : {A : Type 0} → Bool → A → Made A
when_ok true a = made a
when_ok false a = failed

-- `fmt.Sprintf("%s:%d", host, port)`.
unfoldable pub address : Text → ℤ → Text
unfolding format_int
address host port = host ++ (codes ":" ++ format_int port)

module _ {V : Type 0} (vp : Viper V) where
  abbrev pub get_string : Text → V → Text
  get_string k v = vp.to_string (vp.get k v)

  abbrev pub get_int : Text → V → ℤ
  get_int k v = vp.to_int (vp.get k v)

  abbrev pub get_uint : Text → V → ℕ
  get_uint k v = vp.to_uint (vp.get k v)

  abbrev pub get_bool : Text → V → Bool
  get_bool k v = vp.to_bool (vp.get k v)

  abbrev pub get_duration : Text → V → ℤ
  get_duration k v = vp.to_duration (vp.get k v)

  abbrev pub get_string_slice : Text → V → List Text
  get_string_slice k v = vp.to_string_slice (vp.get k v)

  unfoldable pub set_defaults : List (Text × Setting) → V → V
  set_defaults [] v = v
  set_defaults ((k, s) ∷ ds) v = set_defaults ds (vp.set_default k s v)
