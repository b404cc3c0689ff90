-- ===== src/Config/Laws.antt =====
-- What is read of the configuration.
use pusher.Base.{List, [], ◌∷◌, ◌++◌, Option, some, ◌≡◌, sym, ◌∙◌, ap, Text, codes}
use mathlib.Core.List.{append_assoc, append-nil}
use pusher.Config.{reporters, configure_from, configure_stats_reporters}

-- `strings.Join(parts, ",")`
abbrev pub join_commas : List Text → Text
join_commas [] = []
join_commas (p ∷ []) = p
join_commas (p ∷ q ∷ ps) = p ++ (codes "," ++ join_commas (q ∷ ps))

module _ {R : Type 0} (available : Text → Option (Option R)) where
  -- The names are initialized one by one, each to the reporter at its place.
  abbrev pub Initialized : List Text → List R → Type 0
  Initialized [] [] = Unit
  Initialized [] (r ∷ rs) = ⊥
  Initialized (name ∷ names) [] = ⊥
  Initialized (name ∷ names) (r ∷ rs) = (available name ≡ some (some r)) × Initialized names rs

  all_reporters :
      (names : List Text) (before rs : List R)
      → Initialized names rs
      → configure_from available before names ≡ reporters (before ++ rs)
  unfolding configure_from
  all_reporters [] before [] h = ap reporters (sym (append-nil before))
  all_reporters (name ∷ names) before (r ∷ rs) h = rw (h.0) (
      all_reporters names (before ++ r ∷ []) rs h.1
      ∙ ap reporters (append_assoc before (r ∷ []) rs))
  all_reporters [] before (r ∷ rs) h = absurd h
  all_reporters (name ∷ names) before [] h = absurd h

  -- Where every name has an initializer that works, the reporters are theirs, in the order of the
  -- names, and none is left out.
  configure_stats_reporters-Initialized :
      (names : List Text) (rs : List R)
      → Initialized names rs
      → configure_stats_reporters available names ≡ reporters rs
  unfolding configure_stats_reporters
  configure_stats_reporters-Initialized names rs h = all_reporters names [] rs h
