-- ===== src/Pusher/Apps.antt =====
-- The handlers that a pusher is configured with.
use pusher.Base.{
  ℕ, ◌||◌, List, [], ◌∷◌, Option, ◌≡◌, inl, inr, refl, Text, ◌≟◌, Option-cases, Bool-cases, arith,
  is_some,
}
use pusher.Pusher.{contains, Handlers, handler_of, configured, create_handlers}

pub handler_of-cons :
    {H : Type 0} (game app : Text) (h : H) (m : Handlers H)
    → is_some (handler_of game ((app, h) ∷ m)) ≡ (app ≟ game || is_some (handler_of game m))
unfolding handler_of
handler_of-cons game app h m = elim (Bool-cases (app ≟ game)) [
  | inl e ↦ rw e refl
  | inr e ↦ rw e refl
]

module _ {H : Type 0} (stats_reporters : List ℕ) (new_handler : Text → Option H) where
  -- A pusher that could be configured has a handler for every game among its apps, and for no other
  -- but those it had before.
  create_handlers-handler_of :
      (game : Text) (apps : List Text) (before : Handlers H) {m : Handlers H}
      → create_handlers stats_reporters new_handler apps before ≡ configured m
      → is_some (handler_of game m) ≡ (is_some (handler_of game before) || contains game apps)
  unfolding create_handlers contains
  create_handlers-handler_of game [] [] e = cc
  create_handlers-handler_of game [] (h ∷ before) {m} e =
      let same : (h ∷ before) ≡ m = cc e in rw (← same) (ground arith)
  create_handlers-handler_of game (app ∷ apps) before e = elim (Option-cases (new_handler app)) [
    | inl n ↦ cc (rw n at e)
    | inr (h, s) ↦
        let ih = create_handlers-handler_of game apps ((app, h) ∷ before) (rw s at e) in
        ground (arith, ih, handler_of-cons game app h before)
  ]
