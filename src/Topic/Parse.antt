-- ===== src/Topic/Parse.antt =====
-- What the topic expression matches, and that it reads back the names the program builds.
use pusher.Base.{
  ℕ, Bool, true, false, ◌&&◌, [], ◌∷◌, ◌++◌, some, ◌≡◌, ◌⊎◌, inl, inr, Text, codes, arith,
}
use pusher.Topic.{
  is_word, goes_on, scan, get_game_and_platform_from_topic, feedback_topic, single_topic,
  massive_topic,
}

-- The language of the expression's first group, read from a place where `after_word` tells if the
-- byte before was a word byte.
abbrev pub is_game : Bool → Text → Bool
is_game after_word [] = after_word
is_game after_word (c ∷ g) = goes_on after_word c && is_game (is_word c) g

-- The group's bytes are read one by one; what follows is left to the scan of the rest.
pub scan-cons :
    (after_word : Bool) (c : ℕ) (rest g p : Text)
    → scan (is_word c) rest ≡ some (g, p)
    → goes_on after_word c ≡ true
    → scan after_word (c ∷ rest) ≡ some (c ∷ g, p)
unfolding scan
scan-cons after_word c rest g p h v = rw (h, v)

pub and_left : (a b : Bool) → (a && b) ≡ true → a ≡ true
and_left a b h = ground arith

pub and_right : (a b : Bool) → (a && b) ≡ true → b ≡ true
and_right a b h = ground arith

scan-append :
    (after_word : Bool) (g suffix p : Text)
    → scan true suffix ≡ some ([], p)
    → is_game after_word g ≡ true
    → scan after_word (g ++ suffix) ≡ some (g, p)
scan-append true [] suffix p h v = h
scan-append false [] suffix p h v = cc
scan-append after_word (c ∷ g) suffix p h v =
    scan-cons after_word c (g ++ suffix) g p
      (scan-append (is_word c) g suffix p h (and_right _ _ v)) (and_left _ _ v)

parse-append :
    (g suffix p : Text)
    → scan true suffix ≡ some ([], p)
    → is_game false g ≡ true
    → get_game_and_platform_from_topic (codes "push-" ++ (g ++ suffix))
      ≡ some (record { platform = p; game = g })
unfolding get_game_and_platform_from_topic
parse-append g suffix p h v = rw (scan-append false g suffix p h v)

abbrev pub IsPlatform : Text → Type 0
IsPlatform p = (p ≡ codes "gcm") ⊎ (p ≡ codes "apns") ⊎ (p ≡ codes "ios")

-- Each end that the program puts behind a game's name starts with the separator that ends the group.
feedback_ends :
    (p : Text) → IsPlatform p → scan true (codes "-" ++ (p ++ codes "-feedbacks")) ≡ some ([], p)
unfolding scan
feedback_ends p (inl e) = rw e
feedback_ends p (inr (inl e)) = rw e
feedback_ends p (inr (inr e)) = rw e

single_ends :
    (p : Text) → IsPlatform p → scan true (codes "_" ++ (p ++ codes "-single")) ≡ some ([], p)
unfolding scan
single_ends p (inl e) = rw e
single_ends p (inr (inl e)) = rw e
single_ends p (inr (inr e)) = rw e

massive_ends :
    (p : Text) → IsPlatform p → scan true (codes "_" ++ (p ++ codes "-massive")) ≡ some ([], p)
unfolding scan
massive_ends p (inl e) = rw e
massive_ends p (inr (inl e)) = rw e
massive_ends p (inr (inr e)) = rw e

-- The topic that feedback is written to names the game and the platform of the feedback, for every
-- game that the expression can match and each of the three platforms.
pub parse-feedback_topic :
    (g p : Text)
    → is_game false g ≡ true
    → IsPlatform p
    → get_game_and_platform_from_topic (feedback_topic g p)
      ≡ some (record { platform = p; game = g })
unfolding feedback_topic
parse-feedback_topic g p v h =
    parse-append g (codes "-" ++ (p ++ codes "-feedbacks")) p (feedback_ends p h) v

-- The topics of pushes of an app for a platform, the single and the massive one, are read back as
-- that game and platform, for every game that the expression can match and each of the three
-- platforms.
pub parse-push_topic :
    (g p : Text)
    → is_game false g ≡ true
    → IsPlatform p
    → (get_game_and_platform_from_topic (single_topic g p)
        ≡ some (record { platform = p; game = g }))
      × (get_game_and_platform_from_topic (massive_topic g p)
          ≡ some (record { platform = p; game = g }))
unfolding single_topic massive_topic
parse-push_topic g p v h = (
  parse-append g (codes "_" ++ (p ++ codes "-single")) p (single_ends p h) v,
  parse-append g (codes "_" ++ (p ++ codes "-massive")) p (massive_ends p h) v,
)
