-- ===== src/Feedback/Groups.antt =====
-- The groups of splitTokens.
use pusher.Base.{
  ◌<◌, Bool, true, false, ◌&&◌, List, [], ◌∷◌, ◌++◌, some, ◌≡◌, inl, inr, refl, sym, ◌∙◌, ap, Text,
  ◌≟◌, ≟_iff, All, Bool-cases, length, length-append, if◌then◌else◌, arith,
}
use mathlib.Core.List.{append_assoc, append-nil}
use pusher.Feedback.{InvalidToken, apns_platform, gcm_platform}
use pusher.Feedback.Routing.{IsKnown}
use pusher.Feedback.Tokens.{Games, Groups, add_to_game, add_token, add_tokens, split_tokens}

-- The tokens of a game.
abbrev pub tokens_for : Text → Games → List Text
tokens_for game [] = []
tokens_for game ((g, ts) ∷ m) = if g ≟ game then ts else tokens_for game m

abbrev pub games_of : Text → Groups → Games
games_of platform m = if platform ≟ apns_platform then m.apns else m.gcm

-- The tokens of a list that are for a platform and a game, in order.
abbrev pub matching : Text → Text → List InvalidToken → List Text
matching platform game [] = []
matching platform game (t ∷ ts) =
    let rest = matching platform game ts in
    if t.platform ≟ platform && t.game ≟ game then t.token ∷ rest else rest

tokens_for-add_to_game :
    (game g token : Text) (m : Games)
    → tokens_for g (add_to_game game token m)
      ≡ (if game ≟ g then tokens_for g m ++ token ∷ [] else tokens_for g m)
unfolding add_to_game
tokens_for-add_to_game game g token [] = ground arith
tokens_for-add_to_game game g token ((h, ts) ∷ m) =
    ground (arith, ≟_iff h game, ≟_iff h g, ≟_iff game g, tokens_for-add_to_game game g token m)

-- Every game in the map has a token.
abbrev pub IsFilled : Games → Type 0
IsFilled [] = Unit
IsFilled ((g, ts) ∷ m) = (0 < length ts) × IsFilled m

add_to_game-IsFilled :
    (game token : Text) (m : Games) → IsFilled m → IsFilled (add_to_game game token m)
unfolding add_to_game
add_to_game-IsFilled game token [] h = omega arith
add_to_game-IsFilled game token ((g, ts) ∷ m) h = elim (Bool-cases (g ≟ game)) [
  | inl e ↦ rw e (omega (arith, length-append ts (token ∷ [])), h.1)
  | inr e ↦ rw e (h.0, add_to_game-IsFilled game token m h.1)
]

append_if :
    (b : Bool) (xs : List Text) (x : Text)
    → (if b then xs ++ x ∷ [] else xs) ≡ xs ++ (if b then x ∷ [] else [])
append_if true xs x = refl
append_if false xs x = sym (append-nil xs)

abbrev one : Text → Text → InvalidToken → List Text
one platform game t = if t.platform ≟ platform && t.game ≟ game then t.token ∷ [] else []

-- What adding one token of a known platform does.
record Added (t : InvalidToken) (m m' : Groups) : Type 0 where
  equation : add_token t m ≡ some m'
  apns_tokens : (g : Text) → tokens_for g m'.apns ≡ tokens_for g m.apns ++ one apns_platform g t
  gcm_tokens : (g : Text) → tokens_for g m'.gcm ≡ tokens_for g m.gcm ++ one gcm_platform g t
  filled : IsFilled m.apns → IsFilled m.gcm → IsFilled m'.apns × IsFilled m'.gcm

added : (t : InvalidToken) (m : Groups) → IsKnown t → (m' : Groups) × Added t m m'
unfolding add_token
added t m (inl e) = (
  record m { apns = add_to_game t.game t.token m.apns },
  record {
    equation = rw e;
    apns_tokens = λ g.
        tokens_for-add_to_game t.game g t.token m.apns ∙ rw e (append_if (t.game ≟ g) _ t.token);
    gcm_tokens = λ g. rw e (sym (append-nil _));
    filled = λ a b. (add_to_game-IsFilled t.game t.token m.apns a, b);
  },
)
added t m (inr e) = (
  record m { gcm = add_to_game t.game t.token m.gcm },
  record {
    equation = rw e;
    apns_tokens = λ g. rw e (sym (append-nil _));
    gcm_tokens = λ g.
        tokens_for-add_to_game t.game g t.token m.gcm ∙ rw e (append_if (t.game ≟ g) _ t.token);
    filled = λ a b. (a, add_to_game-IsFilled t.game t.token m.gcm b);
  },
)

matching-cons :
    (platform game : Text) (t : InvalidToken) (ts : List InvalidToken)
    → matching platform game (t ∷ ts) ≡ one platform game t ++ matching platform game ts
matching-cons platform game t ts = elim (Bool-cases (t.platform ≟ platform && t.game ≟ game)) [
  | inl e ↦ rw e
  | inr e ↦ rw e
]

-- What splitting a list of tokens does to the groups so far.
pub record Split (ts : List InvalidToken) (m m' : Groups) : Type 0 where
  pub equation : add_tokens ts m ≡ some m'
  pub apns_tokens :
      (g : Text) → tokens_for g m'.apns ≡ tokens_for g m.apns ++ matching apns_platform g ts
  pub gcm_tokens :
      (g : Text) → tokens_for g m'.gcm ≡ tokens_for g m.gcm ++ matching gcm_platform g ts
  pub filled : IsFilled m.apns → IsFilled m.gcm → IsFilled m'.apns × IsFilled m'.gcm

add_tokens-Split :
    (ts : List InvalidToken) (m : Groups) → All IsKnown ts → (m' : Groups) × Split ts m m'
unfolding add_tokens
add_tokens-Split [] m h = (
  m,
  record {
    equation = refl;
    apns_tokens = λ g. sym (append-nil _);
    gcm_tokens = λ g. sym (append-nil _);
    filled = λ a b. (a, b);
  },
)
add_tokens-Split (t ∷ ts) m h =
    let (m₁, first) = added t m h.0 in
    let (m₂, rest) = add_tokens-Split ts m₁ h.1 in
    (
      m₂,
      record {
        equation = rw first.equation rest.equation;
        apns_tokens = λ g.
            rest.apns_tokens g
            ∙ ap (λ x. x ++ matching apns_platform g ts) (first.apns_tokens g)
            ∙ append_assoc (tokens_for g m.apns) (one apns_platform g t)
                (matching apns_platform g ts)
            ∙ ap (λ x. tokens_for g m.apns ++ x) (sym (matching-cons apns_platform g t ts));
        gcm_tokens = λ g.
            rest.gcm_tokens g
            ∙ ap (λ x. x ++ matching gcm_platform g ts) (first.gcm_tokens g)
            ∙ append_assoc (tokens_for g m.gcm) (one gcm_platform g t) (matching gcm_platform g ts)
            ∙ ap (λ x. tokens_for g m.gcm ++ x) (sym (matching-cons gcm_platform g t ts));
        filled = λ a b. let (a', b') = first.filled a b in rest.filled a' b';
      },
    )

-- Tokens of the two known platforms are split without a panic: under each platform and game stand
-- exactly the tokens for these, in the order of the buffer, and no group is empty.
pub split_tokens_lem :
    (ts : List InvalidToken)
    → All IsKnown ts
    → (m : Groups) × (split_tokens ts ≡ some m)
      × ((g : Text) → tokens_for g m.apns ≡ matching apns_platform g ts)
      × ((g : Text) → tokens_for g m.gcm ≡ matching gcm_platform g ts)
      × (IsFilled m.apns × IsFilled m.gcm)
unfolding split_tokens
split_tokens_lem ts h =
    let (m, s) = add_tokens-Split ts (record { apns = []; gcm = [] }) h in
    (m, s.equation, s.apns_tokens, s.gcm_tokens, s.filled tt tt)
