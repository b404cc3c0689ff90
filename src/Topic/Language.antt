-- ===== src/Topic/Language.antt =====
-- The topic expression as a language, and that the matcher finds its longest reading.
use mathlib.Core.Bool.{false≢true}
use pusher.Base.{
  ℕ, Bool, true, false, ◌&&◌, [], ◌∷◌, ◌++◌, Option, none, some, ◌≡◌, inl, inr, ap, ◌≤◌, ◌↔◌, Text,
  codes, if◌then◌else◌, map_option, is_some, strip_prefix, strip_prefix_sound, ◌∙◌, sym, subst,
  Option-cases, if_some, or_else-some, or_else_total, map_option-some, length, arith,
}
use pusher.Topic.{
  to_parsed, ParsedTopic, is_word, is_separator, goes_on, ends_before, end_here, scan, platform_at,
  extend, get_game_and_platform_from_topic,
}
use pusher.Topic.Parse.{and_left, and_right, is_game, IsPlatform, scan-cons}

-- What the expression matches, said without the matcher: a game, a separator and a platform.
pub record IsSplit (after_word : Bool) (t g p : Text) : Type 0 where
  pub separator : ℕ
  pub rest : Text
  pub whole : t ≡ g ++ (separator ∷ (p ++ rest))
  pub group : is_game after_word g ≡ true
  pub separates : is_separator separator ≡ true
  pub platform : IsPlatform p

is_prefix :
    (q p t : Text)
    → is_some (strip_prefix q t) ≡ true
    → q ≡ p
    → (rest : Text) × (t ≡ p ++ rest) × (p ≡ q)
is_prefix q p t h e = elim (Option-cases (strip_prefix q t)) [
  | inl n ↦ absurd (false≢true (sym (ap is_some n) ∙ h))
  | inr (r, f) ↦ (r, strip_prefix_sound q t r f ∙ ap (λ x. x ++ r) e, sym e)
]

platform_at_sound :
    (t p : Text) → platform_at t ≡ some p → (rest : Text) × (t ≡ p ++ rest) × IsPlatform p
unfolding platform_at
platform_at_sound t p h = elim (if_some (is_some (strip_prefix (codes "gcm") t)) _ _ h) [
  | inl (a, e) ↦ let (r, w, q) = is_prefix _ p t a (cc) in (r, w, inl q)
  | inr (_, h₁) ↦ elim (if_some (is_some (strip_prefix (codes "apns") t)) _ _ h₁) [
    | inl (a, e) ↦ let (r, w, q) = is_prefix _ p t a (cc) in (r, w, inr (inl q))
    | inr (_, h₂) ↦ elim (if_some (is_some (strip_prefix (codes "ios") t)) _ _ h₂) [
      | inl (a, e) ↦ let (r, w, q) = is_prefix _ p t a (cc) in (r, w, inr (inr q))
      | inr (_, h₃) ↦ cc
    ]
  ]
]

IsSplit-cons :
    (after_word : Bool) (c : ℕ) (t : Text) {g p : Text} (r : Text × Text)
    → goes_on after_word c ≡ true
    → IsSplit (is_word c) t r.0 r.1
    → extend c r ≡ (g, p)
    → IsSplit after_word (c ∷ t) g p
IsSplit-cons after_word c t r v i e =
    subst (λ (s : Text × Text). IsSplit after_word (c ∷ t) s.0 s.1) e
      (record {
        separator = i.separator;
        rest = i.rest;
        whole = ap (◌∷◌ c) i.whole;
        group = rw v i.group;
        separates = i.separates;
        platform = i.platform;
      })

IsSplit-here :
    (after_word : Bool) (c : ℕ) (t : Text) {g p : Text} (p' rest : Text)
    → ends_before after_word c ≡ true
    → t ≡ p' ++ rest
    → IsPlatform p'
    → end_here p' ≡ (g, p)
    → IsSplit after_word (c ∷ t) g p
unfolding ends_before
IsSplit-here after_word c t p' rest v w k e =
    subst (λ (s : Text × Text). IsSplit after_word (c ∷ t) s.0 s.1) e
      (record {
        separator = c;
        rest = rest;
        whole = ap (◌∷◌ c) w;
        group = and_left after_word (is_separator c) v;
        separates = and_right after_word (is_separator c) v;
        platform = k;
      })

-- Whatever the matcher finds is a split of the text.
scan_sound :
    (after_word : Bool) (t g p : Text) → scan after_word t ≡ some (g, p) → IsSplit after_word t g p
unfolding scan
scan_sound after_word [] g p h = cc
scan_sound after_word (c ∷ t) g p h =
    let longer = map_option (extend c) (scan (is_word c) t) in
    let here = map_option end_here (platform_at t) in
    elim (or_else-some (if goes_on after_word c then longer else none)
      (if ends_before after_word c then here else none) h) [
        | inl l ↦ elim (if_some (goes_on after_word c) longer none l) [
          | inl (v, m) ↦
              let (r, found, e) = map_option-some (extend c) (scan (is_word c) t) m in
              IsSplit-cons after_word c t r v (scan_sound (is_word c) t r.0 r.1 found) e
          | inr (_, m) ↦ cc
        ]
        | inr (_, l) ↦ elim (if_some (ends_before after_word c) here none l) [
          | inl (v, m) ↦
              let (p', found, e) = map_option-some end_here (platform_at t) m in
              let (rest, w, k) = platform_at_sound t p' found in
              IsSplit-here after_word c t p' rest v w k e
          | inr (_, m) ↦ cc
        ]
      ]

platform_at_complete : (p rest : Text) → IsPlatform p → platform_at (p ++ rest) ≡ some p
unfolding platform_at
platform_at_complete p rest (inl e) = rw e
platform_at_complete p rest (inr (inl e)) = rw e
platform_at_complete p rest (inr (inr e)) = rw e

-- Every split is found, or a longer one.
scan-longest :
    (after_word : Bool) (g p : Text) (c : ℕ) (rest : Text)
    → is_game after_word g ≡ true
    → is_separator c ≡ true
    → IsPlatform p
    → (r : Text × Text) × (scan after_word (g ++ (c ∷ (p ++ rest))) ≡ some r)
      × (length g ≤ length r.0)
unfolding scan ends_before
scan-longest after_word [] p c rest v s h =
    let stop : (if after_word && is_separator c
          then map_option end_here (platform_at (p ++ rest))
          else none)
        ≡ some (end_here p) =
      rw (v, s, platform_at_complete p rest h) in
    let (r, e) = or_else_total _ _ stop in (r, e, omega arith)
scan-longest after_word (b ∷ g) p c rest v s h =
    let go = goes_on after_word b in
    let ((g', p'), found, le) =
      scan-longest (is_word b) g p c rest (and_right go (is_game (is_word b) g) v) s h in
    (
      (b ∷ g', p'),
      scan-cons after_word b (g ++ (c ∷ (p ++ rest))) g' p' found
          (and_left go (is_game (is_word b) g) v),
      omega arith,
    )

length-split-le :
    {after_word : Bool} {u g p : Text} (q : Text × Text)
    → scan after_word u ≡ some q
    → IsSplit after_word u g p
    → length g ≤ length q.0
length-split-le {after_word} {u} {g} {p} q found i =
    let (r, longer, le) =
      scan-longest after_word g p i.separator i.rest i.group i.separates i.platform in
    let same : r ≡ q = cc (found, longer, i.whole, ap (scan after_word) i.whole) in
    omega (arith, ap (λ (x : Text × Text). length x.0) same)

none-ne-parsed :
    (u : Text) (r : Text × Text)
    → scan false u ≡ some r
    → ¬ (get_game_and_platform_from_topic (codes "push-" ++ u) ≡ none)
unfolding get_game_and_platform_from_topic
none-ne-parsed u r found n = cc (ap (map_option to_parsed) found, n)

-- A topic that is parsed starts with `push-`, the game, a separator and the platform follow, and no
-- other reading of it has a longer game.
pub parse-IsSplit :
    (t : Text) (r : ParsedTopic)
    → get_game_and_platform_from_topic t ≡ some r
    → (u : Text) × (t ≡ codes "push-" ++ u)
      × IsSplit false u r.game r.platform
      × ((g p : Text) → IsSplit false u g p → length g ≤ length r.game)
unfolding get_game_and_platform_from_topic
parse-IsSplit t r h = elim (Option-cases (strip_prefix (codes "push-") t)) [
  | inl n ↦ absurd (none_some (rw n at h))
  | inr (u, e) ↦
      let (q, found, f) = map_option-some to_parsed (scan false u) (rw e at h) in
      (
        u,
        strip_prefix_sound (codes "push-") t u e,
        subst (λ (x : ParsedTopic). IsSplit false u x.game x.platform) f
            (scan_sound false u q.0 q.1 found),
        λ g p i.
            subst (λ (x : ParsedTopic). length g ≤ length x.game) f (length-split-le q found i),
      )
]
  where
    none_some : ◌≡◌ {A = Option ParsedTopic} none (some r) → ⊥
    none_some e = cc

-- The parser panics on a topic exactly if the topic has no reading as `push-` followed by a game,
-- a separator and a platform.
pub parse-none_iff :
    (t : Text)
    → (get_game_and_platform_from_topic t ≡ none)
      ↔ ((u g p : Text) → t ≡ codes "push-" ++ u → ¬ IsSplit false u g p)
parse-none_iff t = (
  refuses,
  λ no_split. elim (Option-cases (get_game_and_platform_from_topic t)) [
    | inl n ↦ n
    | inr (r, e) ↦
        let (u, w, i, _) = parse-IsSplit t r e in absurd (no_split u r.game r.platform w i)
  ],
)
  where
    refuses :
        get_game_and_platform_from_topic t ≡ none
        → (u g p : Text) → t ≡ codes "push-" ++ u
        → ¬ IsSplit false u g p
    refuses n u g p w i =
        let (r, longer, _) =
          scan-longest false g p i.separator i.rest i.group i.separates i.platform in
        let found : scan false u ≡ some r = rw i.whole longer in
        none-ne-parsed u r found (rw w at n)
