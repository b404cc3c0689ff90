-- ===== src/Pusher/Topics.antt =====
-- The topics that a pusher consumes.
use pusher.Base.{
  Bool, true, false, ◌||◌, List, [], ◌∷◌, ◌++◌, ◌≡◌, inl, inr, refl, Text, codes, ◌≟◌, ≟-eq, subst,
  Bool-cases, arith,
}
use pusher.Topic.{single_topic, massive_topic}
use pusher.Pusher.{contains, add_topic, add_app, apns_topics, gcm_topics}

contains-append :
    (t : Text) (xs ys : List Text) → contains t (xs ++ ys) ≡ (contains t xs || contains t ys)
unfolding contains
contains-append t [] ys = refl
contains-append t (x ∷ xs) ys = ground (arith, contains-append t xs ys)

-- Adding a topic adds that one and loses none.
contains-add_topic :
    (t u : Text) (ts : List Text) → contains t (add_topic u ts) ≡ (contains t ts || u ≟ t)
unfolding add_topic contains
contains-add_topic t u ts = elim (Bool-cases (contains u ts)) [
  | inl e ↦ rw e (elim (Bool-cases (u ≟ t)) [
    | inl s ↦
        let there : contains t ts ≡ true =
          subst (λ (x : Text). contains x ts ≡ true) (≟-eq u t s) e in
        rw (s, there)
    | inr n ↦ rw n (ground arith)
  ])
  | inr e ↦ rw (e, contains-append t ts (u ∷ [])) (ground arith)
]

-- What an app's two topics are of the topics that are asked for.
abbrev pub is_app_topic : Text → Text → Text → Bool
is_app_topic platform app t = single_topic app platform ≟ t || massive_topic app platform ≟ t

contains-add_app :
    (t platform app : Text) (ts : List Text)
    → contains t (add_app platform app ts) ≡ (contains t ts || is_app_topic platform app t)
unfolding add_app
contains-add_app t platform app ts = ground (
  arith,
  contains-add_topic t (massive_topic app platform) (add_topic (single_topic app platform) ts),
  contains-add_topic t (single_topic app platform) ts,
)

abbrev pub any_app : (Text → Bool) → List Text → Bool
any_app p [] = false
any_app p (app ∷ apps) = p app || any_app p apps

-- The APNS pusher consumes exactly the topics that its consumer was configured with and, for each of
-- its apps, the single and the massive one of APNS.
pub contains-apns_topics :
    (t : Text) (apps ts : List Text)
    → contains t (apns_topics apps ts)
      ≡ (contains t ts || any_app (λ app. is_app_topic (codes "apns") app t) apps)
unfolding apns_topics
contains-apns_topics t [] ts = ground arith
contains-apns_topics t (app ∷ apps) ts = ground (
  arith,
  contains-apns_topics t apps (add_app (codes "apns") app ts),
  contains-add_app t (codes "apns") app ts,
)

-- The pusher of Firebase consumes exactly the topics that its consumer was configured with and,
-- for each of its apps, the single and the massive one of the platforms `gcm` and `ios`.
pub contains-gcm_topics :
    (t : Text) (apps ts : List Text)
    → contains t (gcm_topics apps ts) ≡ (
        contains t ts
        || any_app
            (λ app. is_app_topic (codes "gcm") app t || is_app_topic (codes "ios") app t)
            apps)
unfolding gcm_topics
contains-gcm_topics t [] ts = ground arith
contains-gcm_topics t (app ∷ apps) ts =
    let ts' = add_app (codes "gcm") app ts in
    ground (
      arith,
      contains-gcm_topics t apps (add_app (codes "ios") app ts'),
      contains-add_app t (codes "ios") app ts',
      contains-add_app t (codes "gcm") app ts,
    )
