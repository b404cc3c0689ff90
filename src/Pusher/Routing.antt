-- ===== src/Pusher/Routing.antt =====
-- What becomes of the messages that a pusher routes.
use pusher.Base.{
  ℕ, suc, ◌+◌, true, List, [], ◌∷◌, Option, none, some, ◌≡◌, inl, inr, refl, Text, ◌≟◌, length,
  Option-cases, Bool-cases, if◌then◌else◌, arith, is_some, subst,
}
use pusher.Effects.{dones, pushes, settled, Services}
use pusher.Effects.Count.{settled-append}
use pusher.Apns.{KafkaMessage, ApnsMessageHandler, Env}
use pusher.Apns.Messages.{handle_messages}
use pusher.Apns.Settles.{handle_messages-settles}
use pusher.Pusher.{Handlers, Handle, handler_of, route_message, route_messages}

-- A handler that lets go of every message once: it pushes it or releases the wait group.
abbrev pub Settles : {P S : Type 0} → Handle P S → Type 0
Settles {P} {S} h = (message : KafkaMessage) (s : S) → settled (h message s).0 ≡ 1

abbrev pub AllSettle : {P S : Type 0} → Handlers (Handle P S) → Type 0
AllSettle [] = Unit
AllSettle ((app, h) ∷ m) = Settles h × AllSettle m

-- The messages for which there is no handler.
abbrev pub unrouted : {P S : Type 0} → Handlers (Handle P S) → List KafkaMessage → ℕ
unrouted handlers [] = 0
unrouted handlers (message ∷ rest) =
    let n = unrouted handlers rest in
    if is_some (handler_of message.game handlers) then n else suc n

module _ {P S : Type 0} where
  found-Settles :
      (game : Text) (m : Handlers (Handle P S)) {h : Handle P S}
      → AllSettle m
      → handler_of game m ≡ some h
      → Settles h
  unfolding handler_of
  found-Settles game [] all e = cc
  found-Settles game ((app, h') ∷ m) all e = elim (Bool-cases (app ≟ game)) [
    | inl y ↦
        subst (λ (o : Option (Handle P S)). elim o [ none ↦ Unit | some x ↦ Settles x ]) (rw y at e)
          all.0
    | inr n ↦ found-Settles game m all.1 (rw n at e)
  ]

  -- With handlers that let go of each of their messages once, the messages routed are let go of once
  -- each, by a push or a release of the wait group, but for those of a game without a handler: these
  -- are neither pushed nor released.
  pub route_messages-settles :
      (handlers : Handlers (Handle P S)) (messages : List KafkaMessage) (s : S)
      → AllSettle handlers
      → let es = (route_messages handlers messages s).0 in
        dones es + pushes es + unrouted handlers messages ≡ length messages
  unfolding route_messages route_message
  route_messages-settles handlers [] s all = refl
  route_messages-settles handlers (message ∷ rest) s all =
      let (es, s') = route_message handlers message s in
      let more = (route_messages handlers rest s').0 in
      let ih = route_messages-settles handlers rest s' all in
      let both = settled-append es more in
      elim (Option-cases (handler_of message.game handlers)) [
        | inl e ↦
            let lost : settled es ≡ 0 = rw e refl in
            let one : unrouted handlers (message ∷ rest) ≡ suc (unrouted handlers rest) =
              rw e refl in
            omega arith
        | inr (h, e) ↦
            let once : settled es ≡ 1 =
              rw e (found-Settles message.game handlers all e message s) in
            let same : unrouted handlers (message ∷ rest) ≡ unrouted handlers rest = rw e refl in
            omega arith
      ]

-- The handlers of APNS are such handlers, where the pusher has a wait group.
pub apns-Settles :
    {S : Type 0} (sv : Services S) (a : ApnsMessageHandler) (env : Env)
    → a.pending_messages_wg ≡ true
    → Settles (handle_messages sv a env)
apns-Settles sv a env tracked = handle_messages-settles sv a env tracked
