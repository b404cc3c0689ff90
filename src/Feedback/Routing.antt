-- ===== src/Feedback/Routing.antt =====
-- What the broker puts on the channel of invalid tokens.
use pusher.Base.{
  Bool, true, false, List, [], ◌∷◌, ◌≡◌, ◌⊎◌, inl, inr, refl, ◌≟◌, All, All-append, Bool-cases,
  if◌then◌else◌,
}
use pusher.Feedback.{
  QueueMessage, InvalidToken, Libraries, Broker, apns_platform, gcm_platform, route_apns_message,
  route_gcm_message, process_message, process_messages,
}

-- A token whose platform has a map in splitTokens.
abbrev pub IsKnown : InvalidToken → Type 0
IsKnown t = (t.platform ≡ apns_platform) ⊎ (t.platform ≡ gcm_platform)

apns-IsKnown :
    (b : Bool) (t : InvalidToken)
    → t.platform ≡ apns_platform
    → All IsKnown (if b then t ∷ [] else [])
apns-IsKnown true t e = (inl e, tt)
apns-IsKnown false t e = tt

gcm-IsKnown :
    (b : Bool) (t : InvalidToken)
    → t.platform ≡ gcm_platform
    → All IsKnown (if b then t ∷ [] else [])
gcm-IsKnown true t e = (inr e, tt)
gcm-IsKnown false t e = tt

process_message-IsKnown :
    (lib : Libraries) (b : Broker) (msg : QueueMessage) → All IsKnown (process_message lib b msg).0
unfolding process_message route_apns_message route_gcm_message
process_message-IsKnown lib b msg = elim (Bool-cases (msg.platform ≟ apns_platform)) [
  | inl a ↦ rw a (apns-IsKnown _ _ refl)
  | inr a ↦ rw a (elim (Bool-cases (msg.platform ≟ gcm_platform)) [
    | inl g ↦ rw g (gcm-IsKnown _ _ refl)
    | inr g ↦ rw g tt
  ])
]

-- Every token that the broker puts out is for one of the two platforms that the invalid token
-- handler knows.
process_messages-IsKnown :
    (lib : Libraries) (b : Broker) (msgs : List QueueMessage)
    → All IsKnown (process_messages lib b msgs).0
unfolding process_messages
process_messages-IsKnown lib b [] = tt
process_messages-IsKnown lib b (msg ∷ rest) =
    All-append IsKnown (process_message lib b msg).0 _ (process_message-IsKnown lib b msg)
      (process_messages-IsKnown lib b rest)
