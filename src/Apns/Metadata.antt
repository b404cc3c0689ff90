-- ===== src/Apns/Metadata.antt =====
-- The metadata that HandleMessages moves into the payload of a message.
use pusher.Base.{
  true, false, Option, none, some, ◌≡◌, refl, sym, subst, ap, ◌∙◌, inl, inr, Text, codes, ◌≟◌, ≟-eq,
  Bool-cases, if◌then◌else◌,
}
use pusher.Value.{Value, nil, obj, Fields, end, field, value_at, get, put, is_nil, fields_of}
use pusher.Value.Maps.{value_at-put, get-put}
use pusher.Apns.{
  PusherApnsKafkaMessage, fill_missing, with_m, add_to_m, add_to_payload, add_metadata_to_payload,
}

-- A map has one entry for a key.
abbrev pub Absent : Text → Fields → Type 0
Absent k end = Unit {0}
Absent k (field j v m) = ((j ≟ k) ≡ false) × Absent k m

abbrev pub IsMap : Fields → Type 0
IsMap end = Unit {0}
IsMap (field k v m) = Absent k m × IsMap m

value_at-Absent : (k : Text) (m : Fields) → Absent k m → value_at k m ≡ nil
unfolding value_at
value_at-Absent k end h = refl
value_at-Absent k (field j v m) h = rw (h.0) (value_at-Absent k m h.1)

-- Of two maps the first has the say; where it has nothing, the second.
abbrev pub preferred : Value → Value → Value
preferred nil v = v
preferred u v = u

preferred-nil : (u : Value) → preferred u nil ≡ u
preferred-nil nil = refl
preferred-nil _ = refl

preferred-assoc_nil : (u v : Value) → preferred (preferred u v) nil ≡ preferred u v
preferred-assoc_nil u v = preferred-nil (preferred u v)

preferred_of_nil : (u v : Value) → is_nil u ≡ true → preferred u v ≡ v
preferred_of_nil nil v h = refl
preferred_of_nil _ v h = cc

preferred_of_value : (u v : Value) → is_nil u ≡ false → preferred u v ≡ u
preferred_of_value nil v h = cc
preferred_of_value _ v h = refl

fill_one :
    (j k : Text) (v : Value) (m : Fields)
    → value_at k (if is_nil (value_at j m) then put j v m else m)
      ≡ (if j ≟ k then preferred (value_at k m) v else value_at k m)
fill_one j k v m = elim (Bool-cases (is_nil (value_at j m))) [
  | inl e ↦
      rw (e, value_at-put)
        (elim (Bool-cases (j ≟ k)) [
          | inl s ↦ rw s (sym (preferred_of_nil _ v (rw (≟-eq j k s) at e)))
          | inr s ↦ rw s
        ])
  | inr e ↦ rw e (elim (Bool-cases (j ≟ k)) [
    | inl s ↦ rw s (sym (preferred_of_value _ v (rw (≟-eq j k s) at e)))
    | inr s ↦ rw s
  ])
]

-- For every key, whatever order the metadata is gone through in: what the map held is kept, and
-- what it lacked is the metadata's.
pub value_at-fill_missing :
    (k : Text) (m metadata : Fields)
    → IsMap metadata
    → value_at k (fill_missing m metadata) ≡ preferred (value_at k m) (value_at k metadata)
unfolding fill_missing value_at
value_at-fill_missing k m end h = sym (preferred-nil _)
value_at-fill_missing k m (field j v rest) h =
    let m' = if is_nil (value_at j m) then put j v m else m in
    elim (Bool-cases (j ≟ k)) [
      | inl s ↦ rw s (
          value_at-fill_missing k m' rest h.1
          ∙ rw (value_at-Absent k rest (rw (≟-eq j k s) at h.0), fill_one j k v m, s)
              (preferred-nil _))
      | inr s ↦ rw s (value_at-fill_missing k m' rest h.1 ∙ rw (fill_one j k v m, s))
    ]

some_eq : {a b : Fields} → some a ≡ some b → a ≡ b
some_eq h = cc

-- A payload as the map that metadata can go into: a nil payload is a new map.
abbrev pub payload_map : Value → Option Fields
payload_map nil = some end
payload_map (obj p) = some p
payload_map _ = none

abbrev pub m_map : Fields → Option Fields
m_map p = payload_map (value_at (codes "M") p)

-- The entry of a key in the map under `M`.
abbrev pub in_fields : Text → Option Fields → Value
in_fields k none = nil
in_fields k (some m) = value_at k m

abbrev pub in_m : Text → Fields → Value
in_m k q = in_fields k (fields_of (value_at (codes "M") q))

payload_map-nil :
    {old : Fields} (v : Value) → is_nil v ≡ true → payload_map v ≡ some old → some end ≡ some old
payload_map-nil nil e h = h
payload_map-nil _ e h = cc

payload_map-value :
    {old : Fields} (v : Value)
    → is_nil v ≡ false
    → payload_map v ≡ some old
    → fields_of v ≡ some old
payload_map-value nil e h = cc
payload_map-value (obj m) e h = h
payload_map-value _ e h = cc

with_m-m_map :
    (p old : Fields) → m_map p ≡ some old → fields_of (value_at (codes "M") (with_m p)) ≡ some old
unfolding with_m
with_m-m_map p old h = elim (Bool-cases (is_nil (value_at (codes "M") p))) [
  | inl e ↦ rw (e, value_at-put) (payload_map-nil _ e h)
  | inr e ↦ rw e (payload_map-value _ e h)
]

get-with_m : (p : Fields) (k : Text) → (codes "M" ≟ k) ≡ false → get k (with_m p) ≡ get k p
unfolding with_m
get-with_m p k h = elim (Bool-cases (is_nil (value_at (codes "M") p))) [
  | inl e ↦ rw (e, get-put, h)
  | inr e ↦ rw e
]

-- The result of addMetadataToPayload on a payload and an `M` that are maps or missing.
pub record Merged (p old metadata q : Fields) : Type 0 where
  pub filled : (k : Text) → in_m k q ≡ preferred (value_at k old) (value_at k metadata)
  pub others : (k : Text) → (codes "M" ≟ k) ≡ false → get k q ≡ get k p

merged :
    (p old metadata : Fields)
    → m_map p ≡ some old
    → IsMap metadata
    → Merged p old metadata
        (add_to_m (with_m p) metadata (fields_of (value_at (codes "M") (with_m p))))
merged p old metadata h w = rw (with_m-m_map p old h) (record {
  filled = λ k.
      let m = obj (fill_missing old metadata) in
      ap (λ v. in_fields k (fields_of v)) (value_at-put (codes "M") (codes "M") m (with_m p))
      ∙ value_at-fill_missing k old metadata w;
  others = λ k ne. get-put (codes "M") k _ _ ∙ rw ne (get-with_m p k ne);
})

add_to_payload-Merged :
    (p old metadata : Fields) (payload : Value)
    → payload_map payload ≡ some p
    → m_map p ≡ some old
    → IsMap metadata
    → (q : Fields) × (add_to_payload metadata payload ≡ obj q) × Merged p old metadata q
add_to_payload-Merged p old metadata nil h o w = (
  _,
  refl,
  subst
      (λ (x : Fields).
        Merged x old metadata
          (add_to_m (with_m end) metadata (fields_of (value_at (codes "M") (with_m end)))))
      (some_eq h) (merged end old metadata (rw (some_eq h) o) w),
)
add_to_payload-Merged p old metadata (obj x) h o w = (
  _,
  refl,
  subst
      (λ (y : Fields).
        Merged y old metadata
          (add_to_m (with_m x) metadata (fields_of (value_at (codes "M") (with_m x)))))
      (some_eq h) (merged x old metadata (rw (some_eq h) o) w),
)
add_to_payload-Merged p old metadata _ h o w = cc

-- Where the payload is a map or missing, and so is its `M`, the metadata of the message is found
-- under `M` afterwards: a key that `M` had keeps its value, any other key has the metadata's, and no
-- other entry of the payload changes.
pub add_metadata_to_payload-Merged :
    (n : PusherApnsKafkaMessage) (p old metadata : Fields)
    → n.metadata ≡ some metadata
    → payload_map n.payload ≡ some p
    → m_map p ≡ some old
    → IsMap metadata
    → (q : Fields) × ((add_metadata_to_payload n).payload ≡ obj q) × Merged p old metadata q
unfolding add_metadata_to_payload
add_metadata_to_payload-Merged n p old metadata m h o w =
    rw m (add_to_payload-Merged p old metadata n.payload h o w)
