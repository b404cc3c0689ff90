-- ===== src/Value/Maps.antt =====
-- The laws of maps.
use pusher.Base.{none, some, ◌≡◌, refl, Text, ◌≟◌, ≟_iff, if◌then◌else◌, arith}
use pusher.Value.{Value, Fields, end, field, value_at, get, put, delete}

pub value_at-put :
    (k j : Text) (v : Value) (m : Fields)
    → value_at j (put k v m) ≡ (if k ≟ j then v else value_at j m)
unfolding value_at put
value_at-put k j v end = refl
value_at-put k j v (field i w m) =
    ground (arith, ≟_iff k j, ≟_iff i k, ≟_iff i j, value_at-put k j v m)

pub get-put :
    (k j : Text) (v : Value) (m : Fields) → get j (put k v m) ≡ (if k ≟ j then some v else get j m)
unfolding get put
get-put k j v end = refl
get-put k j v (field i w m) = ground (arith, ≟_iff k j, ≟_iff i k, ≟_iff i j, get-put k j v m)

pub get-delete : (k j : Text) (m : Fields) → get j (delete k m) ≡ (if k ≟ j then none else get j m)
unfolding get delete
get-delete k j end = ground arith
get-delete k j (field i w m) = ground (arith, ≟_iff k j, ≟_iff i k, ≟_iff i j, get-delete k j m)
