-- ===== src/Value.antt =====
-- The dynamic values of the program (`interface{}`) and its maps from strings to them: what
-- `encoding/json` decodes a document into, with the integers that the program itself puts in.
pub mod Maps
pub mod Decode
use pusher.Base.{ℕ, Bool, true, false, Option, none, some, Text, ◌≟◌, if◌then◌else◌}

-- A JSON number keeps its literal: nothing in the program computes with it.
mutual
  pub data Value : Type 0 where
    nil : Value
    bool : Bool → Value
    number : Text → Value
    int64 : ℕ → Value
    str : Text → Value
    arr : Items → Value
    obj : Fields → Value

  pub data Items : Type 0 where
    stop : Items
    item : Value → Items → Items

  -- `map[string]interface{}` as an association list; the first entry of a key counts.
  pub data Fields : Type 0 where
    end : Fields
    field : Text → Value → Fields → Fields

-- `m[k]`, which is nil for a key that is not there.
unfoldable pub value_at : Text → Fields → Value
value_at k end = nil
value_at k (field j v m) = if j ≟ k then v else value_at k m

-- `v, ok := m[k]`
unfoldable pub get : Text → Fields → Option Value
get k end = none
get k (field j v m) = if j ≟ k then some v else get k m

-- `m[k] = v`
unfoldable pub put : Text → Value → Fields → Fields
put k v end = field k v end
put k v (field j w m) = if j ≟ k then field k v m else field j w (put k v m)

-- `delete(m, k)`
unfoldable pub delete : Text → Fields → Fields
delete k end = end
delete k (field j w m) = let rest = delete k m in if j ≟ k then rest else field j w rest

abbrev pub is_nil : Value → Bool
is_nil nil = true
is_nil _ = false

abbrev pub fields_of : Value → Option Fields
fields_of (obj m) = some m
fields_of _ = none
