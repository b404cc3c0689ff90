-- ===== src/Value/Decode.antt =====
-- How `json.Unmarshal` fills a struct from a document: field by field in the order of the
-- document, keys compared without case, a value of the wrong type left out and reported at the end.
use pusher.Base.{
  ℕ, zero, suc, ◌/◌, ◌%◌, ◌+◌, ◌-◌, ◌*◌, ◌^◌, Bool, true, false, ◌&&◌, [], ◌∷◌, map, Option, none,
  some, Text, codes, ◌++◌, ◌≟◌, leb, ltb, ◌==◌, if◌then◌else◌,
}
use pusher.Value.{Value, nil, bool, number, str, obj, int64, Fields, end, field, put}

unfoldable pub lower : ℕ → ℕ
lower c = if leb b'A' c && leb c b'Z' then c + 32 else c

abbrev pub same_key : Text → Text → Bool
same_key a b = map lower a ≟ map lower b

-- An integer of Go, 64 bits: `negsuc n` is -(n + 1).
pub data ℤ : Type 0 where
  pos : ℕ → ℤ
  negsuc : ℕ → ℤ

-- `a <= b`
abbrev pub int_leb : ℤ → ℤ → Bool
int_leb (pos a) (pos b) = leb a b
int_leb (pos a) (negsuc b) = false
int_leb (negsuc a) (pos b) = true
int_leb (negsuc a) (negsuc b) = leb b a

unfoldable pub digits_value : ℕ → Text → Option ℕ
digits_value acc [] = some acc
digits_value acc (c ∷ t) =
    let rest = digits_value (acc * 10 + (c - b'0')) t in
    if leb b'0' c && leb c b'9' then rest else none

abbrev pub magnitude : Text → Option ℕ
magnitude [] = none
magnitude (c ∷ t) = digits_value 0 (c ∷ t)

abbrev pub as_positive : Option ℕ → Option ℤ
as_positive none = none
as_positive (some n) = if ltb n (2 ^ 63) then some (pos n) else none

abbrev pub as_negative : Option ℕ → Option ℤ
as_negative none = none
as_negative (some n) =
    if n == 0 then some (pos 0) else if leb n (2 ^ 63) then some (negsuc (n - 1)) else none

-- Decimal digits, for `%d` and `strconv.FormatUint` of a number of 64 bits: 20 digits are enough.
format_fuel : ℕ → ℕ → Text → Text
format_fuel zero n t = t
format_fuel (suc f) n t =
    let more = format_fuel f (n / 10) ((n % 10 + b'0') ∷ t) in
    if ltb n 10 then (n + b'0') ∷ t else more

unfoldable pub format_uint : ℕ → Text
unfolding format_fuel
format_uint n = format_fuel 20 n []

-- `%d` and `strconv.FormatInt` of an integer.
unfoldable pub format_int : ℤ → Text
unfolding format_uint
format_int (pos n) = format_uint n
format_int (negsuc n) = codes "-" ++ format_uint (suc n)

-- `strconv.Atoi` and `strconv.ParseInt(t, 10, 64)`: a sign or none, and at least one digit. A
-- fraction or an exponent does not fit.
unfoldable pub parse_int : Text → Option ℤ
unfolding digits_value
parse_int [] = none
parse_int (c ∷ t) =
    if c == b'-'
    then as_negative (magnitude t)
    else if c == b'+'
    then as_positive (magnitude t)
    else as_positive (digits_value 0 (c ∷ t))

-- What is decoded so far, and whether every value so far had the right type.
abbrev pub Decoded : Type 0 → Type 0
Decoded A = A × Bool

unfoldable pub to_text : Text → Value → Decoded Text
to_text old nil = (old, true)
to_text old (str s) = (s, true)
to_text old _ = (old, false)

unfoldable pub to_bool : Bool → Value → Decoded Bool
to_bool old nil = (old, true)
to_bool old (bool b) = (b, true)
to_bool old _ = (old, false)

abbrev pub int_or : ℤ → Option ℤ → Decoded ℤ
int_or old none = (old, false)
int_or old (some n) = (n, true)

unfoldable pub to_int : ℤ → Value → Decoded ℤ
to_int old nil = (old, true)
to_int old (number t) = int_or old (parse_int t)
to_int old (int64 n) = (pos n, true)
to_int old _ = (old, false)

unfoldable pub put_all : Fields → Fields → Fields
put_all m end = m
put_all m (field k v rest) = put_all (put k v m) rest

-- A nil map is `none`. A key that comes twice adds to the map of the first.
unfoldable pub to_map : Option Fields → Value → Decoded (Option Fields)
to_map old nil = (none, true)
to_map none (obj m) = (some m, true)
to_map (some old) (obj m) = (some (put_all old m), true)
to_map old _ = (old, false)

-- A decoder of one field, and the document's fields in turn.
abbrev pub FieldDecoder : Type 0 → Type 0
FieldDecoder A = Text → Value → A → Decoded A

unfoldable pub decode_fields : {A : Type 0} → FieldDecoder A → Fields → Decoded A → Decoded A
decode_fields f end d = d
decode_fields f (field k v rest) (a, good) =
    let (a', fits) = f k v a in decode_fields f rest (a', good && fits)

-- `json.Unmarshal(value, &blank)`: `none` stands for bytes that are no JSON document.
unfoldable pub unmarshal : {A : Type 0} → FieldDecoder A → A → Option Value → Decoded A
unfolding decode_fields
unmarshal f blank none = (blank, false)
unmarshal f blank (some nil) = (blank, true)
unmarshal f blank (some (obj m)) = decode_fields f m (blank, true)
unmarshal f blank (some _) = (blank, false)
