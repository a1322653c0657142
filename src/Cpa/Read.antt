-- ===== src/Cpa/Read.antt =====
-- The readers of internal/cpaprotocol/request.go: `text`, `obj`, `keys`, `identifier` and `declaration`.
-- A map is an object's members, whose keys differ once `Object` has accepted the document; what a map
-- has not is `none`.
use codex_gateway.Base.{
  ℕ, ◌+◌, String, str_eq, Bool, true, false, not, ◌||◌, ◌&&◌, leb, ltb, if◌then◌else◌, Option, none,
  some, List, [], ◌∷◌, any, Text, codes,
}
use codex_gateway.Base.Int.{ℤ, leb_ℤ}
use codex_gateway.Billing.Decimal.{text_eq, trim_space}
use codex_gateway.Cpa.Json.{
  Value, null, boolean, number, text, array, object, Items, no_item, item, Fields, no_field, field,
  Decoder,
}

-- o[name].
unfoldable pub get : String → Fields → Option Value
get name no_field = none
get name (field key v fs) = let later = get name fs in if str_eq key name then some v else later

unfoldable pub has : String → Fields → Bool
unfolding get
has name fs = elim (get name fs) [ none ↦ false | some v ↦ true ]

-- `obj`, for a member that may be absent.
unfoldable pub obj : Option Value → Option Fields
obj (some (object fs)) = some fs
obj other = none

-- `text`.
unfoldable pub read_text : Option Value → Option String
read_text (some (text raw s)) = some s
read_text other = none

unfoldable pub is_text : Option Value → Bool
unfolding read_text
is_text v = elim (read_text v) [ none ↦ false | some s ↦ true ]

unfoldable pub is_object : Option Value → Bool
unfolding obj
is_object v = elim (obj v) [ none ↦ false | some fs ↦ true ]

-- `keys`.
unfoldable pub keys : Fields → List String → Bool
keys no_field names = true
keys (field key v fs) names = any (str_eq key) names && keys fs names

-- `boolean`.
unfoldable pub is_boolean : Value → Bool
is_boolean (boolean b) = true
is_boolean other = false

unfoldable pub is_null : Value → Bool
is_null null = true
is_null other = false

within : ℤ → ℤ → Option ℤ → Bool
within low high none = false
within low high (some n) = leb_ℤ low n && leb_ℤ n high

-- `integer` and `number`.
unfoldable pub integer : Decoder → Value → ℤ → ℤ → Bool
unfolding within
integer j (number n) low high = within low high (j.int64 n)
integer j other low high = false

unfoldable pub is_number : Decoder → Value → ℕ → ℕ → Bool
is_number j (number n) low high = j.float64_within n low high
is_number j other low high = false

-- `len` of a string: the bytes of its UTF-8.
unfoldable pub byte_length : Text → ℕ
byte_length [] = 0
byte_length (c ∷ s) =
    (if ltb c 0x80 then 1 else if ltb c 0x800 then 2 else if ltb c 0x10000 then 3 else 4)
    + byte_length s

-- unicode.IsControl.
abbrev pub is_control : ℕ → Bool
is_control c = ltb c 0x20 || leb 0x7f c && ltb c 0xa0

-- No blank at an end and no control character within.
unfoldable pub is_trimmed : Text → Bool
is_trimmed s = text_eq (trim_space s) s && not (any is_control s)

-- `identifier`.
unfoldable pub identifier : String → Bool
unfolding byte_length is_trimmed
identifier name =
    let s = codes name in not (text_eq s []) && leb (byte_length s) 256 && is_trimmed s

-- json.Unmarshal into a slice: an error, nil for null, or the elements.
pub data Decoded {ℓ} (A : Type ℓ) : Type ℓ where
  failed null_slice : Decoded A
  slice : List A → Decoded A

prepend : {A : Type 0} → Option A → Decoded A → Decoded A
prepend (some a) (slice xs) = slice (a ∷ xs)
prepend other rest = failed

-- An element that is null leaves the zero value: a nil map, an empty string.
element_object : Value → Option Fields
element_object (object fs) = some fs
element_object null = some no_field
element_object other = none

element_text : Value → Option String
element_text (text raw s) = some s
element_text null = some ""
element_text other = none

decode_items : {A : Type 0} → (Value → Option A) → Items → Decoded A
unfolding prepend
decode_items read no_item = slice []
decode_items read (item x xs) = prepend (read x) (decode_items read xs)

-- Into []object and []string.
unfoldable pub objects : Option Value → Decoded Fields
unfolding decode_items element_object
objects (some null) = null_slice
objects (some (array xs)) = decode_items element_object xs
objects other = failed

unfoldable pub texts : Option Value → Decoded String
unfolding decode_items element_text
texts (some null) = null_slice
texts (some (array xs)) = decode_items element_text xs
texts other = failed

-- `stringsArray`.
unfoldable pub strings_array : Option Value → Bool
unfolding texts
strings_array v = elim (texts v) [ failed ↦ false | null_slice ↦ false | slice xs ↦ true ]

-- A check of a member, where it is there.
unfoldable pub optional : Option Value → (Value → Bool) → Bool
optional none test = true
optional (some v) test = test v

-- The same, where it is there and not null.
unfoldable pub non_null : Option Value → (Value → Bool) → Bool
non_null none test = true
non_null (some null) test = true
non_null (some v) test = test v

-- What `s, _ := text(raw)` leaves in s.
unfoldable pub or_empty : Option Value → String
unfolding read_text
or_empty v = elim (read_text v) [ none ↦ "" | some s ↦ s ]

-- The member holds one of the texts.
unfoldable pub text_among : Option Value → List String → Bool
unfolding read_text
text_among v names = elim (read_text v) [ none ↦ false | some s ↦ any (str_eq s) names ]

is_blocking : Value → Bool
is_blocking (text raw s) = str_eq raw "BLOCKING"
is_blocking other = false

optional_object : String → Fields → Bool
unfolding optional is_object get
optional_object name o = optional (get name o) (λ v. is_object (some v))

-- The checks of `declaration` behind its name.
unfoldable pub declaration_rest : Fields → Bool → Bool
unfolding optional is_text is_boolean is_blocking optional_object get has
declaration_rest o responses =
    optional (get "description" o) (λ v. is_text (some v))
    && not (has "parameters" o && has "parametersJsonSchema" o)
    && optional_object "parameters" o
    && optional_object "parametersJsonSchema" o
    && optional_object "response" o
    && optional_object "responseJsonSchema" o
    && optional (get "strict" o) (λ v. responses && is_boolean v)
    && optional (get "behavior" o) is_blocking

unfoldable pub declaration_keys : List String
declaration_keys =
    "type" ∷ "name" ∷ "description" ∷ "parameters" ∷ "parametersJsonSchema" ∷ "response"
    ∷ "responseJsonSchema" ∷ "strict" ∷ "behavior" ∷ []

-- A name that no declaration has had.
unfoldable pub is_new_name : List String → String → Bool
unfolding identifier byte_length
is_new_name names name =
    identifier name && leb (byte_length (codes name)) 64 && not (any (str_eq name) names)

unfoldable pub named : Fields → List String → Bool → Option String → Option (List String)
unfolding declaration_rest is_new_name
named o names responses none = none
named o names responses (some name) =
    if is_new_name names name && declaration_rest o responses then some (name ∷ names) else none

-- `declaration`: the names with the new one, or none where it returns false.
unfoldable pub declaration : Fields → List String → Bool → Option (List String)
unfolding keys declaration_keys named read_text get
declaration o names responses =
    if keys o declaration_keys then named o names responses (read_text (get "name" o)) else none
