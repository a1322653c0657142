-- ===== src/Cpa/Gemini.antt =====
-- `GeminiRequest` of internal/cpaprotocol/request.go.
pub mod Turns
pub mod Events
pub mod Calls
pub mod Conversation
use codex_gateway.Base.{
  ℕ, suc, ◌+◌, ◌≡◌, refl, String, str_eq, Bool, true, false, not, ◌||◌, ◌&&◌, leb, ◌==◌,
  if◌then◌else◌, Option, none, some, List, [], ◌∷◌, any, all, Result, ok, err, ◌>>=◌, ◌>>◌, guard,
  or_fail, Text, codes,
}
use codex_gateway.Base.Int.{pos, negsuc}
use codex_gateway.Billing.Decimal.{text_eq}
use codex_gateway.Cpa.Json.{
  Value, null, boolean, number, text, array, object, Fields, no_field, field, Decoder, Error,
  unsupported, new_session, read_object,
}
use codex_gateway.Cpa.Read.{
  get, has, obj, read_text, is_text, is_object, keys, is_boolean, integer, is_number, byte_length,
  is_trimmed, identifier, Decoded, failed, null_slice, slice, objects, texts, strings_array,
  optional, text_among, declaration,
}

-- A slice with elements.
unfoldable pub non_empty : {A : Type 0} → Decoded A → Option (List A)
non_empty (slice (a ∷ xs)) = some (a ∷ xs)
non_empty other = none

unfoldable pub declare_all : List Fields → List String → Option (List String)
unfolding declaration
declare_all [] names = some names
declare_all (f ∷ fs) names = elim (declaration f names false) [
  | none ↦ none
  | some more ↦ declare_all fs more
]

unfoldable pub declare_some : Option (List Fields) → List String → Option (List String)
unfolding declare_all
declare_some none names = none
declare_some (some fs) names = declare_all fs names

-- One round of the loop over the tools.
unfoldable pub declare_tool : Fields → List String → Option (List String)
unfolding declare_some non_empty objects keys get
declare_tool tool names =
    if keys tool ("functionDeclarations" ∷ [])
    then declare_some (non_empty (objects (get "functionDeclarations" tool))) names
    else none

unfoldable pub declare_tools : List Fields → List String → Option (List String)
declare_tools [] names = some names
declare_tools (t ∷ ts) names = elim (declare_tool t names) [
  | none ↦ none
  | some more ↦ declare_tools ts more
]

unfoldable pub declare_slice : Decoded Fields → Option (List String)
declare_slice (slice ts) = declare_tools ts []
declare_slice other = none

-- The names that the tools declare, where all of them are valid.
unfoldable pub declared : Option Value → Option (List String)
unfolding declare_slice objects
declared none = some []
declared (some v) = declare_slice (objects (some v))

among_names : List String → Decoded String → Bool
among_names names (slice xs) = all (λ (name : String). any (str_eq name) names) xs
among_names names other = false

calling_config : List String → Option Fields → Bool
unfolding keys optional text_among get among_names texts
calling_config names none = false
calling_config names (some calling) =
    keys calling ("mode" ∷ "allowedFunctionNames" ∷ [])
    && optional (get "mode" calling)
        (λ v. text_among (some v) ("AUTO" ∷ "ANY" ∷ "NONE" ∷ "VALIDATED" ∷ []))
    && optional (get "allowedFunctionNames" calling) (λ v. among_names names (texts (some v)))

config_of : List String → Option Fields → Bool
unfolding keys calling_config obj get
config_of names none = false
config_of names (some cfg) =
    keys cfg ("functionCallingConfig" ∷ [])
    && calling_config names (obj (get "functionCallingConfig" cfg))

unfoldable pub tool_config : List String → Value → Bool
unfolding config_of obj
tool_config names v = config_of names (obj (some v))

one_text : Decoded String → Bool
one_text (slice (s ∷ [])) = str_eq s "TEXT"
one_text other = false

thinking_member : Decoder → String → Value → Bool
unfolding is_boolean integer text_among
thinking_member j key v =
    if str_eq key "includeThoughts"
    then is_boolean v
    else if str_eq key "thinkingBudget"
    then integer j v (negsuc 0) (pos 1048576)
    else text_among (some v) ("MINIMAL" ∷ "LOW" ∷ "MEDIUM" ∷ "HIGH" ∷ [])

thinking_members : Decoder → Fields → Bool
unfolding thinking_member
thinking_members j no_field = true
thinking_members j (field key v fs) = thinking_member j key v && thinking_members j fs

thinking_config : Decoder → Option Fields → Bool
unfolding keys thinking_members
thinking_config j none = false
thinking_config j (some t) =
    keys t ("includeThoughts" ∷ "thinkingBudget" ∷ "thinkingLevel" ∷ []) && thinking_members j t

-- One round of the loop of `generation`.
unfoldable pub generation_member : Decoder → String → Value → Bool
unfolding integer is_number strings_array text_among is_object one_text texts thinking_config obj
generation_member j key v =
    if str_eq key "candidateCount"
    then integer j v (pos 1) (pos 1)
    else if str_eq key "maxOutputTokens"
    then integer j v (pos 1) (pos 1048576)
    else if str_eq key "temperature"
    then is_number j v 0 2
    else if str_eq key "topP"
    then is_number j v 0 1
    else if str_eq key "topK"
    then integer j v (pos 1) (pos 1000)
    else if str_eq key "seed"
    then integer j v (negsuc 2147483647) (pos 2147483647)
    else if str_eq key "stopSequences"
    then strings_array (some v)
    else if str_eq key "responseMimeType"
    then text_among (some v) ("text/plain" ∷ "application/json" ∷ [])
    else if str_eq key "responseSchema" || str_eq key "responseJsonSchema"
    then is_object (some v)
    else if str_eq key "responseModalities"
    then one_text (texts (some v))
    else str_eq key "thinkingConfig" && thinking_config j (obj (some v))

generation_members : Decoder → Fields → Bool
generation_members j no_field = true
generation_members j (field key v fs) = generation_member j key v && generation_members j fs

generation_object : Decoder → Option Fields → Bool
unfolding generation_members
generation_object j none = false
generation_object j (some g) = generation_members j g

-- `generation`.
unfoldable pub generation : Decoder → Value → Bool
unfolding generation_object obj
generation j v = generation_object j (obj (some v))

text_part : Fields → Bool
unfolding keys is_text get
text_part p = keys p ("text" ∷ []) && is_text (get "text" p)

text_parts : Option (List Fields) → Bool
unfolding text_part
text_parts none = false
text_parts (some parts) = all text_part parts

system_object : Option Fields → Bool
unfolding keys text_parts non_empty objects get
system_object none = false
system_object (some system) =
    keys system ("role" ∷ "parts" ∷ []) && text_parts (non_empty (objects (get "parts" system)))

unfoldable pub system_instruction : Value → Bool
unfolding system_object obj
system_instruction v = system_object (obj (some v))
