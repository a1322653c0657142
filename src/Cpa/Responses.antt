-- ===== src/Cpa/Responses.antt =====
-- `ResponsesRequest` of internal/cpaprotocol/request.go.
pub mod Options
pub mod Previous
pub mod Laws
use codex_gateway.Base.{
  ℕ, ◌≡◌, refl, String, str_eq, Bool, true, false, not, ◌||◌, ◌&&◌, leb, if◌then◌else◌, Option,
  none, some, List, [], ◌∷◌, any, all, Result, ok, err, ◌>>=◌, ◌>>◌, guard, or_fail,
}
use codex_gateway.Cpa.Json.{
  Value, null, boolean, number, text, array, object, Fields, no_field, field, Decoder, Error,
  unsupported, new_session, read_object,
}
use codex_gateway.Cpa.Read.{
  get, has, obj, read_text, is_text, is_object, keys, is_boolean, is_null, identifier, Decoded,
  failed, null_slice, slice, objects, texts, optional, text_among, declaration, or_empty, non_null,
}
use codex_gateway.Cpa.Gemini.{non_empty}
use codex_gateway.Cpa.Responses.Options.{response_options}

text_part_of : List String → List String → Fields → Bool
unfolding text_among is_text keys get
text_part_of kinds names p =
    text_among (get "type" p) kinds && is_text (get "text" p) && keys p names

all_parts : List String → Decoded Fields → Bool
unfolding text_part_of
all_parts kinds (slice ps) = all (text_part_of kinds ("type" ∷ "text" ∷ [])) ps
all_parts kinds other = false

-- `responseTextParts`.
unfoldable pub response_text_parts : Option Value → String → Bool
unfolding all_parts objects
response_text_parts raw kind = all_parts (kind ∷ []) (objects raw)

unfoldable pub declare_function : Fields → List String → Option (List String)
unfolding text_among get declaration
declare_function t names =
    if text_among (get "type" t) ("function" ∷ []) then declaration t names true else none

-- The names that the tools declare.
unfoldable pub declare_functions : List Fields → List String → Option (List String)
unfolding declare_function
declare_functions [] names = some names
declare_functions (t ∷ ts) names = elim (declare_function t names) [
  | none ↦ none
  | some more ↦ declare_functions ts more
]

unfoldable pub function_slice : Decoded Fields → Option (List String)
unfolding declare_functions
function_slice failed = none
function_slice null_slice = some []
function_slice (slice ts) = declare_functions ts []

unfoldable pub function_names : Option Value → Option (List String)
unfolding function_slice objects
function_names none = some []
function_names (some v) = function_slice (objects (some v))

chosen_function : List String → Option Fields → Bool
unfolding keys text_among or_empty get
chosen_function names none = false
chosen_function names (some t) =
    keys t ("type" ∷ "name" ∷ [])
    && text_among (get "type" t) ("function" ∷ [])
    && any (str_eq (or_empty (get "name" t))) names

-- `tool_choice`.
unfoldable pub tool_choice : List String → Value → Bool
unfolding is_text text_among chosen_function obj
tool_choice names v =
    if is_text (some v)
    then text_among (some v) ("auto" ∷ "none" ∷ "required" ∷ [])
    else chosen_function names (obj (some v))

message_parts : Option (List Fields) → Bool
unfolding text_part_of
message_parts none = false
message_parts (some ps) =
    all (text_part_of ("input_text" ∷ "output_text" ∷ []) ("type" ∷ "text" ∷ "annotations" ∷ [])) ps

unfoldable pub message : Fields → Bool
unfolding keys text_among is_text message_parts non_empty objects get
message item =
    keys item ("type" ∷ "role" ∷ "content" ∷ "id" ∷ "status" ∷ [])
    && text_among (get "role" item) ("user" ∷ "assistant" ∷ "system" ∷ "developer" ∷ [])
    && (is_text (get "content" item) || message_parts (non_empty (objects (get "content" item))))

unfoldable pub is_document : Decoder → Option String → Bool
unfolding read_object
is_document j none = false
is_document j (some s) = elim (read_object j s) [ ok o ↦ true | err e ↦ false ]

unfoldable pub is_identifier : Option String → Bool
unfolding identifier
is_identifier none = false
is_identifier (some s) = identifier s

unfoldable pub is_declared : List String → Option String → Bool
is_declared names none = false
is_declared names (some s) = any (str_eq s) names

unfoldable pub function_call : Decoder → List String → Fields → Bool
unfolding keys is_identifier is_declared is_document read_text get
function_call j names item =
    keys item ("type" ∷ "id" ∷ "call_id" ∷ "name" ∷ "arguments" ∷ "status" ∷ [])
    && is_identifier (read_text (get "call_id" item))
    && is_declared names (read_text (get "name" item))
    && is_document j (read_text (get "arguments" item))

unfoldable pub function_call_output : Fields → Bool
unfolding keys is_identifier read_text is_text response_text_parts get
function_call_output item =
    keys item ("type" ∷ "id" ∷ "call_id" ∷ "output" ∷ "status" ∷ [])
    && is_identifier (read_text (get "call_id" item))
    && (is_text (get "output" item) || response_text_parts (get "output" item) "input_text")

unfoldable pub reasoning_item : Fields → Bool
unfolding keys optional is_text response_text_parts get
reasoning_item item =
    keys item ("type" ∷ "id" ∷ "summary" ∷ "encrypted_content" ∷ "status" ∷ [])
    && optional (get "encrypted_content" item) (λ v. is_text (some v))
    && optional (get "summary" item) (λ v. response_text_parts (some v) "summary_text")

-- One round of the loop over the items.
unfoldable pub response_item : Decoder → List String → Fields → Bool
unfolding or_empty get message function_call function_call_output reasoning_item
response_item j names item =
    let kind = or_empty (get "type" item) in
    if str_eq kind "" || str_eq kind "message"
    then message item
    else if str_eq kind "function_call"
    then function_call j names item
    else if str_eq kind "function_call_output"
    then function_call_output item
    else str_eq kind "reasoning" && reasoning_item item

unfoldable pub response_items : Decoder → List String → Option (List Fields) → Bool
unfolding response_item
response_items j names none = false
response_items j names (some items) = all (response_item j names) items

-- `input`: a text, or items.
unfoldable pub response_input : Decoder → List String → Option Value → Bool
unfolding is_text response_items non_empty objects
response_input j names v = is_text v || response_items j names (non_empty (objects v))

-- A value that names a response before this one.
unfoldable pub is_previous : Value → Bool
is_previous null = false
is_previous (text raw s) = not (str_eq raw "")
is_previous other = true

unfoldable pub names_previous : Option Value → Bool
unfolding is_previous
names_previous none = false
names_previous (some v) = is_previous v

is_false : Value → Bool
is_false (boolean b) = not b
is_false other = false

unfoldable pub foreground : Option Value → Bool
unfolding non_null is_false
foreground v = non_null v is_false

abbrev pub response_keys : List String
response_keys =
    "model" ∷ "input" ∷ "instructions" ∷ "stream" ∷ "store" ∷ "service_tier" ∷ "tools"
    ∷ "tool_choice" ∷ "parallel_tool_calls" ∷ "reasoning" ∷ "max_output_tokens" ∷ "temperature"
    ∷ "top_p" ∷ "metadata" ∷ "user" ∷ "prompt_cache_key" ∷ "session_id" ∷ "conversation_id"
    ∷ "previous_response_id" ∷ "truncation" ∷ "background" ∷ "text" ∷ "include" ∷ []

unfoldable pub known_tier : Option Value → Bool
unfolding non_null text_among
known_tier v = non_null v (λ w. text_among (some w) ("auto" ∷ "default" ∷ []))

-- What follows the check of `previous_response_id`.
unfoldable pub response_rest : Decoder → Fields → Result Error (Unit {0})
unfolding foreground known_tier response_options function_names non_null tool_choice response_input
    get
response_rest j o = do
  guard (foreground (get "background" o)) unsupported
  guard (known_tier (get "service_tier" o)) unsupported
  guard (response_options j o) unsupported
  names ← or_fail (function_names (get "tools" o)) unsupported
  guard (non_null (get "tool_choice" o) (tool_choice names)) unsupported
  guard (response_input j names (get "input" o)) unsupported

-- `ResponsesRequest`.
unfoldable pub responses_request : Decoder → String → Result Error (Unit {0})
unfolding read_object keys names_previous get response_rest
responses_request j bytes = do
  o ← read_object j bytes
  guard (keys o response_keys) unsupported
  guard (not (names_previous (get "previous_response_id" o))) new_session
  response_rest j o
