-- ===== src/Cpa/Responses/Options.antt =====
-- `responseOptions` of internal/cpaprotocol/request.go: the controls of a request, as one test, since each
-- check returns the same error.
use codex_gateway.Base.{
  ℕ, suc, String, str_eq, Bool, true, false, not, ◌||◌, ◌&&◌, leb, Option, none, some, List, [],
  ◌∷◌, all, codes,
}
use codex_gateway.Base.Int.{pos}
use codex_gateway.Cpa.Json.{Value, Fields, no_field, field, Decoder}
use codex_gateway.Cpa.Read.{
  get, obj, read_text, is_text, is_object, keys, is_boolean, integer, is_number, identifier,
  byte_length, Decoded, slice, texts, optional, text_among, non_null,
}

all_members : List String → Fields → (Value → Bool) → Bool
unfolding non_null get
all_members [] o test = true
all_members (name ∷ names) o test = non_null (get name o) test && all_members names o test

reasoning_object : Option Fields → Bool
unfolding keys non_null text_among get
reasoning_object none = false
reasoning_object (some r) =
    keys r ("effort" ∷ "summary" ∷ [])
    && non_null (get "effort" r)
        (λ v. text_among (some v) ("none" ∷ "minimal" ∷ "low" ∷ "medium" ∷ "high" ∷ "xhigh" ∷ []))
    && non_null (get "summary" r) (λ v. text_among (some v) ("auto" ∷ "concise" ∷ "detailed" ∷ []))

text_within : ℕ → Option String → Bool
unfolding byte_length
text_within most none = false
text_within most (some s) = leb (byte_length (codes s)) most

metadata_members : Fields → Bool
unfolding text_within read_text byte_length
metadata_members no_field = true
metadata_members (field key v fs) =
    text_within 512 (read_text (some v)) && leb (byte_length (codes key)) 64 && metadata_members fs

field_count : Fields → ℕ
field_count no_field = 0
field_count (field key v fs) = suc (field_count fs)

metadata : Option Fields → Bool
unfolding metadata_members field_count
metadata none = false
metadata (some m) = leb (field_count m) 16 && metadata_members m

includes : Decoded String → Bool
includes (slice names) =
    all
      (λ (s : String).
        str_eq s "reasoning.encrypted_content" || str_eq s "message.output_text.logprobs")
      names
includes other = false

named_schema : Fields → Bool
unfolding read_text identifier is_object get
named_schema f = elim (read_text (get "name" f)) [
  | none ↦ false
  | some name ↦ identifier name && is_object (get "schema" f)
]

format_object : Option Fields → Bool
unfolding keys text_among named_schema non_null is_boolean optional is_text get
format_object none = false
format_object (some f) =
    keys f ("type" ∷ "name" ∷ "description" ∷ "schema" ∷ "strict" ∷ [])
    && text_among (get "type" f) ("text" ∷ "json_object" ∷ "json_schema" ∷ [])
    && (not (text_among (get "type" f) ("json_schema" ∷ [])) || named_schema f)
    && non_null (get "strict" f) is_boolean
    && optional (get "description" f) (λ v. is_text (some v))

text_object : Option Fields → Bool
unfolding keys optional text_among format_object obj get
text_object none = false
text_object (some t) =
    keys t ("format" ∷ "verbosity" ∷ [])
    && optional (get "verbosity" t) (λ v. text_among (some v) ("low" ∷ "medium" ∷ "high" ∷ []))
    && optional (get "format" t) (λ v. format_object (obj (some v)))

-- `responseOptions`.
unfoldable pub response_options : Decoder → Fields → Bool
unfolding all_members is_boolean is_text non_null integer is_number text_among reasoning_object
    metadata includes texts text_object obj get
response_options j o =
    all_members ("stream" ∷ "store" ∷ "parallel_tool_calls" ∷ []) o is_boolean
    && all_members
        ("instructions" ∷ "user" ∷ "prompt_cache_key" ∷ "session_id" ∷ "conversation_id" ∷ []) o
        (λ v. is_text (some v))
    && non_null (get "max_output_tokens" o) (λ v. integer j v (pos 1) (pos 1048576))
    && non_null (get "temperature" o) (λ v. is_number j v 0 2)
    && non_null (get "top_p" o) (λ v. is_number j v 0 1)
    && non_null (get "truncation" o) (λ v. text_among (some v) ("auto" ∷ "disabled" ∷ []))
    && non_null (get "reasoning" o) (λ v. reasoning_object (obj (some v)))
    && non_null (get "metadata" o) (λ v. metadata (obj (some v)))
    && non_null (get "include" o) (λ v. includes (texts (some v)))
    && non_null (get "text" o) (λ v. text_object (obj (some v)))
