-- ===== src/Cpa/Examples.antt =====
-- Requests of both protocols, and the theorems on them.
use codex_gateway.Base.{
  ◌≤◌, ◌≡◌, ◌↔◌, refl, String, str_eq, true, false, if◌then◌else◌, Option, none, some, List, [],
  ◌∷◌, ok, err, All,
}
use codex_gateway.Base.Int.{pos}
use codex_gateway.Billing.Decimal.{text_eq, trim_space}
use codex_gateway.Cpa.Json.{
  Value, null, boolean, text, array, object, Items, no_item, item, Fields, no_field, field, Decoder,
  unsupported, new_session, accepts, read_object,
}
use codex_gateway.Cpa.Json.Unique.{height, HasUniqueKeys, read_object_unique}
use codex_gateway.Cpa.Read.{get, is_text}
use codex_gateway.Cpa.Gemini.{declared, declare_tools, declare_tool}
use codex_gateway.Cpa.Gemini.Turns.{gemini_request}
use codex_gateway.Cpa.Gemini.Events.{
  Run, no_call, events, declared_names, contents_of, parts_of, is_first_signed,
}
use codex_gateway.Cpa.Gemini.Conversation.{gemini_request-Run, gemini_request-signed}
use codex_gateway.Cpa.Responses.{responses_request, function_names}
use codex_gateway.Cpa.Responses.Laws.{
  CallsOf, items_of, responses_request-CallsOf, responses_request-new_session,
}
use codex_gateway.Cpa.Responses.Previous.{Continues}
use codex_gateway.Cpa.Names.{AreNames, declared-AreNames}

abbrev plain : String → Value
plain s = text s s

abbrev list_of : List Value → Items
list_of [] = no_item
list_of (v ∷ vs) = item v (list_of vs)

abbrev object_with : List (String × Value) → Fields
object_with [] = no_field
object_with ((key, v) ∷ rest) = field key v (object_with rest)

abbrev weather : Value
weather = object (object_with (("name", plain "weather") ∷ ("parameters", object no_field) ∷ []))

abbrev gemini_tools : Value
gemini_tools =
    array
      (item (object (field "functionDeclarations" (array (item weather no_item)) no_field)) no_item)

abbrev turn : String → List Value → Value
turn role parts =
    object (object_with (("role", plain role) ∷ ("parts", array (list_of parts)) ∷ []))

abbrev asks : String → List (String × Value) → Value
asks id more = object (
    object_with (
      (
        "functionCall",
        object (
            object_with
              (("name", plain "weather") ∷ ("id", plain id) ∷ ("args", object no_field) ∷ [])),
      )
      ∷ more))

abbrev tells : String → Value
tells id = object (
    object_with (
      (
        "functionResponse",
        object (
            object_with
              (("name", plain "weather") ∷ ("id", plain id) ∷ ("response", object no_field) ∷ [])),
      )
      ∷ []))

abbrev conversation : List Value → Fields
conversation turns =
    object_with (("contents", array (list_of turns)) ∷ ("tools", gemini_tools) ∷ [])

abbrev two_calls : Fields
two_calls = conversation (
    turn "user" (object (object_with (("text", plain "hi") ∷ [])) ∷ [])
    ∷ turn "model" (asks "a" (("thoughtSignature", plain "sig") ∷ []) ∷ asks "b" [] ∷ [])
    ∷ turn "user" (tells "b" ∷ tells "a" ∷ [])
    ∷ [])

abbrev unanswered : Fields
unanswered =
    conversation (turn "model" (asks "a" (("thoughtSignature", plain "sig") ∷ []) ∷ []) ∷ [])

abbrev unsigned_call : Fields
unsigned_call = conversation (turn "model" (asks "a" [] ∷ []) ∷ turn "user" (tells "a" ∷ []) ∷ [])

abbrev responses_tools : Value
responses_tools = array (
    list_of (
      object (
        object_with
          (("type", plain "function") ∷ ("name", plain "weather") ∷ ("strict", boolean true) ∷ []))
      ∷ []))

abbrev one_call : Fields
one_call = object_with (
    ("model", plain "m")
    ∷ ("tools", responses_tools)
    ∷ (
      "input",
      array (
          list_of (
            object (
              object_with (
                ("type", plain "function_call")
                ∷ ("call_id", plain "c1")
                ∷ ("name", plain "weather")
                ∷ ("arguments", plain "{}")
                ∷ []))
            ∷ [])),
    )
    ∷ [])

abbrev follow_up : Fields
follow_up = object_with (("previous_response_id", plain "r1") ∷ ("input", plain "hi") ∷ [])

-- A decoder that knows these documents.
abbrev documents : String → Option Value
documents s =
    if str_eq s "two_calls"
    then some (object two_calls)
    else if str_eq s "unanswered"
    then some (object unanswered)
    else if str_eq s "unsigned_call"
    then some (object unsigned_call)
    else if str_eq s "one_call"
    then some (object one_call)
    else if str_eq s "follow_up"
    then some (object follow_up)
    else if str_eq s "{}"
    then some (object no_field)
    else none

abbrev sample : Decoder
sample = record {
  document = documents;
  int64 = λ s. some (pos 1);
  float64_within = λ s low high. true;
}

two_calls_pass : gemini_request sample "two_calls" ≡ ok tt
unfolding gemini_request declare_tools declare_tool text_eq trim_space
two_calls_pass = refl

others_fail :
    (gemini_request sample "unanswered" ≡ err unsupported)
    × (gemini_request sample "unsigned_call" ≡ err new_session)
    × (gemini_request sample "nothing" ≡ err unsupported)
unfolding gemini_request declare_tools declare_tool text_eq trim_space
others_fail = (refl, refl, refl)

one_call_passes : responses_request sample "one_call" ≡ ok tt
unfolding responses_request text_eq trim_space
one_call_passes = refl

repeated_key : accepts 0 (object (field "a" null (field "a" null no_field))) ≡ false
unfolding accepts
repeated_key = refl

read_object_unique_example :
    (read_object sample "one_call" ≡ ok one_call)
    ↔ (documents "one_call" ≡ some (object one_call))
      × (height (object one_call) ≤ 64)
      × HasUniqueKeys (object one_call)
read_object_unique_example = read_object_unique sample "one_call" one_call

gemini_request-Run_example :
    (o : Fields) × (read_object sample "two_calls" ≡ ok o)
    × Run (declared_names o) no_call (events (contents_of o)) no_call
gemini_request-Run_example = gemini_request-Run sample "two_calls" two_calls_pass

gemini_request-signed_example :
    (o : Fields) × (read_object sample "two_calls" ≡ ok o)
    × All (λ (c : Fields). is_first_signed (parts_of c) ≡ true) (contents_of o)
gemini_request-signed_example = gemini_request-signed sample "two_calls" two_calls_pass

one_call_read : read_object sample "one_call" ≡ ok one_call
unfolding read_object
one_call_read = refl

responses_request-CallsOf_example :
    (names : List String) × (function_names (some responses_tools) ≡ some names)
    × AreNames names
    × CallsOf sample names (items_of one_call)
unfolding get is_text
responses_request-CallsOf_example =
    responses_request-CallsOf sample "one_call" one_call one_call_passes one_call_read refl

responses_request-new_session_example :
    (responses_request sample "follow_up" ≡ err new_session) ↔ Continues sample "follow_up"
responses_request-new_session_example = responses_request-new_session sample "follow_up"

follow_up_refused : responses_request sample "follow_up" ≡ err new_session
unfolding responses_request
follow_up_refused = refl

declared-AreNames_example : AreNames ("weather" ∷ [])
unfolding declared declare_tools declare_tool text_eq trim_space
declared-AreNames_example = declared-AreNames (some gemini_tools) ("weather" ∷ []) refl
