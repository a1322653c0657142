-- ===== src/Cpa/Gemini/Turns.antt =====
-- The conversation of `GeminiRequest`: its turns, and the function calls that are still to be answered.
use codex_gateway.Base.{
  ℕ, ◌+◌, String, str_eq, Bool, true, false, not, ◌||◌, ◌&&◌, leb, ◌==◌, if◌then◌else◌, Option,
  none, some, List, [], ◌∷◌, any, Result, ok, err, ◌>>=◌, ◌>>◌, guard, or_fail, codes,
}
use codex_gateway.Cpa.Json.{Value, Fields, Decoder, Error, unsupported, new_session, read_object}
use codex_gateway.Cpa.Read.{
  get, has, obj, read_text, is_text, is_object, keys, is_boolean, byte_length, is_trimmed,
  identifier, objects, optional,
}
use codex_gateway.Cpa.Gemini.{non_empty, declared, tool_config, generation, system_instruction}

-- The calls that wait for their response, each an id and a name; `pending[id]` is "" where none waits.
abbrev pub Pending : Type 0
Pending = List (String × String)

unfoldable pub waiting : String → Pending → String
waiting id [] = ""
waiting id ((key, name) ∷ rest) =
    let later = waiting id rest in if str_eq key id then name else later

-- delete(pending, id): an id stands there at most once.
unfoldable pub answered : String → Pending → Pending
answered id [] = []
answered id ((key, name) ∷ rest) =
    let later = answered id rest in if str_eq key id then rest else (key, name) ∷ later

abbrev pub one : Bool → ℕ
one true = 1
one false = 0

-- How many kinds of content a part has.
unfoldable pub content_count : Fields → ℕ
unfolding has
content_count p = one (has "text" p) + one (has "functionCall" p) + one (has "functionResponse" p)

is_signature : Option String → Bool
unfolding byte_length is_trimmed
is_signature none = false
is_signature (some s) =
    not (str_eq s "") && leb (byte_length (codes s)) 65536 && is_trimmed (codes s)

-- One kind, or in a turn of the model none beside a signature.
unfoldable pub kinds_fit : String → Fields → Bool
unfolding content_count has
kinds_fit role p =
    content_count p == 1
    || content_count p == 0 && (has "thoughtSignature" p && str_eq role "model")

-- The checks of a part before its content.
unfoldable pub part_shape : String → Fields → Bool
unfolding keys kinds_fit optional get is_boolean is_signature read_text
part_shape role p =
    keys p ("text" ∷ "functionCall" ∷ "functionResponse" ∷ "thoughtSignature" ∷ "thought" ∷ [])
    && kinds_fit role p
    && optional (get "thought" p) (λ v. str_eq role "model" && is_boolean v)
    && optional (get "thoughtSignature" p)
        (λ v. is_signature (read_text (some v)) && str_eq role "model")

-- The id of a call or response; without one, its name.
unfoldable pub call_id : String → Option Value → Option String
unfolding read_text
call_id name none = some name
call_id name (some v) = read_text (some v)

-- The name and id of a functionCall or functionResponse whose data stand under `payload`.
unfoldable pub read_function : String → Option Value → Result Error (String × String)
unfolding obj keys get read_text identifier is_object call_id
read_function payload raw = do
  f ← or_fail (obj raw) unsupported
  guard (keys f ("name" ∷ "id" ∷ payload ∷ [])) unsupported
  name ← or_fail (read_text (get "name" f)) unsupported
  guard (identifier name) unsupported
  guard (is_object (get payload f)) unsupported
  id ← or_fail (call_id name (get "id" f)) unsupported
  guard (identifier id) unsupported
  ok (id, name)

-- A signature on the part that may lack one only behind the first call of its turn.
unfoldable pub is_signed : Option String → Bool
is_signed none = false
is_signed (some s) = not (str_eq s "")

-- The rest of a round for a functionCall.
unfoldable pub open_call :
    List String → String → Bool → Option String → Pending → String × String → Result Error Pending
unfolding waiting is_signed
open_call names role first signature pending (id, name) = do
  guard (str_eq role "model" && any (str_eq name) names && str_eq (waiting id pending) "")
      unsupported
  guard (not (first && not (is_signed signature))) new_session
  ok ((id, name) ∷ pending)

-- And for a functionResponse.
unfoldable pub close_call : String → Pending → String × String → Result Error Pending
unfolding waiting answered
close_call role pending (id, name) = do
  guard (str_eq role "user" && str_eq (waiting id pending) name) unsupported
  ok (answered id pending)

-- What is left of the loop over a turn's parts: the calls that wait, and whether the next is the first.
abbrev pub Progress : Type 0
Progress = Pending × Bool

unfoldable pub function_part : List String → String → Fields → Progress → Result Error Progress
unfolding read_function open_call close_call get read_text has
function_part names role p (pending, first) =
    if has "functionCall" p
    then read_function "args" (get "functionCall" p) >>= (λ call.
      open_call names role first (read_text (get "thoughtSignature" p)) pending call
      >>= (λ after. ok (after, false)))
    else read_function "response" (get "functionResponse" p)
      >>= (λ response. close_call role pending response >>= (λ after. ok (after, first)))

unfoldable pub content_part : List String → String → Fields → Progress → Result Error Progress
unfolding has is_text get function_part
content_part names role p progress =
    if has "text" p
    then if is_text (get "text" p) then ok progress else err unsupported
    else function_part names role p progress

-- One round of the loop over the parts.
unfoldable pub check_part : List String → String → Fields → Progress → Result Error Progress
unfolding part_shape content_count content_part
check_part names role p progress = do
  guard (part_shape role p) unsupported
  if content_count p == 0 then ok progress else content_part names role p progress

unfoldable pub check_parts : List String → String → List Fields → Progress → Result Error Progress
unfolding check_part
check_parts names role [] progress = ok progress
check_parts names role (p ∷ ps) progress = do
  after ← check_part names role p progress
  check_parts names role ps after

unfoldable pub role_of : Option Value → Option String
unfolding read_text
role_of none = some "user"
role_of (some v) = read_text (some v)

-- One round of the loop over the contents.
unfoldable pub check_content : List String → Fields → Pending → Result Error Pending
unfolding keys role_of get non_empty objects check_parts
check_content names content pending = do
  guard (keys content ("role" ∷ "parts" ∷ [])) unsupported
  role ← or_fail (role_of (get "role" content)) unsupported
  guard (str_eq role "user" || str_eq role "model") unsupported
  parts ← or_fail (non_empty (objects (get "parts" content))) unsupported
  after ← check_parts names role parts (pending, true)
  ok after.0

unfoldable pub check_contents : List String → List Fields → Pending → Result Error Pending
unfolding check_content
check_contents names [] pending = ok pending
check_contents names (c ∷ cs) pending = do
  after ← check_content names c pending
  check_contents names cs after

unfoldable pub is_answered : Pending → Bool
is_answered [] = true
is_answered (p ∷ ps) = false

abbrev pub gemini_keys : List String
gemini_keys =
    "contents" ∷ "systemInstruction" ∷ "tools" ∷ "toolConfig" ∷ "generationConfig"
    ∷ "safetySettings" ∷ "labels" ∷ []

-- `GeminiRequest`.
unfoldable pub gemini_request : Decoder → String → Result Error (Unit {0})
unfolding read_object keys declared get optional tool_config generation system_instruction non_empty
    objects check_contents is_answered
gemini_request j bytes = do
  o ← read_object j bytes
  guard (keys o gemini_keys) unsupported
  names ← or_fail (declared (get "tools" o)) unsupported
  guard (optional (get "toolConfig" o) (tool_config names)) unsupported
  guard (optional (get "generationConfig" o) (generation j)) unsupported
  guard (optional (get "systemInstruction" o) system_instruction) unsupported
  contents ← or_fail (non_empty (objects (get "contents" o))) unsupported
  pending ← check_contents names contents []
  guard (is_answered pending) unsupported
