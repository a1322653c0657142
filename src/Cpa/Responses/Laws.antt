-- ===== src/Cpa/Responses/Laws.antt =====
-- Lemmas on `ResponsesRequest`.
use codex_gateway.Base.{
  ◌≡◌, ◌↔◌, refl, ap, ◌∙◌, String, str_eq, Bool, true, false, not, ◌||◌, if◌then◌else◌, Option,
  none, some, List, [], ◌∷◌, any, all, All, Result, ok, err, guard, ◌>>◌, ◌>>=◌, or_fail, arith,
  Bool-cases, Result-cases, inl, inr, &&-true, guard_then, guard-ok, or_fail_then,
}
use codex_gateway.Cpa.Json.{
  Value, null, boolean, number, text, array, object, Fields, Decoder, Error, unsupported,
  new_session, accepts, object_of, read_object,
}
use codex_gateway.Cpa.Read.{get, keys, read_text, or_empty, identifier, objects, is_text, non_null}
use codex_gateway.Cpa.Gemini.{non_empty}
use codex_gateway.Cpa.Responses.Options.{response_options}
use codex_gateway.Cpa.Responses.Previous.{
  Continues, keys-All, All-keys, given-names_previous, names_previous-some, names_previous-not_null,
  names_previous-not_empty,
}
use codex_gateway.Cpa.Names.{AreNames, function_names-AreNames}
use codex_gateway.Cpa.Responses.{
  function_names, tool_choice, is_document, is_identifier, is_declared, function_call,
  response_item, response_items, response_input, names_previous, foreground, known_tier,
  response_keys, response_rest, responses_request,
}

-- What the check of a function call grants.
pub record Call (j : Decoder) (names : List String) (item : Fields) : Type 0 where
  pub id : (id : String) × (read_text (get "call_id" item) ≡ some id) × (identifier id ≡ true)
  pub name :
      (name : String) × (read_text (get "name" item) ≡ some name) × (any (str_eq name) names ≡ true)
  pub arguments :
      (s : String) × (args : Fields) × (read_text (get "arguments" item) ≡ some s)
      × (read_object j s ≡ ok args)

is_identifier-some :
    (v : Option String)
    → is_identifier v ≡ true
    → (id : String) × (v ≡ some id) × (identifier id ≡ true)
unfolding is_identifier
is_identifier-some none h = cc
is_identifier-some (some id) h = (id, refl, h)

is_declared-some :
    (names : List String) (v : Option String)
    → is_declared names v ≡ true
    → (name : String) × (v ≡ some name) × (any (str_eq name) names ≡ true)
unfolding is_declared
is_declared-some names none h = cc
is_declared-some names (some name) h = (name, refl, h)

is_document-some :
    (j : Decoder) (v : Option String)
    → is_document j v ≡ true
    → (s : String) × (args : Fields) × (v ≡ some s) × (read_object j s ≡ ok args)
unfolding is_document
is_document-some j none h = cc
is_document-some j (some s) h = elim (Result-cases (read_object j s)) [
  | inl (args, e) ↦ (s, args, refl, e)
  | inr (e, failed) ↦ absurd (ground (arith, rw (is_document, failed) at h))
]

function_call-Call :
    (j : Decoder) (names : List String) (item : Fields)
    → function_call j names item ≡ true
    → Call j names item
unfolding function_call
function_call-Call j names item h =
    let (h1, arguments) = &&-true _ (is_document j (read_text (get "arguments" item))) h in
    let (h2, name) = &&-true _ (is_declared names (read_text (get "name" item))) h1 in
    let (_, id) = &&-true _ (is_identifier (read_text (get "call_id" item))) h2 in
    record {
      id = is_identifier-some (read_text (get "call_id" item)) id;
      name = is_declared-some names (read_text (get "name" item)) name;
      arguments = is_document-some j (read_text (get "arguments" item)) arguments;
    }

by_kind :
    (a b c d : Bool) (kind : String)
    → kind ≡ "function_call"
    → (if str_eq kind "" || str_eq kind "message"
        then a
        else if str_eq kind "function_call"
        then b
        else if str_eq kind "function_call_output"
        then c
        else d)
      ≡ true
    → b ≡ true
by_kind a b c d kind e h = rw e at h

response_item-Call :
    (j : Decoder) (names : List String) (item : Fields)
    → response_item j names item ≡ true
    → or_empty (get "type" item) ≡ "function_call"
    → Call j names item
unfolding response_item
response_item-Call j names item h e =
    function_call-Call j names item (by_kind _ _ _ _ (or_empty (get "type" item)) e h)

-- The items of an input, which may also be a text.
pub items_of : Fields → List Fields
unfolding non_empty objects get
items_of o = elim (non_empty (objects (get "input" o))) [ none ↦ [] | some items ↦ items ]

pub CallsOf : Decoder → List String → List Fields → Type 0
unfolding or_empty get
CallsOf j names items =
    All (λ (item : Fields). or_empty (get "type" item) ≡ "function_call" → Call j names item) items

all-CallsOf :
    (j : Decoder) (names : List String) (items : List Fields)
    → all (response_item j names) items ≡ true
    → CallsOf j names items
unfolding CallsOf
all-CallsOf j names [] h = tt
all-CallsOf j names (item ∷ items) h =
    let (first, rest) =
      &&-true (response_item j names item) (all (response_item j names) items) h in
    (response_item-Call j names item first, all-CallsOf j names items rest)

response_items-CallsOf :
    (j : Decoder) (names : List String) (items : Option (List Fields))
    → response_items j names items ≡ true
    → CallsOf j names (elim items [ none ↦ [] | some xs ↦ xs ])
unfolding response_items
response_items-CallsOf j names none h = cc
response_items-CallsOf j names (some items) h = all-CallsOf j names items h

-- In a Responses request that passes with items for its input, the declared names are identifiers of at
-- most 64 bytes and differ, and each function call has an identifier, names a declared function, and
-- has arguments that Object accepts.
pub responses_request-CallsOf :
    (j : Decoder) (bytes : String) (o : Fields)
    → responses_request j bytes ≡ ok tt
    → read_object j bytes ≡ ok o
    → is_text (get "input" o) ≡ false
    → (names : List String) × (function_names (get "tools" o) ≡ some names)
      × AreNames names
      × CallsOf j names (items_of o)
unfolding responses_request response_rest response_input items_of
responses_request-CallsOf j bytes o h found listed =
    let h1 = rw found at h in
    let (_, h2) = guard_then (keys o response_keys) unsupported h1 in
    let (_, h3) = guard_then (not (names_previous (get "previous_response_id" o))) new_session h2 in
    let (_, h4) = guard_then (foreground (get "background" o)) unsupported h3 in
    let (_, h5) = guard_then (known_tier (get "service_tier" o)) unsupported h4 in
    let (_, h6) = guard_then (response_options j o) unsupported h5 in
    let (names, declared, h7) = or_fail_then (function_names (get "tools" o)) unsupported h6 in
    let (_, h8) = guard_then (non_null (get "tool_choice" o) (tool_choice names)) unsupported h7 in
    let input = guard-ok (response_input j names (get "input" o)) unsupported h8 in
    (
      names,
      declared,
      function_names-AreNames (get "tools" o) names declared,
      response_items-CallsOf j names (non_empty (objects (get "input" o))) (rw listed at input),
    )

-- A result that does not ask for a new session.
abbrev Keeps : Result Error (Unit {0}) → Type 0
Keeps r = r ≡ err new_session → ⊥

guard-Keeps :
    (b : Bool) (rest : Result Error (Unit {0})) → Keeps rest → Keeps (guard b unsupported >> rest)
guard-Keeps true rest k = k
guard-Keeps false rest k = λ h. cc

last-Keeps : (b : Bool) → Keeps (guard b unsupported)
last-Keeps true = λ h. cc
last-Keeps false = λ h. cc

or_fail-Keeps :
    (o : Option (List String)) (rest : List String → Result Error (Unit {0}))
    → ((names : List String) → Keeps (rest names))
    → Keeps (or_fail o unsupported >>= rest)
or_fail-Keeps none rest k = λ h. cc
or_fail-Keeps (some names) rest k = k names

response_rest-Keeps : (j : Decoder) (o : Fields) → Keeps (response_rest j o)
unfolding response_rest
response_rest-Keeps j o = guard-Keeps (foreground (get "background" o)) _ (
    guard-Keeps (known_tier (get "service_tier" o)) _ (
      guard-Keeps (response_options j o) _ (
        or_fail-Keeps (function_names (get "tools" o)) _ (λ names.
          guard-Keeps (non_null (get "tool_choice" o) (tool_choice names)) _
            (last-Keeps (response_input j names (get "input" o)))))))

if_unsupported :
    (b : Bool) (fs : Fields) (e : Error)
    → ◌≡◌ {A = Result Error Fields} (if b then ok fs else err unsupported) (err e)
    → e ≡ unsupported
if_unsupported true fs e h = cc
if_unsupported false fs e h = cc

object_of-unsupported : (v : Option Value) (e : Error) → object_of v ≡ err e → e ≡ unsupported
unfolding object_of
object_of-unsupported none e h = cc
object_of-unsupported (some null) e h = cc
object_of-unsupported (some (boolean b)) e h = cc
object_of-unsupported (some (number n)) e h = cc
object_of-unsupported (some (text raw s)) e h = cc
object_of-unsupported (some (array xs)) e h = cc
object_of-unsupported (some (object fs)) e h = if_unsupported (accepts 0 (object fs)) fs e h

Continues-new_session :
    (j : Decoder) (bytes : String) → Continues j bytes → responses_request j bytes ≡ err new_session
unfolding responses_request
Continues-new_session j bytes c =
    rw
      (
        responses_request,
        c.found,
        All-keys c.request response_keys c.known,
        c.present,
        given-names_previous c.value c.not_null c.not_empty,
      )
      refl

not_both :
    (e : Error) → ◌≡◌ {A = Result Error (Unit {0})} (err e) (err new_session) → e ≡ unsupported → ⊥
not_both unsupported h k = cc
not_both new_session h k = cc

new_session-Continues :
    (j : Decoder) (bytes : String) → responses_request j bytes ≡ err new_session → Continues j bytes
unfolding responses_request read_object
new_session-Continues j bytes h = elim (Result-cases (read_object j bytes)) [
  | inr (e, failed) ↦
      absurd (not_both e (rw failed at h) (object_of-unsupported (j.document bytes) e failed))
  | inl (o, found) ↦ elim (Bool-cases (keys o response_keys)) [
    | inr e ↦ absurd (last-Keeps false (rw (found, e) at h))
    | inl known ↦ elim (Bool-cases (names_previous (get "previous_response_id" o))) [
      | inl previous ↦
          let given = get "previous_response_id" o in
          let (v, present) = names_previous-some given previous in
          record {
            request = o;
            found = found;
            known = keys-All o response_keys known;
            value = v;
            present = present;
            not_null = λ e. names_previous-not_null given previous (present ∙ ap some e);
            not_empty = λ s e. names_previous-not_empty given s previous (present ∙ ap some e);
          }
      | inr e ↦ absurd (response_rest-Keeps j o (rw (found, known, e) at h))
    ]
  ]
]

-- ResponsesRequest asks for a new session exactly where the document is accepted, has known keys only
-- and has a previous_response_id that is neither null nor the empty text.
pub responses_request-new_session :
    (j : Decoder) (bytes : String)
    → (responses_request j bytes ≡ err new_session) ↔ Continues j bytes
responses_request-new_session j bytes =
    (new_session-Continues j bytes, Continues-new_session j bytes)
