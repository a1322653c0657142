-- ===== src/Cpa/Gemini/Events.antt =====
-- What a conversation is meant to be: calls and responses as steps on the set of open calls.
use codex_gateway.Base.{
  ◌≡◌, String, str_eq, Bool, true, false, if◌then◌else◌, Option, none, some, List, [], ◌∷◌, ◌++◌,
  any,
}
use codex_gateway.Cpa.Json.{Fields}
use codex_gateway.Cpa.Read.{get, has, obj, read_text, objects}
use codex_gateway.Cpa.Gemini.{non_empty, declared}
use codex_gateway.Cpa.Gemini.Turns.{is_signed}

-- What a part of the conversation does: a call or a response, with its id and name.
pub data Event : Type 0 where
  call response : String → String → Event

-- The open calls: under an id the name of the call, and "" where none is open.
abbrev pub Open : Type 0
Open = String → String

abbrev pub update : String → String → Open → Open
update id name open_calls other = if str_eq id other then name else open_calls other

abbrev pub no_call : Open
no_call id = ""

-- A call takes an id under which none is open and a name that is declared; a response answers the call
-- that is open under its id, and has that call's name. No name is "", which stands for no call.
pub data Step (names : List String) : Open → Event → Open → Type 0 where
  opened :
      (o : Open) (id name : String)
      → str_eq name "" ≡ false
      → any (str_eq name) names ≡ true
      → o id ≡ ""
      → Step names o (call id name) (update id name o)
  closed :
      (o : Open) (id name : String)
      → str_eq name "" ≡ false
      → o id ≡ name
      → Step names o (response id name) (update id "" o)

pub data Run (names : List String) : Open → List Event → Open → Type 0 where
  done : (o : Open) → Run names o [] o
  step :
      (a b c : Open) (e : Event) (es : List Event)
      → Step names a e b
      → Run names b es c
      → Run names a (e ∷ es) c

-- The id and the name that an object of a call or response shows.
abbrev pub or_else : String → Option String → String
or_else s none = s
or_else s (some t) = t

unfoldable pub key_of : Option Fields → String × String
unfolding get read_text
key_of none = ("", "")
key_of (some f) =
    let name = or_else "" (read_text (get "name" f)) in
    (or_else name (read_text (get "id" f)), name)

-- The events of a part, of the parts of a turn, and of the turns.
unfoldable pub events_of_part : Fields → List Event
unfolding has get obj key_of
events_of_part p =
    let called = key_of (obj (get "functionCall" p)) in
    let answer = key_of (obj (get "functionResponse" p)) in
    if has "functionCall" p
    then call called.0 called.1 ∷ []
    else if has "functionResponse" p
    then response answer.0 answer.1 ∷ []
    else []

unfoldable pub events_of_parts : List Fields → List Event
unfolding events_of_part
events_of_parts [] = []
events_of_parts (p ∷ ps) = events_of_part p ++ events_of_parts ps

unfoldable pub parts_of : Fields → List Fields
unfolding objects get non_empty
parts_of content = elim (non_empty (objects (get "parts" content))) [
  | none ↦ []
  | some parts ↦ parts
]

unfoldable pub events : List Fields → List Event
unfolding parts_of
events [] = []
events (c ∷ cs) = events_of_parts (parts_of c) ++ events cs

-- The first call of a turn has a signature.
unfoldable pub is_first_signed : List Fields → Bool
unfolding has get is_signed read_text
is_first_signed [] = true
is_first_signed (p ∷ ps) =
    let rest = is_first_signed ps in
    if has "functionCall" p then is_signed (read_text (get "thoughtSignature" p)) else rest

-- The names that a document's tools declare, and its turns.
unfoldable pub declared_names : Fields → List String
unfolding declared get
declared_names o = elim (declared (get "tools" o)) [ none ↦ [] | some names ↦ names ]

unfoldable pub contents_of : Fields → List Fields
unfolding non_empty objects get
contents_of o = elim (non_empty (objects (get "contents" o))) [ none ↦ [] | some cs ↦ cs ]
