-- ===== src/Cpa/Names.antt =====
-- The names that an accepted request declares.
use codex_gateway.Base.{
  ◌≤◌, ◌≡◌, String, str_eq, Bool, true, false, not, ◌&&◌, leb, Option, none, some, List, [], ◌∷◌,
  any, codes, arith, Bool-cases, Option-cases, inl, inr, subst, some-eq, &&-true,
}
use codex_gateway.Cpa.Json.{Value, Fields}
use codex_gateway.Cpa.Read.{
  get, keys, read_text, identifier, byte_length, Decoded, failed, null_slice, slice, objects,
  declaration, declaration_keys, declaration_rest, named, is_new_name, text_among,
}
use codex_gateway.Cpa.Gemini.{
  non_empty, declare_all, declare_some, declare_tool, declare_tools, declare_slice, declared,
}
use codex_gateway.Cpa.Responses.{
  declare_function, declare_functions, function_slice, function_names,
}

-- Each name is an identifier of at most 64 bytes, and none stands there twice.
pub AreNames : List String → Type 0
AreNames [] = Unit
AreNames (name ∷ names) =
    (identifier name ≡ true)
    × (byte_length (codes name) ≤ 64)
    × (any (str_eq name) names ≡ false)
    × AreNames names

is_new_name-lem :
    (names : List String) (name : String)
    → is_new_name names name ≡ true
    → (identifier name ≡ true) × (byte_length (codes name) ≤ 64) × (any (str_eq name) names ≡ false)
unfolding is_new_name
is_new_name-lem names name h =
    let (pair, new) =
      &&-true (identifier name && leb (byte_length (codes name)) 64) (not (any (str_eq name) names))
        h in
    let (good, short) = &&-true (identifier name) (leb (byte_length (codes name)) 64) pair in
    (good, ground (arith, short), ground (arith, new))

named-AreNames :
    (o : Fields) (names more : List String) (responses : Bool) (name : Option String)
    → AreNames names
    → named o names responses name ≡ some more
    → AreNames more
unfolding named AreNames
named-AreNames o names more responses none k h = cc
named-AreNames o names more responses (some name) k h =
    elim (Bool-cases (is_new_name names name && declaration_rest o responses)) [
      | inl e ↦
          let (new, _) = &&-true (is_new_name names name) (declaration_rest o responses) e in
          let (good, short, apart) = is_new_name-lem names name new in
          subst AreNames (some-eq (rw e at h)) (good, short, apart, k)
      | inr e ↦ absurd (ground (arith, rw e at h))
    ]

declaration-AreNames :
    (o : Fields) (names more : List String) (responses : Bool)
    → AreNames names
    → declaration o names responses ≡ some more
    → AreNames more
unfolding declaration
declaration-AreNames o names more responses k h = elim (Bool-cases (keys o declaration_keys)) [
  | inl e ↦ named-AreNames o names more responses (read_text (get "name" o)) k (rw e at h)
  | inr e ↦ absurd (ground (arith, rw e at h))
]

declare_all-AreNames :
    (fs : List Fields) (names more : List String)
    → AreNames names
    → declare_all fs names ≡ some more
    → AreNames more
unfolding declare_all
declare_all-AreNames [] names more k h = subst AreNames (some-eq h) k
declare_all-AreNames (f ∷ fs) names more k h = elim (Option-cases (declaration f names false)) [
  | inl e ↦ absurd (ground (arith, rw (declare_all, e) at h))
  | inr (next, e) ↦
      declare_all-AreNames fs next more (declaration-AreNames f names next false k e)
        (rw (declare_all, e) at h)
]

declare_some-AreNames :
    (fs : Option (List Fields)) (names more : List String)
    → AreNames names
    → declare_some fs names ≡ some more
    → AreNames more
unfolding declare_some
declare_some-AreNames none names more k h = cc
declare_some-AreNames (some fs) names more k h = declare_all-AreNames fs names more k h

declare_tool-AreNames :
    (t : Fields) (names more : List String)
    → AreNames names
    → declare_tool t names ≡ some more
    → AreNames more
unfolding declare_tool
declare_tool-AreNames t names more k h = elim (Bool-cases (keys t ("functionDeclarations" ∷ []))) [
  | inl e ↦
      declare_some-AreNames (non_empty (objects (get "functionDeclarations" t))) names more k
        (rw e at h)
  | inr e ↦ absurd (ground (arith, rw e at h))
]

declare_tools-AreNames :
    (ts : List Fields) (names more : List String)
    → AreNames names
    → declare_tools ts names ≡ some more
    → AreNames more
unfolding declare_tools
declare_tools-AreNames [] names more k h = subst AreNames (some-eq h) k
declare_tools-AreNames (t ∷ ts) names more k h = elim (Option-cases (declare_tool t names)) [
  | inl e ↦ absurd (ground (arith, rw (declare_tools, e) at h))
  | inr (next, e) ↦
      declare_tools-AreNames ts next more (declare_tool-AreNames t names next k e)
        (rw (declare_tools, e) at h)
]

declare_slice-AreNames :
    (ts : Decoded Fields) (names : List String) → declare_slice ts ≡ some names → AreNames names
unfolding declare_slice AreNames
declare_slice-AreNames failed names h = cc
declare_slice-AreNames null_slice names h = cc
declare_slice-AreNames (slice ts) names h = declare_tools-AreNames ts [] names tt h

-- The names that the tools of a Gemini request declare are identifiers of at most 64 bytes and differ,
-- where the tools are accepted.
pub declared-AreNames :
    (tools : Option Value) (names : List String) → declared tools ≡ some names → AreNames names
unfolding declared AreNames
declared-AreNames none names h = subst AreNames (some-eq h) tt
declared-AreNames (some v) names h = declare_slice-AreNames (objects (some v)) names h

declare_function-AreNames :
    (t : Fields) (names more : List String)
    → AreNames names
    → declare_function t names ≡ some more
    → AreNames more
unfolding declare_function
declare_function-AreNames t names more k h =
    elim (Bool-cases (text_among (get "type" t) ("function" ∷ []))) [
      | inl e ↦ declaration-AreNames t names more true k (rw e at h)
      | inr e ↦ absurd (ground (arith, rw e at h))
    ]

declare_functions-AreNames :
    (ts : List Fields) (names more : List String)
    → AreNames names
    → declare_functions ts names ≡ some more
    → AreNames more
unfolding declare_functions
declare_functions-AreNames [] names more k h = subst AreNames (some-eq h) k
declare_functions-AreNames (t ∷ ts) names more k h =
    elim (Option-cases (declare_function t names)) [
      | inl e ↦ absurd (ground (arith, rw (declare_functions, e) at h))
      | inr (next, e) ↦
          declare_functions-AreNames ts next more (declare_function-AreNames t names next k e)
            (rw (declare_functions, e) at h)
    ]

function_slice-AreNames :
    (ts : Decoded Fields) (names : List String) → function_slice ts ≡ some names → AreNames names
unfolding function_slice AreNames
function_slice-AreNames failed names h = cc
function_slice-AreNames null_slice names h = subst AreNames (some-eq h) tt
function_slice-AreNames (slice ts) names h = declare_functions-AreNames ts [] names tt h

pub function_names-AreNames :
    (tools : Option Value) (names : List String)
    → function_names tools ≡ some names
    → AreNames names
unfolding function_names
function_names-AreNames none names h = subst AreNames (some-eq h) (unfold AreNames in tt)
function_names-AreNames (some v) names h = function_slice-AreNames (objects (some v)) names h
