-- ===== src/Cpa/Responses/Previous.antt =====
-- What a Responses request that continues an earlier response is meant to be, and lemmas on `keys` and
-- on the check of `previous_response_id`.
use codex_gateway.Base.{
  ◌≡◌, refl, ap, eq_iff, String, str_eq, true, Option, none, some, List, [], ◌∷◌, any, All, ok,
  Bool-cases, inl, inr, &&-true,
}
use codex_gateway.Cpa.Json.{
  Value, null, boolean, number, text, array, object, Fields, no_field, field, Decoder, read_object,
}
use codex_gateway.Cpa.Read.{get, keys}
use codex_gateway.Cpa.Responses.{is_previous, names_previous, response_keys}

-- The keys of an object's members.
unfoldable pub member_keys : Fields → List String
member_keys no_field = []
member_keys (field key v fs) = key ∷ member_keys fs

-- A document that is accepted and has listed keys only, and whose `previous_response_id` has a value
-- that is neither null nor written "".
pub record Continues (j : Decoder) (bytes : String) : Type 0 where
  pub request : Fields
  pub found : read_object j bytes ≡ ok request
  pub known : All (λ (key : String). any (str_eq key) response_keys ≡ true) (member_keys request)
  pub value : Value
  pub present : get "previous_response_id" request ≡ some value
  pub not_null : value ≡ null → ⊥
  pub not_empty : (s : String) → value ≡ text "" s → ⊥

pub keys-All :
    (fs : Fields) (names : List String)
    → keys fs names ≡ true
    → All (λ (key : String). any (str_eq key) names ≡ true) (member_keys fs)
unfolding keys member_keys
keys-All no_field names h = tt
keys-All (field key v fs) names h =
    let (listed, rest) = &&-true (any (str_eq key) names) (keys fs names) h in
    (listed, keys-All fs names rest)

pub All-keys :
    (fs : Fields) (names : List String)
    → All (λ (key : String). any (str_eq key) names ≡ true) (member_keys fs)
    → keys fs names ≡ true
unfolding keys member_keys
All-keys no_field names h = refl
All-keys (field key v fs) names h = rw (h.0, All-keys fs names h.1) refl

pub given-names_previous :
    (v : Value)
    → (v ≡ null → ⊥)
    → ((s : String) → v ≡ text "" s → ⊥)
    → names_previous (some v) ≡ true
unfolding names_previous is_previous
given-names_previous null h k = absurd (h refl)
given-names_previous (boolean b) h k = refl
given-names_previous (number n) h k = refl
given-names_previous (text raw s) h k = elim (Bool-cases (str_eq raw "")) [
  | inl e ↦ absurd (k s (ap (λ (x : String). text x s) ((eq_iff raw "").0 e)))
  | inr e ↦ rw e refl
]
given-names_previous (array xs) h k = refl
given-names_previous (object fs) h k = refl

pub names_previous-some : (o : Option Value) → names_previous o ≡ true → (v : Value) × (o ≡ some v)
unfolding names_previous
names_previous-some none h = cc
names_previous-some (some v) h = (v, refl)

pub names_previous-not_null : (o : Option Value) → names_previous o ≡ true → o ≡ some null → ⊥
unfolding names_previous is_previous
names_previous-not_null o h e = cc (rw e at h)

pub names_previous-not_empty :
    (o : Option Value) (s : String) → names_previous o ≡ true → o ≡ some (text "" s) → ⊥
unfolding names_previous is_previous
names_previous-not_empty o s h e = cc (rw e at h)
