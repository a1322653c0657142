-- ===== src/Cpa/Json.antt =====
-- JSON documents and `Object` of internal/cpaprotocol/request.go. The syntax is encoding/json's, whose
-- decoder is an argument: a document is the tree of its tokens, with the members of an object in their
-- order. A number is its literal, and a string stands with the text between its quotes.
pub mod Unique
use codex_gateway.Base.{
  ℕ, suc, ◌+◌, ◌≡◌, refl, String, str_eq, Bool, true, false, not, ◌||◌, ◌&&◌, leb, if◌then◌else◌,
  Option, none, some, List, [], ◌∷◌, any, Result, ok, err,
}
use codex_gateway.Base.Int.{ℤ}

mutual
  pub data Value : Type 0 where
    null : Value
    boolean : Bool → Value
    number : String → Value
    text : String → String → Value
    array : Items → Value
    object : Fields → Value

  pub data Items : Type 0 where
    no_item : Items
    item : Value → Items → Items

  pub data Fields : Type 0 where
    no_field : Fields
    field : String → Value → Fields → Fields

-- What encoding/json makes of bytes: the one document that they are in valid UTF-8, a number's value
-- as an int64, and whether its value as a float64 lies between two integers.
pub record Decoder : Type 0 where
  pub document : String → Option Value
  pub int64 : String → Option ℤ
  pub float64_within : String → ℕ → ℕ → Bool

-- The errors: ErrUnsupported and ErrNewSession.
pub data Error : Type 0 where
  unsupported new_session : Error

-- The recursion of `Object` over the tokens, at a depth and with the keys that the object has shown.
unfoldable mutual
  pub accepts : ℕ → Value → Bool
  accepts depth null = leb depth 64
  accepts depth (boolean b) = leb depth 64
  accepts depth (number n) = leb depth 64
  accepts depth (text raw s) = leb depth 64
  accepts depth (array xs) = leb depth 64 && accepts_items depth xs
  accepts depth (object fs) = leb depth 64 && accepts_fields depth [] fs

  pub accepts_items : ℕ → Items → Bool
  accepts_items depth no_item = true
  accepts_items depth (item x xs) = accepts (suc depth) x && accepts_items depth xs

  pub accepts_fields : ℕ → List String → Fields → Bool
  accepts_fields depth seen no_field = true
  accepts_fields depth seen (field name v fs) =
      not (any (str_eq name) seen)
      && (accepts (suc depth) v && accepts_fields depth (name ∷ seen) fs)

-- `Object` on a document.
unfoldable pub object_of : Option Value → Result Error Fields
unfolding accepts
object_of (some (object fs)) = if accepts 0 (object fs) then ok fs else err unsupported
object_of other = err unsupported

unfoldable pub read_object : Decoder → String → Result Error Fields
unfolding object_of
read_object j bytes = object_of (j.document bytes)
