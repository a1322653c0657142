-- ===== src/Cpa/Json/Unique.antt =====
-- Lemmas on the documents that `Object` accepts.
use Prim.Native.Nat.{max}
use codex_gateway.Base.{
  le→leb, ok-eq, subst, ℕ, suc, ◌+◌, ◌≤◌, ◌≡◌, ◌↔◌, refl, ap, String, str_eq, Bool, true, false,
  not, ◌&&◌, leb, if◌then◌else◌, Option, none, some, List, [], ◌∷◌, any, ok, err, arith, &&-true,
}
use codex_gateway.Cpa.Json.{
  Value, null, boolean, number, text, array, object, Items, no_item, item, Fields, no_field, field,
  Decoder, unsupported, accepts, accepts_items, accepts_fields, object_of, read_object,
}

-- How many levels lie under a value.
unfoldable mutual
  pub height : Value → ℕ
  height (array xs) = height_items xs
  height (object fs) = height_fields fs
  height _ = 0

  pub height_items : Items → ℕ
  height_items no_item = 0
  height_items (item x xs) = max (suc (height x)) (height_items xs)

  pub height_fields : Fields → ℕ
  height_fields no_field = 0
  height_fields (field name v fs) = max (suc (height v)) (height_fields fs)

-- No member has the name.
pub Fresh : String → Fields → Type 0
Fresh name no_field = Unit
Fresh name (field other v fs) = (str_eq other name ≡ false) × Fresh name fs

-- No object within the value has a key twice.
mutual
  unfolding Fresh

  pub HasUniqueKeys : Value → Type 0
  HasUniqueKeys (array xs) = HaveUniqueKeys xs
  HasUniqueKeys (object fs) = AreUnique fs
  HasUniqueKeys _ = Unit

  pub HaveUniqueKeys : Items → Type 0
  HaveUniqueKeys no_item = Unit
  HaveUniqueKeys (item x xs) = HasUniqueKeys x × HaveUniqueKeys xs

  pub AreUnique : Fields → Type 0
  AreUnique no_field = Unit
  AreUnique (field name v fs) = Fresh name fs × HasUniqueKeys v × AreUnique fs

-- No member has a name that has been seen.
Apart : List String → Fields → Type 0
Apart seen no_field = Unit
Apart seen (field name v fs) = (any (str_eq name) seen ≡ false) × Apart seen fs

Apart-cons :
    (name : String) (seen : List String) (fs : Fields)
    → Apart (name ∷ seen) fs
    → Fresh name fs × Apart seen fs
unfolding Apart Fresh
Apart-cons name seen no_field h = (tt, tt)
Apart-cons name seen (field other v fs) h =
    let (fresh, rest) = Apart-cons name seen fs h.1 in
    ((ground (arith, h.0), fresh), (ground (arith, h.0), rest))

cons-Apart :
    (name : String) (seen : List String) (fs : Fields)
    → Fresh name fs
    → Apart seen fs
    → Apart (name ∷ seen) fs
unfolding Apart Fresh
cons-Apart name seen no_field h k = tt
cons-Apart name seen (field other v fs) h k =
    (ground (arith, h.0, k.0), cons-Apart name seen fs h.1 k.1)

Apart-none : (fs : Fields) → Apart [] fs
unfolding Apart
Apart-none no_field = tt
Apart-none (field name v fs) = (refl, Apart-none fs)

both : {a b : Bool} → a ≡ true → b ≡ true → (a && b) ≡ true
both h k = ground (arith, h, k)

-- Accepted values are within the depth and have unique keys.
mutual
  unfolding accepts height HasUniqueKeys Apart

  accepted : (d : ℕ) (v : Value) → accepts d v ≡ true → (d + height v ≤ 64) × HasUniqueKeys v
  accepted d null h = (ground arith, tt)
  accepted d (boolean b) h = (ground arith, tt)
  accepted d (number n) h = (ground arith, tt)
  accepted d (text raw s) h = (ground arith, tt)
  accepted d (array xs) h =
      let (low, rest) = &&-true (leb d 64) (accepts_items d xs) h in
      accepted_items d xs (ground arith) rest
  accepted d (object fs) h =
      let (low, rest) = &&-true (leb d 64) (accepts_fields d [] fs) h in
      let (fits, _, keys) = accepted_fields d [] fs (ground arith) rest in (fits, keys)

  accepted_items :
      (d : ℕ) (xs : Items)
      → d ≤ 64
      → accepts_items d xs ≡ true
      → (d + height_items xs ≤ 64) × HaveUniqueKeys xs
  accepted_items d no_item low h = (omega arith, tt)
  accepted_items d (item x xs) low h =
      let (first, rest) = &&-true (accepts (suc d) x) (accepts_items d xs) h in
      let (fits, keys) = accepted (suc d) x first in
      let (fit, others) = accepted_items d xs low rest in (omega (arith, fits, fit), (keys, others))

  accepted_fields :
      (d : ℕ) (seen : List String) (fs : Fields)
      → d ≤ 64
      → accepts_fields d seen fs ≡ true
      → (d + height_fields fs ≤ 64) × Apart seen fs × AreUnique fs
  accepted_fields d seen no_field low h = (omega arith, tt, tt)
  accepted_fields d seen (field name v fs) low h =
      let (new, h1) =
        &&-true (not (any (str_eq name) seen))
          (accepts (suc d) v && accepts_fields d (name ∷ seen) fs) h in
      let (first, rest) = &&-true (accepts (suc d) v) (accepts_fields d (name ∷ seen) fs) h1 in
      let (fits, keys) = accepted (suc d) v first in
      let (fit, apart, others) = accepted_fields d (name ∷ seen) fs low rest in
      let (fresh, apart_seen) = Apart-cons name seen fs apart in
      (omega (arith, fits, fit), (ground arith, apart_seen), (fresh, keys, others))

-- And the other way round.
mutual
  unfolding accepts height HasUniqueKeys Apart

  accepting : (d : ℕ) (v : Value) → d + height v ≤ 64 → HasUniqueKeys v → accepts d v ≡ true
  accepting d null h k = le→leb d 64 (omega (arith, h))
  accepting d (boolean b) h k = le→leb d 64 (omega (arith, h))
  accepting d (number n) h k = le→leb d 64 (omega (arith, h))
  accepting d (text raw s) h k = le→leb d 64 (omega (arith, h))
  accepting d (array xs) h k = both (le→leb d 64 (omega (arith, h))) (accepting_items d xs h k)
  accepting d (object fs) h k =
      both (le→leb d 64 (omega (arith, h))) (accepting_fields d [] fs h (Apart-none fs) k)

  accepting_items :
      (d : ℕ) (xs : Items)
      → d + height_items xs ≤ 64
      → HaveUniqueKeys xs
      → accepts_items d xs ≡ true
  accepting_items d no_item h k = refl
  accepting_items d (item x xs) h k =
      both (accepting (suc d) x (omega (arith, h)) k.0)
        (accepting_items d xs (omega (arith, h)) k.1)

  accepting_fields :
      (d : ℕ) (seen : List String) (fs : Fields)
      → d + height_fields fs ≤ 64
      → Apart seen fs
      → AreUnique fs
      → accepts_fields d seen fs ≡ true
  accepting_fields d seen no_field h a k = refl
  accepting_fields d seen (field name v fs) h a k = both (ap not a.0) (
      both (accepting (suc d) v (omega (arith, h)) k.1) (
        accepting_fields d (name ∷ seen) fs (omega (arith, h)) (cons-Apart name seen fs k.0 a.1)
          k.2))

if_ok :
    (b : Bool) (gs fs : Fields)
    → (if b then ok gs else err unsupported) ≡ ok fs
    → (b ≡ true) × (gs ≡ fs)
if_ok true gs fs h = (refl, ok-eq h)
if_ok false gs fs h = cc

object_of-ok :
    (o : Option Value) (fs : Fields)
    → object_of o ≡ ok fs
    → (o ≡ some (object fs)) × (accepts 0 (object fs) ≡ true)
unfolding object_of
object_of-ok (some (object gs)) fs h =
    let (good, same) = if_ok (accepts 0 (object gs)) gs fs h in
    (
      ap (λ (x : Fields). some (object x)) same,
      subst (λ (x : Fields). accepts 0 (object x) ≡ true) same good,
    )
object_of-ok none fs h = cc
object_of-ok (some null) fs h = cc
object_of-ok (some (boolean b)) fs h = cc
object_of-ok (some (number n)) fs h = cc
object_of-ok (some (text raw s)) fs h = cc
object_of-ok (some (array xs)) fs h = cc

ok-object_of :
    (o : Option Value) (fs : Fields)
    → o ≡ some (object fs)
    → accepts 0 (object fs) ≡ true
    → object_of o ≡ ok fs
unfolding object_of
ok-object_of o fs e h = rw (e, object_of, h) refl

-- Object accepts exactly the documents that are an object of at most 64 levels in which no object has
-- a key twice.
pub read_object_unique :
    (j : Decoder) (bytes : String) (fs : Fields)
    → (read_object j bytes ≡ ok fs)
      ↔ (j.document bytes ≡ some (object fs))
        × (height (object fs) ≤ 64)
        × HasUniqueKeys (object fs)
unfolding read_object
read_object_unique j bytes fs = (
  λ h.
      let (found, good) = object_of-ok (j.document bytes) fs h in
      let (low, keys) = accepted 0 (object fs) good in (found, omega (arith, low), keys),
  λ h. ok-object_of (j.document bytes) fs h.0 (accepting 0 (object fs) (omega (arith, h.1)) h.2),
)
