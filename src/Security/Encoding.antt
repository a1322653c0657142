-- ===== src/Security/Encoding.antt =====
-- What internal/security takes from the standard library: an encoding of bytes as text, a hash and a
-- source of randomness.
use codex_gateway.Base.{
  ℕ, zero, suc, ◌≤◌, ◌≡◌, refl, ap, ◌∙◌, true, ◌&&◌, leb, ◌==◌, if◌then◌else◌, Option, none, some,
  List, [], ◌∷◌, length, take, drop, Text, arith, Bool-cases, inl, inr, some-eq, &&-true, subst,
}
use codex_gateway.Billing.Decimal.{text_eq}
use codex_gateway.Billing.Decimal.Canonical.{text_eq_refl}

-- encoding/base64 or encoding/base32: `EncodeToString`, and `DecodeString` where it returns no error.
pub record Encoding : Type 0 where
  pub encode : List ℕ → Text
  pub decode : Text → Option (List ℕ)

-- The documented behaviour: what is encoded decodes to itself, and so many bytes make so many
-- characters.
pub record IsEncoding (e : Encoding) (bytes characters : ℕ) : Type 0 where
  pub decoded : (b : List ℕ) → e.decode (e.encode b) ≡ some b
  pub sized : (b : List ℕ) → length b ≡ bytes → length (e.encode b) ≡ characters

-- io.ReadFull, of a reader that is the list of the bytes that it will give.
unfoldable pub read_full : ℕ → List ℕ → Option (List ℕ × List ℕ)
read_full n random = if leb n (length random) then some (take n random, drop n random) else none

length-take : {A : Type 0} (n : ℕ) (xs : List A) → n ≤ length xs → length (take n xs) ≡ n
length-take zero xs h = refl
length-take (suc n) [] h = absurd (omega arith)
length-take (suc n) (x ∷ xs) h = ap suc (length-take n xs (omega (arith, h)))

pub read_full-length :
    (n : ℕ) (random b rest : List ℕ) → read_full n random ≡ some (b, rest) → length b ≡ n
unfolding read_full
read_full-length n random b rest h = elim (Bool-cases (leb n (length random))) [
  | inl e ↦
      subst (λ (x : List ℕ × List ℕ). length x.0 ≡ n) (some-eq (rw e at h))
        (length-take n random (ground (arith, e)))
  | inr e ↦ absurd (ground (arith, rw e at h))
]

-- The bytes that a canonical text of so many bytes encodes.
exactly : Encoding → ℕ → Text → Option (List ℕ) → Option (List ℕ)
unfolding text_eq
exactly e n s none = none
exactly e n s (some raw) = if length raw == n && text_eq (e.encode raw) s then some raw else none

unfoldable pub decode_exactly : Encoding → ℕ → Text → Option (List ℕ)
unfolding exactly
decode_exactly e n s = exactly e n s (e.decode s)

pub decode_exactly-encode :
    (e : Encoding) (n k : ℕ) (b : List ℕ)
    → IsEncoding e n k
    → length b ≡ n
    → decode_exactly e n (e.encode b) ≡ some b
unfolding decode_exactly
decode_exactly-encode e n k b laws h =
    let same : (length b == n) ≡ true = ground (arith, h) in
    rw (laws.decoded b, exactly, same, text_eq_refl (e.encode b)) refl

pub text_eq-≡ : (s t : Text) → text_eq s t ≡ true → s ≡ t
unfolding text_eq
text_eq-≡ [] [] h = refl
text_eq-≡ [] (d ∷ t) h = cc
text_eq-≡ (c ∷ s) [] h = cc
text_eq-≡ (c ∷ s) (d ∷ t) h =
    let (first, rest) = &&-true (c == d) (text_eq s t) h in
    ap (λ (n : ℕ). n ∷ s) {y = d} (ground arith) ∙ ap (λ (u : Text). d ∷ u) (text_eq-≡ s t rest)

exactly-some :
    (e : Encoding) (n : ℕ) (s : Text) (raw : Option (List ℕ)) (b : List ℕ)
    → exactly e n s raw ≡ some b
    → (e.encode b ≡ s) × (length b ≡ n)
unfolding exactly
exactly-some e n s none b h = cc
exactly-some e n s (some raw) b h =
    elim (Bool-cases (length raw == n && text_eq (e.encode raw) s)) [
      | inl good ↦
          let (size, same) = &&-true (length raw == n) (text_eq (e.encode raw) s) good in
          subst (λ (x : List ℕ). (e.encode x ≡ s) × (length x ≡ n)) (some-eq (rw good at h))
            (text_eq-≡ (e.encode raw) s same, ground (arith, size))
      | inr bad ↦ absurd (ground (arith, rw bad at h))
    ]

-- An accepted text is the encoding of its bytes, so that bytes have one accepted text.
pub decode_exactly-some :
    (e : Encoding) (n : ℕ) (s : Text) (b : List ℕ)
    → decode_exactly e n s ≡ some b
    → (e.encode b ≡ s) × (length b ≡ n)
unfolding decode_exactly
decode_exactly-some e n s b h = exactly-some e n s (e.decode s) b h
