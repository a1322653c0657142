-- ===== src/Config/Pricing/Reason.antt =====
-- `AppendFallbackReason`: the reasons of a decision, sorted and each once, in one text.
use codex_gateway.Base.{ℕ, ◌==◌, if◌then◌else◌, List, [], ◌∷◌, ◌++◌, Text}
use codex_gateway.Billing.Decimal.{text_eq}
use codex_gateway.Limit.Daily.{text_lt}

-- strings.Split and strings.Join at commas, without the empty pieces of a split.
cons_piece : ℕ → List Text → List Text
cons_piece c [] = (c ∷ []) ∷ []
cons_piece c (p ∷ ps) = (c ∷ p) ∷ ps

unfoldable pub split_comma : Text → List Text
unfolding cons_piece
split_comma [] = [] ∷ []
split_comma (c ∷ s) = let rest = split_comma s in if c == b',' then [] ∷ rest else cons_piece c rest

unfoldable pub join_comma : List Text → Text
join_comma [] = []
join_comma (p ∷ []) = p
join_comma (p ∷ q ∷ ps) = p ++ b',' ∷ join_comma (q ∷ ps)

-- A set of texts, kept as the sorted list of its members.
unfoldable pub insert_text : Text → List Text → List Text
insert_text t [] = t ∷ []
insert_text t (u ∷ us) =
    let rest = insert_text t us in
    if text_eq t u then u ∷ us else if text_lt t u then t ∷ u ∷ us else u ∷ rest

insert_piece : Text → List Text → List Text
insert_piece [] set = set
insert_piece (c ∷ s) set = insert_text (c ∷ s) set

unfoldable pub insert_pieces : List Text → List Text → List Text
unfolding insert_piece
insert_pieces [] set = set
insert_pieces (p ∷ ps) set = insert_pieces ps (insert_piece p set)

-- `AppendFallbackReason`.
unfoldable pub append_fallback_reason : Text → Text → Text
append_fallback_reason existing [] = existing
append_fallback_reason existing (c ∷ s) =
    join_comma (insert_text (c ∷ s) (insert_pieces (split_comma existing) []))
