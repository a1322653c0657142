-- ===== src/Cpa/Gemini/Calls.antt =====
-- Lemmas on the round of one part of a turn.
use codex_gateway.Base.{
  ◌+◌, ◌≡◌, refl, sym, ap, ◌∙◌, fun_ext, String, str_eq, eq_iff, Bool, true, false, not, ◌||◌, ◌&&◌,
  ◌==◌, Option, none, some, List, [], ◌∷◌, any, Result, ok, ok-eq, guard_then, or_fail_then,
  >>=-eq-ok, &&-true, Bool-cases, inl, inr, subst, arith, some-eq,
}
use codex_gateway.Billing.Decimal.{text_eq}
use codex_gateway.Cpa.Json.{Value, Fields, Error, unsupported, new_session}
use codex_gateway.Cpa.Read.{get, has, obj, read_text, keys, identifier, is_object}
use codex_gateway.Cpa.Gemini.Turns.{
  Pending, waiting, answered, Progress, read_function, call_id, open_call, close_call,
  function_part, is_signed, one,
}
use codex_gateway.Cpa.Gemini.Events.{
  Event, call, response, Open, update, Step, Run, or_else, key_of, events_of_part,
}

-- Every open call has a name, and no id stands there twice.
unfoldable pub Proper : Pending → Type 0
unfolding waiting
Proper [] = Unit
Proper ((id, name) ∷ rest) = (str_eq name "" ≡ false) × (waiting id rest ≡ "") × Proper rest

abbrev pub waiting_at : Pending → Open
waiting_at pending id = waiting id pending

pub str_eq_refl : (s : String) → str_eq s s ≡ true
str_eq_refl s = (eq_iff s s).1 refl

pub waiting-answered :
    (id other : String) (pending : Pending)
    → Proper pending
    → waiting other (answered id pending) ≡ update id "" (waiting_at pending) other
unfolding Proper waiting answered
waiting-answered id other [] k = ground arith
waiting-answered id other ((key, name) ∷ rest) k = elim (Bool-cases (str_eq key id)) [
  | inl e ↦ elim (Bool-cases (str_eq id other)) [
    | inl f ↦
        rw (e, f)
          (subst (λ (x : String). waiting x rest ≡ "") ((eq_iff key id).0 e ∙ (eq_iff id other).0 f)
            k.1)
    | inr f ↦
        let apart : str_eq key other ≡ false =
          subst (λ (x : String). str_eq x other ≡ false) (sym ((eq_iff key id).0 e)) f in
        rw (e, f, apart) refl
  ]
  | inr e ↦ rw e (
      ground (
        arith,
        eq_iff key id,
        eq_iff id other,
        eq_iff key other,
        waiting-answered id other rest k.2,
      ))
]

pub answered-Proper :
    (id : String) (pending : Pending) → Proper pending → Proper (answered id pending)
unfolding Proper answered
answered-Proper id [] k = tt
answered-Proper id ((key, name) ∷ rest) k = elim (Bool-cases (str_eq key id)) [
  | inl e ↦ rw e k.2
  | inr e ↦
      rw e (k.0, ground (arith, waiting-answered id key rest k.2, k.1), answered-Proper id rest k.2)
]

pub identifier_empty : identifier "" ≡ false
unfolding identifier text_eq
identifier_empty = refl

pub identifier-named : (name : String) → identifier name ≡ true → str_eq name "" ≡ false
identifier-named name h = elim (Bool-cases (str_eq name "")) [
  | inr e ↦ e
  | inl e ↦ absurd (
      ground (
        arith,
        identifier_empty,
        subst (λ (s : String). identifier s ≡ true) ((eq_iff name "").0 e) h,
      ))
]

pub open_call-Step :
    (names : List String) (role : String) (first : Bool) (signature : Option String)
    (pending after : Pending) (id name : String)
    → identifier name ≡ true
    → Proper pending
    → open_call names role first signature pending (id, name) ≡ ok after
    → Step names (waiting_at pending) (call id name) (waiting_at after)
      × Proper after
      × (first ≡ true → is_signed signature ≡ true)
unfolding open_call waiting Proper
open_call-Step names role first signature pending after id name k p h =
    let (allowed, h1) =
      guard_then (str_eq role "model" && any (str_eq name) names && str_eq (waiting id pending) "")
        unsupported h in
    let (signed, last) = guard_then (not (first && not (is_signed signature))) new_session h1 in
    let (pair, free) =
      &&-true (str_eq role "model" && any (str_eq name) names) (str_eq (waiting id pending) "")
        allowed in
    let (_, known) = &&-true (str_eq role "model") (any (str_eq name) names) pair in
    let none_open = (eq_iff (waiting id pending) "").0 free in
    subst
      (λ (q : Pending).
        Step names (waiting_at pending) (call id name) (waiting_at q)
        × Proper q
        × (first ≡ true → is_signed signature ≡ true))
      {x = (id, name) ∷ pending} (ok-eq last)
      (
        Step.opened (waiting_at pending) id name (identifier-named name k) known none_open,
        (identifier-named name k, none_open, p),
        λ e. ground (arith, signed, e),
      )

pub close_call-Step :
    (names : List String) (role : String) (pending after : Pending) (id name : String)
    → identifier name ≡ true
    → Proper pending
    → close_call role pending (id, name) ≡ ok after
    → Step names (waiting_at pending) (response id name) (waiting_at after) × Proper after
unfolding close_call
close_call-Step names role pending after id name k p h =
    let (allowed, last) =
      guard_then (str_eq role "user" && str_eq (waiting id pending) name) unsupported h in
    let (_, same) = &&-true (str_eq role "user") (str_eq (waiting id pending) name) allowed in
    subst
      (λ (q : Pending).
        Step names (waiting_at pending) (response id name) (waiting_at q) × Proper q)
      {x = answered id pending} (ok-eq last)
      (
        subst (Step names (waiting_at pending) (response id name))
            {x = update id "" (waiting_at pending)}
            (sym (fun_ext (λ other. waiting-answered id other pending p)))
            (Step.closed (waiting_at pending) id name (identifier-named name k)
              ((eq_iff (waiting id pending) name).0 same)),
        answered-Proper id pending p,
      )

pub or_else-call_id :
    (name id : String) (v : Option Value)
    → call_id name v ≡ some id
    → or_else name (read_text v) ≡ id
unfolding call_id read_text
or_else-call_id name id none h = some-eq h
or_else-call_id name id (some v) h = ap (or_else name) h

pub key_of-some :
    (f : Fields) (id name : String)
    → read_text (get "name" f) ≡ some name
    → call_id name (get "id" f) ≡ some id
    → key_of (some f) ≡ (id, name)
unfolding key_of
key_of-some f id name n i =
    rw n (ap (λ (x : String). (x, name)) (or_else-call_id name id (get "id" f) i))

pub read_function-key :
    (payload : String) (raw : Option Value) (id name : String)
    → read_function payload raw ≡ ok (id, name)
    → (key_of (obj raw) ≡ (id, name)) × (identifier name ≡ true)
unfolding read_function
read_function-key payload raw id name h =
    let (f, found, h1) = or_fail_then (obj raw) unsupported h in
    let (_, h2) = guard_then (keys f ("name" ∷ "id" ∷ payload ∷ [])) unsupported h1 in
    let (n, n_found, h3) = or_fail_then (read_text (get "name" f)) unsupported h2 in
    let (named, h4) = guard_then (identifier n) unsupported h3 in
    let (_, h5) = guard_then (is_object (get payload f)) unsupported h4 in
    let (i, i_found, h6) = or_fail_then (call_id n (get "id" f)) unsupported h5 in
    let (_, last) = guard_then (identifier i) unsupported h6 in
    let same : (i, n) ≡ (id, name) = ok-eq last in
    (
      subst (λ (o : Option Fields). key_of o ≡ (id, name)) (sym found)
          (key_of-some f i n n_found i_found ∙ same),
      subst (λ (x : String). identifier x ≡ true) (ap (λ (q : String × String). q.1) same) named,
    )

-- The kinds of content in a part that has at most one.
pub count_zero : (t c r : Bool) → (one t + one c + one r == 0) ≡ true → (c ≡ false) × (r ≡ false)
count_zero t c r h = ground arith

pub count_text :
    (t c r more : Bool)
    → (one t + one c + one r == 1 || one t + one c + one r == 0 && more) ≡ true
    → t ≡ true
    → (c ≡ false) × (r ≡ false)
count_text t c r more h e = ground arith

pub count_response :
    (t c r : Bool) → (one t + one c + one r == 0) ≡ false → t ≡ false → c ≡ false → r ≡ true
count_response t c r h e f = ground arith

-- What the round of a part has done.
pub record Checked (names : List String) (p : Fields) (pending : Pending) (first : Bool)
    (after : Progress) : Type 0 where
  pub run : Run names (waiting_at pending) (events_of_part p) (waiting_at after.0)
  pub proper : Proper after.0
  pub signed :
      first ≡ true
      → has "functionCall" p ≡ true
      → is_signed (read_text (get "thoughtSignature" p)) ≡ true
  pub same : has "functionCall" p ≡ false → after.1 ≡ first

pub one_step :
    (names : List String) (a b : Open) (e : Event) → Step names a e b → Run names a (e ∷ []) b
one_step names a b e s = Run.step a b b e [] s (Run.done b)

pub no_event :
    (names : List String) (p : Fields) (pending : Pending) (first : Bool)
    → Proper pending
    → has "functionCall" p ≡ false
    → has "functionResponse" p ≡ false
    → Checked names p pending first (pending, first)
unfolding events_of_part
no_event names p pending first k c r = record {
  run = rw (c, r) (Run.done (waiting_at pending));
  proper = k;
  signed = λ e f. absurd (ground (arith, c, f));
  same = λ e. refl;
}

pub called_part :
    (names : List String) (role : String) (p : Fields) (pending : Pending) (first : Bool)
    (called : String × String) (left : Pending) (after : Progress)
    → Proper pending
    → has "functionCall" p ≡ true
    → read_function "args" (get "functionCall" p) ≡ ok called
    → open_call names role first (read_text (get "thoughtSignature" p)) pending called ≡ ok left
    → ◌≡◌ {A = Result Error Progress} (ok (left, false)) (ok after)
    → Checked names p pending first after
unfolding events_of_part
called_part names role p pending first (id, name) left after k c found taken last =
    let (key, named) = read_function-key "args" (get "functionCall" p) id name found in
    let (move, proper, signed) =
      open_call-Step names role first (read_text (get "thoughtSignature" p)) pending left id name
        named k taken in
    subst (Checked names p pending first) {x = (left, false)} (ok-eq last) (record {
      run = rw (c, key) (one_step names (waiting_at pending) (waiting_at left) (call id name) move);
      proper = proper;
      signed = λ e f. signed e;
      same = λ f. absurd (ground (arith, c, f));
    })

pub answered_part :
    (names : List String) (role : String) (p : Fields) (pending : Pending) (first : Bool)
    (answer : String × String) (left : Pending) (after : Progress)
    → Proper pending
    → has "functionCall" p ≡ false
    → has "functionResponse" p ≡ true
    → read_function "response" (get "functionResponse" p) ≡ ok answer
    → close_call role pending answer ≡ ok left
    → ◌≡◌ {A = Result Error Progress} (ok (left, first)) (ok after)
    → Checked names p pending first after
unfolding events_of_part
answered_part names role p pending first (id, name) left after k c r found taken last =
    let (key, named) = read_function-key "response" (get "functionResponse" p) id name found in
    let (move, proper) = close_call-Step names role pending left id name named k taken in
    subst (Checked names p pending first) {x = (left, first)} (ok-eq last) (record {
      run =
          rw (c, r, key)
            (one_step names (waiting_at pending) (waiting_at left) (response id name) move);
      proper = proper;
      signed = λ e f. absurd (ground (arith, c, f));
      same = λ f. refl;
    })

pub function_part-Checked :
    (names : List String) (role : String) (p : Fields) (pending : Pending) (first : Bool)
    (after : Progress)
    → Proper pending
    → (has "functionCall" p ≡ false → has "functionResponse" p ≡ true)
    → function_part names role p (pending, first) ≡ ok after
    → Checked names p pending first after
unfolding function_part
function_part-Checked names role p pending first after k other h =
    elim (Bool-cases (has "functionCall" p)) [
      | inl c ↦
          let (called, found, h1) =
            >>=-eq-ok (read_function "args" (get "functionCall" p)) _ (rw c at h) in
          let (left, taken, last) =
            >>=-eq-ok
              (open_call names role first (read_text (get "thoughtSignature" p)) pending called) _
              h1 in
          called_part names role p pending first called left after k c found taken last
      | inr c ↦
          let (answer, found, h1) =
            >>=-eq-ok (read_function "response" (get "functionResponse" p)) _ (rw c at h) in
          let (left, taken, last) = >>=-eq-ok (close_call role pending answer) _ h1 in
          answered_part names role p pending first answer left after k c (other c) found taken last
    ]
