-- ===== src/Cpa/Gemini/Conversation.antt =====
-- Lemmas on the turns of a conversation.
use codex_gateway.Base.{
  All, ◌≡◌, refl, sym, ◌∙◌, String, str_eq, Bool, true, false, ◌||◌, ◌&&◌, ◌==◌, if◌then◌else◌,
  some, List, [], ◌∷◌, ◌++◌, ok, err, ok-eq, guard_then, or_fail_then, guard-ok, >>=-eq-ok,
  Bool-cases, inl, inr, subst, arith,
}
use codex_gateway.Cpa.Json.{Fields, Decoder, unsupported, read_object}
use codex_gateway.Cpa.Read.{get, has, optional, keys, is_text, objects}
use codex_gateway.Cpa.Gemini.{non_empty, declared, tool_config, generation, system_instruction}
use codex_gateway.Cpa.Gemini.Turns.{
  Pending, waiting, Progress, part_shape, kinds_fit, content_count, content_part, check_part,
  check_parts, check_content, check_contents, is_answered, role_of, gemini_request, gemini_keys,
}
use codex_gateway.Cpa.Gemini.Events.{
  Event, Open, no_call, Run, events_of_part, events_of_parts, parts_of, events, is_first_signed,
  declared_names, contents_of,
}
use codex_gateway.Cpa.Gemini.Calls.{
  Proper, waiting_at, count_zero, count_text, count_response, Checked, no_event,
  function_part-Checked,
}

second : (a b c d : Bool) → (a && b && c && d) ≡ true → b ≡ true
second a b c d h = ground arith

counted_none :
    (p : Fields)
    → (content_count p == 0) ≡ true
    → (has "functionCall" p ≡ false) × (has "functionResponse" p ≡ false)
unfolding content_count
counted_none p h = count_zero (has "text" p) (has "functionCall" p) (has "functionResponse" p) h

counted_text :
    (role : String) (p : Fields)
    → part_shape role p ≡ true
    → has "text" p ≡ true
    → (has "functionCall" p ≡ false) × (has "functionResponse" p ≡ false)
unfolding part_shape kinds_fit content_count
counted_text role p h e =
    count_text (has "text" p) (has "functionCall" p) (has "functionResponse" p)
      (has "thoughtSignature" p && str_eq role "model") (second _ _ _ _ h) e

counted_response :
    (p : Fields)
    → (content_count p == 0) ≡ false
    → has "text" p ≡ false
    → has "functionCall" p ≡ false
    → has "functionResponse" p ≡ true
unfolding content_count
counted_response p h e f =
    count_response (has "text" p) (has "functionCall" p) (has "functionResponse" p) h e f

if_text :
    (b : Bool) (progress after : Progress)
    → (if b then ok progress else err unsupported) ≡ ok after
    → progress ≡ after
if_text true progress after h = ok-eq h
if_text false progress after h = cc

content_part-Checked :
    (names : List String) (role : String) (p : Fields) (pending : Pending) (first : Bool)
    (after : Progress)
    → Proper pending
    → part_shape role p ≡ true
    → (content_count p == 0) ≡ false
    → content_part names role p (pending, first) ≡ ok after
    → Checked names p pending first after
unfolding content_part
content_part-Checked names role p pending first after k shape there h =
    elim (Bool-cases (has "text" p)) [
      | inl t ↦
          let (c, r) = counted_text role p shape t in
          subst (Checked names p pending first)
            (if_text (is_text (get "text" p)) (pending, first) after (rw t at h))
            (no_event names p pending first k c r)
      | inr t ↦
          function_part-Checked names role p pending first after k (counted_response p there t)
            (rw t at h)
    ]

check_part-Checked :
    (names : List String) (role : String) (p : Fields) (pending : Pending) (first : Bool)
    (after : Progress)
    → Proper pending
    → check_part names role p (pending, first) ≡ ok after
    → Checked names p pending first after
unfolding check_part
check_part-Checked names role p pending first after k h =
    let (shape, h1) = guard_then (part_shape role p) unsupported h in
    elim (Bool-cases (content_count p == 0)) [
      | inl none_there ↦
          let (c, r) = counted_none p none_there in
          subst (Checked names p pending first) (ok-eq (rw none_there at h1))
            (no_event names p pending first k c r)
      | inr there ↦
          content_part-Checked names role p pending first after k shape there (rw there at h1)
    ]

Run-append :
    (names : List String) (a b c : Open) (es fs : List Event)
    → Run names a es b
    → Run names b fs c
    → Run names a (es ++ fs) c
Run-append names a b c es fs (Run.done o) s = s
Run-append names a b c es fs (Run.step x y z e rest s r) t =
    Run.step x y c e (rest ++ fs) s (Run-append names y b c rest fs r t)

-- What a turn has done.
record Turn (names : List String) (ps : List Fields) (pending : Pending) (first : Bool)
    (after : Pending) : Type 0 where
  run : Run names (waiting_at pending) (events_of_parts ps) (waiting_at after)
  proper : Proper after
  signed : first ≡ true → is_first_signed ps ≡ true

check_parts-Turn :
    (names : List String) (role : String) (ps : List Fields) (pending : Pending) (first : Bool)
    (after : Progress)
    → Proper pending
    → check_parts names role ps (pending, first) ≡ ok after
    → Turn names ps pending first after.0
unfolding check_parts events_of_parts is_first_signed
check_parts-Turn names role [] pending first after k h =
    subst (λ (q : Progress). Turn names [] pending first q.0) (ok-eq h)
      (record { run = Run.done (waiting_at pending); proper = k; signed = λ e. refl })
check_parts-Turn names role (p ∷ ps) pending first after k h =
    let ((left, next), h1, h2) = >>=-eq-ok (check_part names role p (pending, first)) _ h in
    let c = check_part-Checked names role p pending first (left, next) k h1 in
    let t = check_parts-Turn names role ps left next after c.proper h2 in
    record {
      run =
          Run-append names (waiting_at pending) (waiting_at left) (waiting_at after.0)
            (events_of_part p) (events_of_parts ps) c.run t.run;
      proper = t.proper;
      signed = λ e. elim (Bool-cases (has "functionCall" p)) [
        | inl f ↦ rw f (c.signed e f)
        | inr f ↦ rw f (t.signed (c.same f ∙ e))
      ];
    }

-- What a conversation has done.
record Talk (names : List String) (cs : List Fields) (pending after : Pending) : Type 0 where
  run : Run names (waiting_at pending) (events cs) (waiting_at after)
  proper : Proper after
  signed : All (λ (c : Fields). is_first_signed (parts_of c) ≡ true) cs

parts_of-some :
    (c : Fields) (parts : List Fields)
    → non_empty (objects (get "parts" c)) ≡ some parts
    → parts_of c ≡ parts
unfolding parts_of
parts_of-some c parts h = rw (parts_of, h) refl

check_content-Turn :
    (names : List String) (c : Fields) (pending after : Pending)
    → Proper pending
    → check_content names c pending ≡ ok after
    → Turn names (parts_of c) pending true after
unfolding check_content
check_content-Turn names c pending after k h =
    let (_, h1) = guard_then (keys c ("role" ∷ "parts" ∷ [])) unsupported h in
    let (role, _, h2) = or_fail_then (role_of (get "role" c)) unsupported h1 in
    let (_, h3) = guard_then (str_eq role "user" || str_eq role "model") unsupported h2 in
    let (parts, found, h4) = or_fail_then (non_empty (objects (get "parts" c))) unsupported h3 in
    let (left, checked, last) = >>=-eq-ok (check_parts names role parts (pending, true)) _ h4 in
    let t = check_parts-Turn names role parts pending true left k checked in
    subst (λ (ps : List Fields). Turn names ps pending true after)
      (sym (parts_of-some c parts found)) (subst (Turn names parts pending true) (ok-eq last) t)

check_contents-Talk :
    (names : List String) (cs : List Fields) (pending after : Pending)
    → Proper pending
    → check_contents names cs pending ≡ ok after
    → Talk names cs pending after
unfolding check_contents events
check_contents-Talk names [] pending after k h =
    subst (Talk names [] pending) (ok-eq h)
      (record { run = Run.done (waiting_at pending); proper = k; signed = tt })
check_contents-Talk names (c ∷ cs) pending after k h =
    let (left, h1, h2) = >>=-eq-ok (check_content names c pending) _ h in
    let t = check_content-Turn names c pending left k h1 in
    let u = check_contents-Talk names cs left after t.proper h2 in
    record {
      run =
          Run-append names (waiting_at pending) (waiting_at left) (waiting_at after)
            (events_of_parts (parts_of c)) (events cs) t.run u.run;
      proper = u.proper;
      signed = (t.signed refl, u.signed);
    }

answered-empty : (pending : Pending) → is_answered pending ≡ true → pending ≡ []
unfolding is_answered
answered-empty [] h = refl
answered-empty (p ∷ ps) h = cc

declared_names-some :
    (o : Fields) (names : List String)
    → declared (get "tools" o) ≡ some names
    → declared_names o ≡ names
unfolding declared_names
declared_names-some o names h = rw (declared_names, h) refl

contents_of-some :
    (o : Fields) (cs : List Fields)
    → non_empty (objects (get "contents" o)) ≡ some cs
    → contents_of o ≡ cs
unfolding contents_of
contents_of-some o cs h = rw (contents_of, h) refl

checked-Talk :
    (o : Fields) (names : List String) (cs : List Fields) (pending : Pending)
    → declared (get "tools" o) ≡ some names
    → non_empty (objects (get "contents" o)) ≡ some cs
    → check_contents names cs [] ≡ ok pending
    → is_answered pending ≡ true
    → Talk (declared_names o) (contents_of o) [] []
unfolding Proper
checked-Talk o names cs pending n c h e =
    rw (declared_names-some o names n, contents_of-some o cs c)
      (subst (Talk names cs []) (answered-empty pending e)
        (check_contents-Talk names cs [] pending tt h))

gemini_request-Talk :
    (j : Decoder) (bytes : String)
    → gemini_request j bytes ≡ ok tt
    → (o : Fields) × (read_object j bytes ≡ ok o) × Talk (declared_names o) (contents_of o) [] []
unfolding gemini_request
gemini_request-Talk j bytes h =
    let (o, found, h1) = >>=-eq-ok (read_object j bytes) _ h in
    let (_, h2) = guard_then (keys o gemini_keys) unsupported h1 in
    let (names, names_ok, h3) = or_fail_then (declared (get "tools" o)) unsupported h2 in
    let (_, h4) = guard_then (optional (get "toolConfig" o) (tool_config names)) unsupported h3 in
    let (_, h5) = guard_then (optional (get "generationConfig" o) (generation j)) unsupported h4 in
    let (_, h6) =
      guard_then (optional (get "systemInstruction" o) system_instruction) unsupported h5 in
    let (cs, turns, h7) = or_fail_then (non_empty (objects (get "contents" o))) unsupported h6 in
    let (pending, checked, last) = >>=-eq-ok (check_contents names cs []) _ h7 in
    (
      o,
      found,
      checked-Talk o names cs pending names_ok turns checked
          (guard-ok (is_answered pending) unsupported last),
    )

-- In a Gemini request that passes, the calls and responses run from no open call to no open call:
-- each call has a declared name and an id under which no call is open, and each response answers the
-- open call of its id and name.
pub gemini_request-Run :
    (j : Decoder) (bytes : String)
    → gemini_request j bytes ≡ ok tt
    → (o : Fields) × (read_object j bytes ≡ ok o)
      × Run (declared_names o) no_call (events (contents_of o)) no_call
unfolding waiting
gemini_request-Run j bytes h =
    let (o, found, talk) = gemini_request-Talk j bytes h in (o, found, talk.run)

-- In a Gemini request that passes, the first call of every turn has a signature.
pub gemini_request-signed :
    (j : Decoder) (bytes : String)
    → gemini_request j bytes ≡ ok tt
    → (o : Fields) × (read_object j bytes ≡ ok o)
      × All (λ (c : Fields). is_first_signed (parts_of c) ≡ true) (contents_of o)
gemini_request-signed j bytes h =
    let (o, found, talk) = gemini_request-Talk j bytes h in (o, found, talk.signed)
