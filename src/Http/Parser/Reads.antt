-- ===== src/Http/Parser/Reads.antt =====
-- The view of the parser is always an end of the request's text.
use mathlib.Core.Path.{subst}
use simple_serv.Common.{
  ℕ, zero, suc, ◌+◌, ◌≡◌, sym, ap, ◌∙◌, Bool-cases, inl, inr, Option, none, some, List, [], ◌∷◌,
  ◌++◌, Bytes, take, length, leb, starts_with, find_any,
}
use simple_serv.Common.Outcome
use simple_serv.Common.Outcome.{Outcome, returns, throws, undefined}
use simple_serv.Utility.StringParser
use simple_serv.Utility.StringParser.{
  Action, Expected, value, unexpected, expect, expect_two, consume_all_two, next_token,
}
use simple_serv.Utility.StringParser.Ensures.{>>=-eq-returns}
use simple_serv.Utility.StringParser.Reads.{
  IsEnd, IsEnd-refl, IsEnd-trans, IsEnd-drop, Reads, Reads-pure, Reads-if, Reads-bind, Reads-expect,
  Reads-expect_two, Reads-consume_all_two, Reads-next_token, reads_rules,
}
use simple_serv.Http.Message.{
  HttpRequest, crlf, new_request, set_content, method_string_to_enum, version_string_to_enum,
}
use simple_serv.Http.Parser.{
  Parse, ascii_ht, ◌>>=◌, pure, run, check, refusal, follow, finish_line, parse_request_line,
  Header, HeaderStep, last, more, add_header, header_line, header_step, header_loop, LoopResult,
  after_step, finish_headers, parse_header, set_headers, parse_message_headers, view_of,
  parse_request, parse_http_request,
}

Reads-method_string_to_enum : Reads method_string_to_enum
unfolding method_string_to_enum
Reads-method_string_to_enum = search reads_rules depth 14

Reads-version_string_to_enum : Reads version_string_to_enum
unfolding version_string_to_enum
Reads-version_string_to_enum = search reads_rules depth 14

module _ {A : Type 0} where
  Reads-run : (m : Action A) → Reads m → Reads (run m)
  unfolding run
  Reads-run m h = Reads-bind m _ h (λ a. Reads-pure (value a))

module _ {A B : Type 0} (f : A → Parse B) where
  Reads-follow : ((a : A) → Reads (f a)) → (r : Expected A) → Reads (follow r f)
  Reads-follow h (value a) = h a
  Reads-follow h (unexpected e) = Reads-pure (unexpected e)

  Reads-then : (m : Parse A) → Reads m → ((a : A) → Reads (f a)) → Reads (m >>= f)
  unfolding ◌>>=◌
  Reads-then m hm hf = Reads-bind m _ hm (Reads-follow hf)

Reads-check : (m : Action _) → Reads m → Reads (check m)
unfolding check
Reads-check m h = Reads-bind m refusal h refusal-Reads
  where
    refusal-Reads : (o : Option StringParser.ParserError) → Reads (refusal o)
    refusal-Reads none = Reads-pure (value tt)
    refusal-Reads (some e) = Reads-pure (unexpected e)

Reads-finish_line : (r : HttpRequest) → Reads (finish_line r)
Reads-finish_line r = Reads-if _ _ _ (Reads-pure _) (
    Reads-then _ (check (expect crlf)) (Reads-check _ (Reads-expect crlf))
      λ _. Reads-pure (value r))

Reads-parse_request_line : Reads parse_request_line
unfolding parse_request_line
Reads-parse_request_line = Reads-then _ method_string_to_enum Reads-method_string_to_enum λ method.
    Reads-then _ (check (expect_two ascii_ht b' ')) (Reads-check _ (Reads-expect_two _ _)) λ _.
      Reads-then _ (run (consume_all_two ascii_ht b' ')) (Reads-run _ (Reads-consume_all_two _ _))
        λ _. Reads-then _ (run (next_token b' ')) (Reads-run _ (Reads-next_token b' ')) λ path.
          Reads-then _ (check (expect_two ascii_ht b' ')) (Reads-check _ (Reads-expect_two _ _))
            λ _.
              Reads-then _ (run (consume_all_two ascii_ht b' '))
                (Reads-run _ (Reads-consume_all_two _ _))
                λ _.
                  Reads-then _ (run version_string_to_enum)
                    (Reads-run _ Reads-version_string_to_enum)
                    λ version. Reads-finish_line (new_request method path version)

-- What a round of the loop over the headers leaves
abbrev StepLeaves : Bytes → Outcome (Expected HeaderStep) → Type 0
StepLeaves view (returns (value (last rest))) = IsEnd view rest
StepLeaves view (returns (value (more h rest))) = IsEnd view rest
StepLeaves view (returns (unexpected e)) = Unit
StepLeaves view (throws e) = Unit
StepLeaves view undefined = Unit

header_line-StepLeaves : (o : Option ℕ) (view : Bytes) → StepLeaves view (header_line o view)
header_line-StepLeaves none view = tt
header_line-StepLeaves (some n) view = go (parse_header (take n view))
  where
    go :
        (r : Outcome (Expected Header))
        → StepLeaves view (Outcome.◌>>=◌ r λ result. add_header result n view)
    go (returns (value h)) = elim (Bool-cases (leb (n + 2) (length view))) [
      | inl fits ↦ rw fits (IsEnd-drop (n + 2) view)
      | inr too_long ↦ rw too_long tt
    ]
    go (returns (unexpected e)) = tt
    go (throws e) = tt
    go undefined = tt

header_step-StepLeaves : (view : Bytes) → StepLeaves view (header_step view)
unfolding header_step
header_step-StepLeaves view = elim (Bool-cases (starts_with view crlf)) [
  | inl at_end ↦ rw at_end (IsEnd-drop 2 view)
  | inr in_line ↦ rw in_line (header_line-StepLeaves (find_any crlf view) view)
]

abbrev LoopLeaves : Bytes → LoopResult → Type 0
LoopLeaves view (some (returns (value (hs, rest)))) = IsEnd view rest
LoopLeaves view (some (returns (unexpected e))) = Unit
LoopLeaves view (some (throws e)) = Unit
LoopLeaves view (some undefined) = Unit
LoopLeaves view none = Unit

LoopLeaves-trans :
    {view mid : Bytes} → IsEnd view mid → (r : LoopResult) → LoopLeaves mid r → LoopLeaves view r
LoopLeaves-trans h (some (returns (value (hs, rest)))) k = IsEnd-trans h k
LoopLeaves-trans h (some (returns (unexpected e))) k = tt
LoopLeaves-trans h (some (throws e)) k = tt
LoopLeaves-trans h (some undefined) k = tt
LoopLeaves-trans h none k = tt

after_step-LoopLeaves :
    (view : Bytes) (o : Outcome (Expected HeaderStep)) (headers : List Header)
    (next : List Header → Bytes → LoopResult)
    → StepLeaves view o
    → ((hs : List Header) (rest : Bytes) → LoopLeaves rest (next hs rest))
    → LoopLeaves view (after_step o headers next)
after_step-LoopLeaves view (returns (value (last rest))) headers next h k = h
after_step-LoopLeaves view (returns (value (more x rest))) headers next h k =
    LoopLeaves-trans h _ (k (headers ++ x ∷ []) rest)
after_step-LoopLeaves view (returns (unexpected e)) headers next h k = tt
after_step-LoopLeaves view (throws e) headers next h k = tt
after_step-LoopLeaves view undefined headers next h k = tt

header_loop-LoopLeaves :
    (fuel : ℕ) (headers : List Header) (view : Bytes)
    → LoopLeaves view (header_loop fuel headers view)
unfolding header_loop
header_loop-LoopLeaves zero headers view = tt
header_loop-LoopLeaves (suc fuel) headers view =
    after_step-LoopLeaves view (header_step view) headers (header_loop fuel)
      (header_step-StepLeaves view) (header_loop-LoopLeaves fuel)

finish_headers-IsEnd :
    (view rest : Bytes) (r : LoopResult) (a : Expected (List Header))
    → LoopLeaves view r
    → finish_headers r view ≡ returns (a, rest)
    → IsEnd view rest
finish_headers-IsEnd view rest none a h e = cc
finish_headers-IsEnd view rest (some undefined) a h e = cc
finish_headers-IsEnd view rest (some (throws x)) a h e = cc
finish_headers-IsEnd view rest (some (returns (unexpected x))) a h e =
    let same : view ≡ rest = cc e in subst (IsEnd view) same (IsEnd-refl view)
finish_headers-IsEnd view rest (some (returns (value (hs, left)))) a h e =
    let same : left ≡ rest = cc e in subst (IsEnd view) same h

Reads-parse_message_headers : Reads parse_message_headers
unfolding parse_message_headers
Reads-parse_message_headers = record {
  at = λ view rest a e.
      finish_headers-IsEnd view rest _ a (header_loop-LoopLeaves (suc (length view)) [] view) e;
}

Reads-view_of : Reads view_of
Reads-view_of = record {
  at = λ view rest a e. let same : view ≡ rest = cc e in subst (IsEnd view) same (IsEnd-refl view);
}

Reads-parse_request : Reads parse_request
unfolding parse_request
Reads-parse_request = Reads-then _ parse_request_line Reads-parse_request_line λ r.
    Reads-then _ parse_message_headers Reads-parse_message_headers
      λ hs. Reads-then _ (run view_of) (Reads-run _ Reads-view_of) λ content. Reads-pure _

-- The request's body is what is left.
record HasRest (m : Parse HttpRequest) : Type 0 where
  at : (view rest : Bytes) (r : HttpRequest) → m view ≡ returns (value r, rest) → r.body ≡ rest

HasRest-follow :
    {A : Type 0} (f : A → Parse HttpRequest)
    → ((a : A) → HasRest (f a))
    → (o : Expected A) → HasRest (follow o f)
HasRest-follow f h (value a) = h a
HasRest-follow f h (unexpected e) = record { at = λ view rest r k. cc k }

HasRest-then :
    {A : Type 0} (m : Parse A) (f : A → Parse HttpRequest)
    → ((a : A) → HasRest (f a))
    → HasRest (m >>= f)
unfolding ◌>>=◌
HasRest-then m f h = record {
  at = λ view rest r e.
      let (a, mid, first, second) = >>=-eq-returns m (λ o. follow o f) e in
      (HasRest-follow f h a).at mid rest r second;
}

HasRest-content :
    (request : HttpRequest) (hs : List Header)
    → HasRest (
        run view_of >>= λ content.
        pure (record request { message = set_content content (set_headers hs request.message) }))
unfolding ◌>>=◌ run
HasRest-content request hs = record {
  at = λ view rest r e.
      let whole : HttpRequest = record request {
        message = set_content view (set_headers hs request.message);
      } in
      let same : whole ≡ r = cc e in
      let left : view ≡ rest = cc e in ap (λ (q : HttpRequest). q.body) (sym same) ∙ left;
}

HasRest-parse_request : HasRest parse_request
unfolding parse_request
HasRest-parse_request =
    HasRest-then parse_request_line _
      λ request. HasRest-then parse_message_headers _ λ hs. HasRest-content request hs

-- The body of a request that is returned is the end of the text.
pub parse_http_request-body :
    (str : Bytes) (r : HttpRequest) → parse_http_request str ≡ returns (value r) → IsEnd str r.body
unfolding parse_http_request
parse_http_request-body str r e =
    let ((result, rest), parsed, kept) = Outcome.>>=-eq-returns (parse_request str) _ e in
    let same : result ≡ value r = cc kept in
    let ends = Reads-parse_request.at str rest result parsed in
    subst (IsEnd str)
      (sym (HasRest-parse_request.at str rest r (parsed ∙ ap (λ o. returns (o, rest)) same))) ends
