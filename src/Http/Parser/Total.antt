-- ===== src/Http/Parser/Total.antt =====
-- The fuel of the loop over the header lines.
use simple_serv.Common.{
  ℕ, zero, suc, ◌+◌, ◌<◌, ◌≡◌, refl, Option, none, some, List, [], ◌∷◌, ◌++◌, arith, Bytes, length,
  take, length-drop, leb, starts_with, find_any, Bool-cases, inl, inr,
}
use simple_serv.Common.Outcome
use simple_serv.Common.Outcome.{Outcome, returns, throws, undefined}
use simple_serv.Utility.StringParser.{Expected, value, unexpected}
use simple_serv.Http.Message.{crlf}
use simple_serv.Http.Parser.{
  Header, HeaderStep, last, more, next_line, add_header, header_line, header_step, header_loop,
  LoopResult, after_step, finish_headers, parse_message_headers, parse_header,
}

-- Both loops have the same result.
abbrev Agree : LoopResult → LoopResult → Type 0
Agree a b = (r : Outcome (Expected (List Header × Bytes))) × (a ≡ some r) × (b ≡ some r)

-- A step that goes on leaves less to read.
abbrev Shrinks : Bytes → Outcome (Expected HeaderStep) → Type 0
Shrinks view (returns (value (more h rest))) = length rest < length view
Shrinks view (returns (value (last rest))) = Unit
Shrinks view (returns (unexpected e)) = Unit
Shrinks view (throws e) = Unit
Shrinks view undefined = Unit

next_line-Shrinks : (h : Header) (n : ℕ) (view : Bytes) → Shrinks view (next_line h (n + 2) view)
next_line-Shrinks h n view = elim (Bool-cases (leb (n + 2) (length view))) [
  | inl fits ↦ rw fits (ground (arith, length-drop {0} (n + 2) view))
  | inr not_fits ↦ rw not_fits tt
]

header_line-Shrinks : (o : Option ℕ) (view : Bytes) → Shrinks view (header_line o view)
header_line-Shrinks none view = tt
header_line-Shrinks (some n) view = go (parse_header (take n view))
  where
    go :
        (r : Outcome (Expected Header))
        → Shrinks view (Outcome.◌>>=◌ r λ result. add_header result n view)
    go (returns (value h)) = next_line-Shrinks h n view
    go (returns (unexpected e)) = tt
    go (throws e) = tt
    go undefined = tt

header_step-Shrinks : (view : Bytes) → Shrinks view (header_step view)
unfolding header_step
header_step-Shrinks view = elim (Bool-cases (starts_with view crlf)) [
  | inl at_end ↦ rw at_end tt
  | inr in_line ↦ rw in_line (header_line-Shrinks (find_any crlf view) view)
]

-- Two continuations that agree on shorter views, and have a result there, agree after a step.
after_step-Agree :
    (o : Outcome (Expected HeaderStep)) (view : Bytes) (headers : List Header)
    (f g : List Header → Bytes → LoopResult)
    → Shrinks view o
    → ((hs : List Header) (rest : Bytes)
        → length rest < length view
        → Agree (f hs rest) (g hs rest))
    → Agree (after_step o headers f) (after_step o headers g)
after_step-Agree (returns (value (last rest))) view headers f g s h = (_, refl, refl)
after_step-Agree (returns (value (more x rest))) view headers f g s h = h (headers ++ x ∷ []) rest s
after_step-Agree (returns (unexpected e)) view headers f g s h = (_, refl, refl)
after_step-Agree (throws e) view headers f g s h = (_, refl, refl)
after_step-Agree undefined view headers f g s h = (_, refl, refl)

-- With more fuel than bytes the loop has a result, and any such fuel gives the same.
pub header_loop_total :
    (f g : ℕ) (headers : List Header) (view : Bytes)
    → length view < f
    → length view < g
    → (r : Outcome (Expected (List Header × Bytes))) × (header_loop f headers view ≡ some r)
      × (header_loop g headers view ≡ some r)
unfolding header_loop
header_loop_total zero g headers view h k = absurd (omega arith)
header_loop_total (suc f) zero headers view h k = absurd (omega arith)
header_loop_total (suc f) (suc g) headers view h k =
    after_step-Agree (header_step view) view headers (header_loop f) (header_loop g)
      (header_step-Shrinks view)
      λ hs rest lt. header_loop_total f g hs rest (omega arith) (omega arith)

-- With any fuel above the length of the view the header loop has a result, and
-- parse_message_headers returns what that result says.
pub parse_message_headers_total :
    (view : Bytes) (fuel : ℕ)
    → length view < fuel
    → (r : Outcome (Expected (List Header × Bytes))) × (header_loop fuel [] view ≡ some r)
      × (parse_message_headers view ≡ finish_headers (some r) view)
unfolding parse_message_headers
parse_message_headers_total view fuel h =
    let (r, given, larger) = header_loop_total (suc (length view)) fuel [] view (omega arith) h in
    (r, larger, rw given)
