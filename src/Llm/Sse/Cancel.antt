-- ===== src/Llm/Sse/Cancel.antt =====
-- What a cancelled context leaves of the events of SSEParser.Parse.
use mathlib.Core.Path.{fun_ext}
use mathlib.Core.List.{append-nil}
use native.Mathlib.Nat.{suc-add}
use capyclaw.Prelude.{
  ℕ, zero, suc, ◌+◌, ◌<◌, ◌≡◌, refl, ap, some, List, [], ◌∷◌, ◌++◌, arith, length, inl, inr,
  Option-cases,
}
use capyclaw.Llm.Sse.{
  Bytes, SseEvent, no_event, ReadError, read_line, trim_right, on_line, parse, read_failure,
  set_field,
}

-- `after` has the events of `before` first, in their order
abbrev pub Extends : List SseEvent → List SseEvent → Type 0
Extends before after = (more : List SseEvent) × (before ++ more ≡ after)

Extends-on_line :
    (go go' : SseEvent → List SseEvent) (e : SseEvent) (l : Bytes)
    → ((e' : SseEvent) → Extends (go e') (go' e'))
    → Extends (on_line go e l) (on_line go' e l)
unfolding on_line
Extends-on_line go go' e (b ∷ l) h = h (set_field e (b ∷ l))
Extends-on_line go go' e [] h = ends e.payload
  where
    ends :
        (p : Bytes)
        → Extends
            (elim p [ [] ↦ go e | _ ∷ _ ↦ e ∷ go no_event ])
            (elim p [ [] ↦ go' e | _ ∷ _ ↦ e ∷ go' no_event ])
    ends [] = h e
    ends (_ ∷ _) = let (more, eq) = h no_event in (more, ap (λ es. e ∷ es) eq)

-- Stopping after `rounds` turns instead of `rounds + more` gives a prefix of the events.
pub parse-Extends :
    (rounds more : ℕ) (last : ReadError) (e : SseEvent) (input : Bytes)
    → Extends (parse rounds last e input) (parse (rounds + more) last e input)
unfolding parse
parse-Extends zero more last e input = (parse (zero + more) last e input, refl)
parse-Extends (suc n) more last e input = rw suc-add (elim (Option-cases (read_line input)) [
  | inl h ↦ rw (h, parse) ([], append-nil (read_failure last))
  | inr (a, h) ↦
      rw (h, parse)
        (Extends-on_line _ _ e (trim_right a.0) (λ e'. parse-Extends n more last e' a.1))
])

shorter : (input : Bytes) (p : Bytes × Bytes) → read_line input ≡ some p → length p.1 < length input
unfolding read_line
shorter [] p h = cc
shorter (b ∷ bs) p h = elim (Option-cases (read_line bs)) [
  | inl q ↦ ground arith
  | inr (p', q) ↦ ground (arith, shorter bs p' q)
]

-- More turns than the input has bytes are enough: further turns change nothing.
pub parse-enough :
    (rounds more : ℕ) (last : ReadError) (e : SseEvent) (input : Bytes)
    → length input < rounds
    → parse (rounds + more) last e input ≡ parse rounds last e input
unfolding parse
parse-enough zero more last e input h = elim h [ ]
parse-enough (suc n) more last e input lt = rw suc-add (elim (Option-cases (read_line input)) [
  | inl h ↦ rw (h, parse)
  | inr (a, h) ↦
      rw (h, parse)
        (ap (λ go. on_line go e (trim_right a.0))
          (fun_ext (λ e'. parse-enough n more last e' a.1 (omega (arith, shorter input a h)))))
])
