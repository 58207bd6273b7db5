-- ===== src/Providers/OpenAi/Truncated.antt =====
-- An answer of an API of OpenAI's protocol whose bytes end with a read error.
use capyclaw.Prelude.{
  ℕ, zero, suc, String, String_eq, ◌==◌, ◌≡◌, ◌≢◌, refl, ap, ◌∙◌, ◌⊎◌, inl, inr, false, Bool-cases,
  List, [], ◌∷◌, ◌++◌, map, Option-cases,
}
use mathlib.Core.List.{map-append}
use capyclaw.Action.{Result, err}
use capyclaw.Llm
use capyclaw.Llm.Sse.{
  Bytes, SseEvent, ReadError, no_event, codes, read_line, trim_right, set_field, on_line, parse,
}
use capyclaw.Llm.Accumulator.{Accumulator, RawChunk, new_accumulator, parse_chunk}
use capyclaw.Providers.Http.{Http}
use capyclaw.Providers.OpenAi.{then_rest, read_events, read_response, payload_text}

abbrev failure_event : Bytes → SseEvent
failure_event m = record { event = codes "error"; payload = m; id = [] }

-- the events of a read that failed with `m`, against those of one that ended
abbrev EndsWith : Bytes → List SseEvent → List SseEvent → Type 0
EndsWith m ended failed = (failed ≡ ended) ⊎ (failed ≡ ended ++ failure_event m ∷ [])

EndsWith-cons :
    (m : Bytes) (e : SseEvent) (xs ys : List SseEvent)
    → EndsWith m xs ys
    → EndsWith m (e ∷ xs) (e ∷ ys)
EndsWith-cons m e xs ys (inl h) = inl (ap (λ l. e ∷ l) h)
EndsWith-cons m e xs ys (inr h) = inr (ap (λ l. e ∷ l) h)

EndsWith-on_line :
    (m : Bytes) (go go' : SseEvent → List SseEvent) (e : SseEvent) (l : Bytes)
    → ((e' : SseEvent) → EndsWith m (go e') (go' e'))
    → EndsWith m (on_line go e l) (on_line go' e l)
unfolding on_line
EndsWith-on_line m go go' e (b ∷ l) h = h (set_field e (b ∷ l))
EndsWith-on_line m go go' e [] h = flush e.payload
  where
    flush :
        (p : Bytes)
        → EndsWith m
            (elim p [ [] ↦ go e | _ ∷ _ ↦ e ∷ go no_event ])
            (elim p [ [] ↦ go' e | _ ∷ _ ↦ e ∷ go' no_event ])
    flush [] = h e
    flush (_ ∷ _) = EndsWith-cons m e (go no_event) (go' no_event) (h no_event)

parse-EndsWith :
    (m : Bytes) (rounds : ℕ) (e : SseEvent) (input : Bytes)
    → EndsWith m (parse rounds ReadError.eof e input) (parse rounds (ReadError.failed m) e input)
unfolding parse
parse-EndsWith m zero e input = inl refl
parse-EndsWith m (suc n) e input = elim (Option-cases (read_line input)) [
  | inl h ↦ rw (h, parse) (inr refl)
  | inr (a, h) ↦
      rw (h, parse) (EndsWith-on_line m _ _ e (trim_right a.0) (λ e'. parse-EndsWith m n e' a.1))
]

not_end : (t : String) → t ≢ "[DONE]" → (t == "[DONE]") ≡ false
not_end t h = elim (Bool-cases (t == "[DONE]")) [
  | inl same ↦ absurd (h ((String_eq.same_iff t "[DONE]").0 same))
  | inr other ↦ other
]

module _ (range : List Llm.ToolCall → List Llm.ToolCall) (decode : String → Result RawChunk) where
  -- an event that cannot be parsed, at the end, adds no chunk
  read_events-skip :
      (es : List String) (bad reason : String) (a : Accumulator)
      → decode bad ≡ err reason
      → (bad == "[DONE]") ≡ false
      → read_events range decode (es ++ bad ∷ []) a ≡ read_events range decode es a
  unfolding read_events
  read_events-skip [] bad reason a e no_end =
      rw (no_end, read_events) (unfold then_rest parse_chunk in rw no_end (rw e refl))
  read_events-skip (x ∷ es) bad reason a e no_end = elim (Bool-cases (x == "[DONE]")) [
    | inl h ↦ rw (h, read_events) refl
    | inr h ↦ rw (h, read_events) (ap (then_rest _) (read_events-skip es bad reason _ e no_end))
  ]

module _ {W : Type 0} (http : Http W) (range : List Llm.ToolCall → List Llm.ToolCall)
    (decode : String → Result RawChunk) where
  -- An answer whose bytes end in a read error, with a text that is not the protocol's end marker and
  -- does not decode as a chunk, gives exactly the chunks of an answer that ended there, whatever the
  -- bytes before: no error chunk tells that the answer is incomplete.
  pub read_response-truncated :
      (m : Bytes) (reason : String) (rounds : ℕ) (input : Bytes)
      → decode (http.from_bytes m) ≡ err reason
      → http.from_bytes m ≢ "[DONE]"
      → read_response http range decode rounds (ReadError.failed m) input
        ≡ read_response http range decode rounds ReadError.eof input
  unfolding read_response
  read_response-truncated m reason rounds input e other =
      elim (parse-EndsWith m rounds no_event input) [
        | inl same ↦
            ap
              (λ es.
                read_events range decode (map (payload_text http range decode) es) new_accumulator)
              same
        | inr more ↦
            ap
              (λ es.
                read_events range decode (map (payload_text http range decode) es) new_accumulator)
              more
            ∙ ap (λ es. read_events range decode es new_accumulator)
                (map-append (payload_text http range decode)
                  (parse rounds ReadError.eof no_event input) _)
            ∙ read_events-skip range decode _ (http.from_bytes m) reason new_accumulator e
                (not_end (http.from_bytes m) other)
      ]
