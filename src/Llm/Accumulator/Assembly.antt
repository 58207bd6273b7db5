-- ===== src/Llm/Accumulator/Assembly.antt =====
-- A streamed tool call is the join of its parts.
use Prim.Native.String.{◌++◌ as append}
use text.Mathlib.TextLemmas.{append_assoc, append-nil}
use mathlib.Core.List.Perm
use mathlib.Core.List
use mathlib.Core.List.{Perm}
use capyclaw.Prelude.{
  String, ◌≡◌, refl, ap, sym, ◌∙◌, Option, none, some, List, [], ◌∷◌, ◌++◌, map, arith, lookup,
  lookup-insert, values, ℕ_eq, String_eq, ◌==◌, if◌then◌else◌, Int64, concat, Bool-cases, inl, inr,
  nat_eq_iff, false,
}
use capyclaw.Llm.{ToolCall, Usage, Chunk}
use capyclaw.Llm.Accumulator.{
  OpenAiToolCallDelta, Accumulator, existing, set_parts, add_delta, add_deltas, text_chunks,
  tool_call_chunk, finish, on_finish, parse_choices, new_accumulator, RawChunk, RawChoice,
}

-- the deltas of one index, in their order
abbrev pub select : Int64 → List OpenAiToolCallDelta → List OpenAiToolCallDelta
select i [] = []
select i (d ∷ ds) = if d.index == i then d ∷ select i ds else select i ds

-- the last text that is not empty
abbrev pub last_set : String → List String → String
last_set old [] = old
last_set old (s ∷ ss) = last_set (if s == "" then old else s) ss

abbrev pub assemble : ToolCall → List OpenAiToolCallDelta → ToolCall
assemble tc ds = record {
  id = last_set tc.id (map (λ (d : OpenAiToolCallDelta). d.id) ds);
  name = last_set tc.name (map (λ (d : OpenAiToolCallDelta). d.name) ds);
  input = append tc.input (concat (map (λ (d : OpenAiToolCallDelta). d.arguments) ds));
}

abbrev pub blank : ToolCall
blank = record { id = ""; name = ""; input = "" }

abbrev pub assembled : Option ToolCall → List OpenAiToolCallDelta → Option ToolCall
assembled o [] = o
assembled none (d ∷ ds) = some (assemble blank (d ∷ ds))
assembled (some tc) (d ∷ ds) = some (assemble tc (d ∷ ds))

assembled-some :
    (tc : ToolCall) (ds : List OpenAiToolCallDelta) → assembled (some tc) ds ≡ some (assemble tc ds)
unfolding concat
assembled-some tc [] = ap (λ t. some (record tc { input = t })) (sym (append-nil tc.input))
assembled-some tc (d ∷ ds) = refl

assemble-set_parts :
    (tc : ToolCall) (d : OpenAiToolCallDelta) (ds : List OpenAiToolCallDelta)
    → assemble (set_parts d tc) ds ≡ assemble tc (d ∷ ds)
unfolding set_parts concat
assemble-set_parts tc d ds =
    ap (λ t. record (assemble tc (d ∷ ds)) { input = t }) (append_assoc tc.input d.arguments _)

if_self : (s : String) → (if s == "" then s else s) ≡ (if s == "" then "" else s)
if_self s = ground (arith, String_eq.same_iff s "")

set_parts-new : (d : OpenAiToolCallDelta) → set_parts d (existing d none) ≡ set_parts d blank
unfolding set_parts
set_parts-new d =
    λ i. record { id = if_self d.id i; name = if_self d.name i; input = append "" d.arguments }

assembled-step :
    (o : Option ToolCall) (d : OpenAiToolCallDelta) (ds : List OpenAiToolCallDelta)
    → assembled (some (set_parts d (existing d o))) ds ≡ assembled o (d ∷ ds)
assembled-step none d ds =
    rw set_parts-new
      (assembled-some (set_parts d blank) ds ∙ ap some (assemble-set_parts blank d ds))
assembled-step (some tc) d ds =
    assembled-some (set_parts d tc) ds ∙ ap some (assemble-set_parts tc d ds)

lookup-add_delta :
    (i : Int64) (a : Accumulator) (d : OpenAiToolCallDelta)
    → lookup i (add_delta a d)
      ≡ (if d.index == i then some (set_parts d (existing d (lookup d.index a))) else lookup i a)
unfolding add_delta
lookup-add_delta i a d = lookup-insert d.index i (set_parts d (existing d (lookup d.index a))) a

select-step :
    (i : Int64) (a : Accumulator) (d : OpenAiToolCallDelta) (ds : List OpenAiToolCallDelta)
    → assembled (lookup i (add_delta a d)) (select i ds)
      ≡ assembled (lookup i a) (select i (d ∷ ds))
select-step i a d ds = elim (Bool-cases (d.index == i)) [
  | inl h ↦
      rw (lookup-add_delta i a d, h)
        (ap (λ k. assembled (some (set_parts d (existing d (lookup k a)))) (select i ds))
            ((nat_eq_iff d.index i).0 h)
          ∙ assembled-step (lookup i a) d (select i ds))
  | inr h ↦ rw (lookup-add_delta i a d, h)
]

-- However the deltas of several calls are interleaved, the entry of an index continues what was
-- there with the deltas of that index, in their order: the last id and the last name that are
-- not empty, and the arguments one after the other.
pub lookup-add_deltas :
    (i : Int64) (a : Accumulator) (ds : List OpenAiToolCallDelta)
    → lookup i (add_deltas a ds) ≡ assembled (lookup i a) (select i ds)
unfolding add_deltas
lookup-add_deltas i a [] = refl
lookup-add_deltas i a (d ∷ ds) = lookup-add_deltas i (add_delta a d) ds ∙ select-step i a d ds

-- the tool calls among chunks
abbrev pub calls_of : List Chunk → List ToolCall
calls_of [] = []
calls_of (c ∷ cs) = elim c.tool_call [ none ↦ calls_of cs | some tc ↦ tc ∷ calls_of cs ]

calls_of-append : (cs ds : List Chunk) → calls_of (cs ++ ds) ≡ calls_of cs ++ calls_of ds
calls_of-append [] ds = refl
calls_of-append (c ∷ cs) ds = ground (arith, calls_of-append cs ds)

calls_of-map : (tcs : List ToolCall) → calls_of (map tool_call_chunk tcs) ≡ tcs
calls_of-map [] = refl
calls_of-map (tc ∷ tcs) = ap (λ l. tc ∷ l) (calls_of-map tcs)

calls_of-text : (content : String) → calls_of (text_chunks content) ≡ []
calls_of-text content = ground arith

calls_of-finish :
    (range : List ToolCall → List ToolCall) (a : Accumulator) (u : Option Usage) (reason : String)
    → (reason == "") ≡ false
    → calls_of (finish range a u reason).0 ≡ range (values a)
unfolding finish
calls_of-finish range a u reason h = rw h (
    calls_of-append (map tool_call_chunk (range (values a))) _
    ∙ List.append-nil _
    ∙ calls_of-map (range (values a)))

on_finish-some :
    (range : List ToolCall → List ToolCall) (a : Accumulator) (u : Option Usage) (o : Option String)
    (reason : String)
    → o ≡ some reason
    → on_finish range a u o ≡ finish range a u reason
unfolding on_finish
on_finish-some range a u o reason e = rw e

finish-clears :
    (range : List ToolCall → List ToolCall) (a : Accumulator) (u : Option Usage) (reason : String)
    → (reason == "") ≡ false
    → (finish range a u reason).1 ≡ new_accumulator
unfolding finish new_accumulator
finish-clears range a u reason h = rw h

-- A choice with a finish reason that is not empty emits each accumulated tool call once, in the
-- order in which Go ranges over the map, which is any permutation, and leaves the accumulator
-- empty.
pub parse_choices-finish :
    (range : List ToolCall → List ToolCall) (a : Accumulator) (raw : RawChunk) (choice : RawChoice)
    (rest : List RawChoice) (reason : String)
    → ((tcs : List ToolCall) → Perm (range tcs) tcs)
    → choice.finish_reason ≡ some reason
    → (reason == "") ≡ false
    → let (chunks, a') = parse_choices range a raw (choice ∷ rest) in
      Perm (calls_of chunks) (values (add_deltas a choice.tool_calls)) × (a' ≡ new_accumulator)
unfolding parse_choices
parse_choices-finish range a raw choice rest reason shuffles f h =
    let b : Accumulator = add_deltas a choice.tool_calls in
    let finished = on_finish-some range b raw.usage choice.finish_reason reason f in
    (
      rw (parse_choices, finished)
          (rw (calls_of-append (text_chunks choice.content) (finish range b raw.usage reason).0) (
            rw (calls_of-text choice.content, calls_of-finish range b raw.usage reason h)
              (shuffles (values b)))),
      rw (parse_choices, finished) (finish-clears range b raw.usage reason h),
    )
