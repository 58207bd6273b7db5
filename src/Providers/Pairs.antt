-- ===== src/Providers/Pairs.antt =====
-- Tool calls and their results, from the pipeline's messages to those of a request.
use capyclaw.Prelude.{◌≡◌, ◌≢◌, refl, sym, ap, ◌∙◌, List, [], ◌∷◌, map}
use capyclaw.Llm
use capyclaw.Burrow.Types.{ToolCall, ToolResult}
use capyclaw.Burrow.Stages.Stream.{to_llm_call, to_llm_result}
use capyclaw.Burrow.Stages.ToolExecutor.Rounds.{Answers}

abbrev pub SameIds : List Llm.ToolCall → List Llm.ToolResult → Type 0
SameIds tcs rs =
    map (λ (r : Llm.ToolResult). r.tool_use_id) rs ≡ map (λ (c : Llm.ToolCall). c.id) tcs

pub ap2 : {A B C : Type 0} {a a' : A} {b b' : B} (f : A → B → C) → a ≡ a' → b ≡ b' → f a b ≡ f a' b'
ap2 f p q i = f (p i) (q i)

pub map-ne-nil : {A B : Type 0} (f : A → B) (xs : List A) → xs ≢ [] → map f xs ≢ []
map-ne-nil f [] h = absurd (h refl)
map-ne-nil f (x ∷ xs) h = λ e. cc

pub Answers-ne-nil :
    (tcs : List ToolCall) (rs : List ToolResult) → tcs ≢ [] → Answers tcs rs → rs ≢ []
Answers-ne-nil [] rs h e = absurd (h refl)
Answers-ne-nil (tc ∷ tcs) [] h e = cc
Answers-ne-nil (tc ∷ tcs) (r ∷ rs) h e = λ none_left. cc

result_ids-eq :
    (rs : List ToolResult)
    → map (λ (r : Llm.ToolResult). r.tool_use_id) (map to_llm_result rs)
      ≡ map (λ (r : ToolResult). r.tool_use_id) rs
result_ids-eq [] = refl
result_ids-eq (r ∷ rs) = ap (λ ids. r.tool_use_id ∷ ids) (result_ids-eq rs)

call_ids-eq :
    (tcs : List ToolCall)
    → map (λ (c : Llm.ToolCall). c.id) (map to_llm_call tcs) ≡ map (λ (c : ToolCall). c.id) tcs
call_ids-eq [] = refl
call_ids-eq (c ∷ tcs) = ap (λ ids. c.id ∷ ids) (call_ids-eq tcs)

pub llm_ids-eq :
    (tcs : List ToolCall) (rs : List ToolResult)
    → Answers tcs rs
    → SameIds (map to_llm_call tcs) (map to_llm_result rs)
llm_ids-eq tcs rs e = result_ids-eq rs ∙ e ∙ sym (call_ids-eq tcs)
