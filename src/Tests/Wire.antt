-- ===== src/Tests/Wire.antt =====
-- Examples for internal/burrow/llm/providers.
use Prim.Native.Char.{code}
use capyclaw.Prelude.{
  ap, nat_eq, if◌then◌else◌, ℕ, String, ◌≡◌, refl, ◌++◌, none, some, List, [], ◌∷◌, lookup, suc,
}
use capyclaw.Action.{Result, ok, err}
use capyclaw.Llm.Sse.{ReadError, codes}
use capyclaw.Llm.Accumulator.{RawChunk}
use capyclaw.Nibble.Executor.{execute, on_world}
use capyclaw.Nibble.Registry.{get}
use capyclaw.Burrow.Deps.{on_executor, send, emit}
use capyclaw.Burrow.Stages.ToolExecutor.{
  execute_tools, start_loop, tool_loop, run_calls, run_call, call_found, execute_with, tool_input,
  after_tools, add_round, tool_tier,
}
use capyclaw.Action.{attempt, pure, panic, modify, ◌>>=◌}
use capyclaw.Providers.Http.{Http}
use capyclaw.Providers.Anthropic.Body.{Json, BlockStart, BlockDelta}
use capyclaw.Providers.Anthropic.Events.{no_tool, read_events}
use capyclaw.Providers.Anthropic.Blocks.{
  Sent, words, call, Printer, events_of, chunks_of, read_events-blocks,
}
use capyclaw.Providers.Anthropic.Pairs.{WirePairs, wire_messages, execute_tools-WirePairs}
use capyclaw.Providers.OpenAi.{read_response}
use capyclaw.Providers.OpenAi.Truncated.{read_response-truncated}
use capyclaw.Tests.Fixtures.{demo_deps, demo_state, asked_request}
use capyclaw.Tests.Tools.{answered_request}

-- texts one after the other: each character after an "a", and "bb" at the end
abbrev put : String → String → String
put String.[] rest = String.◌∷◌ "b" (String.◌∷◌ "b" rest)
put (String.◌∷◌ c s) rest = String.◌∷◌ "a" (String.◌∷◌ c (put s rest))

take_text : String → String × String
take_text String.[] = ("", "")
take_text (String.◌∷◌ mark String.[]) = ("", "")
take_text (String.◌∷◌ mark (String.◌∷◌ c rest)) =
    let (s, more) = take_text rest in
    if nat_eq (code mark) 98 then ("", rest) else (String.◌∷◌ c s, more)

take_text-put : (s rest : String) → take_text (put s rest) ≡ (s, rest)
unfolding take_text
take_text-put String.[] rest = refl
take_text-put (String.◌∷◌ c s) rest =
    ap (λ (p : String × String). (String.◌∷◌ c p.0, p.1)) (take_text-put s rest)

abbrev put_three : String → String → String → String
put_three a b c = put a (put b (put c ""))

take_three : String → String × String × String
take_three t =
    let (a, r) = take_text t in let (b, r') = take_text r in let (c, _) = take_text r' in (a, b, c)

take_three-put_three : (a b c : String) → take_three (put_three a b c) ≡ (a, b, c)
unfolding take_three
take_three-put_three a b c = rw take_text-put (rw take_text-put (rw take_text-put refl))

abbrev start_of : String × String × String → BlockStart
start_of t = record { kind = t.0; id = t.1; name = t.2 }

abbrev delta_of : String × String × String → BlockDelta
delta_of t = record { kind = t.0; text = t.1; partial_json = t.2 }

abbrev json : Json
json = record {
  encode = λ b. ok "{}";
  has_type = λ t. none;
  normal = λ t. some t;
  decode_message_start = λ t. none;
  decode_block_start = λ t. some (start_of (take_three t));
  decode_block_delta = λ t. some (delta_of (take_three t));
  decode_message_delta = λ t. none;
}

printer : Printer json
printer = record {
  print_start = λ b. put_three b.kind b.id b.name;
  print_delta = λ d. put_three d.kind d.text d.partial_json;
  start_lem = λ b. ap (λ t. some (start_of t)) (take_three-put_three b.kind b.id b.name);
  delta_lem = λ d. ap (λ t. some (delta_of t)) (take_three-put_three d.kind d.text d.partial_json);
}

abbrev answer : List Sent
answer = words ("Let me" ∷ " look." ∷ []) ∷ call "call-1" "read" ("{\"path\":" ∷ "\"a\"}" ∷ []) ∷ []

read_events-blocks_example :
    read_events json (events_of json printer answer []) no_tool
    ≡ chunks_of answer ++ read_events json [] no_tool
read_events-blocks_example = read_events-blocks json printer answer [] (tt, ((λ e. cc), tt))

execute_tools-WirePairs_example :
    WirePairs json 3
      (wire_messages json "" asked_request.messages)
      (wire_messages json "" answered_request.messages)
unfolding execute_tools start_loop tool_loop run_calls run_call call_found execute_with tool_input
    after_tools add_round execute get lookup on_world on_executor send emit attempt pure panic
    modify ◌>>=◌ tool_tier
execute_tools-WirePairs_example =
    execute_tools-WirePairs json (record demo_deps { llm_client = none }) "" 3 asked_request
      answered_request demo_state refl

abbrev http : Http ℕ
http = record {
  new_request = λ r. ok r;
  run = λ r w. (err "offline", suc w);
  number_text = λ n. "500";
  from_bytes = λ b. "unexpected EOF";
}

abbrev undecodable : String → Result RawChunk
undecodable t = err "invalid character"

read_response-truncated_example :
    read_response http
      (λ tcs. tcs)
      undecodable
      9
      (ReadError.failed (codes "reset"))
      (codes "data: {")
    ≡ read_response http (λ tcs. tcs) undecodable 9 ReadError.eof (codes "data: {")
read_response-truncated_example =
    read_response-truncated http (λ tcs. tcs) undecodable (codes "reset") "invalid character" 9
      (codes "data: {") refl (λ e. cc)
