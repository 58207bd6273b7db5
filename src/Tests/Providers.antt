-- ===== src/Tests/Providers.antt =====
-- Examples for internal/burrow/llm and internal/burrow/instinct.
use capyclaw.Prelude.{
  ℕ, suc, String, String_eq, ℕ_eq, ◌≡◌, refl, true, false, Bool, none, some, List, [], ◌∷◌, lookup,
  insert, arith, ap, sym, some_inj,
}
use capyclaw.Action.{ok, err}
use capyclaw.Llm.{Client, Request, ToolCall}
use capyclaw.Llm.Failover.{
  at, ProviderEntry, FailoverClient, ProviderWithModels, stream, new_routed_failover_client,
}
use capyclaw.Llm.Failover.Routes.{Listed, routes-Listed}
use capyclaw.Llm.Failover.Order.{
  Outcome, Answers, IsReliable, IsRouted, failover-Outcome, stream-Answers,
}
use capyclaw.Llm.Sse.{SseEvent, eof, no_event, codes, trim_right, parse}
use capyclaw.Llm.Sse.Roundtrip.{IsEvent, print_all, parse-print_all}
use capyclaw.Llm.Accumulator.{OpenAiToolCallDelta, RawChoice, RawChunk, add_deltas, new_accumulator}
use capyclaw.Llm.Accumulator.Assembly.{assembled, select, lookup-add_deltas}
use capyclaw.Tests.Fixtures.{demo_client}

abbrev broken_client : Client ℕ
broken_client = record {
  stream = λ req w. (err "down", suc w);
  count_tokens = λ ms w. (ok 0, w);
  provider = "broken";
}

abbrev working : ProviderEntry ℕ
working = record { client = demo_client; is_open = λ w. false }

abbrev broken : ProviderEntry ℕ
broken = record { client = broken_client; is_open = λ w. false }

abbrev tripped : ProviderEntry ℕ
tripped = record { client = demo_client; is_open = λ w. true }

abbrev ask : Request
ask = record {
  model = "m";
  messages = [];
  max_tokens = 0;
  temperature = 0;
  tools = [];
  stream = true;
}

failover-Outcome_example : Outcome ask (tripped ∷ broken ∷ working ∷ []) none 0
failover-Outcome_example = failover-Outcome ask (tripped ∷ broken ∷ working ∷ []) none 0

abbrev clients : FailoverClient ℕ
clients = record { providers = tripped ∷ broken ∷ working ∷ []; model_to_index = ("m", 1) ∷ [] }

working-IsReliable : IsReliable ask working
working-IsReliable = record { closed = λ w. refl; answer = λ w. _; next = suc; answers = λ w. refl }

clients-IsRouted : IsRouted ask clients
unfolding lookup
clients-IsRouted i h = (broken, ap (λ j. at j clients.providers) (sym (some_inj h)))

stream-Answers_example : Answers (stream ask clients 0).0
stream-Answers_example =
    stream-Answers ask clients (tripped ∷ broken ∷ []) [] working 0 refl clients-IsRouted
      ((λ w e. cc), ((λ w e. cc), ((λ w e. cc), tt))) working-IsReliable

abbrev never_open : String → (ℕ → Bool) → ℕ → Bool
never_open name trip w = false

abbrev listings : List (ProviderWithModels ℕ)
listings =
    record { client = demo_client; models = "m" ∷ "n" ∷ [] }
    ∷ record { client = broken_client; models = "m" ∷ [] }
    ∷ []

routes-Listed_example :
    Listed never_open "m" 1 (new_routed_failover_client never_open listings) listings
unfolding new_routed_failover_client lookup insert
routes-Listed_example = routes-Listed never_open "m" 1 listings refl

abbrev delta_event : SseEvent
delta_event = record { event = codes "delta"; payload = codes "x y"; id = codes "1" }

delta_event-IsEvent : IsEvent delta_event
unfolding trim_right
delta_event-IsEvent = record {
  event = record { no_newline = (refl, (refl, (refl, (refl, (refl, tt))))); trimmed = refl };
  id = record { no_newline = (refl, tt); trimmed = refl };
  payload = record { no_newline = (refl, (refl, (refl, tt))); trimmed = refl };
  has_payload = λ e. cc;
}

parse-print_all_example :
    parse 9 eof no_event (print_all (delta_event ∷ delta_event ∷ []))
    ≡ delta_event ∷ delta_event ∷ []
parse-print_all_example =
    parse-print_all (delta_event ∷ delta_event ∷ []) 9
      (delta_event-IsEvent, (delta_event-IsEvent, tt)) (omega arith)

abbrev part_of : ℕ → String → String → String → OpenAiToolCallDelta
part_of index id name arguments = record {
  index = index;
  id = id;
  call_type = "function";
  name = name;
  arguments = arguments;
}

abbrev parts : List OpenAiToolCallDelta
parts = part_of 0 "a" "echo" "{" ∷ part_of 1 "b" "exec" "[" ∷ part_of 0 "" "" "}" ∷ []

lookup-add_deltas_example :
    lookup 0 (add_deltas new_accumulator parts)
    ≡ assembled (lookup 0 new_accumulator) (select 0 parts)
lookup-add_deltas_example = lookup-add_deltas 0 new_accumulator parts

abbrev last_choice : RawChoice
last_choice = record { content = ""; tool_calls = parts; finish_reason = some "tool_calls" }

abbrev last_chunk : RawChunk
last_chunk = record { choices = last_choice ∷ []; usage = none }

abbrev in_order : List ToolCall → List ToolCall
in_order tcs = tcs
