-- ===== src/Tests/Pipeline.antt =====
-- Examples for internal/burrow/pipeline.go and session.go.
use capyclaw.Prelude.{ℕ, suc, String, ◌≡◌, refl, map, some, List, [], ◌∷◌, lookup, String_eq}
use capyclaw.Action.{ok, err}
use capyclaw.Burrow.Deps.{MessageRepository, PipelineDeps}
use capyclaw.Burrow.Types.{PipelineRequest}
use capyclaw.Burrow.Stages.SessionPersister.{persist}
use capyclaw.Burrow.Stages.SessionPersister.Survives.{Survives, persist-Survives}
use capyclaw.Llm.{Message}
use capyclaw.Instinct.Compaction.{Compactor}
use capyclaw.Burrow.Session.{SessionManager, new_session}
use capyclaw.Burrow.Pipeline.{execute_prompt, new_pipeline}
use capyclaw.Burrow.Pipeline.Output.{OneEnd, execute-OneEnd}
use capyclaw.Burrow.Pipeline.Prompt.{answer, texts, prompt_run, execute_prompt-answer}
use capyclaw.Burrow.Stages.LlmInvoker.{compact_messages}
use capyclaw.Burrow.Stages.LlmInvoker.Compact.{Compacted, compact_messages-Compacted}
use capyclaw.Burrow.Stages.ToolPolicyFilter.{allowed_tools, agent_policy, to_llm_tool}
use capyclaw.Burrow.Stages.ToolPolicyFilter.Allowed.{
  DistinctKeys, also, empty, offered, allowed_tools-configured,
}
use capyclaw.Tests.Fixtures.{demo_deps, demo_request, demo_state, demo_client, echo_tool}

execute-OneEnd_example : OneEnd demo_deps demo_request demo_state
execute-OneEnd_example = execute-OneEnd demo_deps demo_request demo_state

execute_prompt-answer_example :
    (execute_prompt (new_pipeline demo_deps) demo_deps "a" "t" "ping" "k" demo_state).0
    ≡ answer
        (prompt_run demo_deps 7 7 "ping" "k" demo_state).0
        (texts "" (prompt_run demo_deps 7 7 "ping" "k" demo_state).1.out)
execute_prompt-answer_example =
    execute_prompt-answer demo_deps "a" "t" "ping" "k" 7 7 demo_state refl refl

abbrev manager : SessionManager
manager = record { sessions = ("other", new_session 3 1 2 "other") ∷ [] }

abbrev compactor : Compactor ℕ
compactor = record { summary_model = "small"; llm_client = some demo_client }

abbrev line : String → Message
line t = record { role = "user"; content = t; tool_calls = []; tool_results = [] }

abbrev six_lines : List Message
six_lines = line "a" ∷ line "b" ∷ line "c" ∷ line "d" ∷ line "e" ∷ line "f" ∷ []

compact_messages-Compacted_example :
    Compacted six_lines (compact_messages compactor six_lines demo_state).0
compact_messages-Compacted_example = compact_messages-Compacted compactor six_lines demo_state

abbrev config : List (String × String)
config = ("default", "deny") ∷ ("echo", "allow") ∷ []

config-DistinctKeys : DistinctKeys config
unfolding lookup
config-DistinctKeys = also refl (also refl empty)

allowed_tools-configured_example :
    allowed_tools (agent_policy config) (echo_tool ∷ record echo_tool { name = "exec" } ∷ [])
    ≡ map to_llm_tool (offered config (echo_tool ∷ record echo_tool { name = "exec" } ∷ []))
allowed_tools-configured_example =
    allowed_tools-configured config config-DistinctKeys
      (echo_tool ∷ record echo_tool { name = "exec" } ∷ [])

abbrev full_disk : MessageRepository ℕ
full_disk = record {
  append = λ m w. (err "disk full", suc w);
  list_by_session = λ id limit offset w. (ok [], w);
}

abbrev stored_deps : PipelineDeps ℕ
stored_deps = record demo_deps { message_repo = some full_disk }

abbrev answered_in_session : PipelineRequest
answered_in_session = record demo_request {
  session = some (new_session 7 1 2 "k");
  assistant_content = "done";
}

persist-Survives_example :
    Survives answered_in_session (persist stored_deps answered_in_session demo_state).0
persist-Survives_example = persist-Survives stored_deps answered_in_session demo_state
