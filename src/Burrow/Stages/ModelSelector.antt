-- ===== src/Burrow/Stages/ModelSelector.antt =====
-- ModelSelector.Process
use capyclaw.Prelude.{String, String_eq, ◌==◌, if◌then◌else◌}
use capyclaw.Action.{Action, pure}
use capyclaw.Burrow.Types.{PipelineRequest}
use capyclaw.Burrow.Deps.{State}

unfoldable pub select_model :
    {W : Type 0} → String → PipelineRequest → Action (State W) PipelineRequest
select_model default_model req =
    let model = req.agent_config.model in
    pure (record req { model = if model == "" then default_model else model })
