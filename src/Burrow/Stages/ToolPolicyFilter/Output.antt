-- ===== src/Burrow/Stages/ToolPolicyFilter/Output.antt =====
-- ToolPolicyFilter sends nothing.
use capyclaw.Burrow.Types.{PipelineRequest}
use capyclaw.Burrow.Deps.{PipelineDeps}
use capyclaw.Burrow.Sends.{Sends, Sent-refl}
use capyclaw.Burrow.Stages.ToolPolicyFilter.{filter_tools}

pub filter_tools-Sends :
    {W : Type 0} (d : PipelineDeps W) (req : PipelineRequest)
    → Sends W PipelineRequest (filter_tools d req)
unfolding filter_tools
filter_tools-Sends d req = record { at = Sent-refl }
