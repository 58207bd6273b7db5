-- ===== src/Instinct/Builder.antt =====
-- internal/burrow/instinct/builder.go
use capyclaw.Prelude.{String, List, [], ◌∷◌, ◌++◌, concat, join, String_eq, ◌==◌, if◌then◌else◌}

pub record SkillPrompt : Type 0 where
  pub name : String
  pub description : String
  pub content : String

pub record BuildRequest : Type 0 where
  pub identity_md : String
  pub soul_md : String
  pub user_md : String
  pub skills : List SkillPrompt
  pub context_summary : String
  pub memory_context : String

skill_elements : List SkillPrompt → List String
skill_elements [] = []
skill_elements (s ∷ ss) =
    concat ("  <skill name=\"" ∷ s.name ∷ "\">\n" ∷ "    " ∷ s.content ∷ "\n  </skill>\n" ∷ [])
    ∷ skill_elements ss

unfoldable pub build_skills_xml : List SkillPrompt → String
unfolding skill_elements
build_skills_xml skills = concat ("<skills>\n" ∷ concat (skill_elements skills) ∷ "</skills>" ∷ [])

-- a part is left out if its text is empty
abbrev pub part : String → String → List String
part heading s = if s == "" then [] else concat (heading ∷ s ∷ []) ∷ []

abbrev pub plain_part : String → List String
plain_part s = if s == "" then [] else s ∷ []

abbrev pub skills_part : List SkillPrompt → List String
skills_part [] = []
skills_part (s ∷ ss) = build_skills_xml (s ∷ ss) ∷ []

abbrev pub prompt_parts : BuildRequest → List String
prompt_parts req =
    plain_part req.identity_md
    ++ plain_part req.soul_md
    ++ plain_part req.user_md
    ++ skills_part req.skills
    ++ part "## Relevant Memories\n" req.memory_context
    ++ part "## Context Summary\n" req.context_summary

unfoldable pub build : BuildRequest → String
build req = join "\n\n---\n\n" (prompt_parts req)
