-- ===== src/Skills/Context.antt =====
-- What `prepare_subagent_context` of src/agents/skill_catalog.py writes into its two files. How
-- Python writes a list of texts as JSON is the parameter `dumps`.
use git_hub_issue_to_impleme.Prelude.{
  List, [], ◌∷◌, ◌++◌, map, if◌then◌else◌, nat_eq, pair_eq, length, is_empty, or_else, drop, Text,
  text, text_eq, texts_eq, join, Result, ◌>>=◌, ok,
}
use git_hub_issue_to_impleme.Schemas.Runtime.{WorkerAssignment}
use git_hub_issue_to_impleme.Paths.{parse, parts}
use git_hub_issue_to_impleme.Skills.Catalog.{
  Place, SkillCatalog, SkillDescriptor, skills_for, required_skills_for,
}

-- The texts of `sub_agents.md` and `context.agent`.
pub record ContextBundle : Type 0 where
  pub rules : Text
  pub context : Text

abbrev scope_lines : List Text → Text
scope_lines paths = join (text "\n") (map (λ path. text "- `" ++ (path ++ text "`")) paths)

abbrev pipeline_text : List Text → Text
pipeline_text [] = text "No required skill pipeline"
pipeline_text (skill ∷ skills) = join (text " → ") (skill ∷ skills)

abbrev skill_line : Text → SkillDescriptor → Text
skill_line root skill =
    text "- `"
    ++ (skill.name
        ++ (text "`: `"
            ++ (join (text "/") (drop (length (parts (parse root))) skill.skill_file) ++ text "`")))

unfoldable pub rules_text : WorkerAssignment → Text
rules_text a =
    text "# Runtime sub-agent rules\n\nYou are Runtime worker `"
    ++ a.worker_id
    ++ text "` for task `"
    ++ a.task_id
    ++ text "`.\nRun: `"
    ++ a.run_id
    ++ text
        "`.\n\nRead this file and `context.agent` before you start work.\n\n## Work boundary\n\nWork only in this assigned Worktree:\n\n`"
    ++ a.worktree_path
    ++ text "`\n\nYour assigned scope is:\n\n"
    ++ (scope_lines a.assigned_paths)
    ++ text
        "\n\nUse the Runtime worker tools for file edits, approved checks, queue updates,\nand Git actions. Keep all product changes inside the assigned scope. Report\nprogress and errors through your sub-agent queue.\nWrite the final WorkerResult JSON to:\n\n`"
    ++ a.worktree_path
    ++ text
        "/.chief-worker/result.json`\n\n## Required work method\n\nRead every skill listed in `context.agent`. Follow the Required Runtime worker\npipeline in that file. Emit a Skill trace for each pipeline phase. Complete the\nrequired checks and review before reporting success. Report changed files,\ncommit ID, checks, Skill traces, errors, and open questions.\n\n## Git boundary\n\nCommit only on the assigned Worker branch. The user integrates selected\nbranches into Protected main. Do not integrate changes.\n"

unfoldable pub context_text :
    (List Text → Text) → WorkerAssignment → Text → List Text → List Text → Text
context_text dumps a role required skill_lines =
    text "# Runtime sub-agent context\n\nrole: "
    ++ role
    ++ text "\nrun_id: "
    ++ a.run_id
    ++ text "\nworker_id: "
    ++ a.worker_id
    ++ text "\ntask_id: "
    ++ a.task_id
    ++ text "\nworktree: "
    ++ a.worktree_path
    ++ text "\nworker_branch: "
    ++ a.branch
    ++ text "\nbase_commit: "
    ++ a.base_commit
    ++ text "\nworker_queue: "
    ++ a.worktree_path
    ++ text "/.chief-worker/sub_agent_queue.md\nauthoritative_queue: "
    ++ a.project_workspace
    ++ text "/.chief/workers/"
    ++ a.worker_id
    ++ text "/sub_agent_queue.md\nresult_path: "
    ++ a.worktree_path
    ++ text
        "/.chief-worker/result.json\nproject_context: CONTEXT.md\nskill_catalog: docs/skills/INDEX.md\nrequired_skills: "
    ++ (or_else (join (text ", ") required) (text "None"))
    ++ text "\n\n## Required Runtime worker pipeline\n\n"
    ++ (pipeline_text required)
    ++ text
        "\n\nThe worker must emit Skill traces for the required phases. Chief checks these\ntraces before it accepts a WorkerResult.\n\n## Assigned paths\n\n"
    ++ (scope_lines a.assigned_paths)
    ++ text "\n\n## Approved checks\n\n"
    ++ (or_else
        (join (text "\n") (map (λ argv. text "- `" ++ (dumps argv ++ text "`")) a.approved_checks))
        (text "- No checks are approved yet."))
    ++ text "\n\n## Available skill snapshots\n\n"
    ++ (join (text "\n") skill_lines)
    ++ text "\n"

-- `assignment.required_skills or self.required_skills_for(role)`
abbrev pub required_for_assignment : SkillCatalog → WorkerAssignment → Text → Result (List Text)
required_for_assignment catalog a role =
    let others = required_skills_for catalog role in
    if is_empty a.required_skills then others else ok a.required_skills

-- `prepare_subagent_context`: what it writes, unless it raises before it writes anything.
unfoldable pub prepare_subagent_context :
    Place → (List Text → Text) → SkillCatalog → WorkerAssignment → Text → Result ContextBundle
prepare_subagent_context place dumps catalog a role = do
  skills ← skills_for place catalog role
  required ← required_for_assignment catalog a role
  ok (record {
    rules = rules_text a;
    context = context_text dumps a role required (map (skill_line catalog.project_root) skills);
  })
