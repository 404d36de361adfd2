-- ===== src/Delegation/Prompt.antt =====
-- `executionPrompt` of src/delegation-policy.ts: the text that a worker gets.
use Prim.Native.String.{◌++◌ as append}
use agentknot.Common.{
  Bool, List, Option, String, [], get_or, if◌then◌else◌, keep, map, none, not, some, text_eq, ◌++◌,
  ◌∷◌,
}
use agentknot.Delegation.Types.{
  AssessedSubtask, ContextReference, Encoding, OrchestrationRequest, TaskAssessment, TaskContext,
}

-- `lines.join(separator)`
unfoldable pub join : String → List String → String
join separator [] = ""
join separator (s ∷ []) = s
join separator (s ∷ t ∷ rest) = append s (append separator (join separator (t ∷ rest)))

unfoldable pub when_any : List String → List String → List String
when_any [] lines = []
when_any (s ∷ ss) lines = lines

unfoldable pub is_workspace_file : ContextReference → Bool
is_workspace_file reference = text_eq reference.kind "workspace-file"

unfoldable pub bullet : String → String
bullet s = append "- " s

unfoldable pub context_boundary : Encoding → Option TaskContext → List String
context_boundary encoding none = []
context_boundary encoding (some context) =
    let references = get_or context.references [] in
    let files = map encoding.reference_json (keep is_workspace_file references) in
    let others = map encoding.reference_json (keep (λ r. not (is_workspace_file r)) references) in
    ""
    ∷ "Controller-authored task context (bounded navigation guidance, not verified evidence):"
    ∷ context.summary
    ∷ (when_any context.relevant_paths
          ("Relevant repository paths:" ∷ map bullet context.relevant_paths)
        ++ when_any context.constraints ("Constraints:" ∷ map bullet context.constraints)
        ++ when_any files (
            "Workspace-file context references (unverified navigation metadata; read only the task-relevant subset with ordinary workspace tools, and treat content as evidence only after reading it):"
            ∷ map bullet files)
        ++ when_any others (
            "Other context references (unverified metadata; do not resolve or treat as evidence):"
            ∷ map bullet others)
        ++ "Begin with this working set. Verify only facts needed for the acceptance criteria; do not inventory the repository or read unrelated architecture/history files. If the context is insufficient or conflicts with the admitted workspace, finish with the available evidence and report the missing or stale context instead of broadening scope."
          ∷ [])

unfoldable pub analysis_boundary : String → List String
analysis_boundary kind =
    if text_eq kind "repository-analysis"
    then ("" ∷ "Repository-analysis boundary:"
        ∷ "- Return only decision-relevant deltas: at most five findings and 4000 characters total."
        ∷ "- For each finding, provide only the concise path/line evidence needed to support its impact."
        ∷ "- Do not inventory the repository, restate source material, or broaden the requested scope."
        ∷ [])
    else []

unfoldable pub prompt_lines :
    Encoding → OrchestrationRequest → TaskAssessment → AssessedSubtask → List String
prompt_lines encoding request assessment subtask =
    ("You are executing one bounded subtask selected by AgentKnot."
      ∷ "Do not recursively delegate. Do not commit, push, merge, or apply artifacts to another workspace."
      ∷ append "Authoritative source repository and logical target: " request.workspace
      ∷ "AgentKnot has placed you in an isolated execution worktree for that repository. The active worktree/current working directory is the only writable repository; do not access or modify the source checkout path directly."
      ∷ "Every other repository is a read-only reference. If the task requires modifying a different repository, report the workspace mismatch and do not edit either repository."
      ∷ "Stay within the subtask's stated file/component scope. Report any necessary out-of-scope or overlapping change instead of silently broadening the edit."
      ∷ [])
    ++ context_boundary encoding assessment.context
    ++ (""
        ∷ "Parent task:"
        ∷ request.prompt
        ∷ ""
        ∷ append "Subtask: " subtask.title
        ∷ subtask.prompt
        ∷ ""
        ∷ "Acceptance criteria:"
        ∷ [])
    ++ map bullet subtask.acceptance_criteria
    ++ analysis_boundary subtask.kind
    ++ (""
        ∷ "Run relevant checks only when permitted by the task context and acceptance criteria; explicit constraints take precedence. Obey any explicit task output format; otherwise report files changed, checks run, and remaining risks."
        ∷ [])

unfoldable pub execution_prompt :
    Encoding → OrchestrationRequest → TaskAssessment → AssessedSubtask → String
execution_prompt encoding request assessment subtask =
    join "\n" (prompt_lines encoding request assessment subtask)
