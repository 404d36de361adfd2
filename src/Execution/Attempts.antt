-- ===== src/Execution/Attempts.antt =====
-- One attempt of `#execute` of src/orchestrator.ts. What a worker and its workspace do in an attempt
-- is given: the events that it sends, and how it ends. Worker control and artifact reading are left
-- out.
use agentknot.Common.{
  Bool, List, Option, String, [], any, err, false, find, if◌then◌else◌, is_some, ltb, none, ok,
  some, true, ℕ, ◌&&◌, ◌++◌, ◌==◌, ◌∷◌,
}
use agentknot.Execution.Log.{
  Artifact, Env, EventType, Job, Run, RunError, Step, artifact, artifact_phase, emit, persistence,
  save_failed, worker,
}

pub data WorkerFailure : Type 0 where
  artifact_too_large read_only_violation artifact_read artifact_unused worker_settled
        worker_transient other_failure :
      WorkerFailure

pub data Failure : Type 0 where
  persistence_failure : RunError → Failure
  worker_failure : WorkerFailure → Failure

pub record WorkerResult : Type 0 where
  pub report_throws : Bool
  pub is_blocked : Bool
  pub metadata_throws : Bool

-- `rethrows` says whether the adapter lets the error of an event that cannot be stored through.
-- `capture` is the patch that is taken from an isolated workspace, or none if taking it throws.
pub record Attempt : Type 0 where
  pub sends : List String  -- the types of worker events
  pub rethrows : Bool
  pub result : Option WorkerResult
  pub failure : Option WorkerFailure
  pub is_isolated : Bool
  pub capture : Option Artifact
  pub discard_throws : Bool
  pub cleanup_throws : Bool
  pub job_aborted : Bool
  pub delay_is_aborted : Bool

-- `if (failure === undefined) failure = next;`
abbrev pub or_failure : Option Failure → Option Failure → Option Failure
or_failure none next = next
or_failure (some f) next = some f

abbrev pub thrown_by : Option WorkerFailure → Option Failure
thrown_by none = none
thrown_by (some f) = some (worker_failure f)

unfoldable pub after_send :
    Bool → Step (Unit {0}) → (Run → Run × Option Failure) → Run × Option Failure
after_send rethrows (r, ok u) next = next r
after_send rethrows (r, err e) next = if rethrows then (r, some (persistence_failure e)) else next r

-- The sink of the events of a worker, over what it sends.
unfoldable pub send_all : Env → Bool → List String → Run → Run × Option Failure
send_all env rethrows [] r = (r, none)
send_all env rethrows (t ∷ ts) r =
    after_send rethrows (emit env (worker t) r) (λ r'. send_all env rethrows ts r')

unfoldable pub record_attempt_usage : ℕ → Job → Job
record_attempt_usage attempt j = record j {
  attempt_usage =
      if any (λ a. a == attempt) j.attempt_usage
      then j.attempt_usage
      else j.attempt_usage ++ attempt ∷ [];
}

abbrev is_artifact : EventType → Bool
is_artifact artifact = true
is_artifact _ = false

abbrev is_artifact_error : RunError → Bool
is_artifact_error (persistence _ type _) = is_artifact type
is_artifact_error _ = false

abbrev artifact_error : Bool → RunError → RunError
artifact_error discard_throws e =
    if is_artifact_error e && discard_throws
    then persistence artifact_phase artifact save_failed
    else e

-- An artifact whose event cannot be stored is taken back.
unfoldable pub artifact_kept : Bool → List Artifact → Step (Unit {0}) → Run × Option Failure
artifact_kept discard_throws previous (r, ok u) = (r, none)
artifact_kept discard_throws previous (r, err e) = (
  record r {
    job = record r.job { artifacts = if is_artifact_error e then previous else r.job.artifacts };
  },
  some (persistence_failure (artifact_error discard_throws e)),
)

unfoldable pub keep_artifact : Env → Bool → Artifact → Run → Run × Option Failure
keep_artifact env discard_throws patch r = artifact_kept discard_throws r.job.artifacts (
    emit env artifact
      (record r { job = record r.job { artifacts = r.job.artifacts ++ patch ∷ [] } }))

unfoldable pub keep_captured : Env → Bool → Option Artifact → Run → Run × Option Failure
keep_captured env discard_throws none r = (r, some (worker_failure other_failure))
keep_captured env discard_throws (some patch) r = keep_artifact env discard_throws patch r

unfoldable pub capture_patch : Env → Attempt → Run → Run × Option Failure
capture_patch env a r =
    if a.is_isolated then keep_captured env a.discard_throws a.capture r else (r, none)

-- The attempt with its `finally` block.
unfoldable pub run_attempt : Env → Attempt → ℕ → Run → Run × Option Failure
run_attempt env a attempt r =
    let sent = send_all env a.rethrows a.sends r in
    let used = record sent.0 { job = record_attempt_usage attempt sent.0.job } in
    let captured = capture_patch env a used in
    let failure = or_failure (or_failure sent.1 (thrown_by a.failure)) captured.1 in
    (
      captured.0,
      if a.is_isolated && a.cleanup_throws
          then or_failure failure (some (worker_failure other_failure))
          else failure,
    )

-- The patch of this attempt, by the number of its changed files.
abbrev pub changed_in : ℕ → List Artifact → ℕ
changed_in attempt artifacts = elim (find (λ x. x.attempt == attempt) artifacts) [
  | none ↦ 0
  | some x ↦ x.changed_files
]

-- A repository analysis must not change files.
unfoldable pub read_only_failure : Bool → Attempt → ℕ → Job → Option Failure → Option Failure
read_only_failure is_analysis a attempt j (some f) = some f
read_only_failure is_analysis a attempt j none =
    if is_analysis && is_some a.result && ltb 0 (changed_in attempt j.artifacts)
    then some (worker_failure read_only_violation)
    else none
