-- ===== src/Execution/AttemptOutcome.antt =====
-- Without a failing save, an attempt of src/orchestrator.ts does not end by an error of the store.
use agentknot.Common.{
  Bool, List, Option, String, [], arith, err, false, if◌then◌else◌, none, ok, refl, some, true, ℕ,
  ◌∷◌, ◌≡◌, ◌≤◌,
}
use agentknot.Execution.Attempts.{
  Attempt, Failure, WorkerFailure, after_send, artifact_kept, capture_patch, keep_artifact,
  keep_captured, or_failure, persistence_failure, read_only_failure, record_attempt_usage,
  run_attempt, send_all, thrown_by,
}
use agentknot.Execution.Log.{
  Artifact, Env, EventType, Job, Run, Step, artifact, emit, push_event, worker,
}
use agentknot.Execution.Rounds.{has_ended}
use agentknot.Execution.Triples.{Never, Outcome, Settles, emit-Settles, settles, weaken}

-- A Job that has not ended, within its attempts.
unfoldable pub IsLive : ℕ → Job → Type 0
IsLive most j = (has_ended j.status ≡ false) × (j.attempt ≤ most) × (j.max_attempts ≡ most)

abbrev pub is_unbroken : Option Failure → Bool
is_unbroken (some (persistence_failure e)) = false
is_unbroken _ = true

unfoldable pub StaysLive : ℕ → Run × Option Failure → Type 0
StaysLive most s = IsLive most s.0.job × (is_unbroken s.1 ≡ true)

unbroken_or :
    (f g : Option Failure)
    → is_unbroken f ≡ true
    → is_unbroken g ≡ true
    → is_unbroken (or_failure f g) ≡ true
unbroken_or none g hf hg = hg
unbroken_or (some f) g hf hg = hf

thrown_by_unbroken : (f : Option WorkerFailure) → is_unbroken (thrown_by f) ≡ true
thrown_by_unbroken none = refl
thrown_by_unbroken (some f) = refl

unbroken_if :
    (b : Bool) (f g : Option Failure)
    → is_unbroken f ≡ true
    → is_unbroken g ≡ true
    → is_unbroken (if b then f else g) ≡ true
unbroken_if true f g hf hg = hf
unbroken_if false f g hf hg = hg

pub read_only_failure_unbroken :
    (is_analysis : Bool) (a : Attempt) (n : ℕ) (j : Job) (f : Option Failure)
    → is_unbroken f ≡ true
    → is_unbroken (read_only_failure is_analysis a n j f) ≡ true
unfolding read_only_failure
read_only_failure_unbroken is_analysis a n j (some f) h = h
read_only_failure_unbroken is_analysis a n j none h = ground arith

module _ (env : Env) (saves : (n : ℕ) → env.save n ≡ none) (most : ℕ) where
  pub emit-IsLive :
      (type : EventType) (r : Run)
      → IsLive most r.job
      → Settles (λ r' u. IsLive most r'.job) Never (emit env type r)
  unfolding IsLive push_event
  emit-IsLive type r live =
      weaken (emit-Settles env saves (IsLive most) (λ t at j holds. holds) type r live)
        (λ r' u kept. kept.0)

  after_send_live :
      (b : Bool) (s : Step (Unit {0})) (next : Run → Run × Option Failure)
      → Settles (λ r' u. IsLive most r'.job) Never s
      → ((r : Run) → IsLive most r.job → StaysLive most (next r))
      → StaysLive most (after_send b s next)
  unfolding after_send Outcome Never
  after_send_live b (r, ok u) next (settles live) step = step r live
  after_send_live b (r, err e) next (settles impossible) step = elim impossible [ ]

  send_all_live :
      (b : Bool) (types : List String) (r : Run)
      → IsLive most r.job
      → StaysLive most (send_all env b types r)
  unfolding send_all StaysLive
  send_all_live b [] r live = (live, refl)
  send_all_live b (t ∷ ts) r live =
      after_send_live b _ _ (emit-IsLive (worker t) r live) (send_all_live b ts)

  artifact_kept_live :
      (d : Bool) (previous : List Artifact) (s : Step (Unit {0}))
      → Settles (λ r' u. IsLive most r'.job) Never s
      → StaysLive most (artifact_kept d previous s)
  unfolding artifact_kept Outcome Never StaysLive
  artifact_kept_live d previous (r, ok u) (settles live) = (live, refl)
  artifact_kept_live d previous (r, err e) (settles impossible) = elim impossible [ ]

  keep_captured_live :
      (d : Bool) (patch : Option Artifact) (r : Run)
      → IsLive most r.job
      → StaysLive most (keep_captured env d patch r)
  unfolding keep_captured keep_artifact StaysLive IsLive
  keep_captured_live d none r live = (live, refl)
  keep_captured_live d (some patch) r live =
      artifact_kept_live d r.job.artifacts _ (emit-IsLive artifact _ live)

  capture_patch_live :
      (a : Attempt) (r : Run) → IsLive most r.job → StaysLive most (capture_patch env a r)
  unfolding capture_patch StaysLive
  capture_patch_live a r live =
      elim a.is_isolated
        as (λ x.
          StaysLive most
            (if x then keep_captured env a.discard_throws a.capture r else (r, none))) [
              | true ↦ keep_captured_live _ _ r live
              | false ↦ (live, refl)
            ]

  pub run_attempt_live :
      (a : Attempt) (n : ℕ) (r : Run) → IsLive most r.job → StaysLive most (run_attempt env a n r)
  unfolding run_attempt record_attempt_usage IsLive StaysLive
  run_attempt_live a n r live =
      let sent = send_all_live a.rethrows a.sends r live in
      let captured = capture_patch_live a _ sent.0 in
      let failure =
        unbroken_or _ _ (unbroken_or _ _ sent.1 (thrown_by_unbroken a.failure)) captured.1 in
      (captured.0, unbroken_if _ _ _ (unbroken_or _ _ failure refl) failure)
