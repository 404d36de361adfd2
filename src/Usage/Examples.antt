-- ===== src/Usage/Examples.antt =====
-- Usage of concrete Jobs, for src/worker-usage.ts and src/usage-report.ts.
use agentknot.Common.{
  Json, Number, Option, [], array, false, field, get_field, has_own, item, natural, no_fields,
  no_items, none, number, object, refl, some, text_eq, true, undefined, ℕ, ◌+◌, ◌∷◌, ◌≡◌,
}
use agentknot.Usage.Downstream.{
  Job, aggregate_overflow, attempt_entry, attempt_stats, cache_rate, count_reason, downstream_usage,
  insert_count, job_stats, listed_stats, no_tally, rate_of, report, sort_counts, stats_of, tally,
  tally_all, tally_jobs, usage_available, usage_unavailable,
}
use agentknot.Usage.DownstreamLaws.{all_stats, downstream_usage-usage_of, usage_of}
use agentknot.Usage.Evidence.{
  Evidence, Tokens, evidence_json, invalid, normalize_usage, read_cost, read_count, read_reason,
  read_tokens, read_usage, reason_text, unavailable, used, worker_failure,
}
use agentknot.Usage.EvidenceLaws.{is_fixed, normalize_usage-evidence_json, normalize_usage_lem}

abbrev few : Tokens
few = record { input = 30; output = 20; cache_read = 10; cache_write = 0; total = 60 }

abbrev most : Tokens
most = record { input = 9007199254740990; output = 1; cache_read = 0; cache_write = 0; total = 2 }

-- Costs in whole cents.
abbrev add_cents : Number → Number → Option Number
add_cents (natural m) (natural n) = some (natural (m + n))
add_cents _ _ = none

abbrev attempt : ℕ → Evidence → Json
attempt n e =
    object (field "attempt" (number (natural n)) (field "usage" (evidence_json e) no_fields))

-- A retried Job: its first attempt failed, and an entry for an attempt that was seen is not counted.
abbrev retried : Job
retried = record {
  attempt_usage = array (
      item (attempt 1 (unavailable worker_failure)) (
        item (attempt 2 (used few (natural 5)))
          (item (attempt 2 (used few (natural 5))) no_items)));
  has_succeeded = true;
  metadata = undefined;
}

abbrev large : Job
large = record retried { attempt_usage = array (item (attempt 1 (used most (natural 1))) no_items) }

reports_sums :
    downstream_usage add_cents (retried ∷ retried ∷ [])
    ≡ usage_available false
        (record { input = 60; output = 40; cache_read = 20; cache_write = 0; total = 120 })
        (natural 10)
        (rate_of 20 80)
        ((invalid, 2) ∷ (worker_failure, 2) ∷ [])
unfolding downstream_usage report tally_jobs tally_all tally no_tally job_stats stats_of
    listed_stats attempt_stats attempt_entry normalize_usage read_usage read_tokens read_count
    read_cost evidence_json read_reason reason_text get_field has_own text_eq count_reason
    sort_counts insert_count cache_rate
reports_sums = refl

reports_overflow :
    downstream_usage add_cents (large ∷ retried ∷ [])
    ≡ usage_unavailable aggregate_overflow ((invalid, 1) ∷ (worker_failure, 1) ∷ [])
unfolding downstream_usage report tally_jobs tally_all tally no_tally job_stats stats_of
    listed_stats attempt_stats attempt_entry normalize_usage read_usage read_tokens read_count
    read_cost evidence_json read_reason reason_text get_field has_own text_eq count_reason
    sort_counts insert_count
reports_overflow = refl

normalize_usage-evidence_json_example :
    normalize_usage (evidence_json (used few (natural 5))) ≡ used few (natural 5)
unfolding is_fixed
normalize_usage-evidence_json_example = normalize_usage-evidence_json (used few (natural 5)) refl

normalize_usage_lem_example :
    (is_fixed (normalize_usage (attempt 1 (unavailable invalid))) ≡ true)
    × (normalize_usage (evidence_json (normalize_usage (attempt 1 (unavailable invalid))))
        ≡ normalize_usage (attempt 1 (unavailable invalid)))
normalize_usage_lem_example = normalize_usage_lem (attempt 1 (unavailable invalid))

downstream_usage-usage_of_example :
    downstream_usage add_cents (large ∷ retried ∷ [])
    ≡ usage_of add_cents (all_stats (large ∷ retried ∷ []))
downstream_usage-usage_of_example = downstream_usage-usage_of add_cents (large ∷ retried ∷ [])
