-- ===== src/Usage/Downstream.antt =====
-- `downstreamUsage` of src/usage-report.ts, with the parsing of the usage of a Job. The sum of two costs
-- is given, or none if it is not finite.
use agentknot.Common.{
  Bool, Items, Json, List, Number, Option, [], any, array, count, err, false, get_field, get_or,
  has_own, if◌then◌else◌, is_some, item, leb, length, ltb, natural, no_items, none, not, object, ok,
  some, true, undefined, ℕ, ◌&&◌, ◌+◌, ◌-◌, ◌==◌, ◌∷◌,
}
use agentknot.Usage.Evidence.{
  Evidence, Reason, Tokens, invalid, max_safe_integer, missing, normalize_usage, read_count,
  timeout, unavailable, unsupported, used, worker_failure,
}

-- What the report reads of a Job: `attemptUsage`, whether it succeeded, and `result?.metadata`.
pub record Job : Type 0 where
  pub attempt_usage : Json
  pub has_succeeded : Bool
  pub metadata : Json

unfoldable pub session_stats : Json → Evidence
session_stats (object fs) =
    if has_own "sessionStats" fs
    then normalize_usage (get_field "sessionStats" fs)
    else unavailable missing
session_stats _ = unavailable missing

-- The attempt that an entry of `attemptUsage` is for, and its usage.
unfoldable pub attempt_entry : Json → Option (ℕ × Json)
attempt_entry (object fs) = elim (read_count (get_field "attempt" fs)) [
  | err e ↦ none
  | ok n ↦ if leb 1 n && has_own "usage" fs then some (n, get_field "usage" fs) else none
]
attempt_entry _ = none

-- The loop over `attemptUsage`, with the attempts that it has seen.
unfoldable pub attempt_stats : List ℕ → Items → List Evidence
attempt_stats seen no_items = []
attempt_stats seen (item v vs) =
    let refused = attempt_stats seen vs in
    elim (attempt_entry v) [
      | none ↦ unavailable invalid ∷ refused
      | some entry ↦
          (let taken = attempt_stats (entry.0 ∷ seen) vs in
            if any (λ n. n == entry.0) seen
            then unavailable invalid ∷ refused
            else normalize_usage entry.1 ∷ taken)
    ]

unfoldable pub listed_stats : Items → List Evidence
listed_stats no_items = unavailable missing ∷ []
listed_stats (item v vs) = attempt_stats [] (item v vs)

-- `parseAttemptUsage`, or the usage in the metadata of a Job without attempts.
unfoldable pub stats_of : Json → Bool → Json → List Evidence
stats_of undefined has_succeeded metadata =
    if has_succeeded then session_stats metadata ∷ [] else []
stats_of (array vs) has_succeeded metadata = listed_stats vs
stats_of _ has_succeeded metadata = unavailable missing ∷ []

unfoldable pub job_stats : Job → List Evidence
job_stats j = stats_of j.attempt_usage j.has_succeeded j.metadata

abbrev pub Counts : Type 0
Counts = List (Reason × ℕ)

-- The order of the reasons' texts.
abbrev pub rank : Reason → ℕ
rank invalid = 0
rank missing = 1
rank timeout = 2
rank unsupported = 3
rank worker_failure = 4

-- `unavailable.set(reason, (unavailable.get(reason) ?? 0) + 1)`
unfoldable pub count_reason : Reason → Counts → Counts
count_reason r [] = (r, 1) ∷ []
count_reason r (c ∷ cs) = if rank c.0 == rank r then (c.0, c.1 + 1) ∷ cs else c ∷ count_reason r cs

unfoldable pub insert_count : Reason × ℕ → Counts → Counts
insert_count c [] = c ∷ []
insert_count c (d ∷ ds) = if leb (rank c.0) (rank d.0) then c ∷ d ∷ ds else d ∷ insert_count c ds

unfoldable pub sort_counts : Counts → Counts
sort_counts [] = []
sort_counts (c ∷ cs) = insert_count c (sort_counts cs)

-- `addSafe`, with the flag for an overflow: a sum that is not safe is not taken.
abbrev pub add_safe : ℕ × Bool → ℕ → ℕ × Bool
add_safe (total, overflow) n =
    if leb (total + n) max_safe_integer then (total + n, overflow) else (total, true)

pub record Tally : Type 0 where
  pub unavailable_counts : Counts
  pub totals : Tokens
  pub cost : Number
  pub observed : ℕ
  pub available : ℕ
  pub overflow : Bool

unfoldable pub no_tally : Tally
no_tally = record {
  unavailable_counts = [];
  totals = record { input = 0; output = 0; cache_read = 0; cache_write = 0; total = 0 };
  cost = natural 0;
  observed = 0;
  available = 0;
  overflow = false;
}

module _ (add_cost : Number → Number → Option Number) where
  abbrev pub cost_overflows : Number → Number → Bool
  cost_overflows total cost = not (is_some (add_cost total cost))

  -- The body of the loop over the attempts of a Job.
  unfoldable pub tally : Tally → Evidence → Tally
  tally t (unavailable r) = record t {
    unavailable_counts = count_reason r t.unavailable_counts;
    observed = t.observed + 1;
  }
  tally t (used x cost) =
      let input = add_safe (t.totals.input, t.overflow) x.input in
      let output = add_safe (t.totals.output, input.1) x.output in
      let cache_read = add_safe (t.totals.cache_read, output.1) x.cache_read in
      let cache_write = add_safe (t.totals.cache_write, cache_read.1) x.cache_write in
      let total = add_safe (t.totals.total, cache_write.1) x.total in
      record {
        unavailable_counts = t.unavailable_counts;
        totals = record {
          input = input.0;
          output = output.0;
          cache_read = cache_read.0;
          cache_write = cache_write.0;
          total = total.0;
        };
        cost = get_or (add_cost t.cost cost) t.cost;
        observed = t.observed + 1;
        available = t.available + 1;
        overflow = if cost_overflows t.cost cost then true else total.1;
      }

  unfoldable pub tally_all : Tally → List Evidence → Tally
  tally_all t [] = t
  tally_all t (e ∷ es) = tally_all (tally t e) es

  unfoldable pub tally_jobs : Tally → List Job → Tally
  tally_jobs t [] = t
  tally_jobs t (j ∷ js) = tally_jobs (tally_all t (job_stats j)) js

abbrev pub is_available : Evidence → Bool
is_available (used t cost) = true
is_available (unavailable r) = false

-- The Jobs that were observed with available statistics, and those without any.
unfoldable pub available_jobs : List Job → ℕ
available_jobs = count λ j. any is_available (job_stats j)

unfoldable pub unavailable_jobs : List Job → ℕ
unavailable_jobs = count λ j. not (any is_available (job_stats j)) && ltb 0 (length (job_stats j))

pub data UnavailableReason : Type 0 where
  no_successful_jobs no_valid_session_stats aggregate_overflow : UnavailableReason

-- `rate` of the cache reads: numerator and denominator, or why there is none.
pub data Rate : Type 0 where
  rate_of : ℕ → ℕ → Rate
  zero_denominator rate_overflow : Rate

unfoldable pub cache_rate : Tokens → Rate
cache_rate t =
    let sum = t.input + t.cache_read in
    if leb sum max_safe_integer
    then (if sum == 0 then zero_denominator else rate_of t.cache_read sum)
    else rate_overflow

pub data Usage : Type 0 where
  usage_available : Bool → Tokens → Number → Rate → Counts → Usage
  usage_unavailable : UnavailableReason → Counts → Usage

-- The report on a tally; the flag says whether the coverage is complete.
unfoldable pub report : Tally → Usage
report t =
    if t.observed == 0
    then usage_unavailable no_successful_jobs []
    else if t.available == 0
    then usage_unavailable no_valid_session_stats (sort_counts t.unavailable_counts)
    else if t.overflow
    then usage_unavailable aggregate_overflow (sort_counts t.unavailable_counts)
    else usage_available (t.observed - t.available == 0) t.totals t.cost (cache_rate t.totals)
        (sort_counts t.unavailable_counts)

unfoldable pub downstream_usage : (Number → Number → Option Number) → List Job → Usage
downstream_usage add_cost jobs = report (tally_jobs add_cost no_tally jobs)
