-- ===== src/Usage/DownstreamLaws.antt =====
-- The loops of `downstreamUsage` of src/usage-report.ts against sums over all that was observed.
use agentknot.Common.{
  Bool, Bool-cases, List, Number, Option, Option-cases, [], ap, arith, count, false, if◌then◌else◌,
  inl, inr, is_some, leb, length, natural, none, refl, some, sym, true, ◌&&◌, ◌++◌, ◌+◌, ◌-◌, ◌==◌,
  ◌∙◌, ◌∷◌, ◌≡◌, ◌≤◌,
}
use agentknot.Usage.Downstream.{
  Counts, Job, Tally, Usage, aggregate_overflow, cache_rate, count_reason, downstream_usage,
  is_available, job_stats, no_successful_jobs, no_tally, no_valid_session_stats, report,
  sort_counts, tally, tally_all, tally_jobs, usage_available, usage_unavailable,
}
use agentknot.Usage.Evidence.{Evidence, Tokens, max_safe_integer, unavailable, used}

-- The sums of the available statistics, without any bound.
unfoldable pub sums : List Evidence → Tokens
sums [] = record { input = 0; output = 0; cache_read = 0; cache_write = 0; total = 0 }
sums (unavailable r ∷ es) = sums es
sums (used x cost ∷ es) = record {
  input = x.input + (sums es).input;
  output = x.output + (sums es).output;
  cache_read = x.cache_read + (sums es).cache_read;
  cache_write = x.cache_write + (sums es).cache_write;
  total = x.total + (sums es).total;
}

unfoldable pub count_reasons : Counts → List Evidence → Counts
count_reasons counts [] = counts
count_reasons counts (unavailable r ∷ es) = count_reasons (count_reason r counts) es
count_reasons counts (used x cost ∷ es) = count_reasons counts es

module _ (add_cost : Number → Number → Option Number) where
  -- The sum of the costs from the first to the last, or none if one on the way is not finite.
  unfoldable pub cost_from : Number → List Evidence → Option Number
  cost_from cost [] = some cost
  cost_from cost (unavailable r ∷ es) = cost_from cost es
  cost_from cost (used x c ∷ es) = elim (add_cost cost c) [
    | none ↦ none
    | some sum ↦ cost_from sum es
  ]

  tally_all-counts :
      (t : Tally) (es : List Evidence)
      → ((tally_all add_cost t es).observed ≡ t.observed + length es)
        × ((tally_all add_cost t es).available ≡ t.available + count is_available es)
        × ((tally_all add_cost t es).unavailable_counts ≡ count_reasons t.unavailable_counts es)
  unfolding tally_all tally count_reasons
  tally_all-counts t [] = (omega arith, omega arith, refl)
  tally_all-counts t (unavailable r ∷ es) =
      let (a, b, c) = tally_all-counts (tally add_cost t (unavailable r)) es in
      (omega (arith, a), omega (arith, b), c)
  tally_all-counts t (used x cost ∷ es) =
      let (a, b, c) = tally_all-counts (tally add_cost t (used x cost)) es in
      (omega (arith, a), omega (arith, b), c)

  tally_all-overflow :
      (t : Tally) (es : List Evidence)
      → t.overflow ≡ true
      → (tally_all add_cost t es).overflow ≡ true
  unfolding tally_all tally
  tally_all-overflow t [] h = h
  tally_all-overflow t (unavailable r ∷ es) h = tally_all-overflow _ es h
  tally_all-overflow t (used x cost ∷ es) h =
      tally_all-overflow (tally add_cost t (used x cost)) es (ground arith)

  unfoldable Taken : Tally → Tokens → Number → Type 0
  Taken t x cost =
      ((tally add_cost t (used x cost)).totals.input ≡ t.totals.input + x.input)
      × ((tally add_cost t (used x cost)).totals.output ≡ t.totals.output + x.output)
      × ((tally add_cost t (used x cost)).totals.cache_read ≡ t.totals.cache_read + x.cache_read)
      × ((tally add_cost t (used x cost)).totals.cache_write ≡ t.totals.cache_write + x.cache_write)
      × ((tally add_cost t (used x cost)).totals.total ≡ t.totals.total + x.total)

  tally-Taken :
      (t : Tally) (x : Tokens) (cost : Number)
      → (tally add_cost t (used x cost)).overflow ≡ false
      → Taken t x cost
  unfolding tally Taken
  tally-Taken t x cost h = (ground arith, ground arith, ground arith, ground arith, ground arith)

  unfoldable pub Fits : Tally → List Evidence → Type 0
  Fits t es =
      (t.totals.input + (sums es).input ≤ max_safe_integer)
      × (t.totals.output + (sums es).output ≤ max_safe_integer)
      × (t.totals.cache_read + (sums es).cache_read ≤ max_safe_integer)
      × (t.totals.cache_write + (sums es).cache_write ≤ max_safe_integer)
      × (t.totals.total + (sums es).total ≤ max_safe_integer)

  unfoldable Added : Tally → List Evidence → Type 0
  Added t es =
      ((tally_all add_cost t es).totals.input ≡ t.totals.input + (sums es).input)
      × ((tally_all add_cost t es).totals.output ≡ t.totals.output + (sums es).output)
      × ((tally_all add_cost t es).totals.cache_read ≡ t.totals.cache_read + (sums es).cache_read)
      × ((tally_all add_cost t es).totals.cache_write
          ≡ t.totals.cache_write + (sums es).cache_write)
      × ((tally_all add_cost t es).totals.total ≡ t.totals.total + (sums es).total)
      × (cost_from t.cost es ≡ some (tally_all add_cost t es).cost)

  quiet :
      (t : Tally) (e : Evidence) (es : List Evidence)
      → (tally_all add_cost (tally add_cost t e) es).overflow ≡ false
      → (tally add_cost t e).overflow ≡ false
  quiet t e es h = elim (Bool-cases (tally add_cost t e).overflow) [
    | inl loud ↦ (let still = tally_all-overflow (tally add_cost t e) es loud in cc)
    | inr silent ↦ silent
  ]

  tally-Fits :
      (t : Tally) (x : Tokens) (cost : Number)
      → (tally add_cost t (used x cost)).overflow ≡ false
      → Fits (tally add_cost t (used x cost)) []
  unfolding tally Fits sums
  tally-Fits t x cost h = (ground arith, ground arith, ground arith, ground arith, ground arith)

  tally-cost :
      (t : Tally) (x : Tokens) (cost : Number)
      → (tally add_cost t (used x cost)).overflow ≡ false
      → add_cost t.cost cost ≡ some (tally add_cost t (used x cost)).cost
  unfolding tally
  tally-cost t x cost h = ground arith

  tally_all-Added :
      (t : Tally) (es : List Evidence)
      → Fits t []
      → (tally_all add_cost t es).overflow ≡ false
      → Fits t es × Added t es
  unfolding tally_all tally Taken Fits Added sums cost_from
  tally_all-Added t [] fits h =
      (fits, (omega arith, omega arith, omega arith, omega arith, omega arith, refl))
  tally_all-Added t (unavailable r ∷ es) fits h =
      tally_all-Added (tally add_cost t (unavailable r)) es fits h
  tally_all-Added t (used x cost ∷ es) fits h =
      let silent = quiet t (used x cost) es h in
      let (i, o, r, w, n) = tally-Taken t x cost silent in
      let c = tally-cost t x cost silent in
      let (later, (i', o', r', w', n', c')) =
        tally_all-Added (tally add_cost t (used x cost)) es (tally-Fits t x cost silent) h in
      (
        (
          omega (arith, i, later.0),
          omega (arith, o, later.1),
          omega (arith, r, later.2),
          omega (arith, w, later.3),
          omega (arith, n, later.4),
        ),
        (
          omega (arith, i, i'),
          omega (arith, o, o'),
          omega (arith, r, r'),
          omega (arith, w, w'),
          omega (arith, n, n'),
          cc,
        ),
      )

  tally-silent :
      (t : Tally) (x : Tokens) (cost : Number) (es : List Evidence)
      → t.overflow ≡ false
      → Fits t (used x cost ∷ es)
      → is_some (add_cost t.cost cost) ≡ true
      → (tally add_cost t (used x cost)).overflow ≡ false
  unfolding tally Fits sums
  tally-silent t x cost es h fits is = ground arith

  cost_from-used :
      (total cost sum : Number) (x : Tokens) (es : List Evidence)
      → add_cost total cost ≡ some sum
      → cost_from total (used x cost ∷ es) ≡ cost_from sum es
  unfolding cost_from
  cost_from-used total cost sum x es h = ground arith

  tally_all-silent :
      (t : Tally) (es : List Evidence)
      → t.overflow ≡ false
      → Fits t es
      → is_some (cost_from t.cost es) ≡ true
      → (tally_all add_cost t es).overflow ≡ false
  unfolding tally_all tally Taken Fits sums cost_from
  tally_all-silent t [] h fits is = h
  tally_all-silent t (unavailable r ∷ es) h fits is =
      tally_all-silent (tally add_cost t (unavailable r)) es h fits is
  tally_all-silent t (used x cost ∷ es) h fits is = elim (Option-cases (add_cost t.cost cost)) [
    | inl broken ↦ ground arith
    | inr (c, summed) ↦
        (let silent = tally-silent t x cost es h fits (ground arith) in
          let (i, o, r, w, n) = tally-Taken t x cost silent in
          let kept = tally-cost t x cost silent in
          tally_all-silent (tally add_cost t (used x cost)) es silent
            (
              omega (arith, i, fits.0),
              omega (arith, o, fits.1),
              omega (arith, r, fits.2),
              omega (arith, w, fits.3),
              omega (arith, n, fits.4),
            )
            (ap is_some (sym (cost_from-used t.cost cost _ x es kept)) ∙ is))
  ]

unfoldable pub all_stats : List Job → List Evidence
all_stats [] = []
all_stats (j ∷ js) = job_stats j ++ all_stats js

unfoldable pub fits_in : Tokens → Bool
fits_in t =
    leb t.input max_safe_integer
    && leb t.output max_safe_integer
    && leb t.cache_read max_safe_integer
    && leb t.cache_write max_safe_integer
    && leb t.total max_safe_integer

unfoldable pub summed : Counts → List Evidence → Bool → Option Number → Usage
summed counts es true (some cost) =
    usage_available (length es - count is_available es == 0) (sums es) cost (cache_rate (sums es))
      counts
summed counts es _ _ = usage_unavailable aggregate_overflow counts

-- The usage that the observed statistics amount to.
unfoldable pub usage_of : (Number → Number → Option Number) → List Evidence → Usage
usage_of add_cost es =
    let counts = sort_counts (count_reasons [] es) in
    if length es == 0
    then usage_unavailable no_successful_jobs []
    else if count is_available es == 0
    then usage_unavailable no_valid_session_stats counts
    else summed counts es (fits_in (sums es)) (cost_from add_cost (natural 0) es)

tally_all-append :
    (add_cost : Number → Number → Option Number) (t : Tally) (es fs : List Evidence)
    → tally_all add_cost t (es ++ fs) ≡ tally_all add_cost (tally_all add_cost t es) fs
unfolding tally_all
tally_all-append add_cost t [] fs = refl
tally_all-append add_cost t (e ∷ es) fs = tally_all-append add_cost (tally add_cost t e) es fs

tally_jobs-tally_all :
    (add_cost : Number → Number → Option Number) (t : Tally) (jobs : List Job)
    → tally_jobs add_cost t jobs ≡ tally_all add_cost t (all_stats jobs)
unfolding tally_jobs all_stats tally_all
tally_jobs-tally_all add_cost t [] = refl
tally_jobs-tally_all add_cost t (j ∷ js) =
    tally_jobs-tally_all add_cost (tally_all add_cost t (job_stats j)) js
    ∙ sym (tally_all-append add_cost t (job_stats j) (all_stats js))

summed-overflow :
    (add_cost : Number → Number → Option Number) (es : List Evidence) (counts : Counts)
    (fits : Bool) (cost : Option Number)
    → fits_in (sums es) ≡ fits
    → cost_from add_cost (natural 0) es ≡ cost
    → (tally_all add_cost no_tally es).overflow ≡ true
    → summed counts es fits cost ≡ usage_unavailable aggregate_overflow counts
unfolding summed fits_in Fits no_tally
summed-overflow add_cost es counts true (some c) hf hc h =
    let silent =
      tally_all-silent add_cost no_tally es refl
        (ground arith, ground arith, ground arith, ground arith, ground arith) (ap is_some hc) in
    cc
summed-overflow add_cost es counts true none hf hc h = refl
summed-overflow add_cost es counts false (some c) hf hc h = refl
summed-overflow add_cost es counts false none hf hc h = refl

tokens_ext :
    (a b : Tokens)
    → a.input ≡ b.input
    → a.output ≡ b.output
    → a.cache_read ≡ b.cache_read
    → a.cache_write ≡ b.cache_write
    → a.total ≡ b.total
    → a ≡ b
tokens_ext a b i o r w n = cc

summed-available :
    (add_cost : Number → Number → Option Number) (es : List Evidence) (counts : Counts)
    → (tally_all add_cost no_tally es).overflow ≡ false
    → summed counts es (fits_in (sums es)) (cost_from add_cost (natural 0) es)
      ≡ usage_available
          (length es - count is_available es == 0)
          (tally_all add_cost no_tally es).totals
          (tally_all add_cost no_tally es).cost
          (cache_rate (tally_all add_cost no_tally es).totals)
          counts
unfolding summed fits_in Fits Added no_tally sums
summed-available add_cost es counts h =
    let (fits, (i, o, r, w, n, c)) =
      tally_all-Added add_cost no_tally es
        (omega arith, omega arith, omega arith, omega arith, omega arith) h in
    let same : (tally_all add_cost no_tally es).totals ≡ sums es =
      tokens_ext _ _ (omega (arith, i)) (omega (arith, o)) (omega (arith, r)) (omega (arith, w))
        (omega (arith, n)) in
    let within : fits_in (sums es) ≡ true = ground arith in cc

report-usage_of :
    (add_cost : Number → Number → Option Number) (es : List Evidence)
    → report (tally_all add_cost no_tally es) ≡ usage_of add_cost es
unfolding report usage_of no_tally
report-usage_of add_cost es =
    let (o, a, c) = tally_all-counts add_cost no_tally es in
    elim (Bool-cases (tally_all add_cost no_tally es).overflow) [
      | inl loud ↦
          (let amount =
              summed-overflow add_cost es (sort_counts (count_reasons [] es)) _ _ refl refl loud in
            ground (arith, o, a, c, amount))
      | inr silent ↦
          (let amount = summed-available add_cost es (sort_counts (count_reasons [] es)) silent in
            ground (arith, o, a, c, amount))
    ]

-- The report on the downstream usage of Jobs, which adds up attempt by attempt and leaves out a sum
-- that is not a safe integer, is what the sums over all attempts amount to: it says that the
-- aggregate overflows exactly when one of them is not safe or a sum of costs is not finite, and
-- otherwise gives these sums, whatever the addition of costs is.
pub downstream_usage-usage_of :
    (add_cost : Number → Number → Option Number) (jobs : List Job)
    → downstream_usage add_cost jobs ≡ usage_of add_cost (all_stats jobs)
unfolding downstream_usage
downstream_usage-usage_of add_cost jobs =
    ap report (tally_jobs-tally_all add_cost no_tally jobs)
    ∙ report-usage_of add_cost (all_stats jobs)
