-- ===== src/Ledger/Chain.antt =====
-- The chain of evidence from a disposition back to the executor Job: src/work-order.ts,
-- src/candidate.ts, src/review.ts and src/disposition.ts.
use agentknot.Common.{
  >>=-eq-ok, Json, Option, Result, String, arith, err, expect-eq-ok, guard-eq-ok, none, ok, refl,
  some, subst, sym, text_eq, text_eq_iff, ℕ, ◌>>=◌, ◌≡◌,
}
use agentknot.Ledger.Entries.{Entry, create_entry, get_entry, new_entry}
use agentknot.Ledger.EntryLaws.{get_entry-eq-some}
use agentknot.Ledger.Links.{
  HasCandidate, HasOrder, HasReview, Links, Reads, create_entry-Kept, create_entry-New,
  orders-Links, same-Kept, same-New,
}
use agentknot.Ledger.OrderRows.{
  KeepsJobs, KeepsJobs-refl, Keyed, bind_executor_job-KeepsJobs, create-KeepsJobs,
}
use agentknot.Ledger.Recorded.{HasRecorded, any-HasRecorded}
use agentknot.Ledger.Requests.{
  CandidateRequest, DispositionRequest, LedgerError, ReviewRequest, normalize_candidate,
  normalize_command, normalize_disposition, normalize_review,
}
use agentknot.Ledger.Services.{
  Formats, Ledger, bind_order, check_sources, create_candidate, create_review, found,
  has_recorded_artifact, in_store, is_free, issue, issued_order,
}
use agentknot.Ledger.Shelves.{get-stands, stands}
use agentknot.Store.Records.{bind_executor_job, create, get, has_status}
use agentknot.Store.Sql.{Database}
use agentknot.Store.Types.{StoreError, StoredRecord}

-- A read that was asked for.
found-eq-ok :
    {A B : Type 0} (call : Result StoreError (Option A)) (missing : LedgerError)
    (next : A → Result LedgerError B) {last : B}
    → (found call missing >>= next) ≡ ok last
    → (a : A) × (call ≡ ok (some a)) × (next a ≡ ok last)
found-eq-ok (err e) missing next h = cc
found-eq-ok (ok none) missing next h = cc
found-eq-ok (ok (some a)) missing next h = (a, refl, h)

in_store-eq-ok :
    {A B : Type 0} (call : Result StoreError A) (next : A → Result LedgerError B) {last : B}
    → (in_store call >>= next) ≡ ok last
    → (a : A) × (call ≡ ok a) × (next a ≡ ok last)
in_store-eq-ok (err e) next h = cc
in_store-eq-ok (ok a) next h = (a, refl, h)

module _ (f : Formats) where
  pub issue-Links :
      (id : String) (now : ℕ) (command : Json) (l l' : Ledger) (order : StoredRecord)
      → Keyed l.orders.rows
      → issue f id now command l ≡ ok (order, l')
      → Links f l l'
  unfolding issue issued_order
  issue-Links id now command l l' order keyed h =
      let (c, _, h₁) = >>=-eq-ok (normalize_command f.resolve command) _ h in
      let (a, w, h₂) = in_store-eq-ok (create l.orders.handle _ l.orders.rows) _ h₁ in
      let same : a.1 ≡ l'.orders.rows = ground arith in
      orders-Links f l l'
        (subst (λ (x : Database). KeepsJobs l.orders.rows x × Keyed x) same
          (create-KeepsJobs l.orders.handle _ l.orders.rows a refl keyed w))
        (ground arith) (ground arith) (ground arith)

  pub bind_order-Links :
      (id : String) (expected : ℕ) (executor : String) (now : ℕ) (l l' : Ledger)
      (order : StoredRecord)
      → Keyed l.orders.rows
      → bind_order f id expected executor now l ≡ ok (order, l')
      → Links f l l'
  unfolding bind_order
  bind_order-Links id expected executor now l l' order keyed h =
      let (o, _, h₁) = found-eq-ok (get l.orders.handle id l.orders.rows) _ _ h in
      let (_, h₂) = guard-eq-ok (has_status "issued" o) _ _ h₁ in
      let (_, h₃) = guard-eq-ok (is_free executor o.executor_job_id) _ _ h₂ in
      let (a, w, h₄) =
        in_store-eq-ok (bind_executor_job l.orders.handle id expected executor now l.orders.rows) _
          h₃ in
      let same : a.1 ≡ l'.orders.rows = ground arith in
      orders-Links f l l'
        (subst (λ (x : Database). KeepsJobs l.orders.rows x × Keyed x) same
          (bind_executor_job-KeepsJobs l.orders.handle id expected executor now l.orders.rows a
            keyed w))
        (ground arith) (ground arith) (ground arith)

  -- What a candidate was made from.
  abbrev pub IsEvidenced : Ledger → Entry CandidateRequest → Type 0
  IsEvidenced l c =
      HasOrder f l c
      × ((job : StoredRecord) × (stands c.input.executor_job_id l.jobs.rows ≡ some job)
          × HasRecorded (f.artifacts job) c.input.artifact)

  -- A candidate that is returned is the one that was written into its store, and nothing else in the
  -- stores changes: its work order is bound to its executor Job, which has recorded a git patch
  -- with the path, the digest and the base commit of its artifact.
  pub create_candidate-IsEvidenced :
      (id : String) (now : ℕ) (request : Json) (l l' : Ledger) (c : Entry CandidateRequest)
      → create_candidate f id now request l ≡ ok (c, l')
      → IsEvidenced l c
        × (create_entry f.candidate_codec c l.candidates ≡ ok l'.candidates)
        × (l' ≡ record l { candidates = l'.candidates })
  unfolding create_candidate new_entry
  create_candidate-IsEvidenced id now request l l' c h =
      let (r, _, h₁) = >>=-eq-ok (normalize_candidate request) _ h in
      let (o, g, h₂) = found-eq-ok (get l.orders.handle r.work_order_id l.orders.rows) _ _ h₁ in
      let (bound, b, h₃) = expect-eq-ok o.executor_job_id _ _ h₂ in
      let (same, h₄) = guard-eq-ok (text_eq bound r.executor_job_id) _ _ h₃ in
      let (job, j, h₅) = found-eq-ok (get l.jobs.handle r.executor_job_id l.jobs.rows) _ _ h₄ in
      let (has, h₆) = guard-eq-ok (has_recorded_artifact (f.artifacts job) r.artifact) _ _ h₅ in
      let (shelf, w, h₇) = in_store-eq-ok (create_entry f.candidate_codec _ l.candidates) _ h₆ in
      let is : c.input ≡ r = ground arith in
      let order = (get-stands l.orders.handle r.work_order_id l.orders.rows o g).1 in
      let work = (get-stands l.jobs.handle r.executor_job_id l.jobs.rows job j).1 in
      (
        (
          (
            o,
            ground (arith, is, order),
            ground (arith, is, b, text_eq_iff bound r.executor_job_id, same),
          ),
          (
            job,
            ground (arith, is, work),
            subst (λ (x : CandidateRequest). HasRecorded (f.artifacts job) x.artifact) (sym is)
                (any-HasRecorded (f.artifacts job) r.artifact has),
          ),
        ),
        ground (arith, w, h₇),
        ground (arith, h₇),
      )

  module _ (reads : Reads f) where
    pub create_candidate-Links :
        (id : String) (now : ℕ) (request : Json) (l l' : Ledger) (c : Entry CandidateRequest)
        → Keyed l.orders.rows
        → create_candidate f id now request l ≡ ok (c, l')
        → Links f l l'
    create_candidate-Links id now request l l' c keyed h =
        let (evidence, w, rest) = create_candidate-IsEvidenced id now request l l' c h in
        let law = reads.of_candidates in
        record {
          orders_keyed = subst (λ (x : Ledger). Keyed x.orders.rows) (sym rest) keyed;
          orders_kept =
              subst (λ (x : Ledger). KeepsJobs l.orders.rows x.orders.rows) (sym rest)
                (KeepsJobs-refl l.orders.rows);
          candidates_kept = create_entry-Kept f.candidate_codec law c l.candidates l'.candidates w;
          reviews_kept = same-Kept f.review_codec l.reviews l'.reviews (ground (arith, rest));
          candidates_new =
              create_entry-New f.candidate_codec law (HasOrder f l) c l.candidates l'.candidates w
                evidence.0;
          reviews_new = same-New f.review_codec _ l.reviews l'.reviews (ground (arith, rest));
          dispositions_new =
              same-New f.disposition_codec _ l.dispositions l'.dispositions (ground (arith, rest));
        }

    pub create_review-Links :
        (id : String) (now : ℕ) (request : Json) (l l' : Ledger) (r : Entry ReviewRequest)
        → Keyed l.orders.rows
        → create_review f id now request l ≡ ok (r, l')
        → Links f l l'
    unfolding create_review new_entry
    create_review-Links id now request l l' r keyed h =
        let (n, _, h₁) = >>=-eq-ok (normalize_review request) _ h in
        let (c, g, h₂) =
          found-eq-ok (get_entry f.candidate_codec n.candidate_id l.candidates) _ _ h₁ in
        let (shelf, w, h₃) = in_store-eq-ok (create_entry f.review_codec _ l.reviews) _ h₂ in
        let is : r.input ≡ n = ground arith in
        let there = get_entry-eq-some f.candidate_codec n.candidate_id l.candidates c g in
        let known : HasCandidate f l r.input.candidate_id = (c, ground (arith, is, there)) in
        let wrote : create_entry f.review_codec r l.reviews ≡ ok l'.reviews =
          ground (arith, w, h₃) in
        let rest : l' ≡ record l { reviews = l'.reviews } = ground (arith, h₃) in
        let law = reads.of_reviews in
        record {
          orders_keyed = subst (λ (x : Ledger). Keyed x.orders.rows) (sym rest) keyed;
          orders_kept =
              subst (λ (x : Ledger). KeepsJobs l.orders.rows x.orders.rows) (sym rest)
                (KeepsJobs-refl l.orders.rows);
          candidates_kept =
              same-Kept f.candidate_codec l.candidates l'.candidates (ground (arith, rest));
          reviews_kept = create_entry-Kept f.review_codec law r l.reviews l'.reviews wrote;
          candidates_new =
              same-New f.candidate_codec _ l.candidates l'.candidates (ground (arith, rest));
          reviews_new =
              create_entry-New f.review_codec law (λ x. HasCandidate f l x.input.candidate_id) r
                l.reviews l'.reviews wrote known;
          dispositions_new =
              same-New f.disposition_codec _ l.dispositions l'.dispositions (ground (arith, rest));
        }

    pub check_sources-HasReview :
        (request : Json) (l : Ledger) (r : DispositionRequest) (d : Entry DispositionRequest)
        → check_sources f request l ≡ ok r
        → d.input ≡ r
        → HasReview f l d
    unfolding check_sources
    check_sources-HasReview request l r d h is =
        let (n, _, h₁) = >>=-eq-ok (normalize_disposition request) _ h in
        let (c, g, h₂) =
          found-eq-ok (get_entry f.candidate_codec n.candidate_id l.candidates) _ _ h₁ in
        let (v, k, h₃) = found-eq-ok (get_entry f.review_codec n.review_id l.reviews) _ _ h₂ in
        let (same, h₄) = guard-eq-ok (text_eq v.input.candidate_id n.candidate_id) _ _ h₃ in
        let one : d.input ≡ n = ground (arith, h₄, is) in
        let there = get_entry-eq-some f.candidate_codec n.candidate_id l.candidates c g in
        let named = get_entry-eq-some f.review_codec n.review_id l.reviews v k in
        (
          (c, ground (arith, one, there)),
          (
            v,
            ground (arith, one, named),
            ground (arith, one, same, text_eq_iff v.input.candidate_id n.candidate_id),
          ),
        )
