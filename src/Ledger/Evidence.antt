-- ===== src/Ledger/Evidence.antt =====
-- The evidence behind every record that the services of src/work-order.ts, src/candidate.ts,
-- src/review.ts and src/disposition.ts have written.
use agentknot.Common.{
  >>=-eq-ok, Json, Result, String, arith, err, guard-eq-ok, inl, inr, ok, refl, some, subst, sym,
  text_eq, ℕ, ◌≡◌,
}
use agentknot.Ledger.Chain.{
  bind_order-Links, check_sources-HasReview, create_candidate-Links, create_review-Links,
  issue-Links,
}
use agentknot.Ledger.Entries.{Entry, Shelf, create_entry, get_entry, new_entry}
use agentknot.Ledger.EntryLaws.{entry_at}
use agentknot.Ledger.Finality.{entry_of, read_again-eq-ok}
use agentknot.Ledger.Links.{
  HasCandidate, HasOrder, HasReview, Links, New, Reads, create_entry-New, orders-Links, same-Kept,
  same-New,
}
use agentknot.Ledger.OrderRows.{KeepsJobs, KeepsJobs-refl, Keyed}
use agentknot.Ledger.Requests.{CandidateRequest, DispositionRequest, LedgerError, ReviewRequest}
use agentknot.Ledger.Services.{
  Formats, Ledger, check_sources, create_disposition, disposition_id, record_disposition,
  settle_record,
}
use agentknot.Ledger.Steps.{
  Acts, Runs, binds, changes_jobs, creates_candidate, creates_review, goes_on, issues,
  records_disposition, reopen, reopens, stops,
}

module _ (f : Formats) where
  -- Every candidate has its bound work order, every review its candidate, and every disposition
  -- its candidate with a review of that candidate.
  pub record IsChained (l : Ledger) : Type 0 where
    pub orders_keyed : Keyed l.orders.rows
    pub candidates_bound :
        (k : String) (c : Entry CandidateRequest)
        → entry_at f.candidate_codec k l.candidates ≡ some c
        → HasOrder f l c
    pub reviews_known :
        (k : String) (r : Entry ReviewRequest)
        → entry_at f.review_codec k l.reviews ≡ some r
        → HasCandidate f l r.input.candidate_id
    pub dispositions_reviewed :
        (k : String) (d : Entry DispositionRequest)
        → entry_at f.disposition_codec k l.dispositions ≡ some d
        → HasReview f l d

  HasOrder-kept :
      (l l' : Ledger) (c : Entry CandidateRequest) → Links f l l' → HasOrder f l c → HasOrder f l' c
  unfolding KeepsJobs
  HasOrder-kept l l' c links (o, there, bound) =
      links.orders_kept c.input.work_order_id c.input.executor_job_id o there bound

  HasCandidate-kept :
      (l l' : Ledger) (id : String) → Links f l l' → HasCandidate f l id → HasCandidate f l' id
  HasCandidate-kept l l' id links (c, there) = (c, links.candidates_kept id c there)

  HasReview-kept :
      (l l' : Ledger) (d : Entry DispositionRequest)
      → Links f l l'
      → HasReview f l d
      → HasReview f l' d
  HasReview-kept l l' d links (known, (r, there, same)) = (
    HasCandidate-kept l l' d.input.candidate_id links known,
    (r, links.reviews_kept d.input.review_id r there, same),
  )

  Links-IsChained : (l l' : Ledger) → Links f l l' → IsChained l → IsChained l'
  Links-IsChained l l' links chained = record {
    orders_keyed = links.orders_keyed;
    candidates_bound = λ k c there.
        HasOrder-kept l l' c links (elim (links.candidates_new k c there) [
          | inl old ↦ chained.candidates_bound k c old
          | inr fresh ↦ fresh
        ]);
    reviews_known = λ k r there.
        HasCandidate-kept l l' r.input.candidate_id links (elim (links.reviews_new k r there) [
          | inl old ↦ chained.reviews_known k r old
          | inr fresh ↦ fresh
        ]);
    dispositions_reviewed = λ k d there.
        HasReview-kept l l' d links (elim (links.dispositions_new k d there) [
          | inl old ↦ chained.dispositions_reviewed k d old
          | inr fresh ↦ fresh
        ]);
  }

  module _ (reads : Reads f) where
    dispositions-Links :
        (l l' : Ledger)
        → Keyed l.orders.rows
        → l' ≡ record l { dispositions = l'.dispositions }
        → New f.disposition_codec (HasReview f l) l.dispositions l'.dispositions
        → Links f l l'
    dispositions-Links l l' keyed rest fresh = record {
      orders_keyed = subst (λ (x : Ledger). Keyed x.orders.rows) (sym rest) keyed;
      orders_kept =
          subst (λ (x : Ledger). KeepsJobs l.orders.rows x.orders.rows) (sym rest)
            (KeepsJobs-refl l.orders.rows);
      candidates_kept =
          same-Kept f.candidate_codec l.candidates l'.candidates (ground (arith, rest));
      reviews_kept = same-Kept f.review_codec l.reviews l'.reviews (ground (arith, rest));
      candidates_new =
          same-New f.candidate_codec _ l.candidates l'.candidates (ground (arith, rest));
      reviews_new = same-New f.review_codec _ l.reviews l'.reviews (ground (arith, rest));
      dispositions_new = fresh;
    }

    settle_record-Links :
        (e d : Entry DispositionRequest) (call : Result LedgerError Shelf) (l l' : Ledger)
        → Keyed l.orders.rows
        → HasReview f l e
        → create_disposition f e l.dispositions ≡ call
        → settle_record f e call l ≡ ok (d, l')
        → Links f l l'
    unfolding settle_record create_disposition
    settle_record-Links e d (ok shelf) l l' keyed evidence c h =
        let (_, w) = guard-eq-ok (text_eq e.id (disposition_id f e.input.candidate_id)) _ _ c in
        let wrote : create_entry f.disposition_codec e l.dispositions ≡ ok l'.dispositions =
          ground (arith, w, h) in
        dispositions-Links l l' keyed (ground (arith, h)) (
          create_entry-New f.disposition_codec reads.of_dispositions (HasReview f l) e
            l.dispositions l'.dispositions wrote evidence)
    settle_record-Links e d (err failure) l l' keyed evidence c h =
        let (_, _, kept) =
          read_again-eq-ok f reads.of_dispositions e.input failure
            (get_entry f.disposition_codec e.id l.dispositions) l l' d h in
        dispositions-Links l l' keyed (ground (arith, kept)) (
          same-New f.disposition_codec (HasReview f l) l.dispositions l'.dispositions
            (ground (arith, kept)))

    record_disposition-Links :
        (now : ℕ) (request : Json) (l l' : Ledger) (d : Entry DispositionRequest)
        → Keyed l.orders.rows
        → record_disposition f now request l ≡ ok (d, l')
        → Links f l l'
    unfolding record_disposition new_entry
    record_disposition-Links now request l l' d keyed h =
        let (r, c, h₁) = >>=-eq-ok (check_sources f request l) _ h in
        let e = entry_of f reads.of_dispositions now r in
        settle_record-Links e d _ l l' keyed (check_sources-HasReview f reads request l r e c refl)
          refl h₁

    Acts-Links : (l l' : Ledger) → Acts f l l' → Keyed l.orders.rows → Links f l l'
    Acts-Links l l' (issues id now command order h) keyed =
        issue-Links f id now command l l' order keyed h
    Acts-Links l l' (binds id expected executor now order h) keyed =
        bind_order-Links f id expected executor now l l' order keyed h
    Acts-Links l l' (creates_candidate id now request e h) keyed =
        create_candidate-Links f reads id now request l l' e keyed h
    Acts-Links l l' (creates_review id now request e h) keyed =
        create_review-Links f reads id now request l l' e keyed h
    Acts-Links l l' (records_disposition now request e h) keyed =
        record_disposition-Links now request l l' e keyed h
    Acts-Links l l' (changes_jobs jobs) keyed =
        orders-Links f l l' (KeepsJobs-refl l.orders.rows, keyed) refl refl refl
    Acts-Links l l' (reopens a b c d) keyed =
        unfold reopen in orders-Links f l l' (KeepsJobs-refl l.orders.rows, keyed) refl refl refl

    -- If bodies are read back as they were written, then however the services run, by whichever
    -- handles, and however the Jobs change, this stays so: the rows of work orders are under the
    -- ids of their records, the work order of a candidate is bound to the candidate's executor Job, a
    -- review has its candidate, and a disposition has its candidate and a review of that candidate.
    pub Runs-IsChained : (l l' : Ledger) → Runs f l l' → IsChained l → IsChained l'
    Runs-IsChained l l' stops chained = chained
    Runs-IsChained l l' (goes_on {l' = middle} act runs) chained =
        Runs-IsChained middle l' runs
          (Links-IsChained l middle (Acts-Links l middle act chained.orders_keyed) chained)
