-- ===== src/Ledger/Links.antt =====
-- What one call of the services of src/work-order.ts, src/candidate.ts, src/review.ts and
-- src/disposition.ts adds to the records, and what it leaves.
use agentknot.Common.{
  Bool-cases, String, arith, inl, inr, ok, some, subst, sym, text_eq, text_eq_iff, ◌∙◌, ◌≡◌, ◌⊎◌,
}
use agentknot.Ledger.Entries.{Codec, Entry, Shelf, create_entry}
use agentknot.Ledger.EntryLaws.{create_entry-entry_at, entry_at}
use agentknot.Ledger.OrderRows.{KeepsJobs, Keyed}
use agentknot.Ledger.Requests.{CandidateRequest, DispositionRequest, ReviewRequest}
use agentknot.Ledger.Services.{Formats, Ledger}
use agentknot.Ledger.Shelves.{stands}
use agentknot.Store.Types.{StoredRecord}

-- What is read from a body is what was written into it.
pub record Reads (f : Formats) : Type 0 where
  pub of_candidates :
      (x : CandidateRequest) → f.candidate_codec.read (f.candidate_codec.write x) ≡ x
  pub of_reviews : (x : ReviewRequest) → f.review_codec.read (f.review_codec.write x) ≡ x
  pub of_dispositions :
      (x : DispositionRequest) → f.disposition_codec.read (f.disposition_codec.write x) ≡ x

-- Every entry of the first shelf is in the second.
abbrev pub Kept : {A : Type 0} → Codec A → Shelf → Shelf → Type 0
Kept {A} codec s s' =
    (k : String) (e : Entry A) → entry_at codec k s ≡ some e → entry_at codec k s' ≡ some e

-- Every entry of the second shelf is in the first, or has `P`.
abbrev pub New : {A : Type 0} → Codec A → (Entry A → Type 0) → Shelf → Shelf → Type 0
New {A} codec P s s' =
    (k : String) (e : Entry A) → entry_at codec k s' ≡ some e → (entry_at codec k s ≡ some e) ⊎ P e

entry_at-same :
    {A : Type 0} (codec : Codec A) (k : String) (s s' : Shelf)
    → s'.rows ≡ s.rows
    → entry_at codec k s' ≡ entry_at codec k s
unfolding entry_at
entry_at-same codec k s s' same = ground (arith, same)

pub same-Kept : {A : Type 0} (codec : Codec A) (s s' : Shelf) → s'.rows ≡ s.rows → Kept codec s s'
same-Kept codec s s' same k e there = entry_at-same codec k s s' same ∙ there

pub same-New :
    {A : Type 0} (codec : Codec A) (P : Entry A → Type 0) (s s' : Shelf)
    → s'.rows ≡ s.rows
    → New codec P s s'
same-New codec P s s' same k e there = inl (sym (entry_at-same codec k s s' same) ∙ there)

module _ {A : Type 0} (codec : Codec A)
    (read-write : (x : A) → codec.read (codec.write x) ≡ x) where
  pub create_entry-Kept :
      (e : Entry A) (s s' : Shelf) → create_entry codec e s ≡ ok s' → Kept codec s s'
  create_entry-Kept e s s' h k old there =
      let (free, rows) = create_entry-entry_at codec read-write e s s' h in
      ground (arith, rows k, text_eq_iff e.id k, free, there)

  pub create_entry-New :
      (P : Entry A → Type 0) (e : Entry A) (s s' : Shelf)
      → create_entry codec e s ≡ ok s'
      → P e
      → New codec P s s'
  create_entry-New P e s s' h holds k x there =
      let (free, rows) = create_entry-entry_at codec read-write e s s' h in
      elim (Bool-cases (text_eq e.id k)) [
        | inl is ↦ let same : e ≡ x = ground (arith, rows k, is, there) in inr (subst P same holds)
        | inr other ↦ inl (ground (arith, rows k, other, there))
      ]

module _ (f : Formats) where
  -- The work order of a candidate is bound to the candidate's executor Job.
  abbrev pub HasOrder : Ledger → Entry CandidateRequest → Type 0
  HasOrder l c =
      (order : StoredRecord) × (stands c.input.work_order_id l.orders.rows ≡ some order)
      × (order.executor_job_id ≡ some c.input.executor_job_id)

  abbrev pub HasCandidate : Ledger → String → Type 0
  HasCandidate l id =
      (c : Entry CandidateRequest) × (entry_at f.candidate_codec id l.candidates ≡ some c)

  -- The candidate of a disposition is there, and its review is one of that candidate.
  abbrev pub HasReview : Ledger → Entry DispositionRequest → Type 0
  HasReview l d =
      HasCandidate l d.input.candidate_id
      × ((r : Entry ReviewRequest) × (entry_at f.review_codec d.input.review_id l.reviews ≡ some r)
          × (r.input.candidate_id ≡ d.input.candidate_id))

  -- What one call leaves, and what it adds.
  pub record Links (l l' : Ledger) : Type 0 where
    pub orders_keyed : Keyed l'.orders.rows
    pub orders_kept : KeepsJobs l.orders.rows l'.orders.rows
    pub candidates_kept : Kept f.candidate_codec l.candidates l'.candidates
    pub reviews_kept : Kept f.review_codec l.reviews l'.reviews
    pub candidates_new : New f.candidate_codec (HasOrder l) l.candidates l'.candidates
    pub reviews_new :
        New f.review_codec (λ r. HasCandidate l r.input.candidate_id) l.reviews l'.reviews
    pub dispositions_new : New f.disposition_codec (HasReview l) l.dispositions l'.dispositions

  -- No row of candidates, reviews or dispositions is written.
  pub orders-Links :
      (l l' : Ledger)
      → KeepsJobs l.orders.rows l'.orders.rows × Keyed l'.orders.rows
      → l'.candidates.rows ≡ l.candidates.rows
      → l'.reviews.rows ≡ l.reviews.rows
      → l'.dispositions.rows ≡ l.dispositions.rows
      → Links l l'
  orders-Links l l' (kept, keyed) c r d = record {
    orders_keyed = keyed;
    orders_kept = kept;
    candidates_kept = same-Kept f.candidate_codec l.candidates l'.candidates c;
    reviews_kept = same-Kept f.review_codec l.reviews l'.reviews r;
    candidates_new = same-New f.candidate_codec (HasOrder l) l.candidates l'.candidates c;
    reviews_new = same-New f.review_codec _ l.reviews l'.reviews r;
    dispositions_new = same-New f.disposition_codec (HasReview l) l.dispositions l'.dispositions d;
  }
