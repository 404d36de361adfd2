-- ===== src/Ledger/Finality.antt =====
-- One immutable disposition for each candidate: src/disposition.ts.
use agentknot.Common.{
  >>=-eq-ok, Bool-cases, Json, Option, Result, String, ap, arith, err, false, guard-eq-ok,
  if◌then◌else◌, inl, inr, none, ok, refl, some, subst, sym, text_eq, text_eq_iff, text_eq_refl,
  true, ℕ, ◌∙◌, ◌≡◌, ◌≢◌, ◌⊎◌,
}
use agentknot.Ledger.Entries.{Entry, Shelf, get_entry, new_entry}
use agentknot.Ledger.EntryLaws.{
  create_entry-entry_at, entry_at, entry_at-get_entry, get_entry-eq-some,
}
use agentknot.Ledger.Requests.{DispositionRequest, LedgerError, disposition_conflict}
use agentknot.Ledger.SameInput.{has_same_input_refl, same_candidate, same_input}
use agentknot.Ledger.Services.{
  Formats, Ledger, bind_order, check_sources, classify, create_candidate, create_disposition,
  create_review, disposition_id, has_same_input, issue, read_again, record_disposition,
  settle_record,
}
use agentknot.Ledger.Steps.{
  Acts, Runs, binds, changes_jobs, creates_candidate, creates_review, goes_on, issues,
  records_disposition, reopen, reopens, stops,
}
use agentknot.Store.Types.{StoreError}

module _ (f : Formats)
    (read-write : (x : DispositionRequest)
      → f.disposition_codec.read (f.disposition_codec.write x) ≡ x) where
  -- The disposition that stands under an id.
  abbrev disposition_at : String → Ledger → Option (Entry DispositionRequest)
  disposition_at id l = entry_at f.disposition_codec id l.dispositions

  create_disposition-entry_at :
      (e : Entry DispositionRequest) (shelf shelf' : Shelf)
      → create_disposition f e shelf ≡ ok shelf'
      → (entry_at f.disposition_codec e.id shelf ≡ none)
        × ((k : String)
            → entry_at f.disposition_codec k shelf'
              ≡ (if text_eq e.id k then some e else entry_at f.disposition_codec k shelf))
  unfolding create_disposition
  create_disposition-entry_at e shelf shelf' h =
      let (_, h₁) = guard-eq-ok (text_eq e.id (disposition_id f e.input.candidate_id)) _ _ h in
      create_entry-entry_at f.disposition_codec read-write e shelf shelf' (ground arith)

  classify-eq-ok :
      (r : DispositionRequest) (failure : LedgerError) (o : Option (Entry DispositionRequest))
      (l l' : Ledger) (d : Entry DispositionRequest)
      → classify r failure o l ≡ ok (d, l')
      → (o ≡ some d) × (has_same_input d.input r ≡ true) × (l ≡ l')
  unfolding classify
  classify-eq-ok r failure none l l' d h = cc
  classify-eq-ok r failure (some e) l l' d h =
      let (same, h₁) = guard-eq-ok (has_same_input e.input r) _ _ h in
      (ground (arith, h₁), ground (arith, h₁, same), ground (arith, h₁))

  pub read_again-eq-ok :
      (r : DispositionRequest) (failure : LedgerError)
      (call : Result StoreError (Option (Entry DispositionRequest))) (l l' : Ledger)
      (d : Entry DispositionRequest)
      → read_again r failure call l ≡ ok (d, l')
      → (call ≡ ok (some d)) × (has_same_input d.input r ≡ true) × (l ≡ l')
  unfolding read_again
  read_again-eq-ok r failure (err second) l l' d h = cc
  read_again-eq-ok r failure (ok o) l l' d h =
      let (is, same, kept) = classify-eq-ok r failure o l l' d h in
      (ap (λ (q : Option _). ok q) is, same, kept)

  -- How `record` leaves the dispositions when it returns `d` for the request of `e`.
  Settles : Entry DispositionRequest → Entry DispositionRequest → Ledger → Ledger → Type 0
  Settles e d l l' =
      (has_same_input d.input e.input ≡ true)
      × (disposition_at e.id l' ≡ some d)
      × ((k : String) (old : Entry DispositionRequest)
          → disposition_at k l ≡ some old
          → disposition_at k l' ≡ some old)

  settle_record-Settles :
      (e d : Entry DispositionRequest) (call : Result LedgerError Shelf) (l l' : Ledger)
      → create_disposition f e l.dispositions ≡ call
      → settle_record f e call l ≡ ok (d, l')
      → Settles e d l l'
  unfolding settle_record Settles
  settle_record-Settles e d (ok shelf) l l' c h =
      let (free, rows) = create_disposition-entry_at e l.dispositions shelf c in
      let written : l'.dispositions ≡ shelf = ground arith in
      let is : e ≡ d = ground arith in
      (
        subst (λ (x : Entry DispositionRequest). has_same_input x.input e.input ≡ true) is
            (has_same_input_refl e.input),
        ground (arith, rows e.id, text_eq_refl e.id, written, is),
        λ k old there. ground (arith, rows k, text_eq_iff e.id k, free, there, written),
      )
  settle_record-Settles e d (err failure) l l' c h =
      let (got, same, kept) =
        read_again-eq-ok e.input failure (get_entry f.disposition_codec e.id l.dispositions) l l' d
          h in
      let there = get_entry-eq-some f.disposition_codec e.id l.dispositions d got in
      (
        same,
        subst (λ (x : Ledger). disposition_at e.id x ≡ some d) kept there,
        λ k old. subst (λ (x : Ledger). disposition_at k x ≡ some old) kept,
      )

  -- The record that `record` makes of a request.
  abbrev pub entry_of : ℕ → DispositionRequest → Entry DispositionRequest
  entry_of now r = new_entry (disposition_id f r.candidate_id) now "disposition.recorded" r

  record_disposition-Settles :
      (now : ℕ) (request : Json) (l l' : Ledger) (d : Entry DispositionRequest)
      → record_disposition f now request l ≡ ok (d, l')
      → (r : DispositionRequest) × (check_sources f request l ≡ ok r)
        × Settles (entry_of now r) d l l'
  unfolding record_disposition
  record_disposition-Settles now request l l' d h =
      let (r, c, h₁) = >>=-eq-ok (check_sources f request l) _ h in
      (r, c, settle_record-Settles (entry_of now r) d _ l l' refl h₁)

  same_dispositions :
      (k : String) (old : Entry DispositionRequest) (l l' : Ledger)
      → l'.dispositions.rows ≡ l.dispositions.rows
      → disposition_at k l ≡ some old
      → disposition_at k l' ≡ some old
  unfolding entry_at
  same_dispositions k old l l' same there = ground (arith, same, there)

  Acts-disposition_at :
      (k : String) (old : Entry DispositionRequest) (l l' : Ledger)
      → Acts f l l'
      → disposition_at k l ≡ some old
      → disposition_at k l' ≡ some old
  Acts-disposition_at k old l l' (issues id now command order h) there =
      same_dispositions k old l l' (unfold issue in ground arith) there
  Acts-disposition_at k old l l' (binds id expected executor now order h) there =
      same_dispositions k old l l' (unfold bind_order in ground arith) there
  Acts-disposition_at k old l l' (creates_candidate id now request e h) there =
      same_dispositions k old l l' (unfold create_candidate in ground arith) there
  Acts-disposition_at k old l l' (creates_review id now request e h) there =
      same_dispositions k old l l' (unfold create_review in ground arith) there
  Acts-disposition_at k old l l' (records_disposition now request e h) there =
      let (r, c, settles) = record_disposition-Settles now request l l' e h in
      unfold Settles in settles.2 k old there
  Acts-disposition_at k old l l' (changes_jobs jobs) there = there
  Acts-disposition_at k old l l' (reopens a b c d) there =
      same_dispositions k old l l' (unfold reopen in refl) there

  Runs-disposition_at :
      (k : String) (old : Entry DispositionRequest) (l l' : Ledger)
      → Runs f l l'
      → disposition_at k l ≡ some old
      → disposition_at k l' ≡ some old
  Runs-disposition_at k old l l' stops there = there
  Runs-disposition_at k old l l' (goes_on {l' = middle} act runs) there =
      Runs-disposition_at k old middle l' runs (Acts-disposition_at k old l middle act there)

  -- How `record` answers when `d` stands.
  abbrev answer :
      Entry DispositionRequest
      → DispositionRequest
      → Ledger
      → Result LedgerError (Entry DispositionRequest × Ledger)
  answer d r l = if has_same_input d.input r then ok (d, l) else err disposition_conflict

  settle_record-answer :
      (e d : Entry DispositionRequest) (call : Result LedgerError Shelf) (l : Ledger)
      → create_disposition f e l.dispositions ≡ call
      → l.dispositions.handle.closed ≡ false
      → disposition_at e.id l ≡ some d
      → settle_record f e call l ≡ answer d e.input l
  unfolding settle_record read_again classify
  settle_record-answer e d (ok shelf) l c usable there =
      let (free, rows) = create_disposition-entry_at e l.dispositions shelf c in cc
  settle_record-answer e d (err failure) l c usable there =
      let got = entry_at-get_entry f.disposition_codec e.id l.dispositions d usable there in
      ground (arith, got)

  answer-cases :
      (d : Entry DispositionRequest) (r : DispositionRequest) (l : Ledger)
      → (x : Result LedgerError (Entry DispositionRequest × Ledger)) → x ≡ answer d r l
      → ((r ≡ d.input) × (x ≡ ok (d, l))) ⊎ ((r ≢ d.input) × (x ≡ err disposition_conflict))
  answer-cases d r l x h = elim (Bool-cases (has_same_input d.input r)) [
    | inl same ↦ inl (sym (same_input d.input r same), ground (arith, h, same))
    | inr other ↦ inr (
      λ e.
          let itself = has_same_input_refl d.input in
          let too = subst (λ (x : DispositionRequest). has_same_input d.input x ≡ false) e other in
          cc,
      ground (arith, h, other),
    )
  ]

  -- A disposition is final, if bodies are read back as they were written: once a request has returned
  -- a disposition, whatever the services did since, on whichever handles, a later request for the
  -- same candidate that names known sources, with an open store, gets that disposition back and
  -- changes nothing if it is the request of that disposition, its review, decision, author and
  -- rationale included, and is refused as a conflict otherwise.
  pub record_disposition-answer :
      (now later : ℕ) (request retry : Json) (l l₁ l₂ : Ledger) (d : Entry DispositionRequest)
      (r : DispositionRequest)
      → record_disposition f now request l ≡ ok (d, l₁)
      → Runs f l₁ l₂
      → check_sources f retry l₂ ≡ ok r
      → r.candidate_id ≡ d.input.candidate_id
      → l₂.dispositions.handle.closed ≡ false
      → ((r ≡ d.input) × (record_disposition f later retry l₂ ≡ ok (d, l₂)))
        ⊎ ((r ≢ d.input) × (record_disposition f later retry l₂ ≡ err disposition_conflict))
  unfolding record_disposition Settles new_entry
  record_disposition-answer now later request retry l l₁ l₂ d r h runs known same usable =
      let (first, c, settles) = record_disposition-Settles now request l l₁ d h in
      let one : r.candidate_id ≡ first.candidate_id =
        same ∙ same_candidate d.input first settles.0 in
      let still =
        Runs-disposition_at (disposition_id f first.candidate_id) d l₁ l₂ runs settles.1 in
      let there =
        subst (λ (k : String). disposition_at (disposition_id f k) l₂ ≡ some d) (sym one) still in
      answer-cases d r l₂ (record_disposition f later retry l₂)
        (ground (arith, known, settle_record-answer (entry_of later r) d _ l₂ refl usable there))
