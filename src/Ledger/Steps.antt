-- ===== src/Ledger/Steps.antt =====
-- Runs of the services of src/work-order.ts, src/candidate.ts, src/review.ts and
-- src/disposition.ts, in any order, by handles that may be opened anew.
use agentknot.Common.{Json, String, ok, ℕ, ◌≡◌}
use agentknot.Ledger.Entries.{Entry, Shelf}
use agentknot.Ledger.Requests.{CandidateRequest, DispositionRequest, ReviewRequest}
use agentknot.Ledger.Services.{
  Formats, Ledger, bind_order, create_candidate, create_review, issue, record_disposition,
}
use agentknot.Store.Types.{Store, StoredRecord}

unfoldable pub reopen : Shelf → Store → Shelf
reopen shelf handle = record shelf { handle = handle }

-- One call that returned, a change of the Jobs, or new handles on the databases.
pub data Acts (f : Formats) : Ledger → Ledger → Type 0 where
  issues :
      {l l' : Ledger} (id : String) (now : ℕ) (command : Json) (order : StoredRecord)
      → issue f id now command l ≡ ok (order, l')
      → Acts f l l'
  binds :
      {l l' : Ledger} (id : String) (expected : ℕ) (executor : String) (now : ℕ)
      (order : StoredRecord)
      → bind_order f id expected executor now l ≡ ok (order, l')
      → Acts f l l'
  creates_candidate :
      {l l' : Ledger} (id : String) (now : ℕ) (request : Json) (e : Entry CandidateRequest)
      → create_candidate f id now request l ≡ ok (e, l')
      → Acts f l l'
  creates_review :
      {l l' : Ledger} (id : String) (now : ℕ) (request : Json) (e : Entry ReviewRequest)
      → create_review f id now request l ≡ ok (e, l')
      → Acts f l l'
  records_disposition :
      {l l' : Ledger} (now : ℕ) (request : Json) (e : Entry DispositionRequest)
      → record_disposition f now request l ≡ ok (e, l')
      → Acts f l l'
  changes_jobs : {l : Ledger} (jobs : Shelf) → Acts f l (record l { jobs = jobs })
  reopens :
      {l : Ledger} (a b c d : Store)
      → Acts f l (record l {
        orders = reopen l.orders a;
        candidates = reopen l.candidates b;
        reviews = reopen l.reviews c;
        dispositions = reopen l.dispositions d;
      })

pub data Runs (f : Formats) : Ledger → Ledger → Type 0 where
  stops : {l : Ledger} → Runs f l l
  goes_on : {l l' l'' : Ledger} → Acts f l l' → Runs f l' l'' → Runs f l l''
