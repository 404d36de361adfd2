-- ===== src/Ledger/SameInput.antt =====
-- `hasSameSemanticInput` of src/disposition.ts compares every field of a request.
use agentknot.Common.{arith, refl, text_eq_iff, text_eq_refl, true, ◌≡◌}
use agentknot.Ledger.Requests.{Decision, DispositionRequest, accept, discard}
use agentknot.Ledger.Services.{decision_eq, has_same_input}

decision_eq_refl : (d : Decision) → decision_eq d d ≡ true
unfolding decision_eq
decision_eq_refl accept = refl
decision_eq_refl discard = refl

pub has_same_input_refl : (r : DispositionRequest) → has_same_input r r ≡ true
unfolding has_same_input
has_same_input_refl r = ground (
  arith,
  text_eq_refl r.candidate_id,
  text_eq_refl r.review_id,
  decision_eq_refl r.decision,
  text_eq_refl r.decided_by,
  text_eq_refl r.rationale,
)

same_decision : (d r : Decision) → decision_eq d r ≡ true → d ≡ r
unfolding decision_eq
same_decision accept accept h = refl
same_decision discard discard h = refl
same_decision accept discard h = cc
same_decision discard accept h = cc

pub same_input : (d r : DispositionRequest) → has_same_input d r ≡ true → d ≡ r
unfolding has_same_input
same_input d r h =
    let candidate = text_eq_iff d.candidate_id r.candidate_id in
    let review = text_eq_iff d.review_id r.review_id in
    let decision = same_decision d.decision r.decision in
    let author = text_eq_iff d.decided_by r.decided_by in
    let words = text_eq_iff d.rationale r.rationale in
    let a : d.candidate_id ≡ r.candidate_id = ground (arith, h, candidate) in
    let b : d.review_id ≡ r.review_id = ground (arith, h, review) in
    let c : d.decision ≡ r.decision = ground (arith, h, decision) in
    let e : d.decided_by ≡ r.decided_by = ground (arith, h, author) in
    let w : d.rationale ≡ r.rationale = ground (arith, h, words) in cc

pub same_candidate :
    (d r : DispositionRequest) → has_same_input d r ≡ true → d.candidate_id ≡ r.candidate_id
unfolding has_same_input
same_candidate d r h = ground (arith, h, text_eq_iff d.candidate_id r.candidate_id)
