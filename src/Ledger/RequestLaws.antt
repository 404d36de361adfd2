-- ===== src/Ledger/RequestLaws.antt =====
-- The reviews that `normalizeCreateRequest` of src/review.ts accepts, and their JSON form.
use agentknot.Common.{
  >>=-eq-ok, Items, Json, List, String, [], ap, arith, array, boolean, count, false, field,
  get_field, guard-eq-ok, has_own, is_blank, item, leb, leb→le, length, le→leb, no_fields, no_items,
  not, null, number, object, ok, refl, subst, suc, text, text_eq, undefined, utf8_bytes, ℕ, ◌∷◌,
  ◌≡◌, ◌≤◌,
}
use agentknot.Ledger.Requests.{
  Finding, ReviewRequest, Severity, array_items, filled_text, has_exact_keys, high, item_count, low,
  max_finding_bytes, max_identity_bytes, max_prompt_bytes, max_prose_bytes, max_review_findings,
  medium, normalize_finding, normalize_findings, normalize_review, object_fields, read_severity,
}

-- A text that is not blank and has at most `limit` bytes.
abbrev pub IsFilled : ℕ → String → Type 0
IsFilled limit t = (is_blank t ≡ false) × (utf8_bytes t ≤ limit)

abbrev pub AreFilled : List Finding → Type 0
AreFilled [] = Unit
AreFilled (x ∷ xs) =
    (IsFilled max_finding_bytes x.message × IsFilled max_finding_bytes x.evidence) × AreFilled xs

-- The limits of a review.
abbrev pub IsWithin : ReviewRequest → Type 0
IsWithin r =
    IsFilled max_prompt_bytes r.candidate_id
    × IsFilled max_identity_bytes r.reviewer
    × IsFilled max_prose_bytes r.summary
    × (length r.findings ≤ max_review_findings)
    × AreFilled r.findings

-- The JSON form of a review.
unfoldable pub severity_text : Severity → String
severity_text low = "low"
severity_text medium = "medium"
severity_text high = "high"

unfoldable pub finding_json : Finding → Json
finding_json x = object (
    field "severity" (text (severity_text x.severity))
      (field "message" (text x.message) (field "evidence" (text x.evidence) no_fields)))

unfoldable pub findings_json : List Finding → Items
findings_json [] = no_items
findings_json (x ∷ xs) = item (finding_json x) (findings_json xs)

unfoldable pub review_json : ReviewRequest → Json
review_json r = object (
    field "candidateId" (text r.candidate_id) (
      field "reviewer" (text r.reviewer) (
        field "summary" (text r.summary)
          (field "findings" (array (findings_json r.findings)) no_fields))))

filled_text-IsFilled :
    (limit : ℕ) (v : Json) (t : String) → filled_text limit v ≡ ok t → IsFilled limit t
unfolding filled_text
filled_text-IsFilled limit (text s) t h =
    let (a, h₁) = guard-eq-ok (not (is_blank s)) _ _ h in
    let (b, h₂) = guard-eq-ok (leb (utf8_bytes s) limit) _ _ h₁ in
    let same : s ≡ t = ground arith in
    subst (IsFilled limit) same (ground arith, leb→le (utf8_bytes s) limit b)
filled_text-IsFilled limit undefined t h = cc
filled_text-IsFilled limit null t h = cc
filled_text-IsFilled limit (boolean b) t h = cc
filled_text-IsFilled limit (number n) t h = cc
filled_text-IsFilled limit (array vs) t h = cc
filled_text-IsFilled limit (object fs) t h = cc

filled_text-text : (limit : ℕ) (t : String) → IsFilled limit t → filled_text limit (text t) ≡ ok t
unfolding filled_text
filled_text-text limit t (a, b) = ground (arith, a, le→leb (utf8_bytes t) limit b)

read_severity-severity_text : (x : Severity) → read_severity (text (severity_text x)) ≡ ok x
unfolding read_severity severity_text text_eq
read_severity-severity_text low = refl
read_severity-severity_text medium = refl
read_severity-severity_text high = refl

normalize_finding-IsFilled :
    (v : Json) (x : Finding)
    → normalize_finding v ≡ ok x
    → IsFilled max_finding_bytes x.message × IsFilled max_finding_bytes x.evidence
unfolding normalize_finding
normalize_finding-IsFilled v x h =
    let (fs, _, h₁) = >>=-eq-ok (object_fields v) _ h in
    let (_, h₂) = guard-eq-ok (has_exact_keys _ fs) _ _ h₁ in
    let (s, _, h₃) = >>=-eq-ok (read_severity (get_field "severity" fs)) _ h₂ in
    let (m, a, h₄) = >>=-eq-ok (filled_text max_finding_bytes (get_field "message" fs)) _ h₃ in
    let (e, b, h₅) = >>=-eq-ok (filled_text max_finding_bytes (get_field "evidence" fs)) _ h₄ in
    let is : m ≡ x.message = ground (arith, h₅) in
    let so : e ≡ x.evidence = ground (arith, h₅) in
    (
      subst (IsFilled max_finding_bytes) is (filled_text-IsFilled max_finding_bytes _ m a),
      subst (IsFilled max_finding_bytes) so (filled_text-IsFilled max_finding_bytes _ e b),
    )

normalize_findings-AreFilled :
    (vs : Items) (xs : List Finding)
    → normalize_findings vs ≡ ok xs
    → AreFilled xs × (length xs ≡ item_count vs)
unfolding normalize_findings
normalize_findings-AreFilled no_items xs h =
    let is : [] ≡ xs = ground arith in
    subst (λ (l : List Finding). AreFilled l × (length l ≡ 0)) is (tt, refl)
normalize_findings-AreFilled (item v vs) xs h =
    let (x, a, h₁) = >>=-eq-ok (normalize_finding v) _ h in
    let (rest, b, h₂) = >>=-eq-ok (normalize_findings vs) _ h₁ in
    let is : x ∷ rest ≡ xs = ground arith in
    let (filled, count) = normalize_findings-AreFilled vs rest b in
    subst (λ (l : List Finding). AreFilled l × (length l ≡ suc (item_count vs))) is
      ((normalize_finding-IsFilled v x a, filled), ap suc count)

normalize_finding-finding_json :
    (x : Finding)
    → IsFilled max_finding_bytes x.message × IsFilled max_finding_bytes x.evidence
    → normalize_finding (finding_json x) ≡ ok x
unfolding normalize_finding finding_json object_fields has_exact_keys has_own get_field text_eq
normalize_finding-finding_json x (a, b) = ground (
  arith,
  read_severity-severity_text x.severity,
  filled_text-text max_finding_bytes x.message a,
  filled_text-text max_finding_bytes x.evidence b,
)

normalize_findings-findings_json :
    (xs : List Finding)
    → AreFilled xs
    → (normalize_findings (findings_json xs) ≡ ok xs) × (item_count (findings_json xs) ≡ length xs)
unfolding normalize_findings findings_json
normalize_findings-findings_json [] filled = (refl, refl)
normalize_findings-findings_json (x ∷ xs) (a, filled) =
    let (rest, count) = normalize_findings-findings_json xs filled in
    (ground (arith, normalize_finding-finding_json x a, rest), ap suc count)

normalize_review-IsWithin : (v : Json) (r : ReviewRequest) → normalize_review v ≡ ok r → IsWithin r
unfolding normalize_review
normalize_review-IsWithin v r h =
    let (fs, _, h₁) = >>=-eq-ok (object_fields v) _ h in
    let (_, h₂) = guard-eq-ok (has_exact_keys _ fs) _ _ h₁ in
    let (c, a, h₃) = >>=-eq-ok (filled_text max_prompt_bytes (get_field "candidateId" fs)) _ h₂ in
    let (w, b, h₄) = >>=-eq-ok (filled_text max_identity_bytes (get_field "reviewer" fs)) _ h₃ in
    let (s, d, h₅) = >>=-eq-ok (filled_text max_prose_bytes (get_field "summary" fs)) _ h₄ in
    let (vs, _, h₆) = >>=-eq-ok (array_items (get_field "findings" fs)) _ h₅ in
    let (few, h₇) = guard-eq-ok (leb (item_count vs) max_review_findings) _ _ h₆ in
    let (xs, e, h₈) = >>=-eq-ok (normalize_findings vs) _ h₇ in
    let (filled, count) = normalize_findings-AreFilled vs xs e in
    let made : ReviewRequest = record {
      candidate_id = c;
      reviewer = w;
      summary = s;
      findings = xs;
    } in
    let is : made ≡ r = ground (arith, h₈) in
    subst IsWithin is (
      filled_text-IsFilled max_prompt_bytes _ c a,
      filled_text-IsFilled max_identity_bytes _ w b,
      filled_text-IsFilled max_prose_bytes _ s d,
      ground (arith, few, count),
      filled,
    )

normalize_review-review_json :
    (r : ReviewRequest) → IsWithin r → normalize_review (review_json r) ≡ ok r
unfolding normalize_review review_json object_fields array_items has_exact_keys has_own get_field
    text_eq
normalize_review-review_json r (a, b, c, few, filled) =
    let (findings, count) = normalize_findings-findings_json r.findings filled in
    ground (
      arith,
      filled_text-text max_prompt_bytes r.candidate_id a,
      filled_text-text max_identity_bytes r.reviewer b,
      filled_text-text max_prose_bytes r.summary c,
      findings,
      count,
      few,
    )

-- A review that is accepted keeps every limit: no text is blank or longer than its limit, and at
-- most ten findings are there. Its own JSON form is accepted again, and gives the same review.
pub normalize_review_lem :
    (v : Json) (r : ReviewRequest)
    → normalize_review v ≡ ok r
    → IsWithin r × (normalize_review (review_json r) ≡ ok r)
normalize_review_lem v r h =
    let within = normalize_review-IsWithin v r h in (within, normalize_review-review_json r within)
