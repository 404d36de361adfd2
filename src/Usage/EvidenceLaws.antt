-- ===== src/Usage/EvidenceLaws.antt =====
-- That src/worker-usage.ts reads back what it has normalized.
use agentknot.Common.{
  >>=-eq-ok, Bool, Bool-cases, Fields, Json, Number, ap, arith, array, boolean, err, get_field,
  guard-eq-ok, has_own, inl, inr, leb, natural, not, null, number, object, ok, other_number, refl,
  text, text_eq, true, undefined, ℕ, ◌&&◌, ◌≡◌,
}
use agentknot.Usage.Evidence.{
  Evidence, Read, Reason, Tokens, evidence_json, invalid, is_cost, max_safe_integer, missing,
  normalize_usage, or_invalid, read_cost, read_count, read_reason, read_tokens, read_usage,
  reason_text, timeout, unavailable, unsupported, used, worker_failure,
}

abbrev are_safe : Tokens → Bool
are_safe t =
    leb t.input max_safe_integer
    && leb t.output max_safe_integer
    && leb t.cache_read max_safe_integer
    && leb t.cache_write max_safe_integer
    && leb t.total max_safe_integer

-- Counts are safe integers, and the cost is finite and not negative.
unfoldable pub is_fixed : Evidence → Bool
is_fixed (unavailable r) = true
is_fixed (used t cost) = are_safe t && is_cost cost

read_reason-reason_text : (r : Reason) → read_reason (text (reason_text r)) ≡ r
unfolding read_reason reason_text text_eq
read_reason-reason_text missing = refl
read_reason-reason_text timeout = refl
read_reason-reason_text unsupported = refl
read_reason-reason_text invalid = refl
read_reason-reason_text worker_failure = refl

-- A record's usage is read back as it is: evidence with safe counts and a finite cost that is not
-- negative survives the way into a value and back.
pub normalize_usage-evidence_json :
    (e : Evidence) → is_fixed e ≡ true → normalize_usage (evidence_json e) ≡ e
unfolding normalize_usage evidence_json is_fixed read_usage read_tokens read_count read_cost
    get_field has_own text_eq
normalize_usage-evidence_json (unavailable r) h = ap unavailable (read_reason-reason_text r)
normalize_usage-evidence_json (used t cost) h = ground arith

or_invalid-is_fixed :
    (r : Read Evidence)
    → ((e : Evidence) → r ≡ ok e → is_fixed e ≡ true)
    → is_fixed (or_invalid r) ≡ true
unfolding is_fixed
or_invalid-is_fixed (err e) fixed = refl
or_invalid-is_fixed (ok e) fixed = fixed e refl

read_count-safe : (v : Json) (n : ℕ) → read_count v ≡ ok n → leb n max_safe_integer ≡ true
unfolding read_count
read_count-safe (number (natural m)) n h = ground arith
read_count-safe (number (other_number is s)) n h = cc
read_count-safe undefined n h = cc
read_count-safe null n h = cc
read_count-safe (boolean b) n h = cc
read_count-safe (text s) n h = cc
read_count-safe (array xs) n h = cc
read_count-safe (object fs) n h = cc

read_cost-is_cost : (v : Json) (n : Number) → read_cost v ≡ ok n → is_cost n ≡ true
unfolding read_cost
read_cost-is_cost (number m) n h = let (is, h₁) = guard-eq-ok (is_cost m) tt _ h in ground arith
read_cost-is_cost undefined n h = cc
read_cost-is_cost null n h = cc
read_cost-is_cost (boolean b) n h = cc
read_cost-is_cost (text s) n h = cc
read_cost-is_cost (array xs) n h = cc
read_cost-is_cost (object fs) n h = cc

read_tokens-are_safe : (v : Json) (t : Tokens) → read_tokens v ≡ ok t → are_safe t ≡ true
unfolding read_tokens
read_tokens-are_safe undefined t h = cc
read_tokens-are_safe null t h = cc
read_tokens-are_safe (boolean b) t h = cc
read_tokens-are_safe (text s) t h = cc
read_tokens-are_safe (array xs) t h = cc
read_tokens-are_safe (number m) t h = cc
read_tokens-are_safe (object fs) t h =
    let (a, ha, h₁) = >>=-eq-ok (read_count (get_field "input" fs)) _ h in
    let (b, hb, h₂) = >>=-eq-ok (read_count (get_field "output" fs)) _ h₁ in
    let (c, hc, h₃) = >>=-eq-ok (read_count (get_field "cacheRead" fs)) _ h₂ in
    let (d, hd, h₄) = >>=-eq-ok (read_count (get_field "cacheWrite" fs)) _ h₃ in
    let (e, he, h₅) = >>=-eq-ok (read_count (get_field "total" fs)) _ h₄ in
    ground (
      arith,
      read_count-safe _ a ha,
      read_count-safe _ b hb,
      read_count-safe _ c hc,
      read_count-safe _ d hd,
      read_count-safe _ e he,
    )

read_usage-is_fixed : (fs : Fields) (e : Evidence) → read_usage fs ≡ ok e → is_fixed e ≡ true
unfolding is_fixed read_usage
read_usage-is_fixed fs e h =
    let (t, ht, h₁) = >>=-eq-ok (read_tokens (get_field "tokens" fs)) _ h in
    let (c, hc, h₂) = >>=-eq-ok (read_cost (get_field "cost" fs)) _ h₁ in
    ground (arith, read_tokens-are_safe _ t ht, read_cost-is_cost _ c hc)

pub normalize_usage-is_fixed : (v : Json) → is_fixed (normalize_usage v) ≡ true
unfolding normalize_usage is_fixed
normalize_usage-is_fixed undefined = refl
normalize_usage-is_fixed null = refl
normalize_usage-is_fixed (boolean b) = refl
normalize_usage-is_fixed (number n) = refl
normalize_usage-is_fixed (text s) = refl
normalize_usage-is_fixed (array xs) = refl
normalize_usage-is_fixed (object fs) = elim (Bool-cases (has_own "unavailableReason" fs)) [
  | inl is ↦ ground arith
  | inr not ↦ ground (arith, or_invalid-is_fixed (read_usage fs) (read_usage-is_fixed fs))
]

-- Whatever an adapter reports, its normalized form has safe counts and a finite cost that is not
-- negative, or a reason from the fixed list, and normalizing it again changes nothing.
pub normalize_usage_lem :
    (v : Json)
    → (is_fixed (normalize_usage v) ≡ true)
      × (normalize_usage (evidence_json (normalize_usage v)) ≡ normalize_usage v)
normalize_usage_lem v =
    let fixed = normalize_usage-is_fixed v in
    (fixed, normalize_usage-evidence_json (normalize_usage v) fixed)
