-- ===== src/Ledger/Bodies.antt =====
-- Formats for the services of src/work-order.ts, src/candidate.ts, src/review.ts and
-- src/disposition.ts in which what is written is read back: a body is a list of texts.
use Prim.Native.Char.{Char, code}
use mathlib.Core.List.{List, [], ◌∷◌}
use agentknot.Common.{String, ap, arith, if◌then◌else◌, none, refl, text_eq, ◌==◌, ◌∙◌, ◌≡◌}
use agentknot.Ledger.Entries.{Codec}
use agentknot.Ledger.Links.{Reads}
use agentknot.Ledger.RequestLaws.{severity_text}
use agentknot.Ledger.Requests.{
  Artifact, CandidateRequest, Command, Decision, DispositionRequest, Finding, ReviewRequest,
  Severity, accept, discard, high, low, medium,
}
use agentknot.Ledger.Services.{Formats}

-- A text with a mark before each character, and another one at its end.
abbrev write_text : String → String → String
write_text String.[] rest = String.◌∷◌ "." rest
write_text (String.◌∷◌ c s) rest = String.◌∷◌ "+" (String.◌∷◌ c (write_text s rest))

abbrev push : Char → List String → List String
push c [] = []
push c (s ∷ ss) = String.◌∷◌ c s ∷ ss

abbrev read_texts : String → List String
read_texts String.[] = []
read_texts (String.◌∷◌ mark String.[]) = "" ∷ []
read_texts (String.◌∷◌ mark (String.◌∷◌ c s)) =
    let ended = read_texts (String.◌∷◌ c s) in
    let more = read_texts s in if code mark == 46 then "" ∷ ended else push c more

abbrev write_texts : List String → String
write_texts [] = ""
write_texts (s ∷ ss) = write_text s (write_texts ss)

read_texts-write_text : (s rest : String) → read_texts (write_text s rest) ≡ s ∷ read_texts rest
read_texts-write_text String.[] String.[] = refl
read_texts-write_text String.[] (String.◌∷◌ c rest) = refl
read_texts-write_text (String.◌∷◌ c s) rest = ap (push c) (read_texts-write_text s rest)

pub read_texts-write_texts : (ss : List String) → read_texts (write_texts ss) ≡ ss
read_texts-write_texts [] = refl
read_texts-write_texts (s ∷ ss) =
    read_texts-write_text s (write_texts ss)
    ∙ ap (λ (l : List String). s ∷ l) (read_texts-write_texts ss)

abbrev read_level : String → Severity
read_level t = if text_eq t "low" then low else if text_eq t "medium" then medium else high

abbrev finding_texts : List Finding → List String
finding_texts [] = []
finding_texts (x ∷ xs) = severity_text x.severity ∷ x.message ∷ x.evidence ∷ finding_texts xs

abbrev read_findings : List String → List Finding
read_findings (s ∷ m ∷ e ∷ rest) =
    record { severity = read_level s; message = m; evidence = e } ∷ read_findings rest
read_findings _ = []

read_level-severity_text : (x : Severity) → read_level (severity_text x) ≡ x
unfolding severity_text text_eq
read_level-severity_text low = refl
read_level-severity_text medium = refl
read_level-severity_text high = refl

read_findings-finding_texts : (xs : List Finding) → read_findings (finding_texts xs) ≡ xs
read_findings-finding_texts [] = refl
read_findings-finding_texts (x ∷ xs) =
    ground (arith, read_level-severity_text x.severity, read_findings-finding_texts xs)

-- A codec from a list of texts and back.
abbrev texts_codec : {A : Type 0} → (A → List String) → (List String → A) → Codec A
texts_codec texts of_texts = record {
  write = λ a. write_texts (texts a);
  read = λ s. of_texts (read_texts s);
}

abbrev candidate_texts : CandidateRequest → List String
candidate_texts r =
    r.work_order_id ∷ r.executor_job_id ∷ r.artifact.path ∷ r.artifact.sha256
    ∷ r.artifact.base_commit ∷ []

abbrev no_candidate : CandidateRequest
no_candidate = record {
  work_order_id = "";
  executor_job_id = "";
  artifact = record { path = ""; sha256 = ""; base_commit = "" };
}

abbrev read_candidate : List String → CandidateRequest
read_candidate (o ∷ j ∷ p ∷ s ∷ b ∷ _) = record {
  work_order_id = o;
  executor_job_id = j;
  artifact = record { path = p; sha256 = s; base_commit = b };
}
read_candidate _ = no_candidate

abbrev review_texts : ReviewRequest → List String
review_texts r = r.candidate_id ∷ r.reviewer ∷ r.summary ∷ finding_texts r.findings

abbrev read_review : List String → ReviewRequest
read_review (c ∷ w ∷ s ∷ rest) = record {
  candidate_id = c;
  reviewer = w;
  summary = s;
  findings = read_findings rest;
}
read_review _ = record { candidate_id = ""; reviewer = ""; summary = ""; findings = [] }

abbrev decision_text : Decision → String
decision_text accept = "accept"
decision_text discard = "discard"

abbrev disposition_texts : DispositionRequest → List String
disposition_texts r =
    r.candidate_id ∷ r.review_id ∷ decision_text r.decision ∷ r.decided_by ∷ r.rationale ∷ []

abbrev read_choice : String → Decision
read_choice t = if text_eq t "accept" then accept else discard

abbrev read_disposition : List String → DispositionRequest
read_disposition (c ∷ v ∷ d ∷ b ∷ r ∷ _) = record {
  candidate_id = c;
  review_id = v;
  decision = read_choice d;
  decided_by = b;
  rationale = r;
}
read_disposition _ = record {
  candidate_id = "";
  review_id = "";
  decision = discard;
  decided_by = "";
  rationale = "";
}

abbrev command_codec : Codec Command
command_codec = record {
  write = λ c. c.objective;
  read = λ s. record {
    objective = s;
    workspace = "";
    acceptance_criteria = [];
    constraints = [];
    base_revision = none;
  };
}

-- Every Job has recorded one patch.
abbrev patch : Artifact
patch = record { path = "fix.patch"; sha256 = "d1"; base_commit = "c0" }

abbrev pub formats : Formats
formats = record {
  commands = command_codec;
  candidate_codec = texts_codec candidate_texts read_candidate;
  review_codec = texts_codec review_texts read_review;
  disposition_codec = texts_codec disposition_texts read_disposition;
  artifacts = λ job. record { kind = "git-patch"; identity = patch } ∷ [];
  resolve = λ path. path;
  digest = λ id. String.◌∷◌ "d" id;
}

read_choice-decision_text : (d : Decision) → read_choice (decision_text d) ≡ d
unfolding text_eq
read_choice-decision_text accept = refl
read_choice-decision_text discard = refl

pub formats-Reads : Reads formats
formats-Reads = record {
  of_candidates = λ x. ap read_candidate (read_texts-write_texts (candidate_texts x));
  of_reviews = λ x.
      ap read_review (read_texts-write_texts (review_texts x))
      ∙ ground (arith, read_findings-finding_texts x.findings);
  of_dispositions = λ x.
      ap read_disposition (read_texts-write_texts (disposition_texts x))
      ∙ ground (arith, read_choice-decision_text x.decision);
}
