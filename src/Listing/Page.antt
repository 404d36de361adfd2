-- ===== src/Listing/Page.antt =====
-- `buildJobList` of src/job-list.ts.
use agentknot.Common.{
  Bool, List, Option, Result, String, [], false, guard, if◌then◌else◌, leb, length, ltb, ok, suc,
  true, ℕ, ◌*◌, ◌+◌, ◌>>◌, ◌∷◌, ◌≡◌,
}

pub record JobListItem : Type 0 where
  pub id : String
  pub status : String
  pub route : String
  pub created_at : String
  pub updated_at : String
  pub started_at : Option String
  pub completed_at : Option String
  pub attempt : ℕ

-- The fields of a Job record that the list shows, and the rest of it.
pub record JobRecord : Type 0 where
  pub id : String
  pub status : String
  pub route_name : String
  pub created_at : String
  pub updated_at : String
  pub started_at : Option String
  pub completed_at : Option String
  pub attempt : ℕ
  pub rest : String

pub record JobList : Type 0 where
  pub jobs : List JobListItem
  pub total : ℕ
  pub truncated : Bool

pub data JobListError : Type 0 where
  response_limit_exceeded : JobListError

abbrev pub max_job_list_response_bytes : ℕ
max_job_list_response_bytes = 1024 * 1024

-- The JSON texts of the items, and a comma between two of them.
unfoldable pub joined_bytes : (JobListItem → ℕ) → List JobListItem → ℕ
joined_bytes item_bytes [] = 0
joined_bytes item_bytes (i ∷ []) = item_bytes i
joined_bytes item_bytes (i ∷ j ∷ is) = item_bytes i + 1 + joined_bytes item_bytes (j ∷ is)

-- `JSON.stringify`, as the lengths in UTF-8 of the texts that it makes: that of an item, and that of a
-- page with the line break behind it. An array's text is its items' with commas between them, and
-- `false` is one byte longer than `true`.
pub record Json : Type 0 where
  pub item_bytes : JobListItem → ℕ
  pub page_bytes : JobList → ℕ
  pub page_items :
      (items : List JobListItem) (total : ℕ)
      → page_bytes (record { jobs = items; total = total; truncated = true })
        ≡ page_bytes (record { jobs = []; total = total; truncated = true })
          + joined_bytes item_bytes items
  pub page_flag :
      (items : List JobListItem) (total : ℕ)
      → page_bytes (record { jobs = items; total = total; truncated = false })
        ≡ suc (page_bytes (record { jobs = items; total = total; truncated = true }))

unfoldable pub summarize_job : JobRecord → JobListItem
summarize_job j = record {
  id = j.id;
  status = j.status;
  route = j.route_name;
  created_at = j.created_at;
  updated_at = j.updated_at;
  started_at = j.started_at;
  completed_at = j.completed_at;
  attempt = j.attempt;
}

-- The loop over the Jobs. `comma` is 0 before the first summary and 1 behind it.
unfoldable pub collect : (JobListItem → ℕ) → ℕ → ℕ → List JobRecord → List JobListItem
collect item_bytes bytes comma [] = []
collect item_bytes bytes comma (j ∷ js) =
    let summary = summarize_job j in
    let addition = item_bytes summary + comma in
    let more = collect item_bytes (bytes + addition) 1 js in
    if ltb max_job_list_response_bytes (bytes + addition) then [] else summary ∷ more

abbrev pub empty_page : ℕ → JobList
empty_page total = record { jobs = []; total = total; truncated = true }

unfoldable pub build_job_list : Json → List JobRecord → Result JobListError JobList
build_job_list json jobs = do
  let bytes = json.page_bytes (empty_page (length jobs)) + 1
  let summaries = collect json.item_bytes bytes 0 jobs
  let page : JobList = record {
    jobs = summaries;
    total = length jobs;
    truncated = ltb (length summaries) (length jobs);
  }
  guard (leb (json.page_bytes page) max_job_list_response_bytes) response_limit_exceeded
  ok page
