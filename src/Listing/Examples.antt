-- ===== src/Listing/Examples.antt =====
-- The theorem on src/job-list.ts, applied to two Jobs.
use agentknot.Common.{
  List, String, [], arith, if◌then◌else◌, length, ltb, map, none, not, ok, refl, suc, take, true, ℕ,
  ◌+◌, ◌||◌, ◌∷◌, ◌≡◌, ◌≤◌,
}
use agentknot.Listing.Page.{
  JobList, JobRecord, Json, build_job_list, joined_bytes, max_job_list_response_bytes,
  summarize_job,
}
use agentknot.Listing.PageLaws.{build_job_list-fits, one_more}

-- Each item takes 200 bytes, and an empty page 100.
abbrev page_size : JobList → ℕ
page_size page =
    if page.truncated
    then 100 + joined_bytes (λ i. 200) page.jobs
    else suc (100 + joined_bytes (λ i. 200) page.jobs)

abbrev sizes : Json
unfolding joined_bytes
sizes = record {
  item_bytes = λ i. 200;
  page_bytes = page_size;
  page_items = λ items total. refl;
  page_flag = λ items total. refl;
}

abbrev listed : String → JobRecord
listed id = record {
  id = id;
  status = "running";
  route_name = "fast";
  created_at = "2026-01-01T00:00:00.000Z";
  updated_at = "2026-01-01T00:00:00.000Z";
  started_at = none;
  completed_at = none;
  attempt = 1;
  rest = "";
}

abbrev two_jobs : List JobRecord
two_jobs = listed "job_1" ∷ listed "job_2" ∷ []

build_job_list-fits_example :
    (page : JobList) × (build_job_list sizes two_jobs ≡ ok page)
    × (page.jobs ≡ take (length page.jobs) (map summarize_job two_jobs))
    × (page.truncated ≡ ltb (length page.jobs) 2)
    × (sizes.page_bytes page ≤ max_job_list_response_bytes)
    × ((not page.truncated
          || ltb max_job_list_response_bytes
              (sizes.page_bytes (record page { jobs = one_more page.jobs two_jobs }) + 1))
        ≡ true)
unfolding joined_bytes
build_job_list-fits_example = build_job_list-fits sizes two_jobs (omega arith)
