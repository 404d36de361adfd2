-- ===== src/Listing/PageLaws.antt =====
-- What src/job-list.ts promises of a page.
use agentknot.Common.{
  Bool, Bool-cases, List, [], arith, false, inl, inr, length, ltb, ltb-false, ltb→lt, lt→ltb, map,
  not, ok, refl, suc, take, true, ℕ, ◌+◌, ◌<◌, ◌||◌, ◌∷◌, ◌≡◌, ◌≤◌,
}
use agentknot.Listing.Page.{
  JobList, JobListItem, JobRecord, Json, build_job_list, collect, empty_page, joined_bytes,
  max_job_list_response_bytes, summarize_job,
}

-- The bytes of items that follow others, each with a comma before it.
abbrev pub following : (JobListItem → ℕ) → List JobListItem → ℕ
following item_bytes [] = 0
following item_bytes (i ∷ is) = item_bytes i + 1 + following item_bytes is

joined-following :
    (item_bytes : JobListItem → ℕ) (i : JobListItem) (is : List JobListItem)
    → joined_bytes item_bytes (i ∷ is) ≡ item_bytes i + following item_bytes is
unfolding joined_bytes
joined-following item_bytes i [] = omega arith
joined-following item_bytes i (j ∷ is) = omega (arith, joined-following item_bytes j is)

collect-following-le :
    (item_bytes : JobListItem → ℕ) (bytes : ℕ) (js : List JobRecord)
    → bytes ≤ max_job_list_response_bytes
    → bytes + following item_bytes (collect item_bytes bytes 1 js) ≤ max_job_list_response_bytes
unfolding collect
collect-following-le item_bytes bytes [] h = omega (arith, h)
collect-following-le item_bytes bytes (j ∷ js) h =
    let addition = item_bytes (summarize_job j) + 1 in
    elim (Bool-cases (ltb max_job_list_response_bytes (bytes + addition))) [
      | inl over ↦ ground (arith, over)
      | inr fits ↦
          let rest =
            collect-following-le item_bytes (bytes + addition) js
              (ltb-false max_job_list_response_bytes (bytes + addition) fits) in
          ground (arith, fits, rest)
    ]

collect-joined-le :
    (item_bytes : JobListItem → ℕ) (bytes : ℕ) (js : List JobRecord)
    → bytes ≤ max_job_list_response_bytes
    → bytes + joined_bytes item_bytes (collect item_bytes bytes 0 js) ≤ max_job_list_response_bytes
unfolding collect
collect-joined-le item_bytes bytes [] h = unfold joined_bytes in omega (arith, h)
collect-joined-le item_bytes bytes (j ∷ js) h =
    let addition = item_bytes (summarize_job j) + 0 in
    elim (Bool-cases (ltb max_job_list_response_bytes (bytes + addition))) [
      | inl over ↦ unfold joined_bytes in ground (arith, over)
      | inr fits ↦
          let rest =
            collect-following-le item_bytes (bytes + addition) js
              (ltb-false max_job_list_response_bytes (bytes + addition) fits) in
          let whole =
            joined-following item_bytes (summarize_job j)
              (collect item_bytes (bytes + addition) 1 js) in
          ground (arith, fits, rest, whole)
    ]

collect-take :
    (item_bytes : JobListItem → ℕ) (bytes comma : ℕ) (js : List JobRecord)
    → collect item_bytes bytes comma js
      ≡ take (length (collect item_bytes bytes comma js)) (map summarize_job js)
unfolding collect
collect-take item_bytes bytes comma [] = refl
collect-take item_bytes bytes comma (j ∷ js) =
    let addition = item_bytes (summarize_job j) + comma in
    ground (arith, collect-take item_bytes (bytes + addition) 1 js)

-- The items with the next Job's, had there been room for it.
abbrev pub one_more : List JobListItem → List JobRecord → List JobListItem
one_more items js = take (suc (length items)) (map summarize_job js)

collect-following-full :
    (item_bytes : JobListItem → ℕ) (bytes : ℕ) (js : List JobRecord)
    → length (collect item_bytes bytes 1 js) < length js
    → max_job_list_response_bytes
      < bytes + following item_bytes (one_more (collect item_bytes bytes 1 js) js)
unfolding collect
collect-following-full item_bytes bytes [] h = ground (arith, h)
collect-following-full item_bytes bytes (j ∷ js) h =
    let addition = item_bytes (summarize_job j) + 1 in
    elim (Bool-cases (ltb max_job_list_response_bytes (bytes + addition))) [
      | inl over ↦ ground (arith, over)
      | inr fits ↦
          let rest =
            collect-following-full item_bytes (bytes + addition) js (ground (arith, fits)) in
          ground (arith, fits, rest)
    ]

collect-joined-full :
    (item_bytes : JobListItem → ℕ) (bytes : ℕ) (js : List JobRecord)
    → length (collect item_bytes bytes 0 js) < length js
    → max_job_list_response_bytes
      < bytes + joined_bytes item_bytes (one_more (collect item_bytes bytes 0 js) js)
unfolding collect
collect-joined-full item_bytes bytes [] h = ground (arith, h)
collect-joined-full item_bytes bytes (j ∷ js) h =
    let addition = item_bytes (summarize_job j) + 0 in
    elim (Bool-cases (ltb max_job_list_response_bytes (bytes + addition))) [
      | inl over ↦ unfold joined_bytes in ground (arith, over)
      | inr fits ↦
          let rest =
            collect-following-full item_bytes (bytes + addition) js (ground (arith, fits)) in
          let whole =
            joined-following item_bytes (summarize_job j)
              (one_more (collect item_bytes (bytes + addition) 1 js) js) in
          ground (arith, fits, rest, whole)
    ]

page_bytes-le :
    (json : Json) (items : List JobListItem) (total : ℕ) (cut : Bool)
    → json.page_bytes (empty_page total) + 1 + joined_bytes json.item_bytes items
      ≤ max_job_list_response_bytes
    → json.page_bytes (record { jobs = items; total = total; truncated = cut })
      ≤ max_job_list_response_bytes
page_bytes-le json items total true h = omega (arith, h, json.page_items items total)
page_bytes-le json items total false h =
    omega (arith, h, json.page_items items total, json.page_flag items total)

page_bytes-full :
    (json : Json) (items : List JobListItem) (total : ℕ) (cut : Bool)
    → (cut ≡ true
        → max_job_list_response_bytes
          < json.page_bytes (empty_page total) + 1 + joined_bytes json.item_bytes items)
    → (not cut
        || ltb max_job_list_response_bytes
            (json.page_bytes (record { jobs = items; total = total; truncated = cut }) + 1))
      ≡ true
page_bytes-full json items total false h = refl
page_bytes-full json items total true h =
    let over = h refl in
    let parts = json.page_items items total in
    lt→ltb max_job_list_response_bytes _ (omega (arith, over, parts))

-- If an empty page has room with a byte to spare, a page is always built, within the response limit:
-- it shows the first Jobs, and its flag says whether there are more. If there are, the page with the
-- next one would be over the limit or leave no byte of it free: the code reserves a byte for the
-- longer text of the other flag, whichever it writes.
pub build_job_list-fits :
    (json : Json) (jobs : List JobRecord)
    → json.page_bytes (empty_page (length jobs)) + 1 ≤ max_job_list_response_bytes
    → (page : JobList) × (build_job_list json jobs ≡ ok page)
      × (page.jobs ≡ take (length page.jobs) (map summarize_job jobs))
      × (page.truncated ≡ ltb (length page.jobs) (length jobs))
      × (json.page_bytes page ≤ max_job_list_response_bytes)
      × ((not page.truncated
            || ltb max_job_list_response_bytes
                (json.page_bytes (record page { jobs = one_more page.jobs jobs }) + 1))
          ≡ true)
unfolding build_job_list
build_job_list-fits json jobs room =
    let total = length jobs in
    let items = collect json.item_bytes (json.page_bytes (empty_page total) + 1) 0 jobs in
    let cut = ltb (length items) total in
    let small =
      page_bytes-le json items total cut
        (collect-joined-le json.item_bytes (json.page_bytes (empty_page total) + 1) jobs room) in
    (
      record { jobs = items; total = total; truncated = cut },
      ground (arith, small),
      collect-take json.item_bytes (json.page_bytes (empty_page total) + 1) 0 jobs,
      refl,
      small,
      page_bytes-full json (one_more items jobs) total cut (λ e.
          collect-joined-full json.item_bytes (json.page_bytes (empty_page total) + 1) jobs
            (ltb→lt (length items) total e)),
    )
