-- ===== src/Frontend/Browse.antt =====
-- What the page of jobs shows.
use stellances.Base.{
  none, some, true, ◌≡◌, ◌∙◌, ◌++◌, ◌*◌, ◌+◌, ◌==◌, ◌≤◌, refl, arith, List, ℕ, [], ◌∷◌, zero, suc,
  take, length, leb, Bool, ap, String, ◌-◌,
}
use stellances.Schema.{Job, JobStatus}
use stellances.Table.{select}
use stellances.World.{World}
use stellances.World.Action.{ok}
use stellances.Http.{Server, Identity}
use stellances.Http.Query.{page_query, parse_int, min_budget_query, max_budget_query, search_of}
use stellances.Jobs.{has_status, matches, find_all, JobFilters}
use stellances.Jobs.Controller.{list_jobs, filters_of, status_query}
use stellances.Paging.{paged}
use stellances.Paging.Cover.{take-drop, take_all, enough}
use stellances.Frontend.Jobs.{
  JobsQueryParams, fetch_jobs, Criteria, filter_jobs, page_size, paged_jobs, total_pages,
}

-- what the page asks for
abbrev pub open_only : JobsQueryParams
open_only = record { status = some "OPEN"; mine = none }

-- the open jobs of the database, newest first
abbrev pub open_jobs : World → List Job
open_jobs w = select (has_status JobStatus.open_job) w.db.jobs

abbrev open_filter : JobFilters
open_filter = record {
  status = some JobStatus.open_job;
  client_id = none;
  search = none;
  min_budget = none;
  max_budget = none;
}

select-matches :
    (contains : String → String → Bool) (js : List Job)
    → select (matches contains open_filter) js ≡ select (has_status JobStatus.open_job) js
unfolding matches
select-matches contains [] = refl
select-matches contains (j ∷ js) = ground (arith, select-matches contains js)

fetch_open :
    (srv : Server) (caller : Identity) (w : World)
    → fetch_jobs srv caller open_only w
      ≡ (ok (take 100 (select (matches srv.contains open_filter) w.db.jobs)), w)
unfolding fetch_jobs list_jobs filters_of status_query find_all paged page_query parse_int search_of
    ◌==◌ min_budget_query max_budget_query
fetch_open srv caller w = refl

-- the pages from the first on, one after the other
abbrev pub all_pages : ℕ → List Job → List Job
all_pages zero rows = []
all_pages (suc n) rows = all_pages n rows ++ paged_jobs (suc n) rows

all_pages-take :
    (n : ℕ) (rows : List Job)
    → leb n (total_pages rows) ≡ true
    → all_pages n rows ≡ take (n * page_size) rows
unfolding paged_jobs
all_pages-take zero rows h = refl
all_pages-take (suc n) rows h =
    let before : leb n (total_pages rows) ≡ true = ground arith in
    let e : n * 12 + 12 ≡ suc n * 12 = omega arith in
    let p : suc n - 1 ≡ n = omega arith in
    rw (all_pages-take n rows before, h, p)
      (take-drop (n * page_size) page_size rows ∙ ap (λ k. take k rows) e)

total-le : (rows : List Job) → length rows ≤ total_pages rows * page_size
total-le rows = ground (arith, enough (length rows) 12 (omega arith))

leb_refl : (n : ℕ) → leb n n ≡ true
leb_refl n = ground arith

-- The finding about fetchJobs: the page of jobs fetches the newest hundred open jobs, not all of them.
-- Its pages from the first to the last, one after the other, are the jobs among those hundred that pass
-- the filters, in order and each once; and the request changes nothing.
pub browse_ok :
    (srv : Server) (caller : Identity) (w : World) (c : Criteria)
    → let rows = filter_jobs (take 100 (open_jobs w)) c in
      (fetch_jobs srv caller open_only w ≡ (ok (take 100 (open_jobs w)), w))
      × (all_pages (total_pages rows) rows ≡ rows)
browse_ok srv caller w c =
    let rows = filter_jobs (take 100 (open_jobs w)) c in
    (
      fetch_open srv caller w
          ∙ ap (λ js. (ok (take 100 js), w)) (select-matches srv.contains w.db.jobs),
      all_pages-take (total_pages rows) rows (leb_refl (total_pages rows))
          ∙ take_all (total_pages rows * page_size) rows (total-le rows),
    )
