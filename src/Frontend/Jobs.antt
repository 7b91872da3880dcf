-- ===== src/Frontend/Jobs.antt =====
-- stellance/frontend/lib/api/jobs.ts and the list of app/(dashboard)/jobs/page.tsx: the jobs that are
-- fetched, the filters on the page and its pages. Letters outside ASCII are compared as they are.
use stellances.Base.{
  none, some, true, false, ◌&&◌, ◌==◌, ◌<>◌, ◌*◌, ◌-◌, if◌then◌else◌, is_empty, leb, ℕ, String,
  Bool, Option, List, [], ◌∷◌, take, drop, length, ◌||◌,
}
use stellances.Schema.{Job}
use stellances.Table.{select}
use stellances.World.Action.{Action, ◌>>=◌, pure, truthy}
use stellances.Http.{Server, Identity}
use stellances.Http.Query.{trim_start, trim_end}
use stellances.Jobs.Controller.{JobQuery, list_jobs}
use stellances.Paging.{ceil_div}
use stellances.Frontend.Text.{includes_lower, includes_by}

-- `JobsQueryParams`
pub record JobsQueryParams : Type 0 where
  pub status : Option String
  pub mine : Option Bool

abbrev mine_text : Option Bool → Option String
mine_text (some true) = some "true"
mine_text (some false) = none
mine_text none = none

abbrev pub query_of : JobsQueryParams → JobQuery
query_of params = record {
  status = truthy params.status;
  mine = mine_text params.mine;
  search = none;
  min_budget = none;
  max_budget = none;
  page = none;
  limit = some "100";
}

-- `fetchJobs` of a caller who is signed in, its request answered by the backend
unfoldable pub fetch_jobs : Server → Identity → JobsQueryParams → Action (List Job)
unfolding list_jobs
fetch_jobs srv caller params = do p ← list_jobs srv caller (query_of params); pure p.rows

-- `BudgetRange`
pub record BudgetRange : Type 0 where
  pub label : String
  pub low : ℕ
  pub high : Option ℕ

abbrev range : String → ℕ → Option ℕ → BudgetRange
range label low high = record { label = label; low = low; high = high }

-- BUDGET_RANGES
abbrev pub budget_ranges : List BudgetRange
budget_ranges =
    range "Under $500" 0 (some 500)
    ∷ range "$500 – $1,000" 500 (some 1000)
    ∷ range "$1,000 – $5,000" 1000 (some 5000)
    ∷ range "$5,000 – $10,000" 5000 (some 10000)
    ∷ range "$10,000+" 10000 none
    ∷ []

-- the filters of the page
pub record Criteria : Type 0 where
  pub keyword : String
  pub category : String
  pub budget_range : Option BudgetRange

abbrev trimmed : String → String
trimmed s = trim_end (trim_start s)

unfoldable pub has_keyword : String → Job → Bool
unfolding trim_start trim_end includes_by
has_keyword keyword j =
    is_empty (trimmed keyword)
    || includes_lower (j.title <> " " <> j.description <> " " <> j.category) (trimmed keyword)

-- a budget is a count of stroops
unfoldable pub in_range : Option BudgetRange → Job → Bool
in_range none j = true
in_range (some r) j =
    leb (r.low * 10000000) j.budget
    && elim r.high [ none ↦ true | some n ↦ leb j.budget (n * 10000000) ]

-- the test of `filterJobs`
unfoldable pub shows : Criteria → Job → Bool
unfolding has_keyword in_range
shows c j =
    has_keyword c.keyword j
    && (is_empty c.category || j.category == c.category)
    && in_range c.budget_range j

-- `filterJobs`
abbrev pub filter_jobs : List Job → Criteria → List Job
filter_jobs jobs c = select (shows c) jobs

-- PAGE_SIZE
abbrev pub page_size : ℕ
page_size = 12

-- `totalPages`
abbrev pub total_pages : List Job → ℕ
total_pages rows = let n = ceil_div (length rows) page_size in if leb n 1 then 1 else n

-- `safePage`
abbrev pub safe_page : ℕ → List Job → ℕ
safe_page current rows = if leb current (total_pages rows) then current else total_pages rows

-- `pagedJobs`
unfoldable pub paged_jobs : ℕ → List Job → List Job
paged_jobs current rows = take page_size (drop ((safe_page current rows - 1) * page_size) rows)
