-- ===== src/Paging.antt =====
-- The pages of `findAll`, as jobs.service.ts and users.service.ts make them.
pub mod Cover
mod Tests
use stellances.Base.{
  leb, if◌then◌else◌, zero, suc, none, some, Option, List, ℕ, ◌+◌, take, ◌-◌, drop, ◌/◌, ◌*◌,
  length,
}

-- A page number below 1 is the first one, so a negative number is the same as 0.
pub record Paging : Type 0 where
  pub page : Option ℕ
  pub limit : Option ℕ

abbrev pub max_page_size : ℕ
max_page_size = 100

abbrev pub default_page_size : ℕ
default_page_size = 20

abbrev at_least_one : ℕ → ℕ
at_least_one zero = 1
at_least_one (suc n) = suc n

abbrev pub page_of : Paging → ℕ
page_of p = elim p.page [ none ↦ 1 | some n ↦ at_least_one n ]

abbrev asked : Option ℕ → ℕ
asked none = default_page_size
asked (some n) = at_least_one n

abbrev pub limit_of : Paging → ℕ
limit_of p = if leb max_page_size (asked p.limit) then max_page_size else asked p.limit

pub record Page (A : Type 0) : Type 0 where
  pub rows : List A
  pub total : ℕ
  pub page : ℕ
  pub limit : ℕ
  pub total_pages : ℕ

-- `Math.ceil(total / limit)`
abbrev pub ceil_div : ℕ → ℕ → ℕ
ceil_div total limit = (total + (limit - 1)) / limit

unfoldable pub paged : {A : Type 0} → Paging → List A → Page A
paged p rows = record {
  rows = take (limit_of p) (drop ((page_of p - 1) * limit_of p) rows);
  total = length rows;
  page = page_of p;
  limit = limit_of p;
  total_pages = ceil_div (length rows) (limit_of p);
}
