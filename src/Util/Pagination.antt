-- ===== src/Util/Pagination.antt =====
-- app/common/pagination.py, of which FastAPI and pydantic are left out. A page and a page size are at
-- least 1 there.
pub mod Bounds
use ushnotice.Common.{ℕ, ◌+◌, ◌-◌, ◌*◌, ◌/◌, leb, if◌then◌else◌}

pub record PaginationParams : Type 0 where
  pub page : ℕ
  pub page_size : ℕ

-- the row that the page begins after
unfoldable pub offset : PaginationParams → ℕ
offset p = (p.page - 1) * p.page_size

-- `max(1, -(-total // page_size))`; the inner quotient is rounded up
unfoldable pub pages : ℕ → PaginationParams → ℕ
pages total p = let q = (total + (p.page_size - 1)) / p.page_size in if leb 1 q then q else 1
