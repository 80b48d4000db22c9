-- ===== src/Util/Pagination/Bounds.antt =====
-- The pages cover the rows, and none that is counted is past the rows.
use native.Mathlib.Nat.{div-add-mod, mod-lt, mul-le-mul_right, mul_comm}
use ushnotice.Common.{ℕ, zero, suc, ◌+◌, ◌-◌, ◌*◌, ◌/◌, ◌≤◌, ◌<◌, ◌≡◌, arith}
use ushnotice.Util.Pagination.{PaginationParams, offset, pages}

-- the quotient that is rounded up
ceiling : (t d : ℕ) → 1 ≤ d → (t ≤ (t + (d - 1)) / d * d) × ((t + (d - 1)) / d * d < t + d)
ceiling t d positive =
    let n = t + (d - 1) in
    let split = div-add-mod n d in
    let small = mod-lt n {m = d} positive in
    let swap = mul_comm d (n / d) in
    (omega (arith, split, small, swap), omega (arith, split, small, swap))

some_page : (t q s : ℕ) → 1 ≤ t → t ≤ q * s → 1 ≤ q
some_page t zero s filled h = grind arith
some_page t (suc q) s filled h = omega arith

-- the page before the last one
page_before : (q s : ℕ) → 1 ≤ q → (q - 1) * s + s ≡ q * s
page_before zero s h = omega arith
page_before (suc q) s h = grind arith

-- With rows, and a page and page size of at least 1, each page that is counted begins before the
-- last row, and a page after the last one that is counted begins after all rows.
pub offset_bounded :
    (total page page_size : ℕ)
    → 1 ≤ page_size
    → 1 ≤ total
    → 1 ≤ page
    → let p : PaginationParams = record { page = page; page_size = page_size } in
      ((page ≤ pages total p) → offset p < total) × ((pages total p < page) → total ≤ offset p)
unfolding offset pages
offset_bounded total page page_size sized filled first =
    let q = (total + (page_size - 1)) / page_size in
    let (covers, tight) = ceiling total page_size sized in
    let counted = some_page total q page_size filled covers in
    let last = page_before q page_size counted in
    (
      λ within.
          let early : page - 1 ≤ q - 1 = ground arith in
          omega (arith, mul-le-mul_right page_size early, last, tight),
      λ past.
          let late : q ≤ page - 1 = ground arith in
          omega (arith, mul-le-mul_right page_size late, covers),
    )
