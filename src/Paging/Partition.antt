-- ===== src/Paging/Partition.antt =====
-- What the pages of a list are together, and where the `int` product of the page number and the
-- page size takes them off the list.
use device_ops.Prelude.{
  ℕ, zero, suc, ◌+◌, ◌-◌, ◌*◌, ◌%◌, ◌^◌, ◌<◌, ◌≡◌, sym, List, [], ◌++◌, take, take-add, arith,
}
use device_ops.Paging.{size_of_int, page_slice}
use device_ops.Paging.Laws.{page_slice_window}

module _ {ℓ} {A : Type ℓ} where
  -- What a client sees that reads pages 1, 2, …, `count` in this order.
  abbrev pub first_pages : List A → ℕ → ℕ → List A
  first_pages xs size zero = []
  first_pages xs size (suc count) = first_pages xs size count ++ page_slice xs (suc count) size

  -- While the product of page count and page size is an `int`: pages 1, 2, … in order are a prefix
  -- of the list, as long as the pages have places. So no item is left out and none comes twice.
  pub first_pages-eq-take :
      (xs : List A) (size count : ℕ)
      → count * size < 2 ^ 31
      → first_pages xs size count ≡ take (count * size) xs
  first_pages-eq-take xs size zero h = rw (zero_mul size)
    where
      zero_mul : (k : ℕ) → zero * k ≡ zero
      zero_mul k = omega arith
  first_pages-eq-take xs size (suc count) h =
      rw
        (
          first_pages-eq-take xs size count (grind arith),
          page_slice_window xs (suc count) size (below count),
          pred_suc count,
          mul_suc count,
        )
        (sym (take-add (count * size) size xs))
    where
      below : (k : ℕ) → (suc count - 1) * size < 2 ^ 31
      below k = grind arith

      pred_suc : (k : ℕ) → suc k - 1 ≡ k
      pred_suc k = omega arith

      mul_suc : (k : ℕ) → suc k * size ≡ k * size + size
      mul_suc k = omega arith

  -- With 100 items to a page, page 2^30 + p + 1 is page p + 1 once more, though it is past every
  -- list: the product of page number and page size wraps.
  pub page_slice_wraps :
      (xs : List A) (p : ℕ) → page_slice xs (2 ^ 30 + suc p) 100 ≡ page_slice xs (suc p) 100
  unfolding page_slice size_of_int
  page_slice_wraps xs p = rw (same p)
    where
      same : (k : ℕ) → (2 ^ 30 + suc k - 1) * 100 % 2 ^ 32 ≡ (suc k - 1) * 100 % 2 ^ 32
      same k = omega arith
