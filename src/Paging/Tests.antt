-- ===== src/Paging/Tests.antt =====
-- The page theorems at concrete inputs.
use device_ops.Prelude.{ℕ, ◌+◌, ◌^◌, ◌≡◌, [], ◌∷◌, arith}
use device_ops.Paging.{page_slice}
use device_ops.Paging.Partition.{first_pages, first_pages-eq-take, page_slice_wraps}

first_pages-eq-take_example : first_pages {A = ℕ} (7 ∷ 8 ∷ 9 ∷ []) 2 2 ≡ 7 ∷ 8 ∷ 9 ∷ []
first_pages-eq-take_example = first_pages-eq-take (7 ∷ 8 ∷ 9 ∷ []) 2 2 (omega arith)

page_slice_wraps_example :
    page_slice {A = ℕ} (7 ∷ 8 ∷ []) (2 ^ 30 + 1) 100 ≡ page_slice {A = ℕ} (7 ∷ 8 ∷ []) 1 100
page_slice_wraps_example = page_slice_wraps (7 ∷ 8 ∷ []) 0
