-- ===== src/Paging.antt =====
-- The page arithmetic that every list operation of the services repeats: normalizePage and
-- normalizePageSize of the repositories, pageOrDefault and pageSizeOrDefault of the service
-- implementations, and the slice that ends each list (services/*/src/*_repository.cc; named
-- pageSlice in telemetry_repository.cc).
pub mod Laws
pub mod Partition
mod Tests
use device_ops.Prelude.{
  ℕ, zero, suc, ◌+◌, ◌-◌, ◌*◌, ◌%◌, ◌^◌, min, ℤ, pos, negsuc, List, [], leb, ltb, length, take,
  drop, if◌then◌else◌,
}

-- An `int` that is not positive becomes 1, so the result is a number.
unfoldable pub normalize_page : ℤ → ℕ
normalize_page (pos zero) = 1
normalize_page (pos (suc n)) = suc n
normalize_page (negsuc n) = 1

unfoldable pub normalize_page_size : ℤ → ℕ
normalize_page_size (pos zero) = 20
normalize_page_size (pos (suc n)) = min (suc n) 100
normalize_page_size (negsuc n) = 20

-- The service layer normalises the request's page first, and the repository again.
unfoldable pub page_or_default : ℤ → ℕ
page_or_default (pos zero) = 1
page_or_default (pos (suc n)) = suc n
page_or_default (negsuc n) = 1

unfoldable pub page_size_or_default : ℤ → ℕ
page_size_or_default (pos zero) = 20
page_size_or_default (pos (suc n)) = if ltb 100 (suc n) then 100 else suc n
page_size_or_default (negsuc n) = 20

-- static_cast<size_t> of an `int` product: it wraps to 32 bits (signed overflow, which compilers
-- leave as the wrapped value) and its sign is extended to 64.
unfoldable pub size_of_int : ℕ → ℕ
size_of_int n = let m = n % 2 ^ 32 in if ltb m (2 ^ 31) then m else m + (2 ^ 64 - 2 ^ 32)

-- values[begin .. min(size, begin + page_size)], or nothing when begin is past the end.
slice_from {ℓ} : {A : Type ℓ} → List A → ℕ → ℕ → List A
slice_from values start page_size =
    if leb (length values) start
    then []
    else take (min (length values) (start + page_size) - start) (drop start values)

unfoldable pub page_slice {ℓ} : {A : Type ℓ} → List A → ℕ → ℕ → List A
unfolding slice_from
page_slice values page page_size =
    slice_from values (size_of_int ((page - 1) * page_size)) page_size
