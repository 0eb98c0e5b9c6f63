-- ===== src/Paging/Laws.antt =====
-- Lemmas on the page arithmetic.
use device_ops.Prelude.{
  ℕ, zero, suc, ◌+◌, ◌-◌, ◌*◌, ◌^◌, ◌≤◌, ◌<◌, min, ℤ, pos, negsuc, ◌≡◌, refl, sym, List, [], ◌∷◌,
  leb, length, take, drop, take_all, take_nil, All, take-All, drop-All, drop_all, length-drop,
  length-take, Bool-cases, inl, inr, leb→le, leb→lt, arith,
}
use device_ops.Paging.{
  normalize_page, normalize_page_size, page_or_default, page_size_or_default, size_of_int,
  slice_from, page_slice,
}

pub normalize_page_pos : (page : ℤ) → 1 ≤ normalize_page page
unfolding normalize_page
normalize_page_pos (pos zero) = omega arith
normalize_page_pos (pos (suc n)) = omega arith
normalize_page_pos (negsuc n) = omega arith

pub normalize_page_size_bounds :
    (size : ℤ) → (1 ≤ normalize_page_size size) × (normalize_page_size size ≤ 100)
unfolding normalize_page_size
normalize_page_size_bounds (pos zero) = (omega arith, omega arith)
normalize_page_size_bounds (pos (suc n)) = (omega arith, omega arith)
normalize_page_size_bounds (negsuc n) = (omega arith, omega arith)

-- The repository changes nothing that the service layer has normalised.
pub normalize_page-page_or_default :
    (page : ℤ) → normalize_page (pos (page_or_default page)) ≡ page_or_default page
unfolding normalize_page page_or_default
normalize_page-page_or_default (pos zero) = refl
normalize_page-page_or_default (pos (suc n)) = refl
normalize_page-page_or_default (negsuc n) = refl

pub normalize_page_size-page_size_or_default :
    (size : ℤ) → normalize_page_size (pos (page_size_or_default size)) ≡ page_size_or_default size
unfolding normalize_page_size page_size_or_default
normalize_page_size-page_size_or_default (pos zero) = omega arith
normalize_page_size-page_size_or_default (pos (suc n)) = ground arith
normalize_page_size-page_size_or_default (negsuc n) = omega arith

pub size_of_int_small : (n : ℕ) → n < 2 ^ 31 → size_of_int n ≡ n
unfolding size_of_int
size_of_int_small n h = ground arith

module _ {ℓ} {A : Type ℓ} where
  take_cut : (n : ℕ) (xs : List A) → take (min n (length xs)) xs ≡ take n xs
  take_cut zero xs = rw (min_zero (length xs))
    where
      min_zero : (k : ℕ) → min zero k ≡ zero
      min_zero k = omega arith
  take_cut (suc n) [] = take_nil (min (suc n) 0)
  take_cut (suc n) (x ∷ xs) = rw (min_suc n (length xs)) (rw (take_cut n xs))
    where
      min_suc : (a b : ℕ) → min (suc a) (suc b) ≡ suc (min a b)
      min_suc a b = omega arith

  slice_from_window :
      (xs : List A) (start size : ℕ) → slice_from xs start size ≡ take size (drop start xs)
  unfolding slice_from
  slice_from_window xs start size = elim (Bool-cases (leb (length xs) start)) [
    | inl past ↦
        rw past (rw (drop_all start xs (leb→le _ _ past)) (sym (take_all size [] (omega arith))))
    | inr inside ↦
        let room : min (length xs) (start + size) - start ≡ min size (length (drop start xs)) =
          omega (arith, leb→lt _ _ inside, length-drop start xs) in
        rw (inside, room) (take_cut size (drop start xs))
  ]

  pub page_slice_cut :
      (xs : List A) (page size : ℕ)
      → page_slice xs page size ≡ take size (drop (size_of_int ((page - 1) * size)) xs)
  unfolding page_slice
  page_slice_cut xs page size = slice_from_window xs (size_of_int ((page - 1) * size)) size

  -- Within the range of `int`, a page is a window of the list.
  pub page_slice_window :
      (xs : List A) (page size : ℕ)
      → (page - 1) * size < 2 ^ 31
      → page_slice xs page size ≡ take size (drop ((page - 1) * size) xs)
  unfolding page_slice
  page_slice_window xs page size h =
      rw (size_of_int_small ((page - 1) * size) h) (slice_from_window xs ((page - 1) * size) size)

  -- Whatever the page number, also past the range of `int`.
  pub length-page_slice : (xs : List A) (page size : ℕ) → length (page_slice xs page size) ≤ size
  unfolding page_slice
  length-page_slice xs page size =
      let start = size_of_int ((page - 1) * size) in
      rw (slice_from_window xs start size) (omega (arith, length-take size (drop start xs)))

-- Whatever holds of every item holds of every item of a page.
pub page_slice-All {ℓ κ} :
    {A : Type ℓ} (P : A → Type κ) (xs : List A) (page size : ℕ)
    → All P xs
    → All P (page_slice xs page size)
unfolding page_slice
page_slice-All P xs page size h =
    let start = size_of_int ((page - 1) * size) in
    rw (slice_from_window xs start size) (take-All P size (drop start xs) (drop-All P start xs h))
