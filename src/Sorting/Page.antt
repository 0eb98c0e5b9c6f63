-- ===== src/Sorting/Page.antt =====
-- The end of each list operation of the knowledge and diagnosis repositories: the rows that pass the
-- filter are sorted, counted, and cut to a page.
use device_ops.Prelude.{
  ℕ, zero, suc, ◌-◌, ◌*◌, ◌≤◌, ℤ, ◌≡◌, sym, Bool, true, List, [], ◌∷◌, All, keep_if, length, drop,
  Bool-cases, inl, inr, arith,
}
use device_ops.Paging.{normalize_page, normalize_page_size, page_slice, size_of_int}
use device_ops.Paging.Laws.{
  length-page_slice, page_slice-All, normalize_page_size_bounds, page_slice_cut,
}
use device_ops.Sorting.{Sort, IsSort, IsOrder, InOrder, length-Permᴰ, Permᴰ-All}
use device_ops.Sorting.Top.{take-InOrder}

module _ {A : Type 0} (sort : Sort A) (lt : A → A → Bool) (passes : A → Bool) where
  -- The page and `*total`.
  unfoldable pub sorted_page : List A → ℤ → ℤ → List A × ℕ
  sorted_page rows page page_size =
      let matched = sort lt (keep_if passes rows) in
      (page_slice matched (normalize_page page) (normalize_page_size page_size), length matched)

  keep_if-All : (xs : List A) → All (λ x. passes x ≡ true) (keep_if passes xs)
  keep_if-All [] = tt
  keep_if-All (x ∷ xs) = elim (Bool-cases (passes x)) [
    | inl h ↦ rw h (h, keep_if-All xs)
    | inr h ↦ rw h (keep_if-All xs)
  ]

  drop-InOrder : (n : ℕ) (xs : List A) → InOrder lt xs → InOrder lt (drop n xs)
  drop-InOrder zero xs h = h
  drop-InOrder (suc n) [] h = tt
  drop-InOrder (suc n) (x ∷ []) h = drop-InOrder n [] tt
  drop-InOrder (suc n) (x ∷ y ∷ xs) h = drop-InOrder n (y ∷ xs) h.1

  page_slice-InOrder :
      (xs : List A) (page size : ℕ) → InOrder lt xs → InOrder lt (page_slice xs page size)
  page_slice-InOrder xs page size h =
      let start = size_of_int ((page - 1) * size) in
      rw (page_slice_cut xs page size)
        (take-InOrder lt size (drop start xs) (drop-InOrder start xs h))

  -- A page has at most 100 rows, each of which passes the filter, in order; the total counts the rows
  -- that pass.
  pub sorted_page_lem :
      IsSort sort
      → IsOrder lt
      → (rows : List A) (page page_size : ℤ)
      → let (shown, total) = sorted_page rows page page_size in
        (length shown ≤ 100)
        × All (λ x. passes x ≡ true) shown
        × InOrder lt shown
        × (total ≡ length (keep_if passes rows))
  unfolding sorted_page
  sorted_page_lem laws order rows page page_size =
      let kept = keep_if passes rows in
      let matched = sort lt kept in
      let p = laws.permutes lt kept order in
      let n = normalize_page page in
      let size = normalize_page_size page_size in
      (
        omega (arith, length-page_slice matched n size, normalize_page_size_bounds page_size),
        page_slice-All (λ x. passes x ≡ true) matched n size
            (Permᴰ-All (λ x. passes x ≡ true) p (keep_if-All rows)),
        page_slice-InOrder matched n size (laws.sorts lt kept order),
        sym (length-Permᴰ p),
      )
