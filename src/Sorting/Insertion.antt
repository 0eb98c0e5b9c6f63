-- ===== src/Sorting/Insertion.antt =====
-- A sort that meets `IsSort`: by insertion.
use mathlib.Core.List.{Permᴰ}
use mathlib.Core.List.Permᴰ
use device_ops.Prelude.{
  ◌≡◌, refl, Bool, true, false, Bool-cases, inl, inr, List, [], ◌∷◌, if◌then◌else◌,
}
use device_ops.Sorting.{InOrder, IsSort}

module _ {A : Type 0} (lt : A → A → Bool) where
  insert_sorted : A → List A → List A
  insert_sorted x [] = x ∷ []
  insert_sorted x (y ∷ ys) =
      let rest = insert_sorted x ys in if lt y x then y ∷ rest else x ∷ y ∷ ys

  unfoldable pub insertion_sort : List A → List A
  unfolding insert_sorted
  insertion_sort [] = []
  insertion_sort (x ∷ xs) = insert_sorted x (insertion_sort xs)

  insert_sorted-Permᴰ : (x : A) (xs : List A) → Permᴰ (x ∷ xs) (insert_sorted x xs)
  unfolding insert_sorted
  insert_sorted-Permᴰ x [] = Permᴰ.refl _
  insert_sorted-Permᴰ x (y ∷ ys) = elim (Bool-cases (lt y x)) [
    | inl h ↦ rw h (Permᴰ.trans (Permᴰ.swap refl refl) (Permᴰ.cons refl (insert_sorted-Permᴰ x ys)))
    | inr h ↦ rw h (Permᴰ.refl _)
  ]

  insertion_sort-Permᴰ : (xs : List A) → Permᴰ xs (insertion_sort xs)
  unfolding insertion_sort
  insertion_sort-Permᴰ [] = Permᴰ.nil
  insertion_sort-Permᴰ (x ∷ xs) =
      Permᴰ.trans (Permᴰ.cons refl (insertion_sort-Permᴰ xs))
        (insert_sorted-Permᴰ x (insertion_sort xs))

  -- An element that stands before `x` and before `ys` stands before what they make.
  insert_sorted-InOrder :
      (y x : A) (ys : List A)
      → lt x y ≡ false
      → ((x y : A) → lt x y ≡ true → lt y x ≡ false)
      → InOrder lt (y ∷ ys)
      → InOrder lt (y ∷ insert_sorted x ys)
  unfolding insert_sorted
  insert_sorted-InOrder y x [] h asym s = (h, tt)
  insert_sorted-InOrder y x (z ∷ zs) h asym s = elim (Bool-cases (lt z x)) [
    | inl b ↦ rw b (s.0, insert_sorted-InOrder z x zs (asym z x b) asym s.1)
    | inr b ↦ rw b (h, (b, s.1))
  ]

  first-InOrder :
      (x : A) (ys : List A)
      → ((x y : A) → lt x y ≡ true → lt y x ≡ false)
      → InOrder lt ys
      → InOrder lt (insert_sorted x ys)
  unfolding insert_sorted
  first-InOrder x [] asym s = tt
  first-InOrder x (y ∷ ys) asym s = elim (Bool-cases (lt y x)) [
    | inl b ↦ rw b (insert_sorted-InOrder y x ys (asym y x b) asym s)
    | inr b ↦ rw b (b, s)
  ]

  insertion_sort-InOrder :
      (xs : List A) → ((x y : A) → lt x y ≡ true → lt y x ≡ false) → InOrder lt (insertion_sort xs)
  unfolding insertion_sort
  insertion_sort-InOrder [] asym = tt
  insertion_sort-InOrder (x ∷ xs) asym = first-InOrder x _ asym (insertion_sort-InOrder xs asym)

pub insertion_sort-IsSort : {A : Type 0} → IsSort {A = A} insertion_sort
insertion_sort-IsSort = record {
  permutes = λ lt xs o. insertion_sort-Permᴰ lt xs;
  sorts = λ lt xs o. insertion_sort-InOrder lt xs o.asym;
}
