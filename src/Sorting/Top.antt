-- ===== src/Sorting/Top.antt =====
-- The first places of a sorted range: what is cut off is wanted before nothing that is kept.
use device_ops.Prelude.{
  ℕ, zero, suc, ◌≡◌, refl, ap, Bool, false, Bool-cases, inl, inr, List, [], ◌∷◌, ◌++◌, All, take,
  drop, arith,
}
use device_ops.Sorting.{InOrder, IsOrder}

module _ {A : Type 0} where
  pub take-append-drop : (n : ℕ) (xs : List A) → take n xs ++ drop n xs ≡ xs
  take-append-drop zero xs = refl
  take-append-drop (suc n) [] = refl
  take-append-drop (suc n) (x ∷ xs) = ap (◌∷◌ x) (take-append-drop n xs)

  module _ (lt : A → A → Bool) (o : IsOrder lt) where
    -- Nothing of a list is wanted before `x`.
    abbrev pub IsFirst : A → List A → Type 0
    IsFirst x ys = All (λ y. lt y x ≡ false) ys

    not_before : (x y z : A) → lt y x ≡ false → lt z y ≡ false → lt z x ≡ false
    not_before x y z h k = elim (Bool-cases (lt z x)) [
      | inl e ↦ ground (arith, o.cotrans z y x e)
      | inr e ↦ e
    ]

    InOrder-IsFirst : (x : A) (xs : List A) → InOrder lt (x ∷ xs) → IsFirst x xs
    InOrder-IsFirst x [] s = tt
    InOrder-IsFirst x (y ∷ ys) s = (s.0, InOrder-IsFirst x ys (skip x y ys s))
      where
        skip : (x y : A) (ys : List A) → InOrder lt (x ∷ y ∷ ys) → InOrder lt (x ∷ ys)
        skip x y [] s = tt
        skip x y (z ∷ zs) s = (not_before x y z s.0 s.1.0, s.1.1)

    InOrder-tail : (x : A) (xs : List A) → InOrder lt (x ∷ xs) → InOrder lt xs
    InOrder-tail x [] s = tt
    InOrder-tail x (y ∷ ys) s = s.1

    IsFirst-drop : (n : ℕ) (x : A) (xs : List A) → IsFirst x xs → IsFirst x (drop n xs)
    IsFirst-drop zero x xs h = h
    IsFirst-drop (suc n) x [] h = tt
    IsFirst-drop (suc n) x (y ∷ ys) h = IsFirst-drop n x ys h.1

    pub take-IsFirst :
        (n : ℕ) (xs : List A) → InOrder lt xs → All (λ x. IsFirst x (drop n xs)) (take n xs)
    take-IsFirst zero xs s = tt
    take-IsFirst (suc n) [] s = tt
    take-IsFirst (suc n) (x ∷ xs) s =
        (IsFirst-drop n x xs (InOrder-IsFirst x xs s), take-IsFirst n xs (InOrder-tail x xs s))

  pub take-InOrder :
      (lt : A → A → Bool) (n : ℕ) (xs : List A) → InOrder lt xs → InOrder lt (take n xs)
  take-InOrder lt zero xs s = tt
  take-InOrder lt (suc n) [] s = tt
  take-InOrder lt (suc zero) (x ∷ xs) s = one x xs
    where
      one : (x : A) (xs : List A) → InOrder lt (take 1 (x ∷ xs))
      one x xs = tt
  take-InOrder lt (suc (suc n)) (x ∷ []) s = tt
  take-InOrder lt (suc (suc n)) (x ∷ y ∷ ys) s = (s.0, take-InOrder lt (suc n) (y ∷ ys) s.1)
