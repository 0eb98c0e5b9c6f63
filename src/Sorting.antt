-- ===== src/Sorting.antt =====
-- std::sort, which the services call on what they have matched: a parameter, with its documented
-- behaviour, and the comparisons by a time that they give it.
pub mod Insertion
pub mod Top
pub mod Page
use mathlib.Core.List.{Permᴰ}
use device_ops.Prelude.{
  ℕ, suc, ℤ, ltb_ℤ, ◌≡◌, refl, ap, subst, ◌∙◌, Bool, true, false, ◌||◌, List, [], ◌∷◌, All, length,
  arith,
}

-- std::sort by a comparison.
abbrev pub Sort : Type 0 → Type 0
Sort A = (A → A → Bool) → List A → List A

module _ {A : Type 0} where
  -- In no place does `lt` want an element before its predecessor.
  abbrev pub InOrder : (A → A → Bool) → List A → Type 0
  InOrder lt [] = Unit {0}
  InOrder lt (x ∷ []) = Unit {0}
  InOrder lt (x ∷ y ∷ xs) = (lt y x ≡ false) × InOrder lt (y ∷ xs)

  -- A strict weak ordering, which std::sort asks for.
  pub record IsOrder (lt : A → A → Bool) : Type 0 where
    pub asym : (x y : A) → lt x y ≡ true → lt y x ≡ false
    pub cotrans : (x y z : A) → lt x z ≡ true → (lt x y || lt y z) ≡ true

  -- std::sort permutes the range into the order of the comparison.
  pub record IsSort (sort : Sort A) : Type 0 where
    pub permutes : (lt : A → A → Bool) (xs : List A) → IsOrder lt → Permᴰ xs (sort lt xs)
    pub sorts : (lt : A → A → Bool) (xs : List A) → IsOrder lt → InOrder lt (sort lt xs)

  pub length-Permᴰ : {xs ys : List A} → Permᴰ xs ys → length xs ≡ length ys
  length-Permᴰ Permᴰ.nil = refl
  length-Permᴰ (Permᴰ.cons e p) = ap suc (length-Permᴰ p)
  length-Permᴰ (Permᴰ.swap e f) = refl
  length-Permᴰ (Permᴰ.trans p q) = length-Permᴰ p ∙ length-Permᴰ q

  pub Permᴰ-All : (P : A → Type 0) {xs ys : List A} → Permᴰ xs ys → All P xs → All P ys
  Permᴰ-All P Permᴰ.nil h = tt
  Permᴰ-All P (Permᴰ.cons e p) h = (subst P e h.0, Permᴰ-All P p h.1)
  Permᴰ-All P (Permᴰ.swap e f) h = (subst P f h.1.0, (subst P e h.0, h.1.1))
  Permᴰ-All P (Permᴰ.trans p q) h = Permᴰ-All P q (Permᴰ-All P p h)

ltb_ℤ-asym : (a b : ℤ) → ltb_ℤ a b ≡ true → ltb_ℤ b a ≡ false
ltb_ℤ-asym a b h = ground arith

ltb_ℤ-cotrans : (a b c : ℤ) → ltb_ℤ a c ≡ true → (ltb_ℤ a b || ltb_ℤ b c) ≡ true
ltb_ℤ-cotrans a b c h = ground arith

or_turn : (a b : Bool) → (a || b) ≡ true → (b || a) ≡ true
or_turn a b h = ground arith

module _ {A : Type 0} (time : A → ℤ) where
  abbrev pub earlier_by : A → A → Bool
  earlier_by lhs rhs = ltb_ℤ (time lhs) (time rhs)

  abbrev pub later_by : A → A → Bool
  later_by lhs rhs = ltb_ℤ (time rhs) (time lhs)

  pub earlier_by-IsOrder : IsOrder earlier_by
  earlier_by-IsOrder = record {
    asym = λ x y. ltb_ℤ-asym (time x) (time y);
    cotrans = λ x y z. ltb_ℤ-cotrans (time x) (time y) (time z);
  }

  pub later_by-IsOrder : IsOrder later_by
  later_by-IsOrder = record {
    asym = λ x y. ltb_ℤ-asym (time y) (time x);
    cotrans = λ x y z h.
        or_turn (ltb_ℤ (time z) (time y)) (ltb_ℤ (time y) (time x))
          (ltb_ℤ-cotrans (time z) (time y) (time x) h);
  }
