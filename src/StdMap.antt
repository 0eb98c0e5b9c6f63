-- ===== src/StdMap.antt =====
-- std::map<std::string, V> as the list of its entries in key order: find, operator[] and iteration.
use device_ops.Prelude.{
  ◌≡◌, ◌∙◌, ap, refl, Bool, true, false, Option, none, some, List, [], ◌∷◌, if◌then◌else◌, arith,
}
use device_ops.Str.{Str, str_eq, str_lt, str_eq_iff}

abbrev pub StdMap {ℓ} : Type ℓ → Type ℓ
StdMap V = List (Str × V)

pub str_lt_trans : (s t u : Str) → str_lt s t ≡ true → str_lt t u ≡ true → str_lt s u ≡ true
unfolding str_lt
str_lt_trans s t [] h k = cc
str_lt_trans s [] (f ∷ u) h k = cc
str_lt_trans [] (d ∷ t) (f ∷ u) h k = refl
str_lt_trans (c ∷ s) (d ∷ t) (f ∷ u) h k = ground (arith, str_lt_trans s t u)

pub str_lt_total : (s t : Str) → str_eq s t ≡ false → str_lt s t ≡ false → str_lt t s ≡ true
unfolding str_lt str_eq
str_lt_total [] [] h k = cc
str_lt_total [] (d ∷ t) h k = cc
str_lt_total (c ∷ s) [] h k = refl
str_lt_total (c ∷ s) (d ∷ t) h k = ground (arith, str_lt_total s t)

module _ {ℓ} {V : Type ℓ} where
  unfoldable pub lookup : Str → StdMap V → Option V
  lookup k [] = none
  lookup k ((j, v) ∷ m) = if str_eq j k then some v else lookup k m

  -- m[k] = v
  unfoldable pub assign : Str → V → StdMap V → StdMap V
  assign k v [] = (k, v) ∷ []
  assign k v ((j, w) ∷ m) =
      let rest = assign k v m in
      if str_eq j k then (k, v) ∷ m else if str_lt k j then (k, v) ∷ (j, w) ∷ m else (j, w) ∷ rest

  -- The value that m[k] refers to: a fresh `d` if there was none.
  abbrev pub index_or : V → Str → StdMap V → V
  index_or d k m = elim (lookup k m) [ none ↦ d | some v ↦ v ]

  pub lookup-assign :
      (k j : Str) (v : V) (m : StdMap V)
      → lookup j (assign k v m) ≡ (if str_eq k j then some v else lookup j m)
  unfolding lookup assign
  lookup-assign k j v [] = refl
  lookup-assign k j v ((i, w) ∷ m) =
      ground (arith, lookup-assign k j v m, str_eq_iff i k, str_eq_iff i j, str_eq_iff k j)

  pub index_or-assign :
      (d : V) (k j : Str) (v : V) (m : StdMap V)
      → index_or d j (assign k v m) ≡ (if str_eq k j then v else index_or d j m)
  index_or-assign d k j v m =
      ap (λ (o : Option V). elim o [ none ↦ d | some w ↦ w ]) (lookup-assign k j v m)
      ∙ either (str_eq k j)
    where
      either :
          (b : Bool)
          → (elim (if b then some v else lookup j m) [ none ↦ d | some w ↦ w ])
            ≡ (if b then v else index_or d j m)
      either true = refl
      either false = refl

  -- Every key comes after `k`, and the keys rise.
  abbrev pub RisesFrom : Str → StdMap V → Type 0
  RisesFrom k [] = Unit {0}
  RisesFrom k ((j, v) ∷ m) = (str_lt k j ≡ true) × RisesFrom j m

  abbrev pub IsSorted : StdMap V → Type 0
  IsSorted [] = Unit {0}
  IsSorted ((j, v) ∷ m) = RisesFrom j m

  assign-RisesFrom :
      (i k : Str) (v : V) (m : StdMap V)
      → str_lt i k ≡ true
      → RisesFrom i m
      → RisesFrom i (assign k v m)
  unfolding assign
  assign-RisesFrom i k v [] h r = (h, tt)
  assign-RisesFrom i k v ((j, w) ∷ m) h r =
      ground (arith, str_eq_iff j k, str_lt_total k j, str_eq_iff k j, assign-RisesFrom j k v m)

  pub assign-IsSorted : (k : Str) (v : V) (m : StdMap V) → IsSorted m → IsSorted (assign k v m)
  unfolding assign
  assign-IsSorted k v [] s = tt
  assign-IsSorted k v ((j, w) ∷ m) s =
      ground (arith, str_eq_iff j k, str_lt_total k j, str_eq_iff k j, assign-RisesFrom j k v m)
