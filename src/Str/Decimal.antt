-- ===== src/Str/Decimal.antt =====
-- Printed numbers can be read back, and an id that ends in a printed sequence number determines it.
use native.Mathlib.Nat.{pow-suc}
use device_ops.Prelude.{
  ℕ, zero, suc, ◌+◌, ◌-◌, ◌*◌, ◌/◌, ◌%◌, ◌^◌, ◌<◌, ◌≡◌, refl, sym, ap, subst, ◌∙◌, false, [], ◌∷◌,
  ◌++◌, ◌==◌, ltb, Bool-cases, inl, inr, arith,
}
use device_ops.Str.{Str, decimal, decimal_digits}

abbrev read_from : ℕ → Str → ℕ
read_from acc [] = acc
read_from acc (c ∷ s) = read_from (acc * 10 + (c - 48)) s

read_from-append : (acc : ℕ) (s t : Str) → read_from acc (s ++ t) ≡ read_from (read_from acc s) t
read_from-append acc [] t = refl
read_from-append acc (c ∷ s) t = read_from-append (acc * 10 + (c - 48)) s t

-- Digits, and so no dash.
abbrev IsDigits : Str → Type 0
IsDigits [] = Unit {0}
IsDigits (c ∷ s) = ((c == b'-') ≡ false) × IsDigits s

IsDigits-append : (s t : Str) → IsDigits s → IsDigits t → IsDigits (s ++ t)
IsDigits-append [] t p q = q
IsDigits-append (c ∷ s) t p q = (p.0, IsDigits-append s t p.1 q)

decimal_digits-IsDigits : (fuel n : ℕ) → IsDigits (decimal_digits fuel n)
unfolding decimal_digits
decimal_digits-IsDigits zero n = tt
decimal_digits-IsDigits (suc fuel) n = elim (Bool-cases (ltb n 10)) [
  | inl small ↦ rw small (ground arith, tt)
  | inr large ↦ rw large (
      IsDigits-append (decimal_digits fuel (n / 10)) _ (decimal_digits-IsDigits fuel (n / 10))
        (ground arith, tt))
]

read_from-decimal_digits : (fuel n : ℕ) → n < 10 ^ fuel → read_from 0 (decimal_digits fuel n) ≡ n
unfolding decimal_digits
read_from-decimal_digits zero n h = omega arith
read_from-decimal_digits (suc fuel) n h = elim (Bool-cases (ltb n 10)) [
  | inl small ↦ rw small (omega arith)
  | inr large ↦ rw large (
      read_from-append 0 (decimal_digits fuel (n / 10)) ((n % 10 + 48) ∷ [])
      ∙ ap (λ (k : ℕ). k * 10 + (n % 10 + 48 - 48))
          (read_from-decimal_digits fuel (n / 10) (omega (arith, pow-suc 10 fuel)))
      ∙ omega arith)
]

decimal-IsDigits : (n : ℕ) → IsDigits (decimal n)
unfolding decimal
decimal-IsDigits n = decimal_digits-IsDigits 20 n

read_from-decimal : (n : ℕ) → n < 2 ^ 64 → read_from 0 (decimal n) ≡ n
unfolding decimal
read_from-decimal n h = read_from-decimal_digits 20 n (omega arith)

no_dash_inside : (t e : Str) → IsDigits (t ++ b'-' ∷ e) → ⊥
no_dash_inside [] e p = cc (p.0)
no_dash_inside (c ∷ t) e p = no_dash_inside t e p.1

after_dash : (s t d e : Str) → IsDigits d → IsDigits e → s ++ b'-' ∷ d ≡ t ++ b'-' ∷ e → d ≡ e
after_dash [] [] d e p q h = cc
after_dash [] (c ∷ t) d e p q h =
    let tail : d ≡ t ++ b'-' ∷ e = cc in absurd (no_dash_inside t e (subst IsDigits tail p))
after_dash (c ∷ s) [] d e p q h =
    let tail : e ≡ s ++ b'-' ∷ d = cc in absurd (no_dash_inside s d (subst IsDigits tail q))
after_dash (c ∷ s) (b ∷ t) d e p q h =
    let tail : s ++ b'-' ∷ d ≡ t ++ b'-' ∷ e = cc in after_dash s t d e p q tail

-- Two ids made of any text, a dash and a printed sequence number below 2 ^ 64 are the same only if
-- the sequence numbers are.
pub dashed_sequence-injective :
    (s t : Str) (m n : ℕ)
    → m < 2 ^ 64
    → n < 2 ^ 64
    → s ++ b'-' ∷ decimal m ≡ t ++ b'-' ∷ decimal n
    → m ≡ n
dashed_sequence-injective s t m n hm hn h =
    let same : decimal m ≡ decimal n =
      after_dash s t (decimal m) (decimal n) (decimal-IsDigits m) (decimal-IsDigits n) h in
    sym (read_from-decimal m hm) ∙ ap (read_from 0) same ∙ read_from-decimal n hn
