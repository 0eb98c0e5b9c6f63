-- ===== src/Env.antt =====
-- getenvOrDefault and getenvIntOrDefault, the anonymous helpers that the clients, the configurations
-- and the simulator have each: common/src/odb_database.cc, rag_client.cc of the knowledge service,
-- diagnosis_rag_client.cc, robot_device_simulator.cc. The environment is a parameter; std::stoi is
-- written out.
mod Tests
use device_ops.Prelude.{
  ℕ, zero, suc, ◌+◌, ◌-◌, ◌*◌, ◌^◌, ◌≤◌, ◌<◌, ltb, leb, ◌==◌, ℤ, pos, negsuc, ◌≡◌, refl, Bool, true,
  false, ◌&&◌, ◌||◌, Option, none, some, Option-cases, inl, inr, [], ◌∷◌, if◌then◌else◌, arith,
}
use device_ops.Str.{Str, is_empty, str_eq}
use mathlib.Core.List.{List}

-- std::getenv.
abbrev pub Env : Type 0
Env = Str → Option Str

unfoldable pub getenv_or_default : Env → Str → Str → Str
getenv_or_default env name fallback = elim (env name) [
  | none ↦ fallback
  | some value ↦ if is_empty value then fallback else value
]

abbrev is_space : ℕ → Bool
is_space c = c == 32 || (ltb 8 c && ltb c 14)

abbrev is_digit : ℕ → Bool
is_digit c = ltb 47 c && ltb c 58

unfoldable pub skip_spaces : Str → Str
skip_spaces [] = []
skip_spaces (c ∷ s) = let rest = skip_spaces s in if is_space c then rest else c ∷ s

-- The number that the leading digits spell; none if there is no digit.
unfoldable pub read_digits : ℕ → Bool → Str → Option ℕ
read_digits value seen [] = if seen then some value else none
read_digits value seen (c ∷ s) =
    let rest = read_digits (value * 10 + (c - 48)) true s in
    if is_digit c then rest else if seen then some value else none

abbrev minus : ℕ → ℤ
minus zero = pos 0
minus (suc n) = negsuc n

-- An int, or out_of_range.
abbrev positive_int : Option ℕ → Option ℤ
positive_int none = none
positive_int (some n) = if ltb n (2 ^ 31) then some (pos n) else none

abbrev negative_int : Option ℕ → Option ℤ
negative_int none = none
negative_int (some n) = if leb n (2 ^ 31) then some (minus n) else none

unfoldable signed_int : Str → Option ℤ
signed_int [] = none
signed_int (c ∷ s) =
    if c == b'-'
    then negative_int (read_digits 0 false s)
    else if c == b'+'
    then positive_int (read_digits 0 false s)
    else positive_int (read_digits 0 false (c ∷ s))

-- std::stoi: none where it throws.
unfoldable pub stoi : Str → Option ℤ
unfolding skip_spaces signed_int
stoi text = signed_int (skip_spaces text)

unfoldable pub getenv_int_or_default : Env → Str → ℤ → ℤ
getenv_int_or_default env name fallback = elim (env name) [
  | none ↦ fallback
  | some value ↦
      if is_empty value then fallback else elim (stoi value) [ none ↦ fallback | some n ↦ n ]
]

any_eq : Str → List Str → Bool
any_eq value [] = false
any_eq value (word ∷ words) = str_eq value word || any_eq value words

-- getenvBoolOrDefault: each file that has it accepts words of its own.
unfoldable pub getenv_bool_or_default : Env → Str → List Str → Bool → Bool
unfolding any_eq
getenv_bool_or_default env name accepted fallback = elim (env name) [
  | none ↦ fallback
  | some value ↦ if is_empty value then fallback else any_eq value accepted
]

-- The range of an int.
abbrev pub IsInt : ℤ → Type 0
IsInt (pos n) = n < 2 ^ 31
IsInt (negsuc n) = n < 2 ^ 31

positive_int-IsInt : (x : Option ℕ) (n : ℤ) → positive_int x ≡ some n → IsInt n
positive_int-IsInt none n h = cc
positive_int-IsInt (some m) (pos n) h = ground arith
positive_int-IsInt (some m) (negsuc n) h = ground arith

negative_int-IsInt : (x : Option ℕ) (n : ℤ) → negative_int x ≡ some n → IsInt n
negative_int-IsInt none n h = cc
negative_int-IsInt (some zero) (pos n) h = ground arith
negative_int-IsInt (some zero) (negsuc n) h = ground arith
negative_int-IsInt (some (suc m)) (pos n) h = ground arith
negative_int-IsInt (some (suc m)) (negsuc n) h = ground arith

signed_int-IsInt : (text : Str) (n : ℤ) → signed_int text ≡ some n → IsInt n
unfolding signed_int
signed_int-IsInt [] n h = cc
signed_int-IsInt (c ∷ s) n h = pick (c == b'-') (c == b'+') h
  where
    pick :
        (minus_sign plus_sign : Bool)
        → (if minus_sign
            then negative_int (read_digits 0 false s)
            else if plus_sign
            then positive_int (read_digits 0 false s)
            else positive_int (read_digits 0 false (c ∷ s)))
          ≡ some n
        → IsInt n
    pick true q h = negative_int-IsInt (read_digits 0 false s) n h
    pick false true h = positive_int-IsInt (read_digits 0 false s) n h
    pick false false h = positive_int-IsInt (read_digits 0 false (c ∷ s)) n h

stoi-IsInt : (text : Str) (n : ℤ) → stoi text ≡ some n → IsInt n
unfolding stoi
stoi-IsInt text n h = signed_int-IsInt (skip_spaces text) n h

-- Whatever text the environment holds, a setting that is read as a number is an int, if its default
-- is.
pub getenv_int_or_default-IsInt :
    (env : Env) (name : Str) (fallback : ℤ)
    → IsInt fallback
    → IsInt (getenv_int_or_default env name fallback)
unfolding getenv_int_or_default
getenv_int_or_default-IsInt env name fallback h =
    elim (env name)
      as (λ held. IsInt (elim held [
        | none ↦ fallback
        | some value ↦
            if is_empty value then fallback else elim (stoi value) [ none ↦ fallback | some n ↦ n ]
      ])) [ none ↦ h | some value ↦ read (is_empty value) (stoi value) (stoi-IsInt value) ]
  where
    read :
        (unset : Bool) (number : Option ℤ)
        → ((n : ℤ) → number ≡ some n → IsInt n)
        → IsInt (if unset then fallback else elim number [ none ↦ fallback | some n ↦ n ])
    read true number k = h
    read false none k = h
    read false (some n) k = k n refl
