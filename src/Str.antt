-- ===== src/Str.antt =====
-- std::string as the list of its bytes, with the operations that the services make on text:
-- empty(), ==, <, find() != npos, tolower byte by byte, and printing a number.
pub mod Decimal
use Prim.Native.Char.{code}
use Prim.Native.String.{String}
use device_ops.Prelude.{
  ℕ, ℤ, pos, negsuc, ◌≡◌, refl, ◌↔◌, Bool, true, false, ◌&&◌, ◌||◌, List, [], ◌∷◌, ◌++◌, map, zero,
  suc, ◌+◌, ◌/◌, ◌%◌, if◌then◌else◌, arith, ltb, ◌==◌,
}

abbrev pub Str : Type 0
Str = List ℕ

-- A string literal of the source.
abbrev pub lit : String → Str
lit String.[] = []
lit (String.◌∷◌ c s) = code c ∷ lit s

abbrev pub is_empty : Str → Bool
is_empty [] = true
is_empty (c ∷ s) = false

unfoldable pub str_eq : Str → Str → Bool
str_eq [] [] = true
str_eq [] (d ∷ t) = false
str_eq (c ∷ s) [] = false
str_eq (c ∷ s) (d ∷ t) = c == d && str_eq s t

-- std::less, the order of the keys of a std::map.
unfoldable pub str_lt : Str → Str → Bool
str_lt s [] = false
str_lt [] (d ∷ t) = true
str_lt (c ∷ s) (d ∷ t) = ltb c d || (c == d && str_lt s t)

is_prefix : Str → Str → Bool
is_prefix [] s = true
is_prefix (c ∷ p) [] = false
is_prefix (c ∷ p) (d ∷ s) = c == d && is_prefix p s

-- `value.find(keyword) != std::string::npos`.
unfoldable pub finds : Str → Str → Bool
unfolding is_prefix
finds [] k = is_prefix k []
finds (c ∷ s) k = is_prefix k (c ∷ s) || finds s k

-- std::tolower in the C locale, on one byte and on each byte of a text.
abbrev pub lower : ℕ → ℕ
lower ch = if ltb 64 ch && ltb ch 91 then ch + 32 else ch

abbrev pub lower_string : Str → Str
lower_string value = map lower value

pub str_eq_iff : (s t : Str) → (str_eq s t ≡ true) ↔ (s ≡ t)
unfolding str_eq
str_eq_iff [] [] = (λ _. refl, λ _. refl)
str_eq_iff [] (d ∷ t) = (λ h. cc, λ h. cc)
str_eq_iff (c ∷ s) [] = (λ h. cc, λ h. cc)
str_eq_iff (c ∷ s) (d ∷ t) = ground (arith, str_eq_iff s t)

pub str_eq_refl : (s : Str) → str_eq s s ≡ true
str_eq_refl s = (str_eq_iff s s).1 refl

-- std::to_string of an unsigned number: its decimal digits, the last `fuel` of them.
decimal_digits : ℕ → ℕ → Str
decimal_digits zero n = []
decimal_digits (suc fuel) n =
    let rest = decimal_digits fuel (n / 10) in
    if ltb n 10 then (n + 48) ∷ [] else rest ++ (n % 10 + 48) ∷ []

-- A number below 2 ^ 64 has twenty digits at most.
unfoldable pub decimal : ℕ → Str
unfolding decimal_digits
decimal n = decimal_digits 20 n

-- The same of a signed number.
unfoldable pub signed_decimal : ℤ → Str
signed_decimal (pos n) = decimal n
signed_decimal (negsuc n) = b'-' ∷ decimal (suc n)
