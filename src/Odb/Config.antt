-- ===== src/Odb/Config.antt =====
-- common/src/odb_database.cc: the configuration of the database, and quoteIdentifier.
use device_ops.Prelude.{
  ℕ, ℤ, pos, ◌≤◌, ◌≡◌, refl, ◌⊎◌, Bool, true, false, ◌&&◌, ◌||◌, not, [], ◌∷◌, ◌++◌, All, ltb, ◌==◌,
  if◌then◌else◌, arith, Bool-cases, inl, inr,
}
use device_ops.Str.{Str, lit, is_empty}
use device_ops.Odb.Transaction.{Outcome, returned, thrown}
use device_ops.Env.{Env, getenv_or_default, getenv_int_or_default}

pub record OdbConfig : Type 0 where
  pub host : Str
  pub port : ℤ
  pub user : Str
  pub password : Str
  pub database : Str

abbrev pub default_config : OdbConfig
default_config = record {
  host = lit "mysql-service";
  port = pos 3306;
  user = lit "root";
  password = lit "123456";
  database = lit "deviceops";
}

unfoldable pub load_odb_config_from_env : Env → OdbConfig
load_odb_config_from_env env = record {
  host = getenv_or_default env (lit "DEVICEOPS_MYSQL_HOST") default_config.host;
  port = getenv_int_or_default env (lit "DEVICEOPS_MYSQL_PORT") default_config.port;
  user = getenv_or_default env (lit "DEVICEOPS_MYSQL_USER") default_config.user;
  password = getenv_or_default env (lit "DEVICEOPS_MYSQL_PASSWORD") default_config.password;
  database = getenv_or_default env (lit "DEVICEOPS_MYSQL_DATABASE") default_config.database;
}

-- The tests of quoteIdentifier on one byte.
abbrev pub valid : ℕ → Bool
valid ch =
    (not (ltb ch b'a') && not (ltb b'z' ch))
    || (not (ltb ch b'A') && not (ltb b'Z' ch))
    || (not (ltb ch b'0') && not (ltb b'9' ch))
    || ch == b'_'

unfoldable all_valid : Str → Bool
all_valid [] = true
all_valid (ch ∷ s) = valid ch && all_valid s

unfoldable pub quote_identifier : Str → Outcome Str
unfolding all_valid
quote_identifier identifier =
    if is_empty identifier
    then thrown (lit "empty MySQL identifier")
    else if all_valid identifier
    then returned (lit "`" ++ (identifier ++ lit "`"))
    else thrown (lit "invalid MySQL identifier: " ++ identifier)

-- What the source calls valid, as ranges.
abbrev pub IsWord : ℕ → Type 0
IsWord ch =
    ((b'a' ≤ ch) × (ch ≤ b'z'))
    ⊎ ((b'A' ≤ ch) × (ch ≤ b'Z'))
    ⊎ ((b'0' ≤ ch) × (ch ≤ b'9'))
    ⊎ (ch ≡ b'_')

valid-IsWord : (ch : ℕ) → valid ch ≡ true → IsWord ch
valid-IsWord ch h = ground arith

IsWord-valid : (ch : ℕ) → IsWord ch → valid ch ≡ true
IsWord-valid ch h = ground arith

all_valid-All : (s : Str) → all_valid s ≡ true → All IsWord s
unfolding all_valid
all_valid-All [] h = tt
all_valid-All (ch ∷ s) h = (valid-IsWord ch (ground arith), all_valid-All s (ground arith))

All-all_valid : (s : Str) → All IsWord s → all_valid s ≡ true
unfolding all_valid
All-all_valid [] h = refl
All-all_valid (ch ∷ s) h = rw (IsWord-valid ch h.0) (All-all_valid s h.1)

-- quoteIdentifier returns exactly for a text that is not empty and has only letters, digits and
-- underscores; what it returns is then that text between two backquotes, so that no backquote within
-- ends the identifier early. Otherwise it throws.
pub quote_identifier_lem :
    (identifier : Str)
    → ((is_empty identifier ≡ false)
        × All IsWord identifier
        × (quote_identifier identifier ≡ returned (b'`' ∷ identifier ++ b'`' ∷ []))
        × All (λ ch. ¬ (ch ≡ b'`')) identifier)
      ⊎ (¬ ((is_empty identifier ≡ false) × All IsWord identifier)
          × ((e : Str) × (quote_identifier identifier ≡ thrown e)))
unfolding quote_identifier
quote_identifier_lem [] = inr (λ h. cc, (lit "empty MySQL identifier", refl))
quote_identifier_lem (ch ∷ s) = elim (Bool-cases (all_valid (ch ∷ s))) [
  | inl ok ↦
      let words = all_valid-All (ch ∷ s) ok in
      inl (refl, words, rw ok refl, no_backquote (ch ∷ s) words)
  | inr bad ↦ inr (
    λ h. ground (arith, All-all_valid (ch ∷ s) h.1),
    (lit "invalid MySQL identifier: " ++ (ch ∷ s), rw bad refl),
  )
]
  where
    not_backquote : (c : ℕ) → IsWord c → ¬ (c ≡ b'`')
    not_backquote c h e = ground arith

    no_backquote : (t : Str) → All IsWord t → All (λ c. ¬ (c ≡ b'`')) t
    no_backquote [] h = tt
    no_backquote (c ∷ t) h = (not_backquote c h.0, no_backquote t h.1)
