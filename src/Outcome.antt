-- ===== src/Outcome.antt =====
-- The calls of a function one after the other, up to the first that throws.
use device_ops.Odb.Transaction.{Outcome, returned, thrown}

infixl 5 ◌>>=◌
abbrev pub ◌>>=◌ : {A B : Type 0} → Outcome A → (A → Outcome B) → Outcome B
returned a >>= f = f a
thrown e >>= f = thrown e
