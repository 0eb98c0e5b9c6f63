-- ===== src/Odb/Transaction.antt =====
-- A call that returns or throws, the session monad, and the transaction that each repository method
-- wraps its calls in: try { odb::transaction tx(db->begin()); …; tx.commit(); } catch (…).
use device_ops.Prelude.{Option, none, some, ◌≡◌, refl, ◌⊎◌, inl, inr, arith}
use device_ops.Str.{Str}

pub data Outcome {ℓ} (A : Type ℓ) : Type ℓ where
  returned : A → Outcome A
  thrown : Str → Outcome A

-- What a repository method hands back: `true` with its out-parameter, or `false` with the error.
pub data Reply {ℓ} (A : Type ℓ) : Type ℓ where
  accepted : A → Reply A
  rejected : Str → Reply A

abbrev pub Session : Type 0 → Type 0 → Type 0
Session DB A = DB → Outcome (A × DB)

infixl 5 ◌>>=◌
abbrev pub ◌>>=◌ : {DB A B : Type 0} → Session DB A → (A → Session DB B) → Session DB B
◌>>=◌ m f db = elim (m db) [ thrown e ↦ thrown e | returned (a, db') ↦ f a db' ]

abbrev pub pure : {DB A : Type 0} → A → Session DB A
pure a db = returned (a, db)

-- A call that only reads.
abbrev pub reads : {DB A : Type 0} → (DB → Outcome A) → Session DB A
reads m db = elim (m db) [ thrown e ↦ thrown e | returned a ↦ returned (a, db) ]

-- A call that only writes, with what the method hands back when it returns.
abbrev pub writes : {DB A : Type 0} → A → (DB → Outcome DB) → Session DB A
writes a m db = elim (m db) [ thrown e ↦ thrown e | returned db' ↦ returned (a, db') ]

-- An exception, also one of begin() or commit(), rolls the transaction back.
unfoldable pub transaction :
    {DB A : Type 0} → (DB → Option Str) → (DB → Option Str) → Session DB A → Session DB A
transaction begin commit body db = elim (begin db) [
  | some e ↦ thrown e
  | none ↦ elim (body db) [
    | thrown e ↦ thrown e
    | returned (a, db') ↦ elim (commit db') [ some e ↦ thrown e | none ↦ returned (a, db') ]
  ]
]

-- catch (const odb::exception& e) { *error = e.what(); return false; }
unfoldable pub catching : {DB A : Type 0} → DB → Outcome (Reply A × DB) → Reply A × DB
catching db (thrown e) = (rejected e, db)
catching db (returned (r, db')) = (r, db')

-- Inversion of a transaction that returned.
pub transaction-eq-returned :
    {DB A : Type 0} (begin commit : DB → Option Str) (body : Session DB A) (db db' : DB) (a : A)
    → transaction begin commit body db ≡ returned (a, db')
    → body db ≡ returned (a, db')
unfolding transaction
transaction-eq-returned begin commit body db db' a h = ground arith

pub Outcome-cases {ℓ} :
    {A : Type ℓ} (x : Outcome A) → ((e : Str) × (x ≡ thrown e)) ⊎ ((a : A) × (x ≡ returned a))
Outcome-cases (returned a) = inr (a, refl)
Outcome-cases (thrown e) = inl (e, refl)

pub Reply-cases {ℓ} :
    {A : Type ℓ} (x : Reply A) → ((a : A) × (x ≡ accepted a)) ⊎ ((e : Str) × (x ≡ rejected e))
Reply-cases (accepted a) = inl (a, refl)
Reply-cases (rejected e) = inr (e, refl)
