-- ===== src/Odb/Calls/Laws.antt =====
-- What the shared transactions do to a table, by the documented behaviour of the session.
use device_ops.Prelude.{
  ℕ, ◌≡◌, sym, ap, subst, ◌∙◌, true, Bool, Option, none, some, inl, inr, if◌then◌else◌, arith,
}
use device_ops.Str.{Str}
use device_ops.Odb.{Odb, Column, IsOdb, Answers}
use device_ops.Odb.Transaction.{Outcome-cases, returned, accepted, rejected, transaction, catching}
use device_ops.Odb.Calls.{insert_row, get_row, change_row}

module _ {Row DB A : Type 0} (o : Odb Row DB) (to_proto : Row → A) where
  pub insert_row-rejected :
      (row : Row) (db db' : DB) (e : Str)
      → insert_row o to_proto row db ≡ (rejected e, db')
      → db' ≡ db
  unfolding insert_row transaction catching
  insert_row-rejected row db db' e h = ground arith

  pub change_row-rejected :
      (not_found key : Str) (change : Row → Row) (db db' : DB) (e : Str)
      → change_row o to_proto not_found change key db ≡ (rejected e, db')
      → db' ≡ db
  unfolding change_row transaction catching
  change_row-rejected not_found key change db db' e h = ground arith

  insert_row-eq-accepted :
      (row : Row) (db db' : DB) (r : A)
      → insert_row o to_proto row db ≡ (accepted r, db')
      → (row' : Row) × (o.persist row db ≡ returned (row', db')) × (r ≡ to_proto row')
  unfolding insert_row transaction catching
  insert_row-eq-accepted row db db' r h = elim (Outcome-cases (o.persist row db)) [
    | inl (e, p) ↦ absurd (ground arith)
    | inr ((row', db1), p) ↦ (row', ground arith, ground arith)
  ]

  change_row-eq-accepted :
      (not_found key : Str) (change : Row → Row) (db db' : DB) (r : A)
      → change_row o to_proto not_found change key db ≡ (accepted r, db')
      → (old : Row) × (o.query_one key db ≡ returned (some old))
        × (o.update (change old) db ≡ returned db')
        × (r ≡ to_proto (change old))
  unfolding change_row transaction catching
  change_row-eq-accepted not_found key change db db' r h =
      elim (Outcome-cases (o.query_one key db)) [
        | inl (e, p) ↦ absurd (ground arith)
        | inr (none, p) ↦ absurd (ground arith)
        | inr (some old, p) ↦ (old, ground arith, ground arith, ground arith)
      ]

  pub get_row_answered :
      (db : DB) (key : Str) (found : Option Row)
      → Answers o db key found
      → get_row o to_proto key db ≡ elim found [ none ↦ none | some row ↦ some (to_proto row) ]
  unfolding get_row transaction
  get_row_answered db key none a = ground (arith, a.begins, a.answers, a.commits)
  get_row_answered db key (some row) a = ground (arith, a.begins, a.answers, a.commits)

module _ {Row DB A : Type 0} (o : Odb Row DB) (c : Column Row) (find : DB → Str → Option Row)
    (laws : IsOdb o c find) (to_proto : Row → A) where
  -- A row that is inserted stands under its key, with the identity that the database chose.
  pub insert_row-accepted :
      (row : Row) (db db' : DB) (r : A)
      → insert_row o to_proto row db ≡ (accepted r, db')
      → (id : ℕ) × (r ≡ to_proto (c.with_ident id row))
        × ((k : Str)
            → find db' k ≡ (if c.same (c.key row) k then some (c.with_ident id row) else find db k))
  insert_row-accepted row db db' r h =
      let (row', persisted, reply) = insert_row-eq-accepted o to_proto row db db' r h in
      let is_new = laws.persist_ident row row' db db' persisted in
      (
        c.ident row',
        reply ∙ ap to_proto is_new,
        λ k.
            subst (λ x. find db' k ≡ (if c.same (c.key row) k then some x else find db k)) is_new
              (laws.persist_find row row' db db' k persisted),
      )

  -- A row that is changed had been found, and stands changed under its key, if the change keeps key
  -- and identity.
  pub change_row-accepted :
      (not_found key : Str) (change : Row → Row) (db db' : DB) (r : A)
      → ((row : Row) → c.key (change row) ≡ c.key row)
      → ((row : Row) → c.ident (change row) ≡ c.ident row)
      → change_row o to_proto not_found change key db ≡ (accepted r, db')
      → (old : Row) × (find db key ≡ some old)
        × (r ≡ to_proto (change old))
        × ((k : Str) → find db' k ≡ (if c.same key k then some (change old) else find db k))
  change_row-accepted not_found key change db db' r keeps_key keeps_ident h =
      let (old, found, updated, reply) =
        change_row-eq-accepted o to_proto not_found key change db db' r h in
      let is_old : find db key ≡ some old = sym (laws.query_one_find key db (some old) found) in
      let its_key : c.same (c.key (change old)) key ≡ true =
        ap (λ (s : Str). c.same s key) (keeps_key old) ∙ laws.find_key db key old is_old in
      let under_key : find db (c.key (change old)) ≡ some old =
        laws.find_same db (c.key (change old)) key its_key ∙ is_old in
      (
        old,
        is_old,
        reply,
        λ k.
            subst (λ (b : Bool). find db' k ≡ (if b then some (change old) else find db k))
              (laws.same_congr (c.key (change old)) key k its_key)
              (laws.update_find (change old) old db db' k under_key (sym (keeps_ident old))
                updated),
      )
