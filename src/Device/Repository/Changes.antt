-- ===== src/Device/Repository/Changes.antt =====
-- What create and update do to the device table, by the documented behaviour of the session.
use device_ops.Prelude.{
  ℕ, ℤ, ◌≡◌, refl, sym, ap, subst, ◌∙◌, Bool, true, Option, none, some, inl, inr, arith,
  if◌then◌else◌,
}
use device_ops.Str.{Str, is_empty}
use device_ops.Odb.{Odb, Column, IsOdb}
use device_ops.Odb.Transaction.{Outcome-cases, returned, accepted, rejected, transaction, catching}
use device_ops.Device.{
  DeviceEntity, DeviceRecord, to_record, CreateDeviceRequest, UpdateDeviceRequest, unspecified,
  status_eq, status_to_string,
}
use device_ops.Device.Repository.{new_entity, changed_entity, create, update}

-- The table's unique column, and its automatic identity.
abbrev pub device_column : (Str → Str → Bool) → Column DeviceEntity
device_column same = record {
  key = λ r. r.device_id;
  ident = λ r. r.id;
  with_ident = λ n r. record r { id = n };
  same = same;
}

-- What an update makes of a row, field by field.
abbrev pub HasChanges : UpdateDeviceRequest → ℤ → DeviceEntity → DeviceEntity → Type 0
HasChanges request now old row =
    (row.id ≡ old.id)
    × (row.device_id ≡ old.device_id)
    × (row.device_name
        ≡ (if is_empty request.device_name then old.device_name else request.device_name))
    × (row.device_type
        ≡ (if is_empty request.device_type then old.device_type else request.device_type))
    × (row.model ≡ (if is_empty request.model then old.model else some request.model))
    × (row.manufacturer
        ≡ (if is_empty request.manufacturer then old.manufacturer else some request.manufacturer))
    × (row.location ≡ (if is_empty request.location then old.location else some request.location))
    × (row.status ≡ (
        if status_eq request.status unspecified
        then old.status
        else status_to_string request.status))
    × (row.access_token_hash ≡ old.access_token_hash)
    × (row.protocol ≡ old.protocol)
    × (row.description
        ≡ (if is_empty request.description then old.description else some request.description))
    × (row.created_at ≡ old.created_at)
    × (row.updated_at ≡ now)

module _ {DB : Type 0} (o : Odb DeviceEntity DB) where
  -- A create that is refused, for whatever reason, changes nothing: also when the session threw
  -- half-way.
  pub create_rejected :
      (request : CreateDeviceRequest) (now : ℤ) (db db' : DB) (e : Str)
      → create o request now db ≡ (rejected e, db')
      → db' ≡ db
  unfolding create transaction catching
  create_rejected request now db db' e h = ground arith

  -- An update that is refused, for whatever reason, changes nothing: also when the session threw
  -- half-way.
  pub update_rejected :
      (request : UpdateDeviceRequest) (now : ℤ) (db db' : DB) (e : Str)
      → update o request now db ≡ (rejected e, db')
      → db' ≡ db
  unfolding update transaction catching
  update_rejected request now db db' e h = ground arith

  create-eq-accepted :
      (request : CreateDeviceRequest) (now : ℤ) (db db' : DB) (r : DeviceRecord)
      → create o request now db ≡ (accepted r, db')
      → (entity : DeviceEntity) × (o.query_one request.device_id db ≡ returned none)
        × (o.persist (new_entity request now) db ≡ returned (entity, db'))
        × (r ≡ to_record entity)
  unfolding create transaction catching
  create-eq-accepted request now db db' r h =
      elim (Outcome-cases (o.persist (new_entity request now) db)) [
        | inl (e, p) ↦ absurd (ground arith)
        | inr ((entity, db1), p) ↦ (entity, ground arith, ground arith, ground arith)
      ]

  update-eq-accepted :
      (request : UpdateDeviceRequest) (now : ℤ) (db db' : DB) (r : DeviceRecord)
      → update o request now db ≡ (accepted r, db')
      → (old : DeviceEntity) × (o.query_one request.device_id db ≡ returned (some old))
        × (o.update (changed_entity request now old) db ≡ returned db')
        × (r ≡ to_record (changed_entity request now old))
  unfolding update transaction catching
  update-eq-accepted request now db db' r h =
      elim (Outcome-cases (o.query_one request.device_id db)) [
        | inl (e, p) ↦ absurd (ground arith)
        | inr (none, p) ↦ absurd (ground arith)
        | inr (some old, p) ↦ (old, ground arith, ground arith, ground arith)
      ]

module _ {DB : Type 0} (o : Odb DeviceEntity DB) (same : Str → Str → Bool)
    (find : DB → Str → Option DeviceEntity) (laws : IsOdb o (device_column same) find) where
  -- An accepted create had found no device under the requested name; the new row is the request's,
  -- with the identity that the database chose; it is the reply; and every other key is as before.
  pub create_accepted :
      (request : CreateDeviceRequest) (now : ℤ) (db db' : DB) (r : DeviceRecord)
      → create o request now db ≡ (accepted r, db')
      → (id : ℕ) × (find db request.device_id ≡ none)
        × (r ≡ to_record (record (new_entity request now) { id = id }))
        × ((k : Str)
            → find db' k ≡ (
                if same request.device_id k
                then some (record (new_entity request now) { id = id })
                else find db k))
  unfolding new_entity
  create_accepted request now db db' r h =
      let (entity, absent, persisted, reply) = create-eq-accepted o request now db db' r h in
      let is_new = laws.persist_ident (new_entity request now) entity db db' persisted in
      (
        entity.id,
        sym (laws.query_one_find request.device_id db none absent),
        reply ∙ ap to_record is_new,
        λ k.
            subst (λ e. find db' k ≡ (if same request.device_id k then some e else find db k))
              is_new (laws.persist_find (new_entity request now) entity db db' k persisted),
      )

  -- An accepted update had found a device under the requested name; in that row each text that the
  -- request gives and a status other than unspecified replace the old ones, the time of the update is
  -- now, and all else stays; the other rows are as before, and the changed row is the reply.
  pub update_accepted :
      (request : UpdateDeviceRequest) (now : ℤ) (db db' : DB) (r : DeviceRecord)
      → update o request now db ≡ (accepted r, db')
      → (old : DeviceEntity) × (find db request.device_id ≡ some old)
        × HasChanges request now old (changed_entity request now old)
        × (r ≡ to_record (changed_entity request now old))
        × ((k : Str)
            → find db' k ≡ (
                if same request.device_id k
                then some (changed_entity request now old)
                else find db k))
  unfolding changed_entity
  update_accepted request now db db' r h =
      let (old, found, updated, reply) = update-eq-accepted o request now db db' r h in
      let is_old : find db request.device_id ≡ some old =
        sym (laws.query_one_find request.device_id db (some old) found) in
      let its_key : same old.device_id request.device_id ≡ true =
        laws.find_key db request.device_id old is_old in
      let under_key : find db old.device_id ≡ some old =
        laws.find_same db old.device_id request.device_id its_key ∙ is_old in
      (
        old,
        is_old,
        (refl, refl, refl, refl, refl, refl, refl, refl, refl, refl, refl, refl, refl),
        reply,
        λ k.
            subst
              (λ b. find db' k ≡ (if b then some (changed_entity request now old) else find db k))
              (laws.same_congr old.device_id request.device_id k its_key)
              (laws.update_find (changed_entity request now old) old db db' k under_key refl
                updated),
      )
