-- ===== src/Device/Service/Codes.antt =====
-- The status codes of the device handlers, and what each says of the table.
use device_ops.Prelude.{ℕ, ℤ, ◌≡◌, refl, ap, false, none, some, arith, ◌⊎◌, inl, inr, if◌then◌else◌}
use device_ops.Str.{Str, lit, is_empty, str_eq}
use device_ops.Rpc.{set_response}
use device_ops.Odb.{Odb, Answers}
use device_ops.Odb.Transaction.{Reply, accepted, rejected, transaction, catching}
use device_ops.Device.{DeviceEntity, DeviceRecord, CreateDeviceRequest, UpdateDeviceRequest}
use device_ops.Device.Repository.{create, update}
use device_ops.Device.Repository.Changes.{create_rejected, update_rejected}
use device_ops.Device.Service.{create_device, update_device, answer, DeviceResponse}

-- What a handler's answer says of the repository's reply and of the table.
module _ {DB : Type 0} (db : DB) (code_of : Str → ℕ) where
  abbrev pub Tells : Reply DeviceRecord × DB → DeviceResponse × DB → Type 0
  Tells x (response, db') =
      ((response.response.code ≡ 0)
        × ((r : DeviceRecord) × (x ≡ (accepted r, db')) × (response.device ≡ some r.device)))
      ⊎ ((e : Str) × (x ≡ (rejected e, db))
          × (response.response ≡ set_response (code_of e) e)
          × (response.device ≡ none)
          × (db' ≡ db))

  answer-Tells :
      (x : Reply DeviceRecord × DB)
      → ((db' : DB) (e : Str) → x ≡ (rejected e, db') → db' ≡ db)
      → Tells x (answer code_of x.0, x.1)
  unfolding answer
  answer-Tells (accepted r, db') kept = inl (refl, (r, refl, refl))
  answer-Tells (rejected e, db') kept =
      let same = kept db' e refl in inr (e, ap (λ d. (rejected e, d)) same, refl, refl, same)

abbrev pub create_code : Str → ℕ
create_code e = if str_eq e (lit "device_id already exists") then 409 else 400

abbrev pub update_code : Str → ℕ
update_code e = if str_eq e (lit "device not found") then 404 else 400

module _ {DB : Type 0} (o : Odb DeviceEntity DB) where
  -- CreateDevice answers 0 with the device exactly when the repository created it. Otherwise the
  -- answer has no device but the repository's message, under 409 if that says that the device_id
  -- exists and under 400 if not, and the table is as it was.
  pub create_device_codes :
      (request : CreateDeviceRequest) (now : ℤ) (db : DB)
      → Tells db create_code (create o request now db) (create_device o request now db)
  unfolding create_device
  create_device_codes request now db =
      answer-Tells db create_code (create o request now db) (create_rejected o request now db)

  -- UpdateDevice answers 0 with the device exactly when the repository changed it. Otherwise the
  -- answer has no device but the repository's message, under 404 if that says that the device is
  -- not found and under 400 if not, and the table is as it was.
  pub update_device_codes :
      (request : UpdateDeviceRequest) (now : ℤ) (db : DB)
      → Tells db update_code (update o request now db) (update_device o request now db)
  unfolding update_device
  update_device_codes request now db =
      answer-Tells db update_code (update o request now db) (update_rejected o request now db)

  -- A device_id that the table holds, in a request with a name and a type: CreateDevice answers 409
  -- and changes nothing, while the database answers.
  pub create_device_duplicate :
      (request : CreateDeviceRequest) (now : ℤ) (db : DB) (existing : DeviceEntity)
      → is_empty request.device_id ≡ false
      → is_empty request.device_name ≡ false
      → is_empty request.device_type ≡ false
      → Answers o db request.device_id (some existing)
      → ((create_device o request now db).0.response.code ≡ 409)
        × ((create_device o request now db).1 ≡ db)
  unfolding create_device create transaction catching str_eq
  create_device_duplicate request now db existing i n t a = ground arith
