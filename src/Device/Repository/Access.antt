-- ===== src/Device/Repository/Access.antt =====
-- DeviceRepository::verifyAccess after create and update: who gets in.
use device_ops.Prelude.{
  ℕ, ℤ, ◌≡◌, refl, sym, ap, subst, ◌∙◌, Bool, true, false, ◌||◌, ◌⊎◌, Option, some, arith,
  if◌then◌else◌,
}
use device_ops.Str.{Str, lit, is_empty, str_eq}
use device_ops.Odb.{Odb, IsOdb, Answers}
use device_ops.Odb.Transaction.{accepted, rejected, transaction}
use device_ops.Device.{
  DeviceEntity, DeviceRecord, enabled, disabled, maintenance, status_eq, status_to_string,
  status_from_string, to_record, to_proto, CreateDeviceRequest, UpdateDeviceRequest,
}
use device_ops.Device.Token.{hash_access_token}
use device_ops.Device.Repository.{new_entity, changed_entity, create, update, get, verify_access}
use device_ops.Device.Repository.Changes.{device_column, create_accepted, update_accepted}

new_record :
    (request : CreateDeviceRequest) (now : ℤ) (id : ℕ)
    → let r = to_record (record (new_entity request now) { id = id }) in
      (r.device.status ≡ enabled)
      × (r.device.protocol ≡ (if is_empty request.protocol then lit "mqtt" else request.protocol))
      × (r.access_token_hash ≡ hash_access_token request.access_token)
unfolding new_entity to_proto status_from_string str_eq
new_record request now id = (refl, refl, refl)

changed_record :
    (request : UpdateDeviceRequest) (now : ℤ) (old : DeviceEntity)
    → (request.status ≡ disabled) ⊎ (request.status ≡ maintenance)
    → status_eq (to_record (changed_entity request now old)).device.status enabled ≡ false
unfolding changed_entity to_proto status_from_string status_to_string status_eq str_eq
changed_record request now old s = ground arith

module _ {DB : Type 0} (o : Odb DeviceEntity DB) where
  pub get_answered :
      (db : DB) (k : Str) (entity : DeviceEntity)
      → Answers o db k (some entity)
      → get o k db ≡ some (to_record entity)
  unfolding get transaction
  get_answered db k entity a = ground arith

  -- verifyAccess on a device that is found with the status of a fresh row.
  verify_enabled :
      (db : DB) (k token protocol : Str) (r : DeviceRecord)
      → get o k db ≡ some r
      → r.device.status ≡ enabled
      → verify_access o k token protocol db ≡ (
          if is_empty protocol || str_eq r.device.protocol protocol
          then if str_eq r.access_token_hash (hash_access_token token)
            then accepted r
            else rejected (lit "access token mismatch")
          else rejected (lit "protocol mismatch"))
  unfolding verify_access status_eq
  verify_enabled db k token protocol r g s = ground arith

  pub verify_not_enabled :
      (db : DB) (k token protocol : Str) (r : DeviceRecord)
      → get o k db ≡ some r
      → status_eq r.device.status enabled ≡ false
      → verify_access o k token protocol db ≡ rejected (lit "device is not enabled")
  unfolding verify_access
  verify_not_enabled db k token protocol r g s = ground arith

module _ {DB : Type 0} (o : Odb DeviceEntity DB) (same : Str → Str → Bool)
    (find : DB → Str → Option DeviceEntity) (laws : IsOdb o (device_column same) find) where
  found_after :
      (db : DB) (k : Str) (b : Bool) (entity : DeviceEntity) (old found : Option DeviceEntity)
      → find db k ≡ (if b then some entity else old)
      → b ≡ true
      → Answers o db k found
      → get o k db ≡ some (to_record entity)
  found_after db k b entity old found e t a =
      let is_found : found ≡ some entity =
        laws.query_one_find k db found a.answers ∙ e ∙ ap (λ c. if c then some entity else old) t in
      get_answered o db k entity (subst (Answers o db k) is_found a)

  -- Once a create is accepted, a get by any text that the column takes for the new name returns the
  -- record of the create's reply, while the database answers.
  pub get-create :
      (request : CreateDeviceRequest) (now : ℤ) (db db' : DB) (r : DeviceRecord) (k : Str)
      (found : Option DeviceEntity)
      → create o request now db ≡ (accepted r, db')
      → same request.device_id k ≡ true
      → Answers o db' k found
      → get o k db' ≡ some r
  get-create request now db db' r k found h named a =
      let (id, _, reply, finds) = create_accepted o same find laws request now db db' r h in
      found_after db' k (same request.device_id k) _ (find db k) found (finds k) named a
      ∙ ap some (sym reply)

  -- So after an accepted update.
  get-update :
      (request : UpdateDeviceRequest) (now : ℤ) (db db' : DB) (r : DeviceRecord)
      (found : Option DeviceEntity)
      → update o request now db ≡ (accepted r, db')
      → Answers o db' request.device_id found
      → get o request.device_id db' ≡ some r
  get-update request now db db' r found h a =
      let k = request.device_id in
      let (old, _, _, reply, finds) = update_accepted o same find laws request now db db' r h in
      found_after db' k (same k k) _ (find db k) found (finds k) (laws.same_refl k) a
      ∙ ap some (sym reply)

  -- Once a create is accepted and while the database answers: the created device is let in under
  -- its name with the token that it was created with (one whose hash agrees), over its protocol or
  -- with none asked; any other protocol and any other hash are refused, with the message for each.
  pub verify_access-create :
      (request : CreateDeviceRequest) (now : ℤ) (db db' : DB) (r : DeviceRecord)
      (token protocol : Str) (found : Option DeviceEntity)
      → create o request now db ≡ (accepted r, db')
      → Answers o db' request.device_id found
      → verify_access o request.device_id token protocol db' ≡ (
          if is_empty protocol
            || str_eq (if is_empty request.protocol then lit "mqtt" else request.protocol) protocol
          then if str_eq (hash_access_token request.access_token) (hash_access_token token)
            then accepted r
            else rejected (lit "access token mismatch")
          else rejected (lit "protocol mismatch"))
  verify_access-create request now db db' r token protocol found h a =
      let k = request.device_id in
      let (id, _, reply, _) = create_accepted o same find laws request now db db' r h in
      let (is_enabled, its_protocol, its_hash) = new_record request now id in
      let is_found = get-create request now db db' r k found h (laws.same_refl k) a in
      let e = verify_enabled o db' k token protocol r is_found (rw reply is_enabled) in
      ground (arith, e, reply, is_enabled, its_protocol, its_hash)

  -- A device that an accepted update has disabled or put into maintenance is let in with no token,
  -- while the database answers.
  pub verify_access-update_disabled :
      (request : UpdateDeviceRequest) (now : ℤ) (db db' : DB) (r : DeviceRecord)
      (token protocol : Str) (found : Option DeviceEntity)
      → (request.status ≡ disabled) ⊎ (request.status ≡ maintenance)
      → update o request now db ≡ (accepted r, db')
      → Answers o db' request.device_id found
      → verify_access o request.device_id token protocol db'
        ≡ rejected (lit "device is not enabled")
  verify_access-update_disabled request now db db' r token protocol found s h a =
      let (old, _, _, reply, _) = update_accepted o same find laws request now db db' r h in
      verify_not_enabled o db' request.device_id token protocol r
        (get-update request now db db' r found h a)
        (ap (λ (q : DeviceRecord). status_eq q.device.status enabled) reply
          ∙ changed_record request now old s)
