-- ===== src/Gateway/Forwarder/Readmission.antt =====
-- The forwarder in front of the device service: a device that is known and not enabled.
use device_ops.Prelude.{
  ℤ, ◌≡◌, ◌≢◌, refl, sym, ap, subst, ◌∙◌, false, [], some, Bool-cases, inl, inr, arith,
}
use device_ops.Str.{Str, lit, is_empty}
use device_ops.Json.{Json}
use device_ops.Rpc.{CommonResponse}
use device_ops.Odb.{Odb, Answers}
use device_ops.Odb.Transaction.{
  Outcome, returned, thrown, accepted, rejected, transaction, catching,
}
use device_ops.Device.{DeviceEntity, CreateDeviceRequest, to_record, enabled, status_eq}
use device_ops.Device.Repository.{create}
use device_ops.Device.Repository.Access.{get_answered, verify_not_enabled}
use device_ops.Device.Service.{create_device, verify_device_access, VerifyDeviceAccessRequest}
use device_ops.Outcome.{◌>>=◌}
use device_ops.Gateway.{ParsedMqttMessage}
use device_ops.Gateway.Forwarder.{DownstreamForwarder, forward_register}
use device_ops.Gateway.Forwarder.Requests.{create_device_request, verify_request, get_string}
use device_ops.Gateway.Forwarder.Registered.{IsVerified, forward_register_lem}

-- The stubs call the handlers of the device service, and no call fails.
unfoldable pub with_device_service :
    {D DB : Type 0} → Odb DeviceEntity DB → ℤ → DownstreamForwarder D DB → DownstreamForwarder D DB
with_device_service o now d = record d {
  create_device = λ request db.
      let (response, db') = create_device o request now db in (accepted response.response, db');
  verify_device_access = λ request db. (accepted (verify_device_access o request db), db);
}

-- Whatever comes back is as `P` says.
record Returns {A : Type 0} (P : A → Type 0) (x : Outcome A) : Type 0 where
  holds : (a : A) → x ≡ returned a → P a

pure-Returns : {A : Type 0} (P : A → Type 0) (a : A) → P a → Returns P (returned a)
pure-Returns P a h = record { holds = λ b e. subst P (returned_injective a b e) h }
  where
    returned_injective : {A : Type 0} (a b : A) → returned a ≡ returned b → a ≡ b
    returned_injective a b e = cc

bind-Returns :
    {A B : Type 0} (P : B → Type 0) (x : Outcome A) (f : A → Outcome B)
    → ((a : A) → Returns P (f a))
    → Returns P (x >>= f)
bind-Returns P (returned a) f h = h a
bind-Returns P (thrown e) f h = record { holds = λ b k. cc }

module _ {V D : Type 0} (j : Json V D) (message : ParsedMqttMessage V) where
  Named : CreateDeviceRequest → Type 0
  Named request = request.device_id ≡ message.device_id

  create_device_request-Returns : Returns Named (create_device_request j message)
  unfolding create_device_request Named
  create_device_request-Returns =
      let p = message.payload in
      bind-Returns Named (get_string j p (lit "device_name") message.device_id) _ (λ a.
        bind-Returns Named (get_string j p (lit "device_type") (lit "device")) _ (λ b.
          bind-Returns Named (get_string j p (lit "model") []) _ (λ c.
            bind-Returns Named (get_string j p (lit "manufacturer") []) _ (λ d.
              bind-Returns Named (get_string j p (lit "location") []) _ (λ e.
                bind-Returns Named (get_string j p (lit "access_token") []) _ (λ f.
                  bind-Returns Named (get_string j p (lit "description") []) _
                    (λ g. pure-Returns Named _ refl)))))))

  verify_request-Returns :
      Returns (λ request. request.device_id ≡ message.device_id) (verify_request j message)
  unfolding verify_request
  verify_request-Returns =
      bind-Returns (λ request. request.device_id ≡ message.device_id)
        (get_string j message.payload (lit "access_token") []) _ (λ a. pure-Returns _ _ refl)

module _ {DB : Type 0} (o : Odb DeviceEntity DB) where
  create_existing :
      (request : CreateDeviceRequest) (now : ℤ) (db : DB) (old : DeviceEntity)
      → Answers o db request.device_id (some old)
      → (e : Str) × (create o request now db ≡ (rejected e, db))
  unfolding create transaction catching
  create_existing request now db old a = elim (Bool-cases (is_empty request.device_id)) [
    | inl h ↦ (lit "device_id is required", ground arith)
    | inr h ↦ elim (Bool-cases (is_empty request.device_name)) [
      | inl k ↦ (lit "device_name is required", ground arith)
      | inr k ↦ elim (Bool-cases (is_empty request.device_type)) [
        | inl l ↦ (lit "device_type is required", ground arith)
        | inr l ↦ (lit "device_id already exists", ground (arith, a.begins, a.answers, a.commits))
      ]
    ]
  ]

  create_device_existing :
      (request : CreateDeviceRequest) (now : ℤ) (db : DB) (old : DeviceEntity)
      → Answers o db request.device_id (some old)
      → ((create_device o request now db).0.response.code ≢ 0)
        × ((create_device o request now db).1 ≡ db)
  unfolding create_device
  create_device_existing request now db old a =
      let (e, refused) = create_existing request now db old a in ground arith

  verify_device_access_closed :
      (request : VerifyDeviceAccessRequest) (db : DB) (old : DeviceEntity)
      → Answers o db request.device_id (some old)
      → status_eq (to_record old).device.status enabled ≡ false
      → (verify_device_access o request db).allowed ≡ false
  unfolding verify_device_access
  verify_device_access_closed request db old a s = ground (
    arith,
    verify_not_enabled o db request.device_id request.access_token request.protocol (to_record old)
        (get_answered o db request.device_id old a) s,
  )

module _ {V D DB : Type 0} (j : Json V D) (o : Odb DeviceEntity DB) (now : ℤ)
    (d : DownstreamForwarder D DB) where
  not_verified :
      (message : ParsedMqttMessage V) (db : DB) (old : DeviceEntity)
      → Answers o db message.device_id (some old)
      → status_eq (to_record old).device.status enabled ≡ false
      → IsVerified j (with_device_service o now d) message db
      → ⊥
  unfolding with_device_service
  not_verified message db old a s v =
      let named = (verify_request-Returns j message).holds v.request v.is_request in
      let closed =
        verify_device_access_closed o v.request db old
          (subst (λ (id : Str). Answers o db id (some old)) (sym named) a) s in
      absurd (ground (arith, closed, v.is_response, v.is_allowed))

  -- A device that the table holds with any status but enabled is not registered again, whatever
  -- the message carries, where the stubs reach the device service and the database answers.
  pub forward_register-with_device_service :
      (message : ParsedMqttMessage V) (db : DB) (old : DeviceEntity) (u : Unit {0})
      → Answers o db message.device_id (some old)
      → status_eq (to_record old).device.status enabled ≡ false
      → (forward_register j (with_device_service o now d) message db).0 ≢ returned (accepted u)
  unfolding with_device_service
  forward_register-with_device_service message db old u a s h =
      let (request, response, built, answered, why) =
        forward_register_lem j (with_device_service o now d) message db u h in
      let named : request.device_id ≡ message.device_id =
        unfold Named in (create_device_request-Returns j message).holds request built in
      let (no_zero, kept) =
        create_device_existing o request now db old
          (subst (λ (id : Str). Answers o db id (some old)) (sym named) a) in
      let is_response : (create_device o request now db).0.response ≡ response = cc in
      elim why [
        | inl zero_code ↦ no_zero (ap (λ (r : CommonResponse). r.code) is_response ∙ zero_code)
        | inr (taken, verified) ↦
            not_verified message db old a s
              (subst (IsVerified j (with_device_service o now d) message) kept verified)
      ]
