-- ===== src/Gateway/Forwarder/Registered.antt =====
-- When a device counts as registered.
use device_ops.Prelude.{◌≡◌, refl, true, ◌⊎◌, inl, inr, Bool-cases, ◌==◌, ==_iff, arith}
use device_ops.Json.{Json}
use device_ops.Rpc.{CommonResponse}
use device_ops.Odb.Transaction.{Outcome, returned, thrown, Reply, accepted, rejected}
use device_ops.Device.{CreateDeviceRequest}
use device_ops.Device.Service.{VerifyDeviceAccessRequest, VerifyDeviceAccessResponse}
use device_ops.Gateway.{ParsedMqttMessage}
use device_ops.Gateway.Forwarder.Requests.{create_device_request, verify_request}
use device_ops.Gateway.Forwarder.{
  DownstreamForwarder, is_ok_response, send, verified, created, forward_register,
}

module _ {V D F : Type 0} (j : Json V D) (d : DownstreamForwarder D F) where
  -- The device service has verified the token that the message carries.
  pub record IsVerified (message : ParsedMqttMessage V) (f : F) : Type 0 where
    pub request : VerifyDeviceAccessRequest
    pub response : VerifyDeviceAccessResponse
    pub is_request : verify_request j message ≡ returned request
    pub is_response : (d.verify_device_access request f).0 ≡ accepted response
    pub is_ok : response.response.code ≡ 0
    pub is_allowed : response.allowed ≡ true

  verified_lem :
      (x : Reply VerifyDeviceAccessResponse × F) (u : Unit {0})
      → (verified j d x).0 ≡ returned (accepted u)
      → (response : VerifyDeviceAccessResponse) × (x.0 ≡ accepted response)
        × (response.response.code ≡ 0)
        × (response.allowed ≡ true)
  unfolding verified
  verified_lem (rejected e, f) u h = cc
  verified_lem (accepted response, f) u h =
      (response, refl, ground (arith, ==_iff response.response.code 0), ground arith)

  sent_lem :
      (message : ParsedMqttMessage V) (f : F) (u : Unit {0})
      (built : Outcome VerifyDeviceAccessRequest)
      → verify_request j message ≡ built
      → (send built (λ request g. verified j d (d.verify_device_access request g)) f).0
        ≡ returned (accepted u)
      → IsVerified message f
  unfolding send
  sent_lem message f u (thrown e) b h = cc
  sent_lem message f u (returned request) b h =
      let (response, answered, ok, allowed) = verified_lem (d.verify_device_access request f) u h in
      record {
        request = request;
        response = response;
        is_request = b;
        is_response = answered;
        is_ok = ok;
        is_allowed = allowed;
      }

  created_lem :
      (message : ParsedMqttMessage V) (x : Reply CommonResponse × F) (u : Unit {0})
      → (created j d message x).0 ≡ returned (accepted u)
      → (response : CommonResponse) × (x.0 ≡ accepted response)
        × ((response.code ≡ 0) ⊎ ((response.code ≡ 409) × IsVerified message x.1))
  unfolding created is_ok_response
  created_lem message (rejected e, f) u h = cc
  created_lem message (accepted response, f) u h = elim (Bool-cases (response.code == 0)) [
    | inl zero_code ↦ (response, refl, inl ((==_iff response.code 0).0 zero_code))
    | inr other ↦ elim (Bool-cases (response.code == 409)) [
      | inl taken ↦ (
        response,
        refl,
        inr (
          (==_iff response.code 409).0 taken,
          sent_lem message f u (verify_request j message) refl ground arith,
        ),
      )
      | inr odd ↦ absurd (ground arith)
    ]
  ]

  built_lem :
      (message : ParsedMqttMessage V) (f : F) (u : Unit {0}) (built : Outcome CreateDeviceRequest)
      → create_device_request j message ≡ built
      → (send built (λ request g. created j d message (d.create_device request g)) f).0
        ≡ returned (accepted u)
      → (request : CreateDeviceRequest) × (response : CommonResponse) × (create_device_request j
            message
          ≡ returned request)
        × ((d.create_device request f).0 ≡ accepted response)
        × ((response.code ≡ 0)
            ⊎ ((response.code ≡ 409) × IsVerified message (d.create_device request f).1))
  unfolding send
  built_lem message f u (thrown e) b h = cc
  built_lem message f u (returned request) b h =
      let (response, answered, why) = created_lem message (d.create_device request f) u h in
      (request, response, b, answered, why)

  pub forward_register_lem :
      (message : ParsedMqttMessage V) (f : F) (u : Unit {0})
      → (forward_register j d message f).0 ≡ returned (accepted u)
      → (request : CreateDeviceRequest) × (response : CommonResponse) × (create_device_request j
            message
          ≡ returned request)
        × ((d.create_device request f).0 ≡ accepted response)
        × ((response.code ≡ 0)
            ⊎ ((response.code ≡ 409) × IsVerified message (d.create_device request f).1))
  unfolding forward_register
  forward_register_lem message f u h = elim (Bool-cases d.device_stub) [
    | inl ready ↦ built_lem message f u (create_device_request j message) refl (ground arith)
    | inr missing ↦ absurd (ground arith)
  ]
