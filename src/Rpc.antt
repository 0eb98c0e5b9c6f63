-- ===== src/Rpc.antt =====
-- The messages that every service shares: CommonResponse, PageRequest, PageResponse and TimeRange of
-- proto/common.proto, and setResponse, the anonymous helper of each *_service_impl.cc.
use device_ops.Prelude.{ℕ, ℤ, []}
use device_ops.Str.{Str}

pub record CommonResponse : Type 0 where
  pub code : ℕ
  pub message : Str
  pub trace_id : Str

pub record PageRequest : Type 0 where
  pub page : ℤ
  pub page_size : ℤ

pub record PageResponse : Type 0 where
  pub page : ℕ
  pub page_size : ℕ
  pub total : ℕ

pub record TimeRange : Type 0 where
  pub start_time : ℤ
  pub end_time : ℤ

abbrev pub set_response : ℕ → Str → CommonResponse
set_response code message = record { code = code; message = message; trace_id = [] }
