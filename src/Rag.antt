-- ===== src/Rag.antt =====
-- What the two clients of the RAG service share: rag_client.cc of services/knowledge_service and
-- diagnosis_rag_client.cc of services/diagnosis_service. libcurl is a parameter: a POST over the
-- state of the world, with what comes of it.
pub mod BaseUrl
pub mod Reading
pub mod Sample
mod Tests
use device_ops.Prelude.{ℕ, ℤ, ◌≡◌, refl, Bool, false, ◌||◌, not, ltb, if◌then◌else◌}
use device_ops.Str.{Str, lit, is_empty}
use device_ops.Env.{Env, getenv_or_default, getenv_int_or_default}
use device_ops.Odb.Transaction.{Reply, accepted, rejected}
use BaseUrl.{normalize_base_url}

-- curl_easy_init gave no handle; curl_easy_perform failed, with the text of its code; or the HTTP
-- status and the body of the response.
pub data Transfer : Type 0 where
  uninitialized : Transfer
  failed : Str → Transfer
  answered : ℕ → Str → Transfer

-- RagConfig and DiagnosisRagConfig have the same fields.
pub record RagConfig : Type 0 where
  pub base_url : Str
  pub timeout_ms : ℤ

-- loadRagConfigFromEnv and loadDiagnosisRagConfigFromEnv, given the structs' defaults.
unfoldable pub load_rag_config_from_env : Env → RagConfig → RagConfig
load_rag_config_from_env env config = record {
  base_url = getenv_or_default env (lit "DEVICEOPS_RAG_URL") config.base_url;
  timeout_ms = getenv_int_or_default env (lit "DEVICEOPS_RAG_TIMEOUT_MS") config.timeout_ms;
}

-- The constructors of RagClient and DiagnosisRagClient.
unfoldable pub rag_client : RagConfig → RagConfig
rag_client config = record config { base_url = normalize_base_url config.base_url }

-- A POST, with its timeout, URL and body.
abbrev pub Post : Type 0 → Type 0
Post W = ℤ → Str → Str → W → Transfer × W

-- The body of a 2xx response, or the client's error.
unfoldable pub read_transfer : Transfer → Reply Str
read_transfer uninitialized = rejected (lit "failed to initialize curl")
read_transfer (failed error) = rejected error
read_transfer (answered http_code body) =
    if ltb http_code 200 || not (ltb http_code 300)
    then rejected (if is_empty body then lit "rag-service returned non-2xx response" else body)
    else accepted body

pub read_transfer_ok :
    (http_code : ℕ) (body : Str)
    → (ltb http_code 200 || not (ltb http_code 300)) ≡ false
    → read_transfer (answered http_code body) ≡ accepted body
unfolding read_transfer
read_transfer_ok http_code body h = rw h refl
