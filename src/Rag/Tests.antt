-- ===== src/Rag/Tests.antt =====
-- The theorem on base URLs at a concrete URL.
use device_ops.Prelude.{◌≡◌, false, arith}
use device_ops.Str.{lit}
use device_ops.Rag.BaseUrl.{normalize_base_url, ends_with_slash, normalize_base_url_lem}

normalize_base_url_lem_example :
    ends_with_slash (normalize_base_url (lit "http://127.0.0.1:9601//")) ≡ false
normalize_base_url_lem_example =
    (normalize_base_url_lem 40 (lit "http://127.0.0.1:9601//") (omega arith)).1
