-- ===== src/Device/Token.antt =====
-- DeviceRepository::hashAccessToken: 64-bit FNV-1a over the bytes of the token, printed in decimal.
use device_ops.Prelude.{ℕ, ◌*◌, ◌%◌, ◌^◌, bit_xor, [], ◌∷◌}
use device_ops.Str.{Str, decimal}

unfoldable pub fnv : ℕ → Str → ℕ
fnv hash [] = hash
fnv hash (ch ∷ rest) = fnv ((bit_xor hash ch * 1099511628211) % 2 ^ 64) rest

unfoldable pub hash_access_token : Str → Str
unfolding fnv
hash_access_token access_token = decimal (fnv 1469598103934665603 access_token)
