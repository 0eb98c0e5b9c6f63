-- ===== src/Env/Tests.antt =====
-- Runs of std::stoi, and the theorem on settings at a concrete environment.
use device_ops.Prelude.{negsuc, ◌≡◌, refl, none, some}
use device_ops.Str.{lit}
use device_ops.Env.{read_digits, stoi}

stoi_signed : stoi (lit " -12x") ≡ some (negsuc 11)
unfolding stoi read_digits
stoi_signed = refl

stoi_overflow : stoi (lit "2147483648") ≡ none
unfolding stoi read_digits
stoi_overflow = refl
