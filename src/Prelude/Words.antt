-- ===== src/Prelude/Words.antt =====
-- Unsigned words in network byte order.
use Prim.Native.Nat.{ℕ, ◌+◌, ◌*◌, ◌/◌, ◌%◌, ◌^◌, ◌<◌}
use mathlib.Core.Path.{◌≡◌}
use mathlib.Core.List.{[], ◌∷◌}
use native.Mathlib.Omega.{arith}
use dns_ligase.Prelude.Lists.{Bytes, get_or}

abbrev pub u8 : ℕ → ℕ
u8 n = n % 256

abbrev pub u16 : ℕ → ℕ
u16 n = n % 65536

-- `u16::to_be_bytes` and `u32::to_be_bytes`.
unfoldable pub be16 : ℕ → Bytes
be16 n = u8 (n / 256) ∷ u8 n ∷ []

unfoldable pub be32 : ℕ → Bytes
be32 n = u8 (n / 16777216) ∷ u8 (n / 65536) ∷ u8 (n / 256) ∷ u8 n ∷ []

-- `u16::from_be_bytes(buf[i..i + 2])` and `u32::from_be_bytes(buf[i..i + 4])`.
unfoldable pub u16_at : Bytes → ℕ → ℕ
u16_at buf i = get_or buf i 0 * 256 + get_or buf (i + 1) 0

unfoldable pub u32_at : Bytes → ℕ → ℕ
u32_at buf i =
    get_or buf i 0 * 16777216
    + get_or buf (i + 1) 0 * 65536
    + get_or buf (i + 2) 0 * 256
    + get_or buf (i + 3) 0

pub be16_split : (n : ℕ) → n < 65536 → u8 (n / 256) * 256 + u8 n ≡ n
be16_split n h = omega arith

pub be32_split :
    (n : ℕ)
    → n < 2 ^ 32
    → u8 (n / 16777216) * 16777216 + u8 (n / 65536) * 65536 + u8 (n / 256) * 256 + u8 n ≡ n
be32_split n h = omega arith
