-- ===== src/Base/Word.antt =====
-- Machine words as native numbers: a word of w bits wraps by `% 2 ^ w`, a shift is `/` or `*`, and
-- a signed word is its bit pattern.
use slmodem_sip_bridge.Base.{ℕ, ◌+◌, ◌-◌, ◌*◌, ◌/◌, ◌%◌, ◌^◌, [], ◌∷◌, ltb, if◌then◌else◌, Bytes}
use slmodem_sip_bridge.Base.Int.{ℤ, pos, negsuc}

abbrev pub u8 : ℕ → ℕ
u8 n = n % 2 ^ 8

abbrev pub u16 : ℕ → ℕ
u16 n = n % 2 ^ 16

abbrev pub u32 : ℕ → ℕ
u32 n = n % 2 ^ 32

infixl 75 ◌<<<◌ ◌>>>◌
abbrev pub ◌<<<◌ : ℕ → ℕ → ℕ
x <<< k = x * 2 ^ k

abbrev pub ◌>>>◌ : ℕ → ℕ → ℕ
x >>> k = x / 2 ^ k

-- The integer that an i16 stands for.
abbrev pub signed16 : ℕ → ℤ
signed16 w = if ltb w (2 ^ 15) then pos w else negsuc (2 ^ 16 - w - 1)

-- `to_be_bytes`.
abbrev pub u16_be_bytes : ℕ → Bytes
u16_be_bytes n = (n / 2 ^ 8 % 2 ^ 8) ∷ (n % 2 ^ 8) ∷ []

abbrev pub u32_be_bytes : ℕ → Bytes
u32_be_bytes n =
    (n / 2 ^ 24 % 2 ^ 8) ∷ (n / 2 ^ 16 % 2 ^ 8) ∷ (n / 2 ^ 8 % 2 ^ 8) ∷ (n % 2 ^ 8) ∷ []

-- `from_be_bytes`.
abbrev pub u16_from_be : ℕ → ℕ → ℕ
u16_from_be hi lo = hi * 2 ^ 8 + lo

abbrev pub u32_from_be : ℕ → ℕ → ℕ → ℕ → ℕ
u32_from_be a b c d = a * 2 ^ 24 + b * 2 ^ 16 + c * 2 ^ 8 + d

-- `to_le_bytes` and `from_le_bytes` of an i16, as a bit pattern.
abbrev pub i16_le_bytes : ℕ → Bytes
i16_le_bytes w = (w % 2 ^ 8) ∷ (w / 2 ^ 8 % 2 ^ 8) ∷ []

abbrev pub i16_from_le : ℕ → ℕ → ℕ
i16_from_le lo hi = hi * 2 ^ 8 + lo
