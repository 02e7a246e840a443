-- ===== src/Text/Utf8.antt =====
-- `String::from_utf8_lossy`: a maximal invalid part becomes one replacement character.
use slmodem_sip_bridge.Base.{
  ℕ, zero, suc, ◌+◌, ◌-◌, ◌*◌, [], ◌∷◌, ◌++◌, ◌&&◌, ltb, leb, ◌==◌, if◌then◌else◌, Bytes, ◌≡◌, refl,
  arith, All, ◌<◌,
}
use slmodem_sip_bridge.Text.{Text}

abbrev pub replacement : ℕ
replacement = 0xfffd

-- Between characters, or inside one: the range of the next byte, how many follow it, and the bits
-- so far.
pub data Utf8 : Type 0 where
  between : Utf8
  inside : ℕ → ℕ → ℕ → ℕ → Utf8

-- A first byte: the characters it finishes, and what must follow.
unfoldable pub first_byte : ℕ → Text × Utf8
first_byte b =
    if ltb b 0x80
    then (b ∷ [], between)
    else if ltb b 0xc2
    then (replacement ∷ [], between)
    else if ltb b 0xe0
    then ([], inside 0x80 0xbf 0 (b - 0xc0))
    else if b == 0xe0
    then ([], inside 0xa0 0xbf 1 (b - 0xe0))
    else if b == 0xed
    then ([], inside 0x80 0x9f 1 (b - 0xe0))
    else if ltb b 0xf0
    then ([], inside 0x80 0xbf 1 (b - 0xe0))
    else if b == 0xf0
    then ([], inside 0x90 0xbf 2 (b - 0xf0))
    else if ltb b 0xf4
    then ([], inside 0x80 0xbf 2 (b - 0xf0))
    else if b == 0xf4
    then ([], inside 0x80 0x8f 2 (b - 0xf0))
    else (replacement ∷ [], between)

-- A byte in the range that the character asks for.
unfoldable pub next_byte : ℕ → ℕ → ℕ → Text × Utf8
next_byte b zero bits = ((bits * 64 + (b - 0x80)) ∷ [], between)
next_byte b (suc more) bits = ([], inside 0x80 0xbf more (bits * 64 + (b - 0x80)))

unfoldable pub decode_byte : Utf8 → ℕ → Text × Utf8
unfolding first_byte next_byte
decode_byte between b = first_byte b
decode_byte (inside lo hi more bits) b =
    if leb lo b && leb b hi
    then next_byte b more bits
    else (replacement ∷ (first_byte b).0, (first_byte b).1)

unfoldable pub decode_from : Utf8 → Bytes → Text
decode_from between [] = []
decode_from (inside _ _ _ _) [] = replacement ∷ []
decode_from state (b ∷ bs) =
    let (chars, state') = decode_byte state b in chars ++ decode_from state' bs

unfoldable pub from_utf8_lossy : Bytes → Text
from_utf8_lossy bytes = decode_from between bytes

decode_from-ascii : (bytes : Bytes) → All (λ b. b < 0x80) bytes → decode_from between bytes ≡ bytes
unfolding decode_from decode_byte first_byte
decode_from-ascii [] h = refl
decode_from-ascii (b ∷ bs) (hb, hs) = ground (arith, decode_from-ascii bs hs)

-- ASCII bytes are the text they spell.
pub from_utf8_lossy-ascii :
    (bytes : Bytes) → All (λ b. b < 0x80) bytes → from_utf8_lossy bytes ≡ bytes
unfolding from_utf8_lossy
from_utf8_lossy-ascii bytes h = decode_from-ascii bytes h
