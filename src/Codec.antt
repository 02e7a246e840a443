-- ===== src/Codec.antt =====
-- codec.rs: G.711 µ-law. An i16 is its bit pattern, a number below 2 ^ 16; the i32 values that the
-- code computes are never negative. The tests of codec.rs are in the module Codec/Tests.
pub mod Pack
pub mod Sample
pub mod RoundTrip
pub mod Buffer
pub mod Stream
mod Tests
use slmodem_sip_bridge.Base.{
  ℕ, ◌+◌, ◌-◌, ◌*◌, ◌/◌, ◌%◌, ◌^◌, bit_and, bit_or, Bool, not, List, [], ◌∷◌, ◌++◌, Option, none,
  some, ltb, ◌==◌, if◌then◌else◌, Bytes, length, get_or,
}
use slmodem_sip_bridge.Base.Outcome.{Outcome, ok, ◌>>=◌, ◌>>◌, assert}
use slmodem_sip_bridge.Base.Word.{u8, u16, ◌<<<◌, ◌>>>◌, i16_le_bytes, i16_from_le}

abbrev pub bias : ℕ
bias = 0x84

abbrev pub clip : ℕ
clip = 32635

unfoldable pub exp_lut : Bytes
exp_lut =
    0 ∷ 0 ∷ 1 ∷ 1 ∷ 2 ∷ 2 ∷ 2 ∷ 2 ∷ 3 ∷ 3 ∷ 3 ∷ 3 ∷ 3 ∷ 3 ∷ 3 ∷ 3 ∷ 4 ∷ 4 ∷ 4 ∷ 4 ∷ 4 ∷ 4 ∷ 4 ∷ 4
    ∷ 4 ∷ 4 ∷ 4 ∷ 4 ∷ 4 ∷ 4 ∷ 4 ∷ 4 ∷ 5 ∷ 5 ∷ 5 ∷ 5 ∷ 5 ∷ 5 ∷ 5 ∷ 5 ∷ 5 ∷ 5 ∷ 5 ∷ 5 ∷ 5 ∷ 5 ∷ 5 ∷ 5
    ∷ 5 ∷ 5 ∷ 5 ∷ 5 ∷ 5 ∷ 5 ∷ 5 ∷ 5 ∷ 5 ∷ 5 ∷ 5 ∷ 5 ∷ 5 ∷ 5 ∷ 5 ∷ 5 ∷ 6 ∷ 6 ∷ 6 ∷ 6 ∷ 6 ∷ 6 ∷ 6 ∷ 6
    ∷ 6 ∷ 6 ∷ 6 ∷ 6 ∷ 6 ∷ 6 ∷ 6 ∷ 6 ∷ 6 ∷ 6 ∷ 6 ∷ 6 ∷ 6 ∷ 6 ∷ 6 ∷ 6 ∷ 6 ∷ 6 ∷ 6 ∷ 6 ∷ 6 ∷ 6 ∷ 6 ∷ 6
    ∷ 6 ∷ 6 ∷ 6 ∷ 6 ∷ 6 ∷ 6 ∷ 6 ∷ 6 ∷ 6 ∷ 6 ∷ 6 ∷ 6 ∷ 6 ∷ 6 ∷ 6 ∷ 6 ∷ 6 ∷ 6 ∷ 6 ∷ 6 ∷ 6 ∷ 6 ∷ 6 ∷ 6
    ∷ 6 ∷ 6 ∷ 6 ∷ 6 ∷ 6 ∷ 6 ∷ 6 ∷ 6 ∷ 7 ∷ 7 ∷ 7 ∷ 7 ∷ 7 ∷ 7 ∷ 7 ∷ 7 ∷ 7 ∷ 7 ∷ 7 ∷ 7 ∷ 7 ∷ 7 ∷ 7 ∷ 7
    ∷ 7 ∷ 7 ∷ 7 ∷ 7 ∷ 7 ∷ 7 ∷ 7 ∷ 7 ∷ 7 ∷ 7 ∷ 7 ∷ 7 ∷ 7 ∷ 7 ∷ 7 ∷ 7 ∷ 7 ∷ 7 ∷ 7 ∷ 7 ∷ 7 ∷ 7 ∷ 7 ∷ 7
    ∷ 7 ∷ 7 ∷ 7 ∷ 7 ∷ 7 ∷ 7 ∷ 7 ∷ 7 ∷ 7 ∷ 7 ∷ 7 ∷ 7 ∷ 7 ∷ 7 ∷ 7 ∷ 7 ∷ 7 ∷ 7 ∷ 7 ∷ 7 ∷ 7 ∷ 7 ∷ 7 ∷ 7
    ∷ 7 ∷ 7 ∷ 7 ∷ 7 ∷ 7 ∷ 7 ∷ 7 ∷ 7 ∷ 7 ∷ 7 ∷ 7 ∷ 7 ∷ 7 ∷ 7 ∷ 7 ∷ 7 ∷ 7 ∷ 7 ∷ 7 ∷ 7 ∷ 7 ∷ 7 ∷ 7 ∷ 7
    ∷ 7 ∷ 7 ∷ 7 ∷ 7 ∷ 7 ∷ 7 ∷ 7 ∷ 7 ∷ 7 ∷ 7 ∷ 7 ∷ 7 ∷ 7 ∷ 7 ∷ 7 ∷ 7 ∷ 7 ∷ 7 ∷ 7 ∷ 7 ∷ 7 ∷ 7 ∷ 7 ∷ 7
    ∷ 7 ∷ 7 ∷ 7 ∷ 7 ∷ 7 ∷ 7 ∷ 7 ∷ 7 ∷ 7 ∷ 7 ∷ 7 ∷ 7 ∷ 7 ∷ 7 ∷ 7 ∷ 7 ∷ []

-- `!` of a u8.
abbrev pub complement : ℕ → ℕ
complement b = 255 - b

-- `((sample >> 8) as u8) & 0x80`: the shift of an i16 is arithmetic, so its low byte is the high
-- byte of the pattern.
unfoldable pub sign_of : ℕ → ℕ
sign_of sample = bit_and (u8 (sample >>> 8)) 0x80

-- The `if sign != 0` of the encoder: `sample as i32`, or its negation.
unfoldable pub magnitude_of : ℕ → ℕ
unfolding sign_of
magnitude_of sample = if not (sign_of sample == 0) then 2 ^ 16 - sample else sample

-- The clipped and biased magnitude.
unfoldable pub biased : ℕ → ℕ
unfolding magnitude_of
biased sample =
    let magnitude = magnitude_of sample in (if ltb clip magnitude then clip else magnitude) + bias

-- The last three lines: segment, mantissa, and the three fields put together.
unfoldable pub pack_ulaw : ℕ → ℕ → ℕ
pack_ulaw sign magnitude =
    let exponent = get_or exp_lut (bit_and (magnitude >>> 7) 0xff) 0 in
    let mantissa = u8 (bit_and (magnitude >>> (exponent + 3)) 0x0f) in
    complement (bit_or (bit_or sign (u8 (exponent <<< 4))) mantissa)

unfoldable pub slin_sample_to_ulaw : ℕ → ℕ
slin_sample_to_ulaw sample = pack_ulaw (sign_of sample) (biased sample)

unfoldable pub ulaw_sample_to_slin : ℕ → ℕ
ulaw_sample_to_slin u_val =
    let u = complement u_val in
    let sign = bit_and u 0x80 in
    let exponent = bit_and u 0x70 >>> 4 in
    let mantissa = bit_and u 0x0f in
    let sample = (((mantissa <<< 3) + bias) <<< exponent) - bias in
    if not (sign == 0) then u16 (2 ^ 16 - u16 sample) else u16 sample

-- The body of the loop over `chunks_exact(2)`.
unfoldable pub encode_chunks : Bytes → Bytes
encode_chunks [] = []
encode_chunks (lo ∷ []) = []
encode_chunks (lo ∷ hi ∷ rest) = slin_sample_to_ulaw (i16_from_le lo hi) ∷ encode_chunks rest

unfoldable pub encode_ulaw : {E : Type 0} → Bytes → Outcome E Bytes
unfolding encode_chunks
encode_ulaw slin = do assert (length slin % 2 == 0); ok (encode_chunks slin)

unfoldable pub decode_ulaw : Bytes → Bytes
decode_ulaw [] = []
decode_ulaw (byte ∷ ulaw) = i16_le_bytes (ulaw_sample_to_slin byte) ++ decode_ulaw ulaw

-- `buf.pop()`: all but the last byte, and the last.
unfoldable pub pop : Bytes → Bytes × Option ℕ
pop [] = ([], none)
pop (b ∷ []) = ([], some b)
pop (b ∷ c ∷ bs) = let (front, last) = pop (c ∷ bs) in (b ∷ front, last)

abbrev pub residual_bytes : Option ℕ → Bytes
residual_bytes none = []
residual_bytes (some r) = r ∷ []

-- The buffer to encode, and the residual byte left for the next read.
unfoldable pub align_slin_buffer : Option ℕ → Bytes → Bytes × Option ℕ
unfolding pop
align_slin_buffer residual data' =
    let buf = residual_bytes residual ++ data' in
    if not (length buf % 2 == 0) then pop buf else (buf, none)
