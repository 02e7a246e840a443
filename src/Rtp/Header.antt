-- ===== src/Rtp/Header.antt =====
-- The bits of an RTP header's first byte.
use slmodem_sip_bridge.Base.{
  ℕ, ◌+◌, ◌*◌, ◌/◌, ◌%◌, ◌<◌, bit_and, true, ◌≡◌, refl, arith, ◌==◌, every_under, every_under-true,
  ◌&&◌,
}
use slmodem_sip_bridge.Codec.Pack.{bit_and-0x0f}
use slmodem_sip_bridge.Rtp.{header_length, has_extension}

first_byte_table :
    every_under 256
      (λ x. (bit_and (x / 64) 0x03 == x / 64) && (bit_and x 0x10 == 16 * (x / 16 % 2)))
    ≡ true
unfolding every_under
first_byte_table = refl

pub version_bits : (x : ℕ) → x < 256 → bit_and (x / 64) 0x03 ≡ x / 64
version_bits x h = ground (arith, every_under-true 256 _ first_byte_table x h)

pub header_length_lem : (x : ℕ) → x < 256 → header_length x ≡ 12 + 4 * (x % 16)
unfolding header_length
header_length_lem x h = omega (arith, bit_and-0x0f x (omega arith))

pub has_extension_lem : (x : ℕ) → x < 256 → has_extension x ≡ (x / 16 % 2 == 1)
unfolding has_extension
has_extension_lem x h = ground (arith, every_under-true 256 _ first_byte_table x h)
