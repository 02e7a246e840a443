-- ===== src/Codec/RoundTrip.antt =====
-- From the µ-law side: every code but the negative zero is encoded back to itself.
use slmodem_sip_bridge.Base.{
  ℕ, ◌<◌, ◌≡◌, true, ◌&&◌, refl, arith, ltb, ◌==◌, if◌then◌else◌, every_under, every_under-true,
}
use slmodem_sip_bridge.Codec.{
  exp_lut, sign_of, biased, pack_ulaw, slin_sample_to_ulaw, ulaw_sample_to_slin,
}

encode-decode_table :
    every_under 256 (λ u.
      ltb (ulaw_sample_to_slin u) 65536
      && (slin_sample_to_ulaw (ulaw_sample_to_slin u) == (if u == 0x7f then 0xff else u)))
    ≡ true
unfolding every_under exp_lut sign_of biased pack_ulaw slin_sample_to_ulaw ulaw_sample_to_slin
encode-decode_table = refl

pub ulaw_sample_to_slin-lt : (u : ℕ) → u < 256 → ulaw_sample_to_slin u < 65536
ulaw_sample_to_slin-lt u h = ground (arith, every_under-true 256 _ encode-decode_table u h)

-- Every µ-law byte is decoded to a sample that is encoded to the same byte; only 0x7F, the negative
-- zero, comes back as 0xFF, the positive one.
pub encode-decode :
    (u : ℕ)
    → u < 256
    → slin_sample_to_ulaw (ulaw_sample_to_slin u) ≡ (if u == 0x7f then 0xff else u)
encode-decode u h = ground (arith, every_under-true 256 _ encode-decode_table u h)
