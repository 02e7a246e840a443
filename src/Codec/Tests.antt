-- ===== src/Codec/Tests.antt =====
-- The tests of codec.rs.
use slmodem_sip_bridge.Base.{
  ◌+◌, ◌*◌, ◌%◌, ◌≤◌, min, ◌≡◌, ◌⊎◌, refl, arith, [], ◌∷◌, ◌++◌, none, some, ◌==◌, if◌then◌else◌,
  Bytes, length,
}
use slmodem_sip_bridge.Base.Int.{pos, ◌≤ℤ◌, nat_abs}
use slmodem_sip_bridge.Base.Outcome.{ok, panic}
use slmodem_sip_bridge.Base.Word.{signed16}
use slmodem_sip_bridge.Codec.Buffer.{encode_ulaw_lem, encode_ulaw-decode_ulaw, no_negative_zero}
use slmodem_sip_bridge.Codec.RoundTrip.{encode-decode}
use slmodem_sip_bridge.Codec.Sample.{decode-encode_error}
use slmodem_sip_bridge.Codec.Stream.{align_slin_buffer_lem}
use slmodem_sip_bridge.Codec.{
  bias, clip, exp_lut, sign_of, biased, pack_ulaw, slin_sample_to_ulaw, ulaw_sample_to_slin,
  encode_ulaw, decode_ulaw, residual_bytes, align_slin_buffer,
}

silence_roundtrips : (slin_sample_to_ulaw 0 ≡ 0xff) × (ulaw_sample_to_slin 0xff ≡ 0)
unfolding exp_lut sign_of biased pack_ulaw slin_sample_to_ulaw ulaw_sample_to_slin
silence_roundtrips = (refl, refl)

encode_rejects_odd_byte_count : encode_ulaw {E = Unit {0}} (1 ∷ 2 ∷ 3 ∷ []) ≡ panic
unfolding encode_ulaw
encode_rejects_odd_byte_count = refl

align_handles_even_input : align_slin_buffer none (1 ∷ 2 ∷ 3 ∷ 4 ∷ []) ≡ (1 ∷ 2 ∷ 3 ∷ 4 ∷ [], none)
unfolding align_slin_buffer
align_handles_even_input = refl

align_handles_odd_input : align_slin_buffer none (1 ∷ 2 ∷ 3 ∷ []) ≡ (1 ∷ 2 ∷ [], some 3)
unfolding align_slin_buffer
align_handles_odd_input = refl

align_prepends_residual :
    align_slin_buffer (some 0xaa) (0xbb ∷ 0xcc ∷ 0xdd ∷ []) ≡ (0xaa ∷ 0xbb ∷ 0xcc ∷ 0xdd ∷ [], none)
unfolding align_slin_buffer
align_prepends_residual = refl

decode-encode_error_example :
    let before = signed16 0xfc18 in
    let after = signed16 (ulaw_sample_to_slin (slin_sample_to_ulaw 0xfc18)) in
    let wanted = min (nat_abs before) clip in
    (pos 0 ≤ℤ before → pos 0 ≤ℤ after)
    × (before ≤ℤ pos 0 → after ≤ℤ pos 0)
    × (32 * nat_abs after ≤ 32 * wanted + (wanted + bias))
    × (32 * wanted ≤ 32 * nat_abs after + (wanted + bias))
decode-encode_error_example = decode-encode_error 0xfc18 (omega arith)

encode-decode_example :
    slin_sample_to_ulaw (ulaw_sample_to_slin 0x7f) ≡ (if 0x7f == 0x7f then 0xff else 0x7f)
encode-decode_example = encode-decode 0x7f (omega arith)

encode_ulaw-decode_ulaw_example :
    encode_ulaw {E = Unit {0}} (decode_ulaw (0x12 ∷ 0x7f ∷ 0xff ∷ []))
    ≡ ok (no_negative_zero (0x12 ∷ 0x7f ∷ 0xff ∷ []))
encode_ulaw-decode_ulaw_example =
    encode_ulaw-decode_ulaw {E = Unit {0}} (0x12 ∷ 0x7f ∷ 0xff ∷ [])
      (omega arith, (omega arith, (omega arith, tt)))

abbrev three_bytes : Bytes
three_bytes = 1 ∷ 2 ∷ 3 ∷ []

encode_ulaw_lem_example :
    ((length three_bytes % 2 ≡ 1) × (encode_ulaw {E = Unit {0}} three_bytes ≡ panic))
    ⊎ ((ulaw : Bytes) × (encode_ulaw {E = Unit {0}} three_bytes ≡ ok ulaw)
        × (length three_bytes ≡ 2 * length ulaw))
encode_ulaw_lem_example = encode_ulaw_lem {E = Unit {0}} three_bytes

align_slin_buffer_lem_example :
    let (buf, residual') = align_slin_buffer (some 9) (1 ∷ 2 ∷ []) in
    (residual_bytes (some 9) ++ (1 ∷ 2 ∷ []) ≡ buf ++ residual_bytes residual')
    × (length buf % 2 ≡ 0)
align_slin_buffer_lem_example = align_slin_buffer_lem (some 9) (1 ∷ 2 ∷ [])
