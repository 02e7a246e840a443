-- ===== src/Codec/Sample.antt =====
-- One sample through the encoder and the decoder: the fields that `pack_ulaw` writes are the ones
-- that `ulaw_sample_to_slin` reads, and what comes out is close to what went in.
use slmodem_sip_bridge.Base.{
  ℕ, zero, suc, ◌+◌, ◌-◌, ◌*◌, ◌/◌, ◌%◌, ◌^◌, ◌≤◌, ◌<◌, min, ◌≡◌, arith, ltb, ◌==◌, if◌then◌else◌,
  get_or, bit_and,
}
use slmodem_sip_bridge.Base.Int.{pos, ◌≤ℤ◌, nat_abs}
use slmodem_sip_bridge.Base.Word.{u8, u16, signed16}
use slmodem_sip_bridge.Codec.Pack.{
  bit_and-0xff, bit_and-0x80, bit_and-0x0f, bit_and-0x70, bit_or_fields, exp_lut_log2,
}
use slmodem_sip_bridge.Codec.{
  bias, clip, exp_lut, complement, sign_of, biased, pack_ulaw, slin_sample_to_ulaw,
  ulaw_sample_to_slin,
}

pub sign_of_lem : (w : ℕ) → w < 2 ^ 16 → sign_of w ≡ 128 * (w / 2 ^ 15)
unfolding sign_of
sign_of_lem w h = omega (arith, bit_and-0x80 (u8 (w / 2 ^ 8)) (omega arith))

-- The magnitude is the absolute value, clipped, plus the bias: it has at most 15 bits.
pub biased_lem : (w : ℕ) → w < 2 ^ 16 → biased w ≡ min (nat_abs (signed16 w)) clip + bias
unfolding biased
biased_lem w h = ground (arith, sign_of_lem w h)

-- The segment of a biased magnitude.
abbrev pub segment : ℕ → ℕ
segment m = get_or exp_lut (m / 128) 0

-- A fact about segments, proved for each of the eight.
pub by_segment {ℓ} :
    (P : ℕ → Type ℓ) → P 0 → P 1 → P 2 → P 3 → P 4 → P 5 → P 6 → P 7 → (e : ℕ) → e ≤ 7 → P e
by_segment P a b c d e f g h zero lt = a
by_segment P a b c d e f g h (suc zero) lt = b
by_segment P a b c d e f g h (suc (suc zero)) lt = c
by_segment P a b c d e f g h (suc (suc (suc zero))) lt = d
by_segment P a b c d e f g h (suc (suc (suc (suc zero)))) lt = e
by_segment P a b c d e f g h (suc (suc (suc (suc (suc zero))))) lt = f
by_segment P a b c d e f g h (suc (suc (suc (suc (suc (suc zero)))))) lt = g
by_segment P a b c d e f g h (suc (suc (suc (suc (suc (suc (suc zero))))))) lt = h
by_segment P a b c d e f g h (suc (suc (suc (suc (suc (suc (suc (suc n)))))))) lt =
    absurd (omega arith)

-- The middle of the quantisation step that holds `m` in segment `e`, bias included.
abbrev pub level : ℕ → ℕ → ℕ
level e m = m / 2 ^ (e + 3) * 2 ^ (e + 3) + 2 ^ (e + 2)

-- What the segment `e` of a biased magnitude `m` says of it: sixteen steps, numbered 16 to 31, and
-- a middle that is at most half a step off.
pub record InSegment (m e : ℕ) : Type 0 where
  pub segment_le : e ≤ 7
  pub step_ge : 16 ≤ m / 2 ^ (e + 3)
  pub step_lt : m / 2 ^ (e + 3) < 32
  pub decoded : ((m / 2 ^ (e + 3) % 16) * 2 ^ 3 + bias) * 2 ^ e ≡ level e m
  pub level_ge : bias ≤ level e m
  pub level_lt : level e m < 2 ^ 15
  pub above : 32 * level e m ≤ 33 * m
  pub below : 31 * m ≤ 32 * level e m

pub segment-InSegment : (m : ℕ) → 128 ≤ m → m < 2 ^ 15 → InSegment m (segment m)
segment-InSegment m lo hi =
    let (seven, ge, lt) = exp_lut_log2 (m / 128) (omega arith) (omega arith) in
    by_segment (λ e. 2 ^ e ≤ m / 128 → m / 128 < 2 ^ (e + 1) → InSegment m e) (λ g l. omega arith)
      (λ g l. omega arith) (λ g l. omega arith) (λ g l. omega arith) (λ g l. omega arith)
      (λ g l. omega arith) (λ g l. omega arith) (λ g l. omega arith) (segment m) seven ge lt

-- The byte before the inversion of all bits.
abbrev pub fields : ℕ → ℕ → ℕ
fields s m = 128 * s + 16 * segment m + m / 2 ^ (segment m + 3) % 16

pub pack_ulaw-fields :
    (s m : ℕ)
    → s < 2
    → 128 ≤ m
    → m < 2 ^ 15
    → (pack_ulaw (128 * s) m ≡ complement (fields s m)) × (fields s m < 256)
unfolding pack_ulaw
pack_ulaw-fields s m hs lo hi =
    let e = segment m in
    let f : InSegment m e = segment-InSegment m lo hi in
    let step = m / 2 ^ (e + 3) in
    let index = bit_and-0xff (m / 128) (omega arith) in
    let mantissa = bit_and-0x0f step (omega arith) in
    let joined = bit_or_fields s e (step % 16) hs (omega arith) (omega arith) in
    let high : u8 (e * 2 ^ 4) ≡ 16 * e = omega arith in
    let low : u8 (step % 16) ≡ step % 16 = omega arith in
    (rw (index, mantissa, high, low, joined), omega arith)

-- The decoder reads the sign bit back, and the middle of the step that the encoder chose.
pub decode-fields :
    (s m : ℕ)
    → s < 2
    → 128 ≤ m
    → m < 2 ^ 15
    → ulaw_sample_to_slin (complement (fields s m))
      ≡ (let d = level (segment m) m - bias in if s == 0 then d else u16 (2 ^ 16 - d))
unfolding ulaw_sample_to_slin
decode-fields s m hs lo hi =
    let e = segment m in
    let f : InSegment m e = segment-InSegment m lo hi in
    let step = m / 2 ^ (e + 3) in
    let u = fields s m in
    let twice : complement (complement u) ≡ u = omega arith in
    let sign : bit_and u 0x80 ≡ 128 * s = omega (arith, bit_and-0x80 u (omega arith)) in
    let exponent : bit_and u 0x70 / 2 ^ 4 ≡ e = omega (arith, bit_and-0x70 u (omega arith)) in
    let mantissa : bit_and u 0x0f ≡ step % 16 = omega (arith, bit_and-0x0f u (omega arith)) in
    rw (twice, sign, exponent, mantissa, f.decoded) (ground arith)

-- The biased magnitude of a sample, in the range that the segments cover.
abbrev InRange : ℕ → Type 0
InRange m = (bias ≤ m) × (m < 2 ^ 15)

biased-InRange : (w : ℕ) → w < 2 ^ 16 → InRange (biased w)
biased-InRange w h = omega (arith, biased_lem w h)

-- What comes back for a sample: the middle of its step, with the sample's sign.
abbrev pub quantised : ℕ → ℕ
quantised w = level (segment (biased w)) (biased w) - bias

pub decode-encode :
    (w : ℕ)
    → w < 2 ^ 16
    → ulaw_sample_to_slin (slin_sample_to_ulaw w)
      ≡ (if ltb w (2 ^ 15) then quantised w else u16 (2 ^ 16 - quantised w))
unfolding slin_sample_to_ulaw
decode-encode w h =
    let s = w / 2 ^ 15 in
    let m = biased w in
    let range : InRange m = biased-InRange w h in
    let packed = (pack_ulaw-fields s m (omega arith) (omega arith) (omega arith)).0 in
    let decoded = decode-fields s m (omega arith) (omega arith) (omega arith) in
    rw (sign_of_lem w h, packed, decoded) (ground arith)

-- For every 16-bit sample, encoding and decoding keeps the sign (or gives 0), and changes the
-- magnitude, once that is clipped to 32635, by at most a 32nd of the biased magnitude.
pub decode-encode_error :
    (w : ℕ)
    → w < 2 ^ 16
    → let before = signed16 w in
      let after = signed16 (ulaw_sample_to_slin (slin_sample_to_ulaw w)) in
      let wanted = min (nat_abs before) clip in
      (pos 0 ≤ℤ before → pos 0 ≤ℤ after)
      × (before ≤ℤ pos 0 → after ≤ℤ pos 0)
      × (32 * nat_abs after ≤ 32 * wanted + (wanted + bias))
      × (32 * wanted ≤ 32 * nat_abs after + (wanted + bias))
decode-encode_error w h =
    let m = biased w in
    let range : InRange m = biased-InRange w h in
    let f : InSegment m (segment m) = segment-InSegment m (omega arith) (omega arith) in
    let exact : m ≡ min (nat_abs (signed16 w)) clip + bias = biased_lem w h in
    rw (decode-encode w h) (ground arith)
