-- ===== src/Codec/Buffer.antt =====
-- Whole buffers: which inputs are accepted, how long the output is, and the round trip.
use slmodem_sip_bridge.Base.{
  ℕ, ◌*◌, ◌/◌, ◌%◌, ◌^◌, ◌<◌, ◌≡◌, ◌⊎◌, inl, inr, refl, ap, arith, [], ◌∷◌, ◌++◌, ◌==◌,
  if◌then◌else◌, Bytes, length, All, Bool-cases, Option, none, some,
}
use slmodem_sip_bridge.Base.Outcome.{ok, panic}
use slmodem_sip_bridge.Base.Word.{i16_from_le}
use slmodem_sip_bridge.Codec.RoundTrip.{encode-decode, ulaw_sample_to_slin-lt}
use slmodem_sip_bridge.Codec.{
  residual_bytes, slin_sample_to_ulaw, ulaw_sample_to_slin, encode_chunks, encode_ulaw, decode_ulaw,
}

abbrev pub IsByte : ℕ → Type 0
IsByte b = b < 256

pub length-encode_chunks : (slin : Bytes) → length (encode_chunks slin) ≡ length slin / 2
unfolding encode_chunks
length-encode_chunks [] = refl
length-encode_chunks (lo ∷ []) = refl
length-encode_chunks (lo ∷ hi ∷ rest) = omega (arith, length-encode_chunks rest)

-- A buffer with an odd number of bytes is a panic; any other gives an output with one byte for
-- each sample.
pub encode_ulaw_lem :
    {E : Type 0} (slin : Bytes)
    → ((length slin % 2 ≡ 1) × (encode_ulaw {E = E} slin ≡ panic))
      ⊎ ((ulaw : Bytes) × (encode_ulaw {E = E} slin ≡ ok ulaw) × (length slin ≡ 2 * length ulaw))
unfolding encode_ulaw
encode_ulaw_lem slin = elim (Bool-cases (length slin % 2 == 0)) [
  | inl even ↦ inr (encode_chunks slin, rw even, ground (arith, length-encode_chunks slin))
  | inr odd ↦ inl (ground arith, rw odd)
]

pub length-decode_ulaw : (ulaw : Bytes) → length (decode_ulaw ulaw) ≡ 2 * length ulaw
unfolding decode_ulaw
length-decode_ulaw [] = refl
length-decode_ulaw (b ∷ ulaw) = omega (arith, length-decode_ulaw ulaw)

-- What the far end hears again when its own audio is sent back: the same bytes, with the negative
-- zero made positive.
abbrev pub no_negative_zero : Bytes → Bytes
no_negative_zero [] = []
no_negative_zero (u ∷ us) = (if u == 0x7f then 0xff else u) ∷ no_negative_zero us

encode_chunks-decode_ulaw :
    (ulaw : Bytes) → All IsByte ulaw → encode_chunks (decode_ulaw ulaw) ≡ no_negative_zero ulaw
unfolding encode_chunks decode_ulaw
encode_chunks-decode_ulaw [] h = refl
encode_chunks-decode_ulaw (u ∷ us) (hu, hus) =
    let w = ulaw_sample_to_slin u in
    let whole : i16_from_le (w % 2 ^ 8) (w / 2 ^ 8 % 2 ^ 8) ≡ w =
      omega (arith, ulaw_sample_to_slin-lt u hu) in
    rw (whole, encode-decode u hu, encode_chunks-decode_ulaw us hus)

-- A buffer of µ-law bytes survives decoding and encoding, but for the negative zeros in it.
pub encode_ulaw-decode_ulaw :
    {E : Type 0} (ulaw : Bytes)
    → All IsByte ulaw
    → encode_ulaw {E = E} (decode_ulaw ulaw) ≡ ok (no_negative_zero ulaw)
unfolding encode_ulaw
encode_ulaw-decode_ulaw ulaw h =
    let even : length (decode_ulaw ulaw) % 2 ≡ 0 = omega (arith, length-decode_ulaw ulaw) in
    rw even (ap ok (encode_chunks-decode_ulaw ulaw h))

-- Two buffers of whole samples can be encoded one after the other.
pub encode_chunks-append :
    (xs ys : Bytes)
    → length xs % 2 ≡ 0
    → encode_chunks (xs ++ ys) ≡ encode_chunks xs ++ encode_chunks ys
unfolding encode_chunks
encode_chunks-append [] ys h = refl
encode_chunks-append (x ∷ []) ys h = absurd (omega arith)
encode_chunks-append (x ∷ y ∷ xs) ys h =
    ap (◌∷◌ (slin_sample_to_ulaw (i16_from_le x y))) (encode_chunks-append xs ys (omega arith))

-- The trailing byte of an odd buffer is not encoded.
pub encode_chunks-residual :
    (xs : Bytes) (r : Option ℕ)
    → length xs % 2 ≡ 0
    → encode_chunks (xs ++ residual_bytes r) ≡ encode_chunks xs
unfolding encode_chunks
encode_chunks-residual [] none h = refl
encode_chunks-residual [] (some r) h = refl
encode_chunks-residual (x ∷ []) r h = absurd (omega arith)
encode_chunks-residual (x ∷ y ∷ xs) r h =
    ap (◌∷◌ (slin_sample_to_ulaw (i16_from_le x y))) (encode_chunks-residual xs r (omega arith))
