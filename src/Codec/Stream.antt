-- ===== src/Codec/Stream.antt =====
-- `align_slin_buffer` cuts a stream of bytes into whole samples, wherever the reads split it.
use slmodem_sip_bridge.Base.{
  ℕ, suc, ◌%◌, ◌≡◌, refl, ap, sym, arith, inl, inr, Bool-cases, [], ◌∷◌, ◌++◌, append-nil, Option,
  none, ◌==◌, Bytes, length, not, if◌then◌else◌,
}
use slmodem_sip_bridge.Codec.{pop, residual_bytes, align_slin_buffer}

pop_lem :
    (b : ℕ) (bs : Bytes)
    → ((pop (b ∷ bs)).0 ++ residual_bytes (pop (b ∷ bs)).1 ≡ b ∷ bs)
      × (suc (length (pop (b ∷ bs)).0) ≡ length (b ∷ bs))
unfolding pop
pop_lem b [] = (refl, refl)
pop_lem b (c ∷ bs) = let (joined, fewer) = pop_lem c bs in (ap (◌∷◌ b) joined, ap suc fewer)

-- The residual byte and the chunk are the returned buffer and the new residual byte, in this
-- order, and the buffer is whole samples.
pub align_slin_buffer_lem :
    (residual : Option ℕ) (chunk : Bytes)
    → let (buf, residual') = align_slin_buffer residual chunk in
      (residual_bytes residual ++ chunk ≡ buf ++ residual_bytes residual') × (length buf % 2 ≡ 0)
unfolding align_slin_buffer
align_slin_buffer_lem residual chunk = go (residual_bytes residual ++ chunk)
  where
    go :
        (buf : Bytes)
        → let (buf', residual') = if not (length buf % 2 == 0) then pop buf else (buf, none) in
          (buf ≡ buf' ++ residual_bytes residual') × (length buf' % 2 ≡ 0)
    go [] = (refl, refl)
    go (b ∷ bs) = elim (Bool-cases (length (b ∷ bs) % 2 == 0)) [
      | inl even ↦ rw even (sym (append-nil (b ∷ bs)), ground arith)
      | inr odd ↦ rw odd (sym (pop_lem b bs).0, ground (arith, (pop_lem b bs).1))
    ]
