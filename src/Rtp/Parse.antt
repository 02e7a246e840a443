-- ===== src/Rtp/Parse.antt =====
-- `parse_packet` accepts exactly the packets that have the RTP layout, and never indexes out of
-- range.
use slmodem_sip_bridge.Base.{
  ℕ, suc, ◌+◌, ◌*◌, ◌/◌, ◌%◌, ◌<◌, bit_and, Bool, true, false, [], ◌∷◌, ◌++◌, Option, none, some,
  ltb, leb, ◌==◌, if◌then◌else◌, ◌≡◌, inl, inr, refl, ap, ◌∙◌, arith, Bytes, length, drop,
  length-append, drop-append_add, Bool-cases, length-drop, get_elem?-append, get_elem?,
}
use slmodem_sip_bridge.Base.Outcome.{Outcome, ok, ◌>>=◌}
use slmodem_sip_bridge.Base.Word.{u16_from_be}
use slmodem_sip_bridge.Rtp.Header.{version_bits, header_length_lem, has_extension_lem}
use slmodem_sip_bridge.Rtp.{
  header_length, payload_from, skip_extension, parse_body, parse_packet, index,
}

-- A payload is not empty.
abbrev pub nonempty : Bytes → Option Bytes
nonempty [] = none
nonempty (b ∷ bs) = some (b ∷ bs)

-- What follows the fixed header and the contributing sources, read from the front.
abbrev pub after_header : Bool → Bytes → Option Bytes
after_header false rest = nonempty rest
after_header true (a ∷ b ∷ hi ∷ lo ∷ rest) = nonempty (drop (4 * u16_from_be hi lo) rest)
after_header true _ = none

after_header_nil : (bit : Bool) (rest : Bytes) → rest ≡ [] → after_header bit rest ≡ none
after_header_nil false [] h = refl
after_header_nil true [] h = refl
after_header_nil bit (b ∷ bs) h = cc

payload_from-nonempty :
    {E : Type 0} (packet : Bytes) (offset : ℕ)
    → payload_from {E = E} packet offset ≡ ok (nonempty (drop offset packet))
unfolding payload_from
payload_from-nonempty {E} packet offset = go (drop offset packet) refl
  where
    go :
        (d : Bytes)
        → drop offset packet ≡ d
        → ◌≡◌ {A = Outcome E (Option Bytes)}
            (if leb (length packet) offset then ok none else ok (some (drop offset packet)))
            (ok (nonempty d))
    go [] e = ground (arith, length-drop offset packet, ap length e)
    go (b ∷ bs) e = ground (arith, length-drop offset packet, ap length e)

payload_from-append :
    {E : Type 0} (front back : Bytes) (offset : ℕ)
    → offset ≡ length front
    → payload_from {E = E} (front ++ back) offset ≡ ok (nonempty back)
payload_from-append front back offset at =
    payload_from-nonempty (front ++ back) offset
    ∙ ap (λ b. ok (nonempty b)) (drop-append_add front back offset 0 (omega arith))

-- The branch of `parse_body` for a packet with an extension.
extension_step : {E : Type 0} → Bytes → ℕ → Outcome E (Option Bytes)
extension_step packet offset =
    skip_extension packet offset
    >>= (λ o. elim o [ none ↦ ok none | some next ↦ payload_from packet next ])

skip_extension_short :
    {E : Type 0} (front back : Bytes) (offset : ℕ)
    → offset ≡ length front
    → length back < 4
    → skip_extension {E = E} (front ++ back) offset ≡ ok none
unfolding skip_extension
skip_extension_short front back offset at short =
    let e : ltb (length (front ++ back)) (offset + 4) ≡ true =
      ground (arith, length-append front back) in
    rw e

index-some :
    {E : Type 0} (packet : Bytes) (i b : ℕ)
    → get_elem? packet i ≡ some b
    → index {E = E} packet i ≡ ok b
index-some packet i b h = rw (h, index)

skip_extension_long :
    {E : Type 0} (front : Bytes) (a b hi lo : ℕ) (rest : Bytes) (offset : ℕ)
    → offset ≡ length front
    → skip_extension {E = E} (front ++ a ∷ b ∷ hi ∷ lo ∷ rest) offset
      ≡ ok (some (offset + (4 + u16_from_be hi lo * 4)))
unfolding skip_extension
skip_extension_long front a b hi lo rest offset at =
    let back = a ∷ b ∷ hi ∷ lo ∷ rest in
    let e : ltb (length (front ++ back)) (offset + 4) ≡ false =
      ground (arith, length-append front back) in
    rw (
      e,
      index-some (front ++ back) (offset + 2) hi
          (get_elem?-append front back (offset + 2) 2 (omega arith)),
      index-some (front ++ back) (offset + 3) lo
          (get_elem?-append front back (offset + 3) 3 (omega arith)),
    )

extension_step-append :
    {E : Type 0} (front back : Bytes) (offset : ℕ)
    → offset ≡ length front
    → extension_step {E = E} (front ++ back) offset ≡ ok (after_header true back)
unfolding extension_step
extension_step-append front (a ∷ b ∷ hi ∷ lo ∷ rest) offset at =
    let back = a ∷ b ∷ hi ∷ lo ∷ rest in
    rw (skip_extension_long front a b hi lo rest offset at) (
      payload_from-nonempty (front ++ back) (offset + (4 + u16_from_be hi lo * 4))
      ∙ ap (λ d. ok (nonempty d))
          (drop-append_add front back _ (suc (suc (suc (suc (4 * u16_from_be hi lo)))))
            (omega arith)))
extension_step-append front (a ∷ b ∷ c ∷ []) offset at =
    rw (skip_extension_short front (a ∷ b ∷ c ∷ []) offset at (omega arith))
extension_step-append front (a ∷ b ∷ []) offset at =
    rw (skip_extension_short front (a ∷ b ∷ []) offset at (omega arith))
extension_step-append front (a ∷ []) offset at =
    rw (skip_extension_short front (a ∷ []) offset at (omega arith))
extension_step-append front [] offset at =
    rw (skip_extension_short front [] offset at (omega arith))

-- The header of a packet: the first byte, eleven more, and four for each contributing source.
pub record HeaderAt (first : ℕ) (fixed csrc : Bytes) : Type 0 where
  pub byte : first < 256
  pub fixed_length : length fixed ≡ 11
  pub csrc_length : length csrc ≡ 4 * (first % 16)

abbrev pub header_bytes : ℕ → Bytes → Bytes → Bytes
header_bytes first fixed csrc = first ∷ (fixed ++ csrc)

module _ (first : ℕ) (fixed csrc : Bytes) (h : HeaderAt first fixed csrc) where
  length-header_bytes : header_length first ≡ length (header_bytes first fixed csrc)
  length-header_bytes = omega (arith, length-append fixed csrc, header_length_lem first h.byte)

  parse_body-append :
      {E : Type 0} (rest : Bytes)
      → parse_body {E = E} (header_bytes first fixed csrc ++ rest) first
        ≡ ok (after_header (first / 16 % 2 == 1) rest)
  unfolding parse_body extension_step
  parse_body-append rest =
      let header = header_bytes first fixed csrc in
      let long : ltb (length (header ++ rest)) (header_length first) ≡ false =
        ground (arith, length-append header rest, length-header_bytes) in
      rw (long, has_extension_lem first h.byte)
        (elim (Bool-cases (first / 16 % 2 == 1)) [
          | inl extended ↦ rw extended (extension_step-append header rest _ length-header_bytes)
          | inr plain ↦ rw plain (payload_from-append header rest _ length-header_bytes)
        ])

  -- The whole parser on a header and what follows it.
  pub parse_packet-append :
      {E : Type 0} (rest : Bytes)
      → first / 64 ≡ 2
      → parse_packet {E = E} (header_bytes first fixed csrc ++ rest)
        ≡ ok (after_header (first / 16 % 2 == 1) rest)
  unfolding parse_packet
  parse_packet-append rest version =
      let packet = header_bytes first fixed csrc ++ rest in
      let two : (bit_and (first / 64) 0x03 == 2) ≡ true =
        ground (arith, version_bits first h.byte) in
      elim (Bool-cases (ltb (length packet) 13)) [
        | inl short ↦ rw (short, after_header_nil (first / 16 % 2 == 1) rest (too_short rest short))
        | inr long ↦ rw (long, two) (parse_body-append rest)
      ]
    where
      too_short :
          (rest : Bytes)
          → ltb (length (header_bytes first fixed csrc ++ rest)) 13 ≡ true
          → rest ≡ []
      too_short [] s = refl
      too_short (b ∷ bs) s =
          absurd (ground (arith, length-append (fixed ++ csrc) (b ∷ bs), length-append fixed csrc))
