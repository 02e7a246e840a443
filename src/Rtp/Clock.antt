-- ===== src/Rtp/Clock.antt =====
-- A stream of packets: sequence numbers count packets, timestamps count 160 for each, both modulo
-- their width, whatever the payloads are.
use slmodem_sip_bridge.Base.{
  ℕ, zero, suc, ◌+◌, ◌*◌, List, [], ◌∷◌, some, ◌≡◌, ◌≢◌, refl, ap, ◌∙◌, arith, Bytes, get_elem?,
}
use slmodem_sip_bridge.Base.Outcome.{ok}
use slmodem_sip_bridge.Base.Word.{u16, u32}
use slmodem_sip_bridge.Rtp.RoundTrip.{
  IsSender, build_packet-IsSender, Header, read_header, read_header-build_packet,
  parse_packet-build_packet,
}
use slmodem_sip_bridge.Rtp.{RtpSender, build_packet, parse_packet}

-- One packet for each payload.
unfoldable pub build_all : RtpSender → List Bytes → RtpSender × List Bytes
build_all s [] = (s, [])
build_all s (p ∷ ps) =
    let (s', packet) = build_packet s p in
    let (s'', packets) = build_all s' ps in (s'', packet ∷ packets)

abbrev pub header_after : RtpSender → ℕ → Header
header_after s n = record {
  seq = u16 (s.seq + n);
  timestamp = u32 (s.timestamp + 160 * n);
  ssrc = s.ssrc;
}

build_packet-state :
    (s : RtpSender) (p : Bytes)
    → ((build_packet s p).0.seq ≡ u16 (s.seq + 1))
      × ((build_packet s p).0.timestamp ≡ u32 (s.timestamp + 160))
      × ((build_packet s p).0.ssrc ≡ s.ssrc)
unfolding build_packet
build_packet-state s p = (refl, refl, refl)

header_after-suc :
    (s : RtpSender) (p : Bytes) (n : ℕ)
    → header_after (build_packet s p).0 n ≡ header_after s (suc n)
header_after-suc s p n = ground (arith, build_packet-state s p)

-- For a sender whose fields are in their ranges, packet number `i` (from 0) of a stream carries
-- payload number `i`, if that is not empty, and the sequence number and timestamp of the start
-- plus `i` and 160 * `i`, in 16 and 32 bits.
pub build_all_lem :
    {E : Type 0} (s : RtpSender) (payloads : List Bytes) (i : ℕ) (payload : Bytes)
    → IsSender s
    → get_elem? payloads i ≡ some payload
    → payload ≢ []
    → (packet : Bytes) × (get_elem? (build_all s payloads).1 i ≡ some packet)
      × (read_header packet ≡ some (header_after s i))
      × (parse_packet {E = E} packet ≡ ok (some payload))
unfolding build_all
build_all_lem s [] i payload v h ne = absurd (ground arith)
build_all_lem s (p ∷ ps) zero payload v h ne =
    let same : p ≡ payload = ground arith in
    (
      (build_packet s p).1,
      refl,
      ground (arith, read_header-build_packet s p v),
      rw same (parse_packet-build_packet s payload ne),
    )
build_all_lem s (p ∷ ps) (suc i) payload v h ne =
    let (packet, at, header, parsed) =
      build_all_lem (build_packet s p).0 ps i payload (build_packet-IsSender s p v) h ne in
    (packet, at, header ∙ ap some (header_after-suc s p i), parsed)
