-- ===== src/Rtp/Tests.antt =====
-- The tests of rtp.rs, and runs of its theorems.
use slmodem_sip_bridge.Base.{
  ◌≤◌, ◌<◌, ◌≡◌, ◌≢◌, ◌↔◌, ◌⊎◌, refl, arith, [], ◌∷◌, Option, some, Bytes, length, get_elem?,
}
use slmodem_sip_bridge.Base.Outcome.{ok, panic}
use slmodem_sip_bridge.Rtp.Clock.{build_all, header_after, build_all_lem}
use slmodem_sip_bridge.Rtp.Layout.{Layout, parse_packet_iff}
use slmodem_sip_bridge.Rtp.RoundTrip.{read_header, send_packet_lem}
use slmodem_sip_bridge.Rtp.{RtpSender, build_packet, send_packet, parse_packet}

abbrev sender : RtpSender
sender = record { ssrc = 0xdeadbeef; seq = 65535; timestamp = 4294967295 }

abbrev packet : Bytes
packet = 0x80 ∷ 0 ∷ 0 ∷ 1 ∷ 0 ∷ 0 ∷ 0 ∷ 160 ∷ 0xde ∷ 0xad ∷ 0xbe ∷ 0xef ∷ 0xff ∷ 0x7f ∷ []

abbrev three : Bytes
three = 3 ∷ []

build_sequence_wraps :
    ((build_packet sender (1 ∷ [])).0.seq ≡ 0) × ((build_packet sender (1 ∷ [])).0.timestamp ≡ 159)
unfolding build_packet
build_sequence_wraps = (refl, refl)

parse_packet_iff_example :
    ((result : Option Bytes) × (parse_packet {E = Unit {0}} packet ≡ ok result))
    × ((payload : Bytes)
        → (parse_packet {E = Unit {0}} packet ≡ ok (some payload)) ↔ Layout packet payload)
parse_packet_iff_example = parse_packet_iff {E = Unit {0}} packet (
  omega arith,
  (
    omega arith,
    (
      omega arith,
      (
        omega arith,
        (
          omega arith,
          (
            omega arith,
            (
              omega arith,
              (
                omega arith,
                (
                  omega arith,
                  (omega arith, (omega arith, (omega arith, (omega arith, (omega arith, tt))))),
                ),
              ),
            ),
          ),
        ),
      ),
    ),
  ),
)

send_packet_lem_example :
    ((three ≢ [])
      × (length three ≤ 1488)
      × (send_packet {E = Unit {0}} sender three ≡ ok (build_packet sender three)))
    ⊎ (((three ≡ []) ⊎ (1488 < length three)) × (send_packet {E = Unit {0}} sender three ≡ panic))
send_packet_lem_example = send_packet_lem {E = Unit {0}} sender three

build_all_lem_example :
    (p : Bytes) × (get_elem? (build_all sender ((1 ∷ 2 ∷ []) ∷ three ∷ [])).1 1 ≡ some p)
    × (read_header p ≡ some (header_after sender 1))
    × (parse_packet {E = Unit {0}} p ≡ ok (some three))
build_all_lem_example =
    build_all_lem {E = Unit {0}} sender ((1 ∷ 2 ∷ []) ∷ three ∷ []) 1 three
      (record { ssrc_lt = omega arith; seq_lt = omega arith; timestamp_lt = omega arith }) refl
      (λ e. cc)
