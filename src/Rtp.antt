-- ===== src/Rtp.antt =====
-- rtp.rs: packets of PCMU audio. A sender is its SSRC and the next sequence number and timestamp;
-- the UDP socket is not part of the model, sending and receiving are in Bridge/Relay.
pub mod Header
pub mod Parse
pub mod Layout
pub mod RoundTrip
pub mod Clock
mod Tests
use slmodem_sip_bridge.Base.{
  ℕ, ◌+◌, ◌-◌, ◌*◌, ◌/◌, ◌%◌, ◌^◌, bit_and, Bool, not, List, [], ◌∷◌, ◌++◌, Option, none, some, ltb,
  leb, ◌==◌, if◌then◌else◌, Bytes, length, get_elem?, drop, take, is_nil,
}
use slmodem_sip_bridge.Base.Outcome.{Outcome, ok, panic, ◌>>=◌, ◌>>◌, assert}
use slmodem_sip_bridge.Base.Word.{u16, u32, ◌>>>◌, u16_be_bytes, u32_be_bytes, u16_from_be}

abbrev pub rtp_header_size : ℕ
rtp_header_size = 12

abbrev pub pt_pcmu : ℕ
pt_pcmu = 0

abbrev pub timestamp_increment : ℕ
timestamp_increment = 160

abbrev pub max_rtp_packet_size : ℕ
max_rtp_packet_size = 1500

abbrev pub min_rtp_packet_size : ℕ
min_rtp_packet_size = rtp_header_size + 1

pub record RtpSender : Type 0 where
  pub ssrc : ℕ
  pub seq : ℕ
  pub timestamp : ℕ

-- The sender of `create_rtp_pair`.
unfoldable pub create_rtp_sender : ℕ → RtpSender
create_rtp_sender ssrc = record { ssrc = ssrc; seq = 0; timestamp = 0 }

unfoldable pub build_packet : RtpSender → Bytes → RtpSender × Bytes
build_packet sender payload =
    let packet =
      0x80
      ∷ pt_pcmu
      ∷ (u16_be_bytes sender.seq
          ++ (u32_be_bytes sender.timestamp ++ (u32_be_bytes sender.ssrc ++ payload))) in
    (
      record sender {
        seq = u16 (sender.seq + 1);
        timestamp = u32 (sender.timestamp + timestamp_increment);
      },
      packet,
    )

-- The packet that goes to the socket, and the sender behind it.
unfoldable pub send_packet : {E : Type 0} → RtpSender → Bytes → Outcome E (RtpSender × Bytes)
send_packet sender payload = do
  assert (not (is_nil payload))
  assert (leb (length payload) (max_rtp_packet_size - rtp_header_size))
  ok (build_packet sender payload)

-- The length of the header with its contributing sources, from the first byte.
unfoldable pub header_length : ℕ → ℕ
header_length first = rtp_header_size + bit_and first 0x0f * 4

unfoldable pub has_extension : ℕ → Bool
has_extension first = not (bit_and first 0x10 == 0)

-- `data[i]`: a position out of range is a panic.
abbrev pub index : {E : Type 0} → Bytes → ℕ → Outcome E ℕ
index packet i = elim (get_elem? packet i) [ none ↦ panic | some b ↦ ok b ]

-- The check behind the header and the extension: what is left is the payload.
unfoldable pub payload_from : {E : Type 0} → Bytes → ℕ → Outcome E (Option Bytes)
payload_from packet offset =
    if leb (length packet) offset then ok none else ok (some (drop offset packet))

-- `if has_extension { ... }` with the offset behind the header; `none` returns `None`.
unfoldable pub skip_extension : {E : Type 0} → Bytes → ℕ → Outcome E (Option ℕ)
skip_extension packet offset = if ltb (length packet) (offset + 4) then ok none else (do
  hi ← index packet (offset + 2)
  lo ← index packet (offset + 3)
  ok (some (offset + (4 + u16_from_be hi lo * 4))))

-- What follows the check of the version, with the first byte.
unfoldable pub parse_body : {E : Type 0} → Bytes → ℕ → Outcome E (Option Bytes)
unfolding payload_from skip_extension
parse_body packet first =
    let header_len = header_length first in
    if ltb (length packet) header_len
    then ok none
    else if has_extension first
    then skip_extension packet header_len
      >>= (λ o. elim o [ none ↦ ok none | some offset ↦ payload_from packet offset ])
    else payload_from packet header_len

unfoldable pub parse_packet : {E : Type 0} → Bytes → Outcome E (Option Bytes)
parse_packet packet = if ltb (length packet) min_rtp_packet_size then ok none else (do
  first ← index packet 0
  if not (bit_and (first >>> 6) 0x03 == 2) then ok none else parse_body packet first)

-- `recv_packet` on a datagram: the socket gives at most the size of the buffer.
unfoldable pub recv_packet : {E : Type 0} → Bytes → Outcome E (Option Bytes)
recv_packet datagram = parse_packet (take max_rtp_packet_size datagram)
