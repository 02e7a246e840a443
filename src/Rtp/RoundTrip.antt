-- ===== src/Rtp/RoundTrip.antt =====
-- What a sender builds, a receiver accepts; and what the header says.
use slmodem_sip_bridge.Base.{
  ℕ, ◌+◌, ◌^◌, ◌≤◌, ◌<◌, [], ◌∷◌, ◌++◌, Option, none, some, leb, ◌≡◌, ◌≢◌, ◌⊎◌, inl, inr,
  Bool-cases, refl, arith, Bytes, length,
}
use slmodem_sip_bridge.Base.Outcome.{ok, panic}
use slmodem_sip_bridge.Base.Word.{u16_be_bytes, u32_be_bytes, u16_from_be, u32_from_be}
use slmodem_sip_bridge.Rtp.Layout.{Layout-parse, absent}
use slmodem_sip_bridge.Rtp.{RtpSender, build_packet, send_packet, parse_packet}

-- The values that the fields of a sender have in Rust.
pub record IsSender (s : RtpSender) : Type 0 where
  pub ssrc_lt : s.ssrc < 2 ^ 32
  pub seq_lt : s.seq < 2 ^ 16
  pub timestamp_lt : s.timestamp < 2 ^ 32

pub build_packet-IsSender :
    (s : RtpSender) (payload : Bytes) → IsSender s → IsSender (build_packet s payload).0
unfolding build_packet
build_packet-IsSender s payload v = omega arith

-- A packet that a sender builds has the RTP layout.
pub parse_packet-build_packet :
    {E : Type 0} (s : RtpSender) (payload : Bytes)
    → payload ≢ []
    → parse_packet {E = E} (build_packet s payload).1 ≡ ok (some payload)
unfolding build_packet
parse_packet-build_packet s payload ne = Layout-parse (build_packet s payload).1 payload (record {
  first = 0x80;
  fixed = 0 ∷ (u16_be_bytes s.seq ++ (u32_be_bytes s.timestamp ++ u32_be_bytes s.ssrc));
  csrc = [];
  extension = [];
  header = record { byte = omega arith; fixed_length = refl; csrc_length = refl };
  version = refl;
  extended = absent;
  split = refl;
  ne_nil = ne;
})

pub length-build_packet :
    (s : RtpSender) (payload : Bytes) → length (build_packet s payload).1 ≡ 12 + length payload
unfolding build_packet
length-build_packet s payload = omega arith

-- The assertions of `send_packet` hold exactly for payloads of 1 to 1488 bytes; such a payload goes
-- out as the packet that `build_packet` makes.
pub send_packet_lem :
    {E : Type 0} (s : RtpSender) (payload : Bytes)
    → ((payload ≢ [])
        × (length payload ≤ 1488)
        × (send_packet {E = E} s payload ≡ ok (build_packet s payload)))
      ⊎ (((payload ≡ []) ⊎ (1488 < length payload)) × (send_packet {E = E} s payload ≡ panic))
unfolding send_packet
send_packet_lem s [] = inr (inl refl, refl)
send_packet_lem s (b ∷ bs) = elim (Bool-cases (leb (length (b ∷ bs)) 1488)) [
  | inl fits ↦ inl ((λ e. cc), ground arith, rw fits)
  | inr long ↦ inr (inr (ground arith), rw long)
]

-- The two, four and four bytes of the header, read as big-endian numbers.
pub record Header : Type 0 where
  pub seq : ℕ
  pub timestamp : ℕ
  pub ssrc : ℕ

unfoldable pub read_header : Bytes → Option Header
read_header (_ ∷ _ ∷ a ∷ b ∷ c ∷ d ∷ e ∷ f ∷ g ∷ h ∷ i ∷ j ∷ _) =
    some (record {
      seq = u16_from_be a b;
      timestamp = u32_from_be c d e f;
      ssrc = u32_from_be g h i j;
    })
read_header _ = none

-- The header of a packet is the sender's state before it was built.
pub read_header-build_packet :
    (s : RtpSender) (payload : Bytes)
    → IsSender s
    → read_header (build_packet s payload).1
      ≡ some (record { seq = s.seq; timestamp = s.timestamp; ssrc = s.ssrc })
unfolding read_header build_packet
read_header-build_packet s payload v = ground arith
