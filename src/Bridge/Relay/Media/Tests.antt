-- ===== src/Bridge/Relay/Media/Tests.antt =====
-- A relay that sends one packet, plays one, and whose directions both end.
use slmodem_sip_bridge.Base.{ℕ, List, [], ◌∷◌, true, false, none, some, Any, ◌≡◌, refl}
use slmodem_sip_bridge.Base.Outcome.{ok}
use slmodem_sip_bridge.Bridge.Relay.Media.{
  RelayEvent, sl_read, rtp_received, rtp_recv_error, RelayError, RelayState, on_sl_read,
  on_rtp_received, on_payload, relay_step, relay_events, relay_start, joined, relay_media,
}
use slmodem_sip_bridge.Bridge.Relay.Media.Interleaved.{reads, datagrams, relay_events-sl_to_rtp}
use slmodem_sip_bridge.Bridge.Relay.Media.Joined.{IsEof, IsRecvError, relay_media-joined}
use slmodem_sip_bridge.Bridge.Relay.{send_slin, sl_to_rtp, rtp_to_sl}
use slmodem_sip_bridge.Codec.{
  align_slin_buffer, encode_ulaw, encode_chunks, decode_ulaw, slin_sample_to_ulaw,
  ulaw_sample_to_slin, pop,
}
use slmodem_sip_bridge.Rtp.{
  RtpSender, build_packet, send_packet, parse_packet, recv_packet, parse_body, payload_from,
  header_length, has_extension,
}

abbrev sender : RtpSender
sender = record { ssrc = 1; seq = 0; timestamp = 0 }

abbrev packet : List ℕ
packet = 0x80 ∷ 0 ∷ 0 ∷ 9 ∷ 0 ∷ 0 ∷ 0 ∷ 9 ∷ 0 ∷ 0 ∷ 0 ∷ 2 ∷ 0xff ∷ []

abbrev events : List RelayEvent
events =
    sl_read (0 ∷ []) true
    ∷ rtp_received packet true
    ∷ rtp_received (1 ∷ []) true
    ∷ sl_read (1 ∷ 7 ∷ []) true
    ∷ sl_read [] true
    ∷ rtp_received packet true
    ∷ rtp_recv_error
    ∷ []

joins : relay_media sender events ≡ ok (some (1, 2))
unfolding relay_media relay_events relay_step relay_start joined on_sl_read on_rtp_received
    on_payload send_slin align_slin_buffer pop encode_ulaw encode_chunks slin_sample_to_ulaw
    send_packet build_packet recv_packet parse_packet parse_body payload_from header_length
    has_extension decode_ulaw ulaw_sample_to_slin
joins = refl

relay_media-joined_example :
    Any IsEof events
    × Any IsRecvError events
    × ((st : RelayState) × (relay_events (relay_start sender) events ≡ ok st)
        × (sl_to_rtp {E = RelayError} (relay_start sender).to_rtp (reads events) ≡ ok st.to_rtp)
        × (rtp_to_sl {E = RelayError} (datagrams events) ≡ ok st.to_sl.written))
relay_media-joined_example = relay_media-joined sender events (1, 2) joins

-- Only a datagram has come.
abbrev played : RelayState
played = record {
  to_rtp = record { residual = none; sender = sender; total = 0; packets = [] };
  to_rtp_done = false;
  to_sl = record { total = 1; written = 0 ∷ 0 ∷ [] };
  to_sl_done = false;
}

plays : relay_events (relay_start sender) (rtp_received packet true ∷ []) ≡ ok played
unfolding relay_events relay_step relay_start on_rtp_received on_payload recv_packet parse_packet
    parse_body payload_from header_length has_extension decode_ulaw ulaw_sample_to_slin
plays = refl

relay_events-sl_to_rtp_example :
    (sl_to_rtp {E = RelayError} (relay_start sender).to_rtp [] ≡ ok played.to_rtp)
    × (rtp_to_sl {E = RelayError} (packet ∷ []) ≡ ok (0 ∷ 0 ∷ []))
relay_events-sl_to_rtp_example =
    relay_events-sl_to_rtp sender (rtp_received packet true ∷ []) played plays
