-- ===== src/Bridge/Relay.antt =====
-- bridge.rs: the two directions of `relay_media`, without their statistics. The sockets are what
-- is read from them and what is written to them.
pub mod Stream
pub mod Playback
pub mod Media
pub mod Stats
use slmodem_sip_bridge.Base.{
  ℕ, ◌+◌, ◌%◌, ◌^◌, List, [], ◌∷◌, ◌++◌, Bool, true, false, Option, none, some, if◌then◌else◌,
  Bytes, length, is_nil,
}
use slmodem_sip_bridge.Base.Outcome.{Outcome, ok, bail, panic, ◌>>=◌}
use slmodem_sip_bridge.Codec.{align_slin_buffer, encode_ulaw, decode_ulaw}
use slmodem_sip_bridge.Rtp.{RtpSender, send_packet, recv_packet}

-- The variables of `sl_to_rtp`, and the packets sent.
pub record SlToRtp : Type 0 where
  pub residual : Option ℕ
  pub sender : RtpSender
  pub total : ℕ
  pub packets : List Bytes

-- What follows `align_slin_buffer`.
unfoldable pub send_slin : {E : Type 0} → SlToRtp → Bytes × Option ℕ → Outcome E SlToRtp
send_slin st (slin, residual) = if is_nil slin then ok (record st { residual = residual }) else (do
  ulaw ← encode_ulaw slin
  sent ← send_packet st.sender ulaw
  ok (record {
    residual = residual;
    sender = sent.0;
    total = (st.total + length ulaw) % 2 ^ 64;
    packets = st.packets ++ sent.1 ∷ [];
  }))

-- The loop, over what the reads give; a read of nothing is the end of the stream.
unfoldable pub sl_to_rtp : {E : Type 0} → SlToRtp → List Bytes → Outcome E SlToRtp
sl_to_rtp st [] = ok st
sl_to_rtp st ([] ∷ reads) = ok st
sl_to_rtp st ((b ∷ bs) ∷ reads) = do
  st' ← send_slin st (align_slin_buffer st.residual (b ∷ bs))
  sl_to_rtp st' reads

-- What one datagram adds to the audio for slmodemd.
unfoldable pub play_datagram : {E : Type 0} → Bytes → Outcome E Bytes
play_datagram datagram = do
  received ← recv_packet datagram
  elim received [ some payload ↦ ok (decode_ulaw payload) | none ↦ ok [] ]

-- `rtp_to_sl`, over the datagrams received: all that is written to slmodemd.
unfoldable pub rtp_to_sl : {E : Type 0} → List Bytes → Outcome E Bytes
rtp_to_sl [] = ok []
rtp_to_sl (datagram ∷ datagrams) = do
  slin ← play_datagram datagram
  rest ← rtp_to_sl datagrams
  ok (slin ++ rest)
