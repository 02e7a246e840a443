-- ===== src/Bridge/Relay/Media.antt =====
-- bridge.rs: `relay_media`, its two directions side by side. What the sockets do is a sequence of
-- events, in the order in which the two directions take them.
pub mod Interleaved
pub mod Joined
mod Tests
use slmodem_sip_bridge.Base.{
  ℕ, ◌+◌, ◌%◌, ◌^◌, min, List, [], ◌∷◌, ◌++◌, Bool, true, false, ◌&&◌, ◌||◌, Option, none, some,
  ltb, if◌then◌else◌, Bytes, length, is_nil,
}
use slmodem_sip_bridge.Base.Outcome.{Outcome, ok, bail, panic, ◌>>=◌, ◌>>◌, ensure}
use slmodem_sip_bridge.Bridge.Relay.{SlToRtp, send_slin}
use slmodem_sip_bridge.Codec.{align_slin_buffer, decode_ulaw}
use slmodem_sip_bridge.Rtp.{RtpSender, recv_packet}

-- A read from slmodemd, with whether the socket takes the packet that is made of it, and a
-- datagram, with whether slmodemd takes its audio. A read of nothing is the end of the stream.
pub data RelayEvent : Type 0 where
  sl_read : Bytes → Bool → RelayEvent
  sl_read_error : RelayEvent
  rtp_received : Bytes → Bool → RelayEvent
  rtp_recv_error : RelayEvent

pub data RelayError : Type 0 where
  sl_read_failed rtp_send_failed sl_write_failed : RelayError

-- The variables of `rtp_to_sl`, and what it has written.
pub record RtpToSl : Type 0 where
  pub total : ℕ
  pub written : Bytes

-- Both directions, and which of them has returned.
pub record RelayState : Type 0 where
  pub to_rtp : SlToRtp
  pub to_rtp_done : Bool
  pub to_sl : RtpToSl
  pub to_sl_done : Bool

-- A round of `sl_to_rtp` with data.
unfoldable pub on_sl_read : SlToRtp → Bytes → Bool → Outcome RelayError SlToRtp
on_sl_read st bytes sent_ok = do
  let aligned = align_slin_buffer st.residual bytes
  st' ← send_slin st aligned
  ensure (is_nil aligned.0 || sent_ok) rtp_send_failed
  ok st'

-- `Ok(Some(..))` and `Ok(None)`.
unfoldable pub on_payload : RtpToSl → Option Bytes → Bool → Outcome RelayError RtpToSl
on_payload st none write_ok = ok st
on_payload st (some payload) write_ok = do
  ensure write_ok sl_write_failed
  ok (record {
    total = (st.total + length payload) % 2 ^ 64;
    written = st.written ++ decode_ulaw payload;
  })

-- A round of `rtp_to_sl` with a datagram.
unfoldable pub on_rtp_received : RtpToSl → Bytes → Bool → Outcome RelayError RtpToSl
on_rtp_received st datagram write_ok = do
  received ← recv_packet datagram
  on_payload st received write_ok

-- A direction that has returned takes no more events.
unfoldable pub relay_step : RelayState → RelayEvent → Outcome RelayError RelayState
relay_step st (sl_read [] sent_ok) = ok (record st { to_rtp_done = true })
relay_step st (sl_read (b ∷ bs) sent_ok) =
    if st.to_rtp_done
    then ok st
    else (do to_rtp ← on_sl_read st.to_rtp (b ∷ bs) sent_ok; ok (record st { to_rtp = to_rtp }))
relay_step st sl_read_error = if st.to_rtp_done then ok st else bail sl_read_failed
relay_step st (rtp_received datagram write_ok) =
    if st.to_sl_done
    then ok st
    else (do to_sl ← on_rtp_received st.to_sl datagram write_ok; ok (record st { to_sl = to_sl }))
relay_step st rtp_recv_error = ok (record st { to_sl_done = true })

unfoldable pub relay_events : RelayState → List RelayEvent → Outcome RelayError RelayState
relay_events st [] = ok st
relay_events st (e ∷ es) = do st' ← relay_step st e; relay_events st' es

unfoldable pub relay_start : RtpSender → RelayState
relay_start sender = record {
  to_rtp = record { residual = none; sender = sender; total = 0; packets = [] };
  to_rtp_done = false;
  to_sl = record { total = 0; written = [] };
  to_sl_done = false;
}

-- What `try_join!` gives of two directions that have not failed.
unfoldable pub joined : RelayState → Option (ℕ × ℕ)
joined st = if st.to_rtp_done && st.to_sl_done then some (st.to_rtp.total, st.to_sl.total) else none

-- The totals of both directions; `none` while one of them is running.
unfoldable pub relay_media : RtpSender → List RelayEvent → Outcome RelayError (Option (ℕ × ℕ))
unfolding relay_start joined
relay_media sender events = do st ← relay_events (relay_start sender) events; ok (joined st)
