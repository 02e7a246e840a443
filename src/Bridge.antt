-- ===== src/Bridge.antt =====
-- bridge.rs: what runs between slmodemd's socket, the SIP client and the RTP socket.
pub mod DialWait
pub mod Drain
pub mod Relay
pub mod Run
pub mod Start
mod Tests
use slmodem_sip_bridge.Base.{ℕ}

abbrev pub line_buf_limit : ℕ
line_buf_limit = 256

abbrev pub drain_iterations_limit : ℕ
drain_iterations_limit = 500

abbrev pub silence_frame_bytes : ℕ
silence_frame_bytes = 320

abbrev pub silence_interval_ms : ℕ
silence_interval_ms = 20

abbrev pub rtp_ssrc : ℕ
rtp_ssrc = 0x534c4d44
