-- ===== src/Lib.antt =====
-- Models of slmodem-sip-bridge, a program that slmodemd starts to place modem calls over SIP, and
-- what is proved about them.
--
-- The program's parts, and the files that model them:
--
-- - src/codec.rs, G.711 µ-law: Codec.antt has `slin_sample_to_ulaw`, `ulaw_sample_to_slin`,
--   `encode_ulaw`, `decode_ulaw` and `align_slin_buffer`. An i16 is its bit pattern, a number below
--   2 ^ 16. Codec/ has the proofs: Pack and Sample (one sample, from the linear side), RoundTrip
--   (from the µ-law side), Buffer (whole buffers), Stream (a stream cut by reads).
-- - src/rtp.rs: Rtp.antt has the sender, `build_packet`, `send_packet`, `parse_packet` and
--   `recv_packet`; Rtp/Layout describes the packets that are accepted, Rtp/Clock a whole stream.
-- - src/sdp.rs: Sdp.antt has `build_offer` and `parse_answer`; Sdp/Sound and Sdp/RoundTrip.
-- - src/session.rs: Session.antt, the states of a call and their guarded transitions.
-- - src/dial_string.rs: DialString.antt, `DialString::parse`.
-- - src/config.rs, src/slmodem.rs: Config.antt and Slmodem.antt, the configuration and the
--   inherited file descriptor.
-- - src/main.rs: Main.antt, `main` over the passes of the bridge; Main/Dial and Main/Ends.
-- - src/sip.rs: Sip.antt has the data (`Call`, `SipClient`) and the monad that the exchanges run
--   in: the messages sent so far are its state, an outcome its result. Sip/Message has the parsing
--   helpers, Sip/Message/Fields a message as its fields, Sip/Client `SipClient::new` and what is
--   received, Sip/Ids the fresh identifiers, Sip/Message/Params a header as keys and quoted values,
--   Sip/Digest the digest (Challenge: what is read, Answer: what a server reads in the answer),
--   Sip/Build the messages, Sip/Register `register` (Heard: a registration that is confirmed),
--   Sip/Invite `invite` (Heard: a call that is answered), Sip/Answer `poll_answer`, `ack` and
--   `bye`. One round of a loop is a function of the
--   loop's variables and of what the outside gives in that round (Tick, RegisterTick): the clock,
--   the message received, whether the socket takes a message, fresh identifiers. Sip/Invite/Response
--   and Sip/Invite/Reply describe what a response may be and what follows it, Sip/Invite/Round what
--   a round may do, as relations that name the response, its status and the guards; the proofs about
--   whole exchanges (Conversation, Invited, Ends, Bounded) are inductions over them.
-- - src/bridge.rs: Bridge/DialWait has `wait_for_dial_string`, Bridge/Drain
--   `drain_during_sip_setup`, Bridge/Relay the two directions of `relay_media`,
--   Bridge/Relay/Media both as one sequence of events, Bridge/Relay/Stats their statistics,
--   Bridge/Run one pass of the loop in `run`, a call from its dial string to its teardown,
--   Bridge/Start what `run` does before the loop and the whole of `run`. The arms of a
--   `select!` are events, in the order in which they are taken, so every interleaving is a list.
--
-- Text.antt, Text/ and Net.antt, Net/ define the operations of Rust's standard library that the
-- program uses: a text is the list of its characters, positions are byte offsets into its UTF-8
-- form, and a slice off a character boundary is a panic; `lines`, `splitn`, `split_whitespace`,
-- `str::parse`, `from_utf8_lossy`, and the parser and printer of IP addresses. Base.antt has what
-- all share; `Outcome` (Base/Outcome) is what a Rust call can do: return `Ok`, return `Err`, panic.
--
-- Fuel and bounds: the loops run over the list of what the outside gives, so they need no fuel.
-- `show` writes at most forty digits, enough for a u128. `strip_sip` takes the text's own length as
-- fuel, and each of its rounds takes four characters away.
--
-- Not modelled: the logging, the parsing of the command line (clap), the sockets, the resolver and
-- the timers (tokio and the system; their effects are arguments), the md5 crate (`md5_hex` is a
-- parameter), the clock and the random state that identifiers are made from (arguments of Sip/Ids).
pub mod Base
pub mod Codec
pub mod Session
pub mod Text
pub mod Net
pub mod Sdp
pub mod DialString
pub mod Config
pub mod Main
pub mod Slmodem
pub mod Rtp
pub mod Sip
pub mod Bridge
