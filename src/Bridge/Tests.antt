-- ===== src/Bridge/Tests.antt =====
-- Runs of the bridge's loops.
use slmodem_sip_bridge.Base.{
  ℕ, ◌%◌, ◌≡◌, refl, arith, List, [], ◌∷◌, ◌++◌, true, none, some, ltb, if◌then◌else◌, Bytes,
  length,
}
use slmodem_sip_bridge.Base.Outcome.{ok, panic}
use slmodem_sip_bridge.Bridge.DialWait.Segments.{
  bytes_read, waited, scan-line, wait_for_dial_string-scan,
}
use slmodem_sip_bridge.Bridge.DialWait.{
  dialled, line_dial, scan, read, silence_tick, heartbeat, wait_for_dial_string, DialEvent,
}
use slmodem_sip_bridge.Bridge.Drain
use slmodem_sip_bridge.Bridge.Drain.{
  DrainEvent, DrainError, setup_result, drain_during_sip_setup, drain_during_sip_setup_lem,
}
use slmodem_sip_bridge.Bridge.Relay.Playback.{rtp_to_sl-sl_to_rtp}
use slmodem_sip_bridge.Bridge.Relay.Stream.{concat, Relayed, sl_to_rtp-Relayed}
use slmodem_sip_bridge.Bridge.Relay.{SlToRtp, sl_to_rtp, rtp_to_sl}
use slmodem_sip_bridge.Codec.{residual_bytes, encode_chunks, decode_ulaw}
use slmodem_sip_bridge.Rtp.{create_rtp_sender}
use slmodem_sip_bridge.Bridge.{rtp_ssrc}
use slmodem_sip_bridge.Text.{codes}

abbrev dial_events : List DialEvent
dial_events =
    read (codes "DIAL:T18") ∷ silence_tick true ∷ heartbeat ∷ read (codes "005551212\n") ∷ []

wait_for_dial_string-scan_example :
    wait_for_dial_string [] dial_events ≡ waited (scan [] (bytes_read dial_events))
wait_for_dial_string-scan_example =
    wait_for_dial_string-scan [] dial_events ((λ e. cc), (refl, (tt, ((λ e. cc), tt))))

scan-line_example :
    scan [] (codes "DIAL:1" ++ b'\n' ∷ codes "rest")
    ≡ (elim (line_dial (codes "DIAL:1")) [ some ds ↦ dialled ds | none ↦ scan [] (codes "rest") ])
scan-line_example =
    scan-line (codes "DIAL:1") (codes "rest")
      ((λ e. cc), ((λ e. cc), ((λ e. cc), ((λ e. cc), ((λ e. cc), ((λ e. cc), tt)))))) (omega arith)

abbrev quiet : List (DrainEvent (Unit {0}) ℕ)
quiet = Drain.silence true ∷ Drain.read 320 ∷ []

drain_during_sip_setup_lem_example :
    drain_during_sip_setup 0 (quiet ++ Drain.setup (ok 7) ∷ [])
    ≡ (if ltb (length quiet) 500 then some (setup_result (ok 7)) else some panic)
drain_during_sip_setup_lem_example =
    drain_during_sip_setup_lem quiet (ok 7) [] (refl, (omega arith, tt))

abbrev reads : List Bytes
reads = (1 ∷ 2 ∷ 3 ∷ []) ∷ (4 ∷ 5 ∷ []) ∷ []

abbrev first_state : SlToRtp
first_state = record {
  residual = none;
  sender = create_rtp_sender rtp_ssrc;
  total = 0;
  packets = [];
}

sl_to_rtp-Relayed_example :
    (st' : SlToRtp) × (sl_to_rtp {E = Unit {0}} first_state reads ≡ ok st')
    × Relayed first_state st' (concat reads)
sl_to_rtp-Relayed_example =
    sl_to_rtp-Relayed {E = Unit {0}} first_state reads (omega arith)
      (((λ e. cc), omega arith), (((λ e. cc), omega arith), tt))

rtp_to_sl-sl_to_rtp_example :
    (final : SlToRtp) × (whole : Bytes) × (sl_to_rtp {E = Unit {0}} first_state reads ≡ ok final)
    × (concat reads ≡ whole ++ residual_bytes final.residual)
    × (length whole % 2 ≡ 0)
    × (rtp_to_sl {E = Unit {0}} final.packets ≡ ok (decode_ulaw (encode_chunks whole)))
rtp_to_sl-sl_to_rtp_example =
    rtp_to_sl-sl_to_rtp {E = Unit {0}} (create_rtp_sender rtp_ssrc) reads
      (((λ e. cc), omega arith), (((λ e. cc), omega arith), tt))
