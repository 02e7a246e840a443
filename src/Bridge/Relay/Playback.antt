-- ===== src/Bridge/Relay/Playback.antt =====
-- Both directions together: what one bridge sends, another one plays.
use slmodem_sip_bridge.Base.{
  ℕ, zero, suc, ◌%◌, ◌≤◌, List, [], ◌∷◌, ◌++◌, none, some, ◌≡◌, refl, sym, ap, ◌∙◌, arith, Bytes,
  length, take, All,
}
use slmodem_sip_bridge.Base.Outcome.{ok}
use slmodem_sip_bridge.Bridge.Relay.Stream.{concat, IsRead, IsPayload, sl_to_rtp-Relayed}
use slmodem_sip_bridge.Bridge.Relay.{SlToRtp, sl_to_rtp, play_datagram, rtp_to_sl}
use slmodem_sip_bridge.Codec.{residual_bytes, encode_chunks, decode_ulaw}
use slmodem_sip_bridge.Rtp.Clock.{build_all}
use slmodem_sip_bridge.Rtp.RoundTrip.{parse_packet-build_packet, length-build_packet}
use slmodem_sip_bridge.Rtp.{RtpSender, build_packet, recv_packet, parse_packet}

take-whole : (n : ℕ) (xs : Bytes) → length xs ≤ n → take n xs ≡ xs
take-whole zero [] h = refl
take-whole (suc n) [] h = refl
take-whole zero (x ∷ xs) h = absurd (omega arith)
take-whole (suc n) (x ∷ xs) h = ap (◌∷◌ x) (take-whole n xs (omega arith))

decode_ulaw-append : (us vs : Bytes) → decode_ulaw (us ++ vs) ≡ decode_ulaw us ++ decode_ulaw vs
unfolding decode_ulaw
decode_ulaw-append [] vs = refl
decode_ulaw-append (u ∷ us) vs = rw (decode_ulaw-append us vs) (refl)

play_datagram-build_packet :
    {E : Type 0} (s : RtpSender) (payload : Bytes)
    → IsPayload payload
    → play_datagram {E = E} (build_packet s payload).1 ≡ ok (decode_ulaw payload)
play_datagram-build_packet {E} s payload (ne, le) =
    let packet = (build_packet s payload).1 in
    let received : recv_packet {E = E} packet ≡ ok (some payload) =
      unfold recv_packet in
      ap parse_packet (take-whole 1500 packet (omega (arith, length-build_packet s payload)))
      ∙ parse_packet-build_packet s payload ne in
    unfold play_datagram in rw received refl

-- The audio of a stream of packets is the decoding of their payloads.
pub rtp_to_sl-build_all :
    {E : Type 0} (s : RtpSender) (payloads : List Bytes)
    → All IsPayload payloads
    → rtp_to_sl {E = E} (build_all s payloads).1 ≡ ok (decode_ulaw (concat payloads))
unfolding rtp_to_sl build_all
rtp_to_sl-build_all s [] h = unfold decode_ulaw in refl
rtp_to_sl-build_all {E} s (p ∷ ps) (hp, hs) =
    rw
      (
        play_datagram-build_packet {E = E} s p hp,
        rtp_to_sl-build_all {E = E} (build_packet s p).0 ps hs,
      )
      (ap ok (sym (decode_ulaw-append p (concat ps))))

-- Whatever reads of 1 to 2048 bytes split slmodemd's audio, the loop returns, and the packets that
-- it sends, received in order by another bridge, are played as the encoded and decoded form of all
-- whole samples of it; at most a last single byte is kept back.
pub rtp_to_sl-sl_to_rtp :
    {E : Type 0} (sender : RtpSender) (reads : List Bytes)
    → All IsRead reads
    → let initial : SlToRtp = record {
      residual = none;
      sender = sender;
      total = 0;
      packets = [];
    } in
      (final : SlToRtp) × (whole : Bytes) × (sl_to_rtp {E = E} initial reads ≡ ok final)
      × (concat reads ≡ whole ++ residual_bytes final.residual)
      × (length whole % 2 ≡ 0)
      × (rtp_to_sl {E = E} final.packets ≡ ok (decode_ulaw (encode_chunks whole)))
rtp_to_sl-sl_to_rtp sender reads h =
    let initial : SlToRtp = record { residual = none; sender = sender; total = 0; packets = [] } in
    let (final, e, r) = sl_to_rtp-Relayed initial reads (omega arith) h in
    (
      final,
      r.whole,
      e,
      r.split,
      r.whole_even,
      ap rtp_to_sl r.packets_are
          ∙ rtp_to_sl-build_all sender r.payloads r.sendable
          ∙ ap (λ l. ok (decode_ulaw l)) r.encoded,
    )
