-- ===== src/Bridge/Relay/Media/Interleaved.antt =====
-- However the events of the two directions follow each other, each direction does what it does
-- alone, and the relay ends only if both have.
use mathlib.Core.Path.{subst}
use slmodem_sip_bridge.Base.{
  List, [], ◌∷◌, ◌++◌, Bool, true, false, ◌||◌, Option, none, some, Bytes, is_nil, ◌≡◌, refl, sym,
  ap, ◌∙◌, append_assoc, append-nil,
}
use slmodem_sip_bridge.Base.Outcome.{Outcome, ok, ◌>>=◌, ensure, >>=-ok, ok-inj}
use slmodem_sip_bridge.Bridge.Relay.Media.{
  RelayEvent, sl_read, sl_read_error, rtp_received, rtp_recv_error, RelayError, sl_write_failed,
  RtpToSl, RelayState, on_sl_read, on_payload, on_rtp_received, relay_step, relay_events,
  relay_start,
}
use slmodem_sip_bridge.Bridge.Relay.{SlToRtp, send_slin, sl_to_rtp, play_datagram, rtp_to_sl}
use slmodem_sip_bridge.Codec.{align_slin_buffer, decode_ulaw}
use slmodem_sip_bridge.Rtp.{RtpSender, recv_packet}

-- What is read from slmodemd.
abbrev pub reads : List RelayEvent → List Bytes
reads [] = []
reads (sl_read bytes _ ∷ es) = bytes ∷ reads es
reads (_ ∷ es) = reads es

-- The datagrams up to the first error of the RTP socket.
abbrev pub datagrams : List RelayEvent → List Bytes
datagrams [] = []
datagrams (rtp_received datagram _ ∷ es) = datagram ∷ datagrams es
datagrams (rtp_recv_error ∷ es) = []
datagrams (_ ∷ es) = datagrams es

-- A direction alone, from where it stands.
abbrev alone_to_rtp : Bool → SlToRtp → List Bytes → Outcome RelayError SlToRtp
alone_to_rtp true st bytes = ok st
alone_to_rtp false st bytes = sl_to_rtp st bytes

abbrev alone_to_sl : Bool → List Bytes → Outcome RelayError Bytes
alone_to_sl true ds = ok []
alone_to_sl false ds = rtp_to_sl ds

on_sl_read_ok :
    (st : SlToRtp) (bytes : Bytes) (sent_ok : Bool) (st' : SlToRtp)
    → on_sl_read st bytes sent_ok ≡ ok st'
    → send_slin {E = RelayError} st (align_slin_buffer st.residual bytes) ≡ ok st'
unfolding on_sl_read
on_sl_read_ok st bytes sent_ok st' h =
    let (next, e, k) = >>=-ok (send_slin st (align_slin_buffer st.residual bytes)) _ h in
    let (u, _, k') =
      >>=-ok (ensure (is_nil (align_slin_buffer st.residual bytes).0 || sent_ok) _) _ k in
    e ∙ k'

-- What `play_datagram` makes of a payload.
abbrev played : Option Bytes → Outcome RelayError Bytes
played none = ok []
played (some payload) = ok (decode_ulaw payload)

on_payload_ok :
    (st : RtpToSl) (received : Option Bytes) (write_ok : Bool) (st' : RtpToSl)
    → on_payload st received write_ok ≡ ok st'
    → (slin : Bytes) × (played received ≡ ok slin) × (st'.written ≡ st.written ++ slin)
unfolding on_payload
on_payload_ok st none write_ok st' h =
    ([], refl, ap (λ r. r.written) (sym (ok-inj st st' h)) ∙ sym (append-nil st.written))
on_payload_ok st (some payload) write_ok st' h =
    let (u, _, k) = >>=-ok (ensure write_ok sl_write_failed) _ h in
    (decode_ulaw payload, refl, ap (λ r. r.written) (sym (ok-inj _ st' k)))

on_rtp_received_ok :
    (st : RtpToSl) (datagram : Bytes) (write_ok : Bool) (st' : RtpToSl)
    → on_rtp_received st datagram write_ok ≡ ok st'
    → (slin : Bytes) × (play_datagram {E = RelayError} datagram ≡ ok slin)
      × (st'.written ≡ st.written ++ slin)
unfolding on_rtp_received play_datagram
on_rtp_received_ok st datagram write_ok st' h =
    let (received, e, k) = >>=-ok (recv_packet datagram) (λ o. on_payload st o write_ok) h in
    let (slin, plays, grown) = on_payload_ok st received write_ok st' k in
    (slin, ap (λ m. m >>= played) e ∙ plays, grown)

-- What the directions alone do from a state on.
record Alone (st st' : RelayState) (es : List RelayEvent) : Type 0 where
  sl_alone : alone_to_rtp st.to_rtp_done st.to_rtp (reads es) ≡ ok st'.to_rtp
  slin : Bytes
  rtp_alone : alone_to_sl st.to_sl_done (datagrams es) ≡ ok slin
  grown : st'.to_sl.written ≡ st.to_sl.written ++ slin

alone_nothing : (done : Bool) (st : SlToRtp) → alone_to_rtp done st [] ≡ ok st
unfolding sl_to_rtp
alone_nothing true st = refl
alone_nothing false st = refl

alone_silence : (done : Bool) → alone_to_sl done [] ≡ ok []
unfolding rtp_to_sl
alone_silence true = refl
alone_silence false = refl

-- A state from its parts.
abbrev sides : SlToRtp → Bool → RtpToSl → Bool → RelayState
sides to_rtp to_rtp_done to_sl to_sl_done = record {
  to_rtp = to_rtp;
  to_rtp_done = to_rtp_done;
  to_sl = to_sl;
  to_sl_done = to_sl_done;
}

module _ (st' : RelayState) (es : List RelayEvent) where
  -- The state behind a step that is known.
  behind :
      (known next : RelayState)
      → ◌≡◌ {A = Outcome RelayError RelayState} (ok known) (ok next)
      → Alone next st' es
      → Alone known st' es
  behind known next h alone = subst (λ n. Alone n st' es) (sym (ok-inj known next h)) alone

  read-Alone :
      (a : SlToRtp) (d : Bool) (b : RtpToSl) (f : Bool) (next : RelayState) (bytes : Bytes)
      (sent_ok : Bool)
      → relay_step (sides a d b f) (sl_read bytes sent_ok) ≡ ok next
      → Alone next st' es
      → Alone (sides a d b f) st' (sl_read bytes sent_ok ∷ es)
  unfolding relay_step sl_to_rtp
  read-Alone a true b f next [] sent_ok h alone =
      let r = behind (sides a true b f) next h alone in
      record { sl_alone = r.sl_alone; slin = r.slin; rtp_alone = r.rtp_alone; grown = r.grown }
  read-Alone a false b f next [] sent_ok h alone =
      let r = behind (sides a true b f) next h alone in
      record { sl_alone = r.sl_alone; slin = r.slin; rtp_alone = r.rtp_alone; grown = r.grown }
  read-Alone a true b f next (x ∷ xs) sent_ok h alone =
      let r = behind (sides a true b f) next h alone in
      record { sl_alone = r.sl_alone; slin = r.slin; rtp_alone = r.rtp_alone; grown = r.grown }
  read-Alone a false b f next (x ∷ xs) sent_ok h alone =
      let (a', e, k) =
        >>=-ok (on_sl_read a (x ∷ xs) sent_ok) (λ to_rtp. ok (sides to_rtp false b f)) h in
      let r = behind (sides a' false b f) next k alone in
      record {
        sl_alone =
            ap (λ m. m >>= (λ s. sl_to_rtp s (reads es))) (on_sl_read_ok a (x ∷ xs) sent_ok a' e)
            ∙ r.sl_alone;
        slin = r.slin;
        rtp_alone = r.rtp_alone;
        grown = r.grown;
      }

  received-Alone :
      (a : SlToRtp) (d : Bool) (b : RtpToSl) (f : Bool) (next : RelayState) (datagram : Bytes)
      (write_ok : Bool)
      → relay_step (sides a d b f) (rtp_received datagram write_ok) ≡ ok next
      → Alone next st' es
      → Alone (sides a d b f) st' (rtp_received datagram write_ok ∷ es)
  unfolding relay_step rtp_to_sl
  received-Alone a d b true next datagram write_ok h alone =
      let r = behind (sides a d b true) next h alone in
      record { sl_alone = r.sl_alone; slin = r.slin; rtp_alone = r.rtp_alone; grown = r.grown }
  received-Alone a d b false next datagram write_ok h alone =
      let (b', e, k) =
        >>=-ok (on_rtp_received b datagram write_ok) (λ to_sl. ok (sides a d to_sl false)) h in
      let r = behind (sides a d b' false) next k alone in
      let (slin, plays, grown) = on_rtp_received_ok b datagram write_ok b' e in
      record {
        sl_alone = r.sl_alone;
        slin = slin ++ r.slin;
        rtp_alone =
            ap (λ m. m >>= (λ s. rtp_to_sl (datagrams es) >>= (λ rest. ok (s ++ rest)))) plays
            ∙ ap (λ m. m >>= (λ rest. ok (slin ++ rest))) r.rtp_alone;
        grown = r.grown ∙ ap (λ w. w ++ r.slin) grown ∙ append_assoc b.written slin r.slin;
      }

  step-Alone :
      (a : SlToRtp) (d : Bool) (b : RtpToSl) (f : Bool) (next : RelayState) (e : RelayEvent)
      → relay_step (sides a d b f) e ≡ ok next
      → Alone next st' es
      → Alone (sides a d b f) st' (e ∷ es)
  unfolding relay_step
  step-Alone a d b f next (sl_read bytes sent_ok) h alone =
      read-Alone a d b f next bytes sent_ok h alone
  step-Alone a d b f next (rtp_received datagram write_ok) h alone =
      received-Alone a d b f next datagram write_ok h alone
  step-Alone a true b f next sl_read_error h alone =
      let r = behind (sides a true b f) next h alone in
      record { sl_alone = r.sl_alone; slin = r.slin; rtp_alone = r.rtp_alone; grown = r.grown }
  step-Alone a false b f next sl_read_error h alone = absurd (cc)
  step-Alone a d b f next rtp_recv_error h alone =
      let r = behind (sides a d b true) next h alone in
      record {
        sl_alone = r.sl_alone;
        slin = r.slin;
        rtp_alone = alone_silence f ∙ r.rtp_alone;
        grown = r.grown;
      }

relay_events-Alone :
    (st st' : RelayState) (es : List RelayEvent) → relay_events st es ≡ ok st' → Alone st st' es
unfolding relay_events
relay_events-Alone st st' [] h =
    let same = ok-inj st st' h in
    record {
      sl_alone = alone_nothing st.to_rtp_done st.to_rtp ∙ ap (λ s. ok s.to_rtp) same;
      slin = [];
      rtp_alone = alone_silence st.to_sl_done;
      grown = ap (λ s. s.to_sl.written) (sym same) ∙ sym (append-nil st.to_sl.written);
    }
relay_events-Alone st st' (e ∷ es) h =
    let (next, step, k) = >>=-ok (relay_step st e) (λ s. relay_events s es) h in
    step-Alone st' es st.to_rtp st.to_rtp_done st.to_sl st.to_sl_done next e step
      (relay_events-Alone next st' es k)

-- If no direction has failed, then, however their events follow each other: the packets that were
-- sent are those that `sl_to_rtp` alone makes of the reads, up to the first empty one, and what was
-- written to slmodemd is what `rtp_to_sl` alone makes of the datagrams, up to the first error.
pub relay_events-sl_to_rtp :
    (sender : RtpSender) (es : List RelayEvent) (st : RelayState)
    → relay_events (relay_start sender) es ≡ ok st
    → (sl_to_rtp {E = RelayError} (relay_start sender).to_rtp (reads es) ≡ ok st.to_rtp)
      × (rtp_to_sl {E = RelayError} (datagrams es) ≡ ok st.to_sl.written)
unfolding relay_start
relay_events-sl_to_rtp sender es st h =
    let r = relay_events-Alone (relay_start sender) st es h in
    (r.sl_alone, r.rtp_alone ∙ ap ok (sym r.grown))
