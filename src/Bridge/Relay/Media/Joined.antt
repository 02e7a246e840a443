-- ===== src/Bridge/Relay/Media/Joined.antt =====
-- When `relay_media` returns.
use slmodem_sip_bridge.Base.{
  ℕ, List, [], ◌∷◌, Bool, true, false, ◌&&◌, Option, none, some, if◌then◌else◌, ◌≡◌, refl, sym, ap,
  ◌∙◌, Any, ◌⊎◌, inl, inr,
}
use slmodem_sip_bridge.Base.Outcome.{Outcome, ok, >>=-ok, ok-inj}
use slmodem_sip_bridge.Bridge.Relay.Media.{
  RelayEvent, sl_read, sl_read_error, rtp_received, rtp_recv_error, RelayError, RtpToSl, RelayState,
  on_sl_read, on_rtp_received, relay_step, relay_events, relay_start, joined, relay_media,
}
use slmodem_sip_bridge.Bridge.Relay.Media.Interleaved.{reads, datagrams, relay_events-sl_to_rtp}
use slmodem_sip_bridge.Bridge.Relay.{SlToRtp, sl_to_rtp, rtp_to_sl}
use slmodem_sip_bridge.Rtp.{RtpSender}

-- slmodemd closes its stream.
abbrev pub IsEof : RelayEvent → Type 0
IsEof (sl_read [] _) = Unit
IsEof _ = ⊥

-- The RTP socket fails to receive.
abbrev pub IsRecvError : RelayEvent → Type 0
IsRecvError rtp_recv_error = Unit
IsRecvError _ = ⊥

-- The flags behind a step are those before it, or the step is an end.
record Flags (st next : RelayState) (e : RelayEvent) : Type 0 where
  to_rtp : (next.to_rtp_done ≡ st.to_rtp_done) ⊎ IsEof e
  to_sl : (next.to_sl_done ≡ st.to_sl_done) ⊎ IsRecvError e

same-Flags :
    (st known next : RelayState) (e : RelayEvent)
    → ◌≡◌ {A = Outcome RelayError RelayState} (ok known) (ok next)
    → known.to_rtp_done ≡ st.to_rtp_done
    → known.to_sl_done ≡ st.to_sl_done
    → Flags st next e
same-Flags st known next e h h1 h2 = record {
  to_rtp = inl (ap (λ s. s.to_rtp_done) (sym (ok-inj known next h)) ∙ h1);
  to_sl = inl (ap (λ s. s.to_sl_done) (sym (ok-inj known next h)) ∙ h2);
}

relay_step-Flags :
    (a : SlToRtp) (d : Bool) (b : RtpToSl) (f : Bool) (next : RelayState) (e : RelayEvent)
    → relay_step (record { to_rtp = a; to_rtp_done = d; to_sl = b; to_sl_done = f }) e ≡ ok next
    → Flags (record { to_rtp = a; to_rtp_done = d; to_sl = b; to_sl_done = f }) next e
unfolding relay_step
relay_step-Flags a d b f next (sl_read [] _) h = record {
  to_rtp = inr tt;
  to_sl = inl (ap (λ s. s.to_sl_done) (sym (ok-inj _ next h)));
}
relay_step-Flags a true b f next (sl_read (x ∷ xs) _) h = same-Flags _ _ next _ h refl refl
relay_step-Flags a false b f next (sl_read (x ∷ xs) sent_ok) h =
    let (a', _, k) = >>=-ok (on_sl_read a (x ∷ xs) sent_ok) _ h in same-Flags _ _ next _ k refl refl
relay_step-Flags a true b f next sl_read_error h = same-Flags _ _ next _ h refl refl
relay_step-Flags a false b f next sl_read_error h = absurd (cc)
relay_step-Flags a d b true next (rtp_received _ _) h = same-Flags _ _ next _ h refl refl
relay_step-Flags a d b false next (rtp_received datagram write_ok) h =
    let (b', _, k) = >>=-ok (on_rtp_received b datagram write_ok) _ h in
    same-Flags _ _ next _ k refl refl
relay_step-Flags a d b f next rtp_recv_error h = record {
  to_rtp = inl (ap (λ s. s.to_rtp_done) (sym (ok-inj _ next h)));
  to_sl = inr tt;
}

relay_events-ended :
    (st st' : RelayState) (es : List RelayEvent)
    → relay_events st es ≡ ok st'
    → ((st'.to_rtp_done ≡ st.to_rtp_done) ⊎ Any IsEof es)
      × ((st'.to_sl_done ≡ st.to_sl_done) ⊎ Any IsRecvError es)
unfolding relay_events
relay_events-ended st st' [] h =
    let same = sym (ok-inj st st' h) in
    (inl (ap (λ s. s.to_rtp_done) same), inl (ap (λ s. s.to_sl_done) same))
relay_events-ended st st' (e ∷ es) h =
    let (next, step, k) = >>=-ok (relay_step st e) (λ s. relay_events s es) h in
    let flags = relay_step-Flags st.to_rtp st.to_rtp_done st.to_sl st.to_sl_done next e step in
    let (later_rtp, later_sl) = relay_events-ended next st' es k in
    (chain flags.to_rtp later_rtp, chain flags.to_sl later_sl)
  where
    chain : {x y z : Bool} {E F : Type 0} → (y ≡ x) ⊎ E → (z ≡ y) ⊎ F → (z ≡ x) ⊎ (E ⊎ F)
    chain (inl p) (inl q) = inl (q ∙ p)
    chain (inr e) q = inr (inl e)
    chain (inl p) (inr f) = inr (inr f)

both_done :
    (d f : Bool) (totals : ℕ × ℕ) (o : ℕ × ℕ)
    → ◌≡◌ {A = Option (ℕ × ℕ)} (if d && f then some o else none) (some totals)
    → (d ≡ true) × (f ≡ true)
both_done true true totals o h = (refl, refl)
both_done true false totals o h = absurd (cc)
both_done false f totals o h = absurd (cc)

started : {x : Bool} {A : Type 0} → x ≡ true → (x ≡ false) ⊎ A → A
started h (inl k) = absurd (let e : true ≡ false = sym h ∙ k in cc)
started h (inr a) = a

-- `relay_media` returns its totals only if slmodemd has closed its stream and the RTP socket has
-- failed as well: as long as that socket receives, the end of slmodemd's audio does not end it.
-- What was sent and written is then what both directions alone make of their events.
pub relay_media-joined :
    (sender : RtpSender) (es : List RelayEvent) (totals : ℕ × ℕ)
    → relay_media sender es ≡ ok (some totals)
    → Any IsEof es
      × Any IsRecvError es
      × ((st : RelayState) × (relay_events (relay_start sender) es ≡ ok st)
          × (sl_to_rtp {E = RelayError} (relay_start sender).to_rtp (reads es) ≡ ok st.to_rtp)
          × (rtp_to_sl {E = RelayError} (datagrams es) ≡ ok st.to_sl.written))
unfolding relay_media relay_start joined
relay_media-joined sender es totals h =
    let (st, ran, k) = >>=-ok (relay_events (relay_start sender) es) (λ s. ok (joined s)) h in
    let (rtp_ended, sl_ended) =
      both_done st.to_rtp_done st.to_sl_done totals (st.to_rtp.total, st.to_sl.total)
        (ok-inj (joined st) (some totals) k) in
    let (eof, failed) = relay_events-ended (relay_start sender) st es ran in
    let (sent, written) = relay_events-sl_to_rtp sender es st ran in
    (started rtp_ended eof, started sl_ended failed, (st, ran, sent, written))
