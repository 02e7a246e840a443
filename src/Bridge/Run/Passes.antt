-- ===== src/Bridge/Run/Passes.antt =====
-- Every way in which a pass with a dial string may end.
use mathlib.Core.Path.{subst}
use slmodem_sip_bridge.Base.{
  ℕ, ◌+◌, ◌<◌, [], true, not, Option, none, some, ◌≡◌, ◌⊎◌, inl, inr, refl, sym, ap, arith, ltb,
  Bool-cases,
}
use slmodem_sip_bridge.Base.Outcome.{Outcome, ok, bail, panic}
use slmodem_sip_bridge.Bridge.Run.{
  RunError, Pass, next_call, move, send_bye, connected, on_call, set_up, place_call, on_dial,
  run_pass,
}
use slmodem_sip_bridge.DialString
use slmodem_sip_bridge.DialString.{DialString, DialError}
use slmodem_sip_bridge.Sdp.{offer_lines, build_offer}
use slmodem_sip_bridge.Text.Lines.{unlines}
use slmodem_sip_bridge.Session.{originating, connecting_media, new, is_valid_transition, transition}
use slmodem_sip_bridge.Sip.{Call, SipClient, SipError}
use slmodem_sip_bridge.Text.{Text}
use slmodem_sip_bridge.Net.{SocketAddr, IpAddr}
use slmodem_sip_bridge.Bridge.Run.Messages.{send_bye_lem}
use slmodem_sip_bridge.Bridge.Run.Teardown
use slmodem_sip_bridge.Bridge.Run.Teardown.{
  in_state, Accepted, Offered, WasSetUp, Panics, no_port, setup, PassEnds, turned_away, not_bound,
  not_set_up, without_media, panicked, if-PassEnds,
}
use slmodem_sip_bridge.Bridge.Run.Poll.{connected-PassEnds}

module _ (client : SipClient) (pass : Pass) (raw : Text) where
  on_call-PassEnds :
      (dial : Text) (call : Call)
      → WasSetUp client pass raw dial call
      → PassEnds client pass raw (on_call client (in_state dial connecting_media) call pass)
  unfolding on_call
  on_call-PassEnds dial call up = go call.remote_rtp refl
    where
      go :
          (addr : Option SocketAddr)
          → call.remote_rtp ≡ addr
          → PassEnds client pass raw (elim addr [
            | some remote_rtp ↦ connected client (in_state dial connecting_media) call pass
            | none ↦ record {
              result = ok next_call;
              session = some (in_state dial connecting_media);
              sent = send_bye client call pass;
            }
          ])
      go none e = rw (send_bye_lem client call pass) (without_media dial call up e)
      go (some addr) e = connected-PassEnds client pass raw dial call up (λ gone. cc)

  set_up-PassEnds :
      (dial offer : Text)
      → Offered client pass raw dial offer
      → PassEnds client pass raw (set_up client (in_state dial originating) dial offer pass)
  unfolding set_up move transition is_valid_transition
  set_up-PassEnds dial offer o = go (pass.setup dial offer) refl
    where
      go :
          (result : Outcome SipError Call)
          → pass.setup dial offer ≡ result
          → PassEnds client pass raw (elim result [
            | ok call ↦ on_call client (in_state dial connecting_media) call pass
            | bail _ ↦ record {
              result = ok next_call;
              session = some (in_state dial originating);
              sent = [];
            }
            | panic ↦ record {
              result = panic;
              session = some (in_state dial originating);
              sent = [];
            }
          ])
      go (ok call) e =
          on_call-PassEnds dial call (record { offer = offer; offered = o; call_is = e })
      go (bail x) e = not_set_up dial offer x o e
      go panic e = panicked (setup o e)

build_offer_lem :
    (ip : IpAddr) (port session_id : ℕ)
    → ((sdp : Text) × (build_offer {E = RunError} ip port session_id ≡ ok sdp))
      ⊎ ((build_offer {E = RunError} ip port session_id ≡ panic) × (port ≡ 0))
unfolding build_offer
build_offer_lem ip port session_id = elim (Bool-cases (ltb 0 port)) [
  | inl positive ↦ inl (unlines (offer_lines ip port session_id), rw positive refl)
  | inr zero_port ↦ inr (rw zero_port refl, ground arith)
]

module _ (client : SipClient) (pass : Pass) (raw : Text) where
  place_call-PassEnds :
      (dial : Text) → Accepted raw dial → PassEnds client pass raw (place_call client dial pass)
  unfolding place_call move transition is_valid_transition new
  place_call-PassEnds dial accepted =
      if-PassEnds client pass raw (not pass.rtp_bound) _ _
        (λ h. not_bound dial accepted (ground arith))
        (λ h.
          let bound : pass.rtp_bound ≡ true = ground arith in
          elim (build_offer_lem client.local_ip pass.rtp_port pass.session_id) [
            | inl (sdp, offered) ↦ rw offered (
                set_up-PassEnds client pass raw dial sdp
                  (record { accepted = accepted; bound = bound; offer_is = offered }))
            | inr (refused, zero_port) ↦ rw refused (panicked (no_port accepted bound zero_port))
          ])

  on_dial-PassEnds : PassEnds client pass raw (on_dial client raw pass)
  unfolding on_dial
  on_dial-PassEnds = go (DialString.parse raw) refl
    where
      go :
          (o : Outcome DialError DialString)
          → DialString.parse raw ≡ o
          → PassEnds client pass raw (elim o [
            | ok dial ↦ place_call client dial.as_str pass
            | bail _ ↦ record { result = ok next_call; session = none; sent = [] }
            | panic ↦ record { result = panic; session = none; sent = [] }
          ])
      go (ok dial) e =
          place_call-PassEnds dial.as_str (record { value = dial; parsed = e; dial_is = refl })
      go (bail x) e = turned_away x e
      go panic e = panicked (Teardown.parse e)

run_pass-on_dial :
    (client : SipClient) (calls_count : ℕ) (pass : Pass) (raw : Text)
    → calls_count < 1000
    → pass.waited ≡ some raw
    → run_pass client calls_count pass ≡ (on_dial client raw pass, calls_count + 1)
unfolding run_pass
run_pass-on_dial client calls_count pass raw below got =
    let few : ltb calls_count 1000 ≡ true = ground arith in simp (few, got) refl

-- A pass that got a dial string, with fewer than 1000 calls before it, counts itself and ends in
-- one of the listed ways; no transition of its session is refused. A dial string that `parse`
-- refuses, a socket that is not bound and a setup that fails send nothing of the pass's own.
-- Otherwise there is the call that the setup returned for that dial string and the offer. Without a
-- remote address it only gets a BYE. With one, an answered call is acknowledged first, or its
-- refused ACK is the error; a call in early media is polled beside the relay; and a BYE is the last
-- message, with the session terminated, or still active if the relay failed. Each BYE is sent if
-- the socket takes it. A panic comes from `parse`, from port 0, from the setup or from a poll.
pub run_pass-PassEnds :
    (client : SipClient) (calls_count : ℕ) (pass : Pass) (raw : Text)
    → calls_count < 1000
    → pass.waited ≡ some raw
    → PassEnds client pass raw (run_pass client calls_count pass).0
      × ((run_pass client calls_count pass).1 ≡ calls_count + 1)
run_pass-PassEnds client calls_count pass raw below got =
    let e = sym (run_pass-on_dial client calls_count pass raw below got) in
    (
      subst (PassEnds client pass raw) (ap (λ r. r.0) e) (on_dial-PassEnds client pass raw),
      ap (λ r. r.1) (sym e),
    )
