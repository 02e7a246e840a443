-- ===== src/Bridge/Run/Teardown.antt =====
-- How a pass may end: the session's state, and the messages that go with it.
use slmodem_sip_bridge.Base.{
  List, [], ◌∷◌, ◌++◌, Bool, true, false, not, Option, none, some, ◌≡◌, ◌≢◌, refl, ap, arith,
  if◌then◌else◌,
}
use slmodem_sip_bridge.Base.Outcome.{Outcome, ok, bail, panic}
use slmodem_sip_bridge.Bridge.Run.{
  RunError, rtp_bind_failed, relay_failed, sip_failed, Pass, next_call, Ended, move, poll_early,
  teardown, relay,
}
use slmodem_sip_bridge.Bridge.Run.Messages.{last_bye, send_bye_lem, Polls}
use slmodem_sip_bridge.DialString
use slmodem_sip_bridge.DialString.{DialString, DialError}
use slmodem_sip_bridge.Sdp.{build_offer}
use slmodem_sip_bridge.Session.{
  SessionState, originating, connecting_media, media_active, terminated, Session,
  is_valid_transition, transition,
}
use slmodem_sip_bridge.Sip.Build.{build_ack}
use slmodem_sip_bridge.Sip.{Call, early_media, answered, SipClient, SipError, send_failed}
use slmodem_sip_bridge.Text.{Text}

abbrev pub in_state : Text → SessionState → Session
in_state dial state = record { dial = dial; state = state }

-- The dial string of the pass, accepted by `parse`.
pub record Accepted (raw dial : Text) : Type 0 where
  pub value : DialString
  pub parsed : DialString.parse raw ≡ ok value
  pub dial_is : value.as_str ≡ dial

-- The offer of the pass for it, with the socket for RTP bound.
pub record Offered (client : SipClient) (pass : Pass) (raw dial offer : Text) : Type 0 where
  pub accepted : Accepted raw dial
  pub bound : pass.rtp_bound ≡ true
  pub offer_is : build_offer {E = RunError} client.local_ip pass.rtp_port pass.session_id ≡ ok offer

-- The call that the setup has returned for the dial string and the offer.
pub record WasSetUp (client : SipClient) (pass : Pass) (raw dial : Text) (call : Call)
    : Type 0 where
  pub offer : Text
  pub offered : Offered client pass raw dial offer
  pub call_is : pass.setup dial offer ≡ ok call

-- The messages between the setup and the BYE, and the call as it stands then.
pub data Front (client : SipClient) (pass : Pass) (call : Call) : Call → List Text → Type 0 where
  acknowledged :
      call.state ≡ answered
      → pass.ack_ok ≡ true
      → Front client pass call call (build_ack client call ∷ [])
  polled :
      {call' : Call} {acks : List Text}
      → call.state ≡ early_media
      → Polls client call pass.polls (ok call') acks
      → Front client pass call call' acks
  untouched : call.state ≢ answered → call.state ≢ early_media → Front client pass call call []

-- Where a pass may panic: the session then, and the messages sent.
pub data Panics (client : SipClient) (pass : Pass) (raw : Text)
    : Option Session → List Text → Type 0 where
  parse : DialString.parse raw ≡ panic → Panics client pass raw none []
  no_port :
      {dial : Text}
      → Accepted raw dial
      → pass.rtp_bound ≡ true
      → pass.rtp_port ≡ 0
      → Panics client pass raw (some (in_state dial originating)) []
  setup :
      {dial offer : Text}
      → Offered client pass raw dial offer
      → pass.setup dial offer ≡ panic
      → Panics client pass raw (some (in_state dial originating)) []
  poll :
      {dial : Text} {call : Call} {acks : List Text}
      → WasSetUp client pass raw dial call
      → call.state ≡ early_media
      → Polls client call pass.polls panic acks
      → Panics client pass raw (some (in_state dial media_active)) acks

-- The ends of a pass that has a dial string.
pub data PassEnds (client : SipClient) (pass : Pass) (raw : Text) : Ended → Type 0 where
  turned_away :
      (e : DialError)
      → DialString.parse raw ≡ bail e
      → PassEnds client pass raw (record { result = ok next_call; session = none; sent = [] })
  not_bound :
      (dial : Text)
      → Accepted raw dial
      → pass.rtp_bound ≡ false
      → PassEnds client pass raw (record {
        result = bail rtp_bind_failed;
        session = some (in_state dial originating);
        sent = [];
      })
  not_set_up :
      (dial offer : Text) (e : SipError)
      → Offered client pass raw dial offer
      → pass.setup dial offer ≡ bail e
      → PassEnds client pass raw
          (record { result = ok next_call; session = some (in_state dial originating); sent = [] })
  without_media :
      (dial : Text) (call : Call)
      → WasSetUp client pass raw dial call
      → call.remote_rtp ≡ none
      → PassEnds client pass raw (record {
        result = ok next_call;
        session = some (in_state dial connecting_media);
        sent = last_bye client call pass;
      })
  unacknowledged :
      (dial : Text) (call : Call)
      → WasSetUp client pass raw dial call
      → call.state ≡ answered
      → pass.ack_ok ≡ false
      → PassEnds client pass raw (record {
        result = bail (sip_failed send_failed);
        session = some (in_state dial connecting_media);
        sent = [];
      })
  completed :
      (dial : Text) (call call' : Call) (front : List Text)
      → WasSetUp client pass raw dial call
      → call.remote_rtp ≢ none
      → Front client pass call call' front
      → pass.relay_ok ≡ true
      → PassEnds client pass raw (record {
        result = ok next_call;
        session = some (in_state dial terminated);
        sent = front ++ last_bye client call' pass;
      })
  broken :
      (dial : Text) (call call' : Call) (front : List Text)
      → WasSetUp client pass raw dial call
      → call.remote_rtp ≢ none
      → Front client pass call call' front
      → pass.relay_ok ≡ false
      → PassEnds client pass raw (record {
        result = bail relay_failed;
        session = some (in_state dial media_active);
        sent = front ++ last_bye client call' pass;
      })
  panicked :
      {session : Option Session} {sent : List Text}
      → Panics client pass raw session sent
      → PassEnds client pass raw (record { result = panic; session = session; sent = sent })

module _ (client : SipClient) (pass : Pass) (raw : Text) where
  pub if-PassEnds :
      (test : Bool) (e f : Ended)
      → (test ≡ true → PassEnds client pass raw e)
      → (test ≡ false → PassEnds client pass raw f)
      → PassEnds client pass raw (if test then e else f)
  if-PassEnds true e f yea nay = yea refl
  if-PassEnds false e f yea nay = nay refl

  pub teardown-PassEnds :
      (dial : Text) (call call' : Call) (front : List Text)
      → WasSetUp client pass raw dial call
      → call.remote_rtp ≢ none
      → Front client pass call call' front
      → PassEnds client pass raw (teardown client (in_state dial media_active) call' front pass)
  unfolding teardown move transition is_valid_transition
  teardown-PassEnds dial call call' front up media f = rw (send_bye_lem client call' pass) (
      if-PassEnds (not pass.relay_ok) _ _
        (λ h. broken dial call call' front up media f (ground (arith, h)))
        (λ h. completed dial call call' front up media f (ground (arith, h))))

  -- The relay, once the ACKs before it are known.
  pub relay-PassEnds :
      (dial : Text) (call : Call) (sent : List Text)
      → WasSetUp client pass raw dial call
      → call.remote_rtp ≢ none
      → ((call' : Call) (acks : List Text)
          → poll_early client call pass ≡ (ok call', acks)
          → Front client pass call call' (sent ++ acks))
      → ((e : RunError) → (poll_early client call pass).0 ≢ bail e)
      → ((acks : List Text)
          → poll_early client call pass ≡ (panic, acks)
          → Panics client pass raw (some (in_state dial media_active)) (sent ++ acks))
      → PassEnds client pass raw (relay client (in_state dial media_active) call sent pass)
  unfolding relay
  relay-PassEnds dial call sent up media front no_error panics =
      go (poll_early client call pass).0 refl
    where
      go :
          (o : Outcome RunError Call)
          → (poll_early client call pass).0 ≡ o
          → PassEnds client pass raw (elim o [
            | ok call' ↦
                teardown client
                  (in_state dial media_active)
                  call'
                  (sent ++ (poll_early client call pass).1)
                  pass
            | bail e ↦ record {
              result = bail e;
              session = some (in_state dial media_active);
              sent = sent;
            }
            | panic ↦ record {
              result = panic;
              session = some (in_state dial media_active);
              sent = sent ++ (poll_early client call pass).1;
            }
          ])
      go (ok call') e =
          teardown-PassEnds dial call call' (sent ++ (poll_early client call pass).1) up media (
            front call' (poll_early client call pass).1
              (ap (λ o. (o, (poll_early client call pass).1)) e))
      go (bail x) e = absurd (no_error x e)
      go panic e = panicked (
          panics (poll_early client call pass).1 (ap (λ o. (o, (poll_early client call pass).1)) e))
