-- ===== src/Bridge/Run.antt =====
-- bridge.rs: one pass of the loop in `run`, a call from its dial string to its teardown. What the
-- parts called give (the wait, the setup, the relay) is an argument; the halves of slmodemd's
-- socket always fit together again.
pub mod Messages
pub mod Teardown
pub mod Poll
pub mod Passes
pub mod Calls
mod Tests
use slmodem_sip_bridge.Base.{
  ℕ, ◌+◌, List, [], ◌∷◌, ◌++◌, Bool, true, false, not, Option, none, some, ltb, if◌then◌else◌,
}
use slmodem_sip_bridge.Base.Outcome.{Outcome, ok, bail, panic}
use slmodem_sip_bridge.DialString
use slmodem_sip_bridge.DialString.{DialString, DialError}
use slmodem_sip_bridge.Sdp.{build_offer}
use slmodem_sip_bridge.Session.{
  SessionState, originating, connecting_media, media_active, terminating, terminated, Session, new,
  transition,
}
use slmodem_sip_bridge.Sip.Answer.{Polled, is_early_media, poll_answer, ack, bye}
use slmodem_sip_bridge.Sip.{
  Call, CallState, early_media, answered, SipClient, SipError, send_failed,
}
use slmodem_sip_bridge.Text.{Text}

abbrev pub calls_limit : ℕ
calls_limit = 1000

pub data RunError : Type 0 where
  invalid_transition rtp_bind_failed relay_failed : RunError
  sip_failed : SipError → RunError

-- What the outside gives in one pass. `rtp_bound` says that the bind address can be read, that the
-- socket binds to it and has a local address; each failure ends `run` alike. The setup depends on the dial string and the offer.
pub record Pass : Type 0 where
  pub waited : Option Text
  pub rtp_bound : Bool
  pub rtp_port : ℕ
  pub session_id : ℕ
  pub setup : Text → Text → Outcome SipError Call
  pub ack_ok : Bool
  pub polls : List (Option Text × Bool)
  pub relay_ok : Bool
  pub bye_branch : Text
  pub bye_ok : Bool

abbrev pub is_answered : CallState → Bool
is_answered answered = true
is_answered _ = false

-- How a pass ends: with the next one, or with `return Ok(())`.
pub data Next : Type 0 where
  next_call shutdown : Next

-- The result, the session as it was left, and the messages that this function sent.
pub record Ended : Type 0 where
  pub result : Outcome RunError Next
  pub session : Option Session
  pub sent : List Text

-- `session.transition(next)?`, with what follows.
unfoldable pub move : Session → SessionState → List Text → (Session → Ended) → Ended
move session next sent go = elim (transition session next).1 [
  | true ↦ go (transition session next).0
  | false ↦ record { result = bail invalid_transition; session = some session; sent = sent }
]

-- `sip.bye(&call).await.ok()`.
unfoldable pub send_bye : SipClient → Call → Pass → List Text
unfolding bye
send_bye client call pass = (bye client call pass.bye_branch pass.bye_ok []).1

-- `answer_poll_fut`: it ends with an answer or an error; the panic is of the task.
unfoldable pub answer_poll :
    SipClient → Call → List (Option Text × Bool) → Outcome RunError Call × List Text
answer_poll client call [] = (ok call, [])
answer_poll client call ((received, ack_ok) ∷ polls) =
    let polled = poll_answer client call received ack_ok in
    let rest = answer_poll client polled.call polls in
    elim polled.result [
      | ok true ↦ (ok polled.call, polled.sent)
      | ok false ↦ (rest.0, polled.sent ++ rest.1)
      | bail _ ↦ (ok polled.call, polled.sent)
      | panic ↦ (panic, polled.sent)
    ]

-- The poll runs only for a call in early media.
unfoldable pub poll_early : SipClient → Call → Pass → Outcome RunError Call × List Text
poll_early client call pass =
    if is_early_media call.state then answer_poll client call pass.polls else (ok call, [])

-- Behind the relay: the BYE, and the last two transitions if the relay went well.
unfoldable pub teardown : SipClient → Session → Call → List Text → Pass → Ended
teardown client session call sent pass =
    let sent' = sent ++ send_bye client call pass in
    if not pass.relay_ok
    then record { result = bail relay_failed; session = some session; sent = sent' }
    else move session terminating sent' (λ session'.
      move session' terminated sent'
        (λ session''. record { result = ok next_call; session = some session''; sent = sent' }))

-- The relay, with the poll for the answer beside it.
unfoldable pub relay : SipClient → Session → Call → List Text → Pass → Ended
relay client session call sent pass = elim (poll_early client call pass).0 [
  | ok call' ↦ teardown client session call' (sent ++ (poll_early client call pass).1) pass
  | bail e ↦ record { result = bail e; session = some session; sent = sent }
  | panic ↦ record {
    result = panic;
    session = some session;
    sent = sent ++ (poll_early client call pass).1;
  }
]

-- A call with a remote address: the ACK, if it has been answered, and the relay.
unfoldable pub connected : SipClient → Session → Call → Pass → Ended
connected client session call pass =
    if is_answered call.state
    then elim (ack client call pass.ack_ok []).0 [
      | ok _ ↦
          move session media_active (ack client call pass.ack_ok []).1
            (λ session'. relay client session' call (ack client call pass.ack_ok []).1 pass)
      | bail e ↦ record { result = bail (sip_failed e); session = some session; sent = [] }
      | panic ↦ record { result = panic; session = some session; sent = [] }
    ]
    else move session media_active [] (λ session'. relay client session' call [] pass)

-- A call that was set up: without a remote address it is only ended.
unfoldable pub on_call : SipClient → Session → Call → Pass → Ended
on_call client session call pass = elim call.remote_rtp [
  | some remote_rtp ↦ connected client session call pass
  | none ↦ record {
    result = ok next_call;
    session = some session;
    sent = send_bye client call pass;
  }
]

-- The setup, with a session that is originating.
unfoldable pub set_up : SipClient → Session → Text → Text → Pass → Ended
set_up client session dial sdp_offer pass = elim (pass.setup dial sdp_offer) [
  | ok call ↦ move session connecting_media [] (λ session'. on_call client session' call pass)
  | bail _ ↦ record { result = ok next_call; session = some session; sent = [] }
  | panic ↦ record { result = panic; session = some session; sent = [] }
]

-- A dial string that was accepted.
unfoldable pub place_call : SipClient → Text → Pass → Ended
place_call client dial pass = move (new dial) originating [] (λ session.
    if not pass.rtp_bound
    then record { result = bail rtp_bind_failed; session = some session; sent = [] }
    else elim (build_offer {E = RunError} client.local_ip pass.rtp_port pass.session_id) [
      | ok sdp_offer ↦ set_up client session dial sdp_offer pass
      | bail e ↦ record { result = bail e; session = some session; sent = [] }
      | panic ↦ record { result = panic; session = some session; sent = [] }
    ])

unfoldable pub on_dial : SipClient → Text → Pass → Ended
on_dial client raw pass = elim (DialString.parse raw) [
  | ok dial ↦ place_call client dial.as_str pass
  | bail _ ↦ record { result = ok next_call; session = none; sent = [] }
  | panic ↦ record { result = panic; session = none; sent = [] }
]

-- One pass, with the calls counted before it, and the count behind it.
unfoldable pub run_pass : SipClient → ℕ → Pass → Ended × ℕ
run_pass client calls_count pass =
    if not (ltb calls_count calls_limit)
    then (record { result = panic; session = none; sent = [] }, calls_count)
    else elim pass.waited [
      | some raw ↦ (on_dial client raw pass, calls_count + 1)
      | none ↦ (record { result = ok shutdown; session = none; sent = [] }, calls_count)
    ]

-- The loop, over the passes; `none` while it waits for the next one. The messages of all passes,
-- in order.
unfoldable pub run_loop :
    SipClient → ℕ → List Pass → Option (Outcome RunError (Unit {0})) × List Text
run_loop client calls_count [] = (none, [])
run_loop client calls_count (pass ∷ passes) =
    let (ended, calls_count') = run_pass client calls_count pass in
    let rest = run_loop client calls_count' passes in
    elim ended.result [
      | ok next_call ↦ (rest.0, ended.sent ++ rest.1)
      | ok shutdown ↦ (some (ok tt), ended.sent)
      | bail e ↦ (some (bail e), ended.sent)
      | panic ↦ (some panic, ended.sent)
    ]
