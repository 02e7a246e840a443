-- ===== src/Sip/Answer.antt =====
-- sip.rs: `poll_answer`, `ack` and `bye`.
pub mod Polling
mod Tests
use slmodem_sip_bridge.Base.{
  ℕ, ◌+◌, List, [], ◌∷◌, ◌++◌, Bool, true, false, not, ◌&&◌, Option, none, some, leb, ltb, ◌==◌,
  if◌then◌else◌,
}
use slmodem_sip_bridge.Base.Outcome
use slmodem_sip_bridge.Base.Outcome.{Outcome, ok, bail, panic}
use slmodem_sip_bridge.Net.{SocketAddr}
use slmodem_sip_bridge.Sip.Build.{build_ack, build_bye}
use slmodem_sip_bridge.Sip.Invite.{sdp_endpoint, with_remote_tag}
use slmodem_sip_bridge.Sip.Message.{parse_status_code}
use slmodem_sip_bridge.Sip.{
  Call, CallState, trying, early_media, answered, SipClient, SipError, send_failed, call_failed,
  Sip, ◌>>◌, pure, send_msg,
}
use slmodem_sip_bridge.Text.{Text}

-- `ack`; the flag says whether the socket takes the message.
unfoldable pub ack : SipClient → Call → Bool → Sip (Unit {0})
ack client call ack_ok = send_msg ack_ok (build_ack client call)

-- `bye`. What comes back in the next three seconds is read and only logged.
unfoldable pub bye : SipClient → Call → Text → Bool → Sip (Unit {0})
bye client call branch bye_ok = send_msg bye_ok (build_bye client call branch)

-- What `poll_answer` leaves: its result, the call that it was lent, and the messages.
pub record Polled : Type 0 where
  pub result : Outcome SipError Bool
  pub call : Call
  pub sent : List Text

abbrev pub is_early_media : CallState → Bool
is_early_media early_media = true
is_early_media _ = false

-- The address of a 200, if it has one.
unfoldable pub set_remote_rtp : Call → Option SocketAddr → Call
set_remote_rtp call none = call
set_remote_rtp call (some rtp_addr) = record call { remote_rtp = some rtp_addr }

-- The fields that a 200 sets.
unfoldable pub answered_call : Call → Text → Outcome SipError Call
answered_call call resp = Outcome.◌>>=◌ (sdp_endpoint resp) (λ endpoint.
    Outcome.◌>>=◌ (with_remote_tag (set_remote_rtp call endpoint) resp)
      (λ tagged_call. ok (record tagged_call { state = answered })))

-- The call once a 200 has been read, and the ACK for it.
unfoldable pub acknowledged : SipClient → Bool → Call → Polled
unfolding ack
acknowledged client ack_ok call =
    let (result, sent) = (ack client call ack_ok >> pure true) [] in
    record { result = result; call = call; sent = sent }

unfoldable pub on_poll_status : SipClient → Call → Text → Bool → ℕ → Polled
on_poll_status client call resp ack_ok status =
    if leb 100 status && ltb status 200
    then record { result = ok false; call = call; sent = [] }
    else if status == 200
    then elim (answered_call call resp) [
      | ok call' ↦ acknowledged client ack_ok call'
      | bail e ↦ record { result = bail e; call = call; sent = [] }
      | panic ↦ record { result = panic; call = call; sent = [] }
    ]
    else record { result = bail (call_failed status); call = call; sent = [] }

unfoldable pub on_poll_response : SipClient → Call → Bool → Option Text → Polled
on_poll_response client call ack_ok none = record { result = ok false; call = call; sent = [] }
on_poll_response client call ack_ok (some resp) = elim (parse_status_code resp) [
  | none ↦ record { result = ok false; call = call; sent = [] }
  | some status ↦ on_poll_status client call resp ack_ok status
]

-- `poll_answer`, with what was received in its half second.
unfoldable pub poll_answer : SipClient → Call → Option Text → Bool → Polled
poll_answer client call received ack_ok =
    if is_early_media call.state
    then on_poll_response client call ack_ok received
    else record { result = panic; call = call; sent = [] }
