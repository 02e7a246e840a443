-- ===== src/Sip/Invite/Reply.antt =====
-- What one response of the server does to the exchange, as a relation.
pub mod Challenged
pub mod Handled
use slmodem_sip_bridge.Base.{
  ℕ, ◌+◌, ◌≤◌, ◌<◌, List, [], ◌∷◌, ◌++◌, Bool, true, false, Option, none, some, ◌≡◌, ◌≢◌, ◌⊎◌,
}
use slmodem_sip_bridge.Base.Outcome.{Outcome, ok, bail, panic}
use slmodem_sip_bridge.Net.{SocketAddr}
use slmodem_sip_bridge.Sip.Build.{build_ack, build_invite}
use slmodem_sip_bridge.Sip.Digest.{DigestChallenge, auth_header_value}
use slmodem_sip_bridge.Sip.Invite.Response.{
  Tagged, kept, IsCurrent, IsCurrent-Tagged, Ignores, Challenge, Asks, Breaks,
}
use slmodem_sip_bridge.Sip.Invite.{Setup, InviteState, Tick, Control, again, finished, sdp_endpoint}
use slmodem_sip_bridge.Sip.{
  Call, SipError, send_failed, early_media, answered, invite_rejected, auth_failed_after_retry, Sip,
  timer_a_initial_ms,
}
use slmodem_sip_bridge.Text.{Text, codes}

-- The variables of the loop when the authenticated INVITE has been sent.
abbrev pub retried_state : InviteState → Call → Text → ℕ → InviteState
retried_state st call branch at = record st {
  call = record call { cseq = call.cseq + 1; via_branch = branch };
  retransmit_count = 0;
  retransmit_timer = timer_a_initial_ms;
  last_send = at;
  got_provisional = false;
  auth_retry_done = true;
}

-- The INVITE that answers a challenge: the next CSeq, a new branch, and a header with credentials.
abbrev pub with_credentials : Setup → Call → Text → Text → Text → Text
with_credentials setup call branch name value =
    build_invite setup.client setup.invite_uri setup.call_id call.local_tag branch (call.cseq + 1)
      setup.sdp_offer (some (name, value))

-- The endpoint that is known, once a response has been read.
abbrev pub newest : Option SocketAddr → Option SocketAddr → Option SocketAddr
newest none known = known
newest (some addr) known = some addr

-- A final refusal, other than a challenge.
pub record Refuses (status : ℕ) : Type 0 where
  pub low : 400 ≤ status
  pub high : status < 700
  pub no_challenge : (status ≢ 401) × (status ≢ 407)

-- The credentials for a challenge.
abbrev pub credentials : (Text → Text) → Setup → Tick → DigestChallenge → Text
credentials md5_hex setup t digest =
    auth_header_value md5_hex digest setup.client.username setup.client.password (codes "INVITE")
      setup.invite_uri t.cnonce

-- A challenge that is to be answered: the first one of the exchange, and it can be read.
pub record Answerable (st : InviteState) (received : Option Text) (call : Call) (answer : Text)
    (digest : DigestChallenge) : Type 0 where
  pub resp : Text
  pub status : ℕ
  pub name : Text
  pub current : IsCurrent st received resp status call
  pub challenge : Challenge status name answer
  pub fresh : st.auth_retry_done ≡ false
  pub asks : Asks resp name digest

-- Why the exchange ends with an error and without a message.
pub data Fault (st : InviteState) (t : Tick) (received : Option Text) : SipError → Type 0 where
  unreadable : {e : SipError} → Breaks st received (bail e) → Fault st t received e
  challenged_again :
      {resp name answer : Text} {status : ℕ} {call : Call}
      → IsCurrent st received resp status call
      → Challenge status name answer
      → st.auth_retry_done ≡ true
      → Fault st t received (auth_failed_after_retry status)
  challenge_unacknowledged :
      {call : Call} {answer : Text} {digest : DigestChallenge}
      → Answerable st received call answer digest
      → t.ack_ok ≡ false
      → Fault st t received send_failed
  refusal_unacknowledged :
      {resp : Text} {status : ℕ} {call : Call}
      → IsCurrent st received resp status call
      → Refuses status
      → t.ack_ok ≡ false
      → Fault st t received send_failed

-- What follows what was received: how the round ends and the messages it sends.
pub data Reply (md5_hex : Text → Text) (setup : Setup) (st : InviteState) (t : Tick)
    (received : Option Text) : Outcome SipError Control → List Text → Type 0 where
  ignored :
      {call : Call}
      → Ignores st received call
      → Reply md5_hex setup st t received (ok (again (record st { call = call }))) []
  provisional :
      {resp : Text} {status : ℕ} {call : Call}
      → IsCurrent st received resp status call
      → (status ≡ 100) ⊎ (((status ≡ 180) ⊎ (status ≡ 183)) × (sdp_endpoint resp ≡ ok none))
      → Reply md5_hex setup st t received
          (ok (again (record st { call = call; got_provisional = true })))
          []
  early :
      {resp : Text} {status : ℕ} {call : Call} (addr : SocketAddr)
      → IsCurrent st received resp status call
      → (status ≡ 180) ⊎ (status ≡ 183)
      → sdp_endpoint resp ≡ ok (some addr)
      → Reply md5_hex setup st t received
          (ok (finished (record call { remote_rtp = some addr; state = early_media })))
          []
  picked_up :
      {resp : Text} {call : Call} (endpoint : Option SocketAddr)
      → IsCurrent st received resp 200 call
      → sdp_endpoint resp ≡ ok endpoint
      → Reply md5_hex setup st t received
          (ok (
            finished
              (record call { remote_rtp = newest endpoint call.remote_rtp; state = answered })))
          []
  challenged :
      {call : Call} {answer : Text} (digest : DigestChallenge)
      → Answerable st received call answer digest
      → t.ack_ok ≡ true
      → t.invite_ok ≡ true
      → Reply md5_hex setup st t received
          (ok (again (retried_state st call t.branch t.auth_sent_at)))
          (build_ack setup.client call
            ∷ with_credentials setup call t.branch answer (credentials md5_hex setup t digest)
            ∷ [])
  rejected :
      {resp : Text} {status : ℕ} {call : Call}
      → IsCurrent st received resp status call
      → Refuses status
      → t.ack_ok ≡ true
      → Reply md5_hex setup st t received
          (bail (invite_rejected status))
          (build_ack setup.client call ∷ [])
  unsent :
      {call : Call} {answer : Text} {digest : DigestChallenge}
      → Answerable st received call answer digest
      → t.ack_ok ≡ true
      → t.invite_ok ≡ false
      → Reply md5_hex setup st t received (bail send_failed) (build_ack setup.client call ∷ [])
  failed : {e : SipError} → Fault st t received e → Reply md5_hex setup st t received (bail e) []
  panicked : Breaks st received panic → Reply md5_hex setup st t received panic []

-- A computation that starts with this log ends as the relation says.
pub record Replies (md5_hex : Text → Text) (setup : Setup) (st : InviteState) (t : Tick)
    (received : Option Text) (m : Sip Control) (sent : List Text) : Type 0 where
  pub outcome : Outcome SipError Control
  pub messages : List Text
  pub logged : m sent ≡ (outcome, sent ++ messages)
  pub reply : Reply md5_hex setup st t received outcome messages
