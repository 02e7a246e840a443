-- ===== src/Sip.antt =====
-- sip.rs: the SIP user agent. The child modules follow the file: the parsing helpers (Message), the
-- digest (Digest), the messages that are built (Build), and the exchanges with the server
-- (Register, Invite, Answer). This file has the data that they share, and the monad they run in.
pub mod Client
pub mod Ids
pub mod Message
pub mod Digest
pub mod Build
pub mod Invite
pub mod Register
pub mod Answer
use slmodem_sip_bridge.Base.{ℕ, ◌+◌, List, [], ◌∷◌, ◌++◌, Bool, true, false, Option, none, some}
use slmodem_sip_bridge.Base.Outcome.{Outcome, ok, bail, panic}
use slmodem_sip_bridge.Net.{IpAddr, SocketAddr}
use slmodem_sip_bridge.Text.{Text}

-- Times and intervals are in milliseconds.
abbrev pub timer_a_initial_ms : ℕ
timer_a_initial_ms = 500

abbrev pub timer_a_cap_ms : ℕ
timer_a_cap_ms = 4000

abbrev pub invite_retransmit_limit : ℕ
invite_retransmit_limit = 7

abbrev pub register_timeout : ℕ
register_timeout = 10000

abbrev pub recv_timeout : ℕ
recv_timeout = 500

abbrev pub response_loop_limit : ℕ
response_loop_limit = 1000

pub data CallState : Type 0 where
  trying early_media answered : CallState

pub record Call : Type 0 where
  pub call_id : Text
  pub cseq : ℕ
  pub local_tag : Text
  pub remote_tag : Option Text
  pub remote_rtp : Option SocketAddr
  pub state : CallState
  pub invite_uri : Text
  pub via_branch : Text

-- The fields of the client but for its socket; `local_port` is the port of `local_addr`.
pub record SipClient : Type 0 where
  pub sip_domain : Text
  pub username : Text
  pub password : Text
  pub caller_id : Text
  pub caller_name : Text
  pub local_ip : IpAddr
  pub local_port : ℕ

pub data SipError : Type 0 where
  send_failed no_response register_timed_out missing_challenge missing_realm missing_nonce :
      SipError
  register_failed register_auth_failed : ℕ → SipError
  invite_timed_out : SipError
  auth_failed_after_retry invite_rejected call_failed : ℕ → SipError

-- An exchange: what it returns, and the messages sent so far, in order.
abbrev pub Sip {ℓ} : Type ℓ → Type ℓ
Sip A = List Text → Outcome SipError A × List Text

abbrev pub go_on {ℓ κ} :
    {A : Type ℓ} {B : Type κ}
    → Outcome SipError A × List Text
    → (A → Sip B)
    → Outcome SipError B × List Text
go_on r f = elim r.0 [ ok a ↦ f a r.1 | bail e ↦ (bail e, r.1) | panic ↦ (panic, r.1) ]

infixl 5 ◌>>=◌ ◌>>◌
abbrev pub ◌>>=◌ {ℓ κ} : {A : Type ℓ} {B : Type κ} → Sip A → (A → Sip B) → Sip B
◌>>=◌ m f sent = go_on (m sent) f

abbrev pub ◌>>◌ {κ} : {B : Type κ} → Sip (Unit {0}) → Sip B → Sip B
m >> k = m >>= λ _. k

abbrev pub pure {ℓ} : {A : Type ℓ} → A → Sip A
pure a sent = (ok a, sent)

abbrev pub fail {ℓ} : {A : Type ℓ} → SipError → Sip A
fail e sent = (bail e, sent)

-- A computation that sends nothing.
abbrev pub lift {ℓ} : {A : Type ℓ} → Outcome SipError A → Sip A
lift m sent = (m, sent)

-- `send_msg(..).await?`, with whether the socket takes the message.
unfoldable pub send_msg : Bool → Text → Sip (Unit {0})
send_msg true msg sent = (ok tt, sent ++ msg ∷ [])
send_msg false msg sent = (bail send_failed, sent)
