-- ===== src/Sip/Invite.antt =====
-- sip.rs: `invite`. One round of its loop is a function of the loop's variables and of what the
-- outside gives in that round: the clock, what was received, whether the socket takes a message, a
-- fresh branch and a fresh client nonce.
pub mod Response
pub mod Reply
pub mod Round
pub mod Conversation
pub mod Invited
pub mod Ends
pub mod Bounded
pub mod Calm
pub mod Answered
pub mod Heard
mod Tests
use slmodem_sip_bridge.Base.{
  ℕ, zero, suc, ◌+◌, ◌-◌, ◌*◌, min, List, [], ◌∷◌, ◌++◌, Bool, true, false, not, ◌&&◌, ◌||◌, Option,
  none, some, ltb, leb, ◌==◌, if◌then◌else◌, is_nil,
}
use slmodem_sip_bridge.Base.Outcome
use slmodem_sip_bridge.Base.Outcome.{Outcome, ok, bail, panic}
use slmodem_sip_bridge.Net.{SocketAddr}
use slmodem_sip_bridge.Sdp.{parse_answer}
use slmodem_sip_bridge.Sip.Build.{build_invite, build_ack}
use slmodem_sip_bridge.Sip.Digest.{parse_digest_challenge, auth_header_value}
use slmodem_sip_bridge.Sip.Message.{
  parse_status_code, extract_cseq_num, extract_header, extract_tag_param, extract_sdp_body,
  is_current,
}
use slmodem_sip_bridge.Sip.{
  Call, CallState, trying, early_media, answered, SipClient, SipError, invite_timed_out,
  auth_failed_after_retry, invite_rejected, missing_challenge, Sip, ◌>>=◌, ◌>>◌, pure, fail, lift,
  send_msg, timer_a_initial_ms, timer_a_cap_ms, invite_retransmit_limit, response_loop_limit,
}
use slmodem_sip_bridge.Text.{Text, codes}

-- The arguments of `invite` and what it makes of them before the loop: the request URI, the first
-- INVITE and the deadline.
pub record Setup : Type 0 where
  pub client : SipClient
  pub sdp_offer : Text
  pub call_id : Text
  pub invite_uri : Text
  pub invite : Text
  pub deadline : ℕ

-- The variables of the loop.
pub record InviteState : Type 0 where
  pub call : Call
  pub retransmit_timer : ℕ
  pub last_send : ℕ
  pub retransmit_count : ℕ
  pub iterations : ℕ
  pub got_provisional : Bool
  pub auth_retry_done : Bool

-- What the outside gives in one round.
pub record Tick : Type 0 where
  pub now : ℕ
  pub timer_now : ℕ
  pub resent_at : ℕ
  pub resp : Option Text
  pub auth_sent_at : ℕ
  pub resend_ok : Bool
  pub ack_ok : Bool
  pub invite_ok : Bool
  pub branch : Text
  pub cnonce : Text

-- How a round ends: with another round, or with `return Ok(call)`.
pub data Control : Type 0 where
  again : InviteState → Control
  finished : Call → Control

-- The tag of the To header of a response.
unfoldable pub tag_of_to : Option Text → Outcome SipError (Option Text)
tag_of_to none = ok none
tag_of_to (some to) = extract_tag_param to

unfoldable pub response_tag : Text → Outcome SipError (Option Text)
response_tag resp = Outcome.◌>>=◌ (extract_header resp (codes "To")) tag_of_to

unfoldable pub set_remote_tag : Call → Option Text → Call
set_remote_tag call none = call
set_remote_tag call (some tag) = record call { remote_tag = some tag }

-- `if call.remote_tag.is_none() { ... }`.
unfoldable pub with_remote_tag : Call → Text → Outcome SipError Call
with_remote_tag call resp = elim call.remote_tag [
  | some _ ↦ ok call
  | none ↦ Outcome.◌>>=◌ (response_tag resp) (λ tag. ok (set_remote_tag call tag))
]

-- The endpoint in the SDP body of a response, if it has one that `parse_answer` accepts.
unfoldable pub sdp_endpoint : Text → Outcome SipError (Option SocketAddr)
sdp_endpoint resp = Outcome.◌>>=◌ (extract_sdp_body resp) (λ body. elim body [
  | none ↦ ok none
  | some sdp ↦ elim (parse_answer sdp) [
    | ok answer ↦ ok (some (record { ip = answer.addr; port = answer.port }))
    | bail _ ↦ ok none
    | panic ↦ panic
  ]
])

-- `180 | 183`.
unfoldable pub on_provisional : InviteState → Option SocketAddr → Control
on_provisional st (some rtp_addr) =
    finished (record st.call { remote_rtp = some rtp_addr; state = early_media })
on_provisional st none = again (record st { got_provisional = true })

-- `200`.
unfoldable pub on_answer : Call → Option SocketAddr → Call
on_answer call (some rtp_addr) = record call { remote_rtp = some rtp_addr; state = answered }
on_answer call none = record call { state = answered }

abbrev pub auth_hdr_name : ℕ → Text
auth_hdr_name status =
    if status == 401 then codes "WWW-Authenticate" else codes "Proxy-Authenticate"

abbrev pub auth_resp_name : ℕ → Text
auth_resp_name status = if status == 401 then codes "Authorization" else codes "Proxy-Authorization"

-- The authenticated INVITE for a call that has its new CSeq and branch.
unfoldable pub auth_invite : Setup → Call → Text → Text → Text
auth_invite setup call name value =
    build_invite setup.client setup.invite_uri setup.call_id call.local_tag call.via_branch
      call.cseq setup.sdp_offer (some (name, value))

-- The test for a retransmission.
unfoldable pub retransmit_due : InviteState → Tick → Bool
retransmit_due st t =
    not st.got_provisional
    && ltb st.retransmit_count invite_retransmit_limit
    && leb st.retransmit_timer (t.timer_now - st.last_send)

-- The variables behind a retransmission.
unfoldable pub retransmitted : InviteState → Tick → InviteState
retransmitted st t = record st {
  retransmit_count = st.retransmit_count + 1;
  last_send = t.resent_at;
  retransmit_timer = min (st.retransmit_timer * 2) timer_a_cap_ms;
}

-- The next round, or the call that is returned.
abbrev pub loop_control : (InviteState → Sip (Option Call)) → Control → Sip (Option Call)
loop_control next (again st) = next st
loop_control next (finished call) = pure (some call)

-- The ACK of the challenge, the authenticated INVITE, and the variables of its transaction.
unfoldable pub auth_retry : Setup → InviteState → Tick → Text → Text → Sip Control
auth_retry setup st t name value =
    let call = record st.call { cseq = st.call.cseq + 1; via_branch = t.branch } in
    (do
      send_msg t.ack_ok (build_ack setup.client st.call)
      send_msg t.invite_ok (auth_invite setup call name value)
      pure (
          again (record st {
            call = call;
            retransmit_count = 0;
            retransmit_timer = timer_a_initial_ms;
            last_send = t.auth_sent_at;
            got_provisional = false;
            auth_retry_done = true;
          })))

module _ (md5_hex : Text → Text) (setup : Setup) where
  -- `401 | 407`.
  unfoldable pub on_challenge : InviteState → Tick → Text → ℕ → Sip Control
  on_challenge st t resp status =
      if st.auth_retry_done then fail (auth_failed_after_retry status) else (do
        found ← lift (extract_header resp (auth_hdr_name status))
        auth_header ← lift (Outcome.ok_or found missing_challenge)
        digest ← lift (parse_digest_challenge auth_header)
        let value =
            auth_header_value md5_hex digest setup.client.username setup.client.password
              (codes "INVITE") setup.invite_uri t.cnonce
        auth_retry setup st t (auth_resp_name status) value)

  -- `match status { ... }`.
  unfoldable pub on_status : InviteState → Tick → Text → ℕ → Sip Control
  on_status st t resp status =
      if status == 100
      then pure (again (record st { got_provisional = true }))
      else if status == 180 || status == 183
      then (do endpoint ← lift (sdp_endpoint resp); pure (on_provisional st endpoint))
      else if status == 200
      then (do endpoint ← lift (sdp_endpoint resp); pure (finished (on_answer st.call endpoint)))
      else if status == 401 || status == 407
      then on_challenge st t resp status
      else if leb 400 status && ltb status 700
      then (do send_msg t.ack_ok (build_ack setup.client st.call); fail (invite_rejected status))
      else pure (again st)

  -- What follows `try_recv_response`.
  unfoldable pub on_response : InviteState → Tick → Text → Sip Control
  on_response st t resp = elim (parse_status_code resp) [
    | none ↦ pure (again st)
    | some status ↦ do
      resp_cseq ← lift (extract_cseq_num resp)
      if not (is_current st.call.cseq resp_cseq) then pure (again st) else (do
        call ← lift (with_remote_tag st.call resp)
        on_status (record st { call = call }) t resp status)
  ]

  abbrev pub receive : InviteState → Tick → Option Text → Sip Control
  receive st t none = pure (again st)
  receive st t (some resp) = on_response st t resp

  -- One round of the loop.
  unfoldable pub round : InviteState → Tick → Sip Control
  round st t =
      let counted = record st { iterations = st.iterations + 1 } in
      if not (ltb st.iterations response_loop_limit)
      then lift panic
      else if leb setup.deadline t.now
      then fail invite_timed_out
      else if retransmit_due counted t
      then (do send_msg t.resend_ok setup.invite; receive (retransmitted counted t) t t.resp)
      else receive counted t t.resp

  -- The loop; `none` while it still waits for the next round.
  unfoldable pub invite_loop : InviteState → List Tick → Sip (Option Call)
  invite_loop st [] = pure none
  invite_loop st (t ∷ ts) = do
    control ← round st t
    loop_control (λ st'. invite_loop st' ts) control

abbrev pub invite_uri_of : SipClient → Text → Text
invite_uri_of client dial = codes "sip:" ++ (dial ++ (b'@' ∷ client.sip_domain))

-- What `invite` makes before its loop, from the fresh identifiers.
unfoldable pub setup_of : SipClient → Text → Text → ℕ → Text → Text → Text → Setup
setup_of client dial sdp_offer deadline call_id local_tag branch =
    let uri = invite_uri_of client dial in
    record {
      client = client;
      sdp_offer = sdp_offer;
      call_id = call_id;
      invite_uri = uri;
      invite = build_invite client uri call_id local_tag branch 1 sdp_offer none;
      deadline = deadline;
    }

unfoldable pub start : Setup → Text → Text → ℕ → InviteState
start setup local_tag branch now = record {
  call = record {
    call_id = setup.call_id;
    cseq = 1;
    local_tag = local_tag;
    remote_tag = none;
    remote_rtp = none;
    state = trying;
    invite_uri = setup.invite_uri;
    via_branch = branch;
  };
  retransmit_timer = timer_a_initial_ms;
  last_send = now;
  retransmit_count = 0;
  iterations = 0;
  got_provisional = false;
  auth_retry_done = false;
}

-- The whole of `invite`, with the fresh identifiers, the time when the loop starts, and whether
-- the socket takes the first message.
unfoldable pub invite :
    (Text → Text)
    → SipClient
    → Text
    → Text
    → ℕ
    → Text
    → Text
    → Text
    → ℕ
    → Bool
    → List Tick
    → Sip (Option Call)
unfolding setup_of start
invite md5_hex client dial sdp_offer timeout call_id local_tag branch now first_ok ticks =
    let setup = setup_of client dial sdp_offer (now + timeout) call_id local_tag branch in
    (do
      lift (Outcome.assert (not (is_nil dial)))
      send_msg first_ok setup.invite
      invite_loop md5_hex setup (start setup local_tag branch now) ticks)
