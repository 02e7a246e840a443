-- ===== src/Sip/Answer/Polling.antt =====
-- What a poll for the answer may change.
use slmodem_sip_bridge.Base.{
  ℕ, ◌≤◌, ◌<◌, [], ◌∷◌, Bool, true, false, Option, none, some, ◌≡◌, ◌⊎◌, inl, inr, refl, sym, ap,
  ◌∙◌, arith, leb, ltb, ◌&&◌, ◌==◌, if◌then◌else◌,
}
use mathlib.Core.Path.{subst}
use slmodem_sip_bridge.Base.Outcome
use slmodem_sip_bridge.Base.Outcome.{
  Outcome, ok, bail, panic, >>=-ok, Fails, error, crash, Fails->>=, Fails-ok,
}
use slmodem_sip_bridge.Net.{SocketAddr}
use slmodem_sip_bridge.Sip.Answer.{
  ack, Polled, is_early_media, set_remote_rtp, answered_call, acknowledged, on_poll_status,
  on_poll_response, poll_answer,
}
use slmodem_sip_bridge.Sip.Build.{build_ack}
use slmodem_sip_bridge.Sip.Invite.Response.{Tagged, with_remote_tag-Tagged}
use slmodem_sip_bridge.Sip.Invite.{sdp_endpoint, with_remote_tag}
use slmodem_sip_bridge.Sip.Message.{parse_status_code}
use slmodem_sip_bridge.Sip.{
  Call, early_media, answered, SipClient, SipError, send_failed, call_failed, send_msg,
}
use slmodem_sip_bridge.Text.{Text}

-- The call behind a 200: an address, if the response has one, a tag, if the call had none, and the
-- state. Identifiers and CSeq stay.
pub record AnsweredBy (call call' : Call) (resp : Text) : Type 0 where
  pub endpoint : Option SocketAddr
  pub middle : Call
  pub endpoint_is : sdp_endpoint resp ≡ ok endpoint
  pub tag_read : with_remote_tag (set_remote_rtp call endpoint) resp ≡ ok middle
  pub tag_is : Tagged (set_remote_rtp call endpoint) middle
  pub call_is : call' ≡ record middle { state = answered }

-- What does not end the wait for an answer: nothing, no response, or a provisional one.
pub data Undecided : Option Text → Type 0 where
  nothing : Undecided none
  no_response : {resp : Text} → parse_status_code resp ≡ none → Undecided (some resp)
  early :
      {resp : Text} (status : ℕ)
      → parse_status_code resp ≡ some status
      → 100 ≤ status
      → status < 200
      → Undecided (some resp)

-- A 200 whose session description, or whose tag where it is looked for, cannot be read.
pub data Unreadable (call : Call) (resp : Text) (o : Outcome SipError Bool) : Type 0 where
  body : Fails (sdp_endpoint resp) o → Unreadable call resp o
  tag :
      (endpoint : Option SocketAddr)
      → sdp_endpoint resp ≡ ok endpoint
      → Fails (with_remote_tag (set_remote_rtp call endpoint) resp) o
      → Unreadable call resp o

-- The cases of a poll in early media.
pub data Poll (client : SipClient) (call : Call) (received : Option Text) (ack_ok : Bool)
    : Polled → Type 0 where
  waits :
      Undecided received
      → Poll client call received ack_ok (record { result = ok false; call = call; sent = [] })
  answers :
      (resp : Text) (call' : Call)
      → received ≡ some resp
      → parse_status_code resp ≡ some 200
      → AnsweredBy call call' resp
      → ack_ok ≡ true
      → Poll client call received ack_ok
          (record { result = ok true; call = call'; sent = build_ack client call' ∷ [] })
  unacknowledged :
      (resp : Text) (call' : Call)
      → received ≡ some resp
      → parse_status_code resp ≡ some 200
      → AnsweredBy call call' resp
      → ack_ok ≡ false
      → Poll client call received ack_ok
          (record { result = bail send_failed; call = call'; sent = [] })
  fails :
      (resp : Text) (status : ℕ)
      → received ≡ some resp
      → parse_status_code resp ≡ some status
      → (status < 100) ⊎ (200 < status)
      → Poll client call received ack_ok
          (record { result = bail (call_failed status); call = call; sent = [] })
  unreadable :
      (resp : Text) (e : Outcome SipError Bool)
      → received ≡ some resp
      → parse_status_code resp ≡ some 200
      → Unreadable call resp e
      → Poll client call received ack_ok (record { result = e; call = call; sent = [] })

module _ (client : SipClient) (call : Call) (received : Option Text) (ack_ok : Bool) where
  if-Poll :
      (test : Bool) (p q : Polled)
      → (test ≡ true → Poll client call received ack_ok p)
      → (test ≡ false → Poll client call received ack_ok q)
      → Poll client call received ack_ok (if test then p else q)
  if-Poll true p q yea nay = yea refl
  if-Poll false p q yea nay = nay refl

  acknowledged-Poll :
      (resp : Text) (call' : Call)
      → received ≡ some resp
      → parse_status_code resp ≡ some 200
      → AnsweredBy call call' resp
      → Poll client call received ack_ok (acknowledged client ack_ok call')
  unfolding acknowledged ack send_msg
  acknowledged-Poll resp call' got status a = go ack_ok refl
    where
      go :
          (taken : Bool)
          → ack_ok ≡ taken
          → Poll client call received ack_ok (acknowledged client taken call')
      go true e = answers resp call' got status a e
      go false e = unacknowledged resp call' got status a e

  answered_call-AnsweredBy :
      (resp : Text) (call' : Call) → answered_call call resp ≡ ok call' → AnsweredBy call call' resp
  unfolding answered_call
  answered_call-AnsweredBy resp call' h =
      let (endpoint, e, rest) =
        >>=-ok (sdp_endpoint resp)
          (λ endpoint.
            Outcome.◌>>=◌ (with_remote_tag (set_remote_rtp call endpoint) resp)
              (λ tagged_call. ok (record tagged_call { state = answered })))
          h in
      let (middle, tagging, last) =
        >>=-ok (with_remote_tag (set_remote_rtp call endpoint) resp)
          (λ tagged_call. ok (record tagged_call { state = answered })) rest in
      record {
        endpoint = endpoint;
        middle = middle;
        endpoint_is = e;
        tag_read = tagging;
        tag_is = with_remote_tag-Tagged (set_remote_rtp call endpoint) resp middle tagging;
        call_is = cc;
      }

  -- Why a 200 makes no call.
  answered_call-Unreadable :
      (resp : Text) (o : Outcome SipError Bool)
      → Fails (answered_call call resp) o
      → Unreadable call resp o
  unfolding answered_call
  answered_call-Unreadable resp o h = elim (Fails->>= (sdp_endpoint resp) _ h) [
    | inl unread ↦ body unread
    | inr (endpoint, at, later) ↦
        elim (Fails->>= (with_remote_tag (set_remote_rtp call endpoint) resp) _ later) [
          | inl untagged ↦ tag endpoint at untagged
          | inr (_, _, never) ↦ absurd (Fails-ok never)
        ]
  ]

  on_poll_status-Poll :
      (resp : Text) (status : ℕ)
      → received ≡ some resp
      → parse_status_code resp ≡ some status
      → Poll client call received ack_ok (on_poll_status client call resp ack_ok status)
  unfolding on_poll_status
  on_poll_status-Poll resp status got is_status =
      if-Poll (leb 100 status && ltb status 200) _ _
        (λ provisional.
          waits (subst Undecided (sym got) (early status is_status (ground arith) (ground arith))))
        (λ not_provisional.
          if-Poll (status == 200) _ _
            (λ success. settle (answered_call call resp) refl (is_status ∙ ap some (ground arith)))
            (λ other. fails resp status got is_status (ground arith)))
    where
      settle :
          (o : Outcome SipError Call)
          → answered_call call resp ≡ o
          → parse_status_code resp ≡ some 200
          → Poll client call received ack_ok (elim o [
            | ok call' ↦ acknowledged client ack_ok call'
            | bail e ↦ record { result = bail e; call = call; sent = [] }
            | panic ↦ record { result = panic; call = call; sent = [] }
          ])
      settle (ok call') e s =
          acknowledged-Poll resp call' got s (answered_call-AnsweredBy resp call' e)
      settle (bail x) e s =
          unreadable resp (bail x) got s (answered_call-Unreadable resp (bail x) (error x e))
      settle panic e s = unreadable resp panic got s (answered_call-Unreadable resp panic (crash e))

on_poll_response-Poll :
    (client : SipClient) (call : Call) (received : Option Text) (ack_ok : Bool)
    → Poll client call received ack_ok (on_poll_response client call ack_ok received)
unfolding on_poll_response
on_poll_response-Poll client call none ack_ok = waits nothing
on_poll_response-Poll client call (some resp) ack_ok = go (parse_status_code resp) refl
  where
    go :
        (status : Option ℕ)
        → parse_status_code resp ≡ status
        → Poll client call (some resp) ack_ok (elim status [
          | none ↦ record { result = ok false; call = call; sent = [] }
          | some code ↦ on_poll_status client call resp ack_ok code
        ])
    go none e = waits (no_response e)
    go (some code) e = on_poll_status-Poll client call (some resp) ack_ok resp code refl e

-- A poll in early media has one of five ends. If nothing, no response or a status from 100 to 199
-- was received, nothing is sent or changed. A 200 that can be read makes the call an answered one,
-- with its identifiers and CSeq, the 200's endpoint if it has one, and the 200's tag if the call had
-- none, and is acknowledged; if the socket refuses the ACK that is the error. A 200 whose body or
-- tag cannot be read is that failure. Any other status is an error without a message.
pub poll_answer-Poll :
    (client : SipClient) (call : Call) (received : Option Text) (ack_ok : Bool)
    → call.state ≡ early_media
    → Poll client call received ack_ok (poll_answer client call received ack_ok)
unfolding poll_answer
poll_answer-Poll client call received ack_ok h =
    let early : is_early_media call.state ≡ true = ap is_early_media h in
    if-Poll client call received ack_ok (is_early_media call.state) _ _
      (λ _. on_poll_response-Poll client call received ack_ok) (λ other. absurd (cc))
