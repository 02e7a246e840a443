-- ===== src/Sip/Invite/Answered.antt =====
-- A well-formed answer is understood: a 200 with a session description ends the exchange.
use slmodem_sip_bridge.Base.{
  ℕ, not, is_nil, List, ◌++◌, Bool, false, Option, none, some, if◌then◌else◌, ◌≡◌, refl, ap, ◌∙◌,
  arith, inl, inr, Any, Option-cases,
}
use slmodem_sip_bridge.Base.Outcome
use slmodem_sip_bridge.Base.Outcome.{Outcome, ok, bail, panic}
use slmodem_sip_bridge.Net.{SocketAddr}
use slmodem_sip_bridge.Sdp
use slmodem_sip_bridge.Sdp.{parse_answer}
use slmodem_sip_bridge.Sip.Invite.{
  Setup, InviteState, Tick, Control, again, finished, tag_of_to, response_tag, set_remote_tag,
  with_remote_tag, sdp_endpoint, on_answer, on_status, on_response,
}
use slmodem_sip_bridge.Sip.Message.{extract_cseq_num, extract_sdp_body, is_current}
use slmodem_sip_bridge.Sip.Message.Fields.{lookup, no_colon-NoColon}
use slmodem_sip_bridge.Sip.Message.Response.{response_line, NoEquals, IsTag, extract_tag_param_lem}
use slmodem_sip_bridge.Sip.Message.Response.Shape.{
  IsResponse, IsResponse-status, IsResponse-header, IsResponse-cseq,
}
use slmodem_sip_bridge.Sip.Message.Response.Body.{SaysSdp, extract_sdp_body-render}
use slmodem_sip_bridge.Sip.{Call, answered, SipError, Sip, go_on, ◌>>=◌, lift, pure}
use slmodem_sip_bridge.Text.Ascii.{is_ascii-IsAscii}
use slmodem_sip_bridge.Text.{Text, codes, trim}

-- A response to the INVITE with this CSeq: its fields are well formed, CSeq and To are those of the
-- INVITE with the far end's tag behind them, and the body is a session description.
pub record Answers (status cseq : ℕ) (tag : Text) (endpoint : SocketAddr) (resp : Text)
    : Type 0 where
  pub response : IsResponse status cseq resp
  pub to : Text
  pub to_is : lookup (codes "To") response.fields ≡ some (to ++ (codes "tag=" ++ tag))
  pub to_plain : NoEquals to
  pub tag_is : IsTag tag
  pub says_sdp : Any SaysSdp response.fields
  pub full : is_nil (trim response.body) ≡ false
  pub sdp_is : parse_answer response.body ≡ ok (record { addr = endpoint.ip; port = endpoint.port })

-- The tag that a call has behind a response: its own, or that of the response.
abbrev pub tag_after : Option Text → Text → Text
tag_after none tag = tag
tag_after (some own) tag = own

-- The call that an answer makes of a call.
abbrev pub answered_by : Call → Text → SocketAddr → Call
answered_by call tag endpoint = record call {
  remote_tag = some (tag_after call.remote_tag tag);
  remote_rtp = some endpoint;
  state = answered;
}

sdp_endpoint_of :
    (resp body : Text) (answer : Sdp.SdpAnswer)
    → extract_sdp_body {E = SipError} resp ≡ ok (some body)
    → parse_answer body ≡ ok answer
    → sdp_endpoint resp ≡ ok (some (record { ip = answer.addr; port = answer.port }))
unfolding sdp_endpoint
sdp_endpoint_of resp body answer h k =
    ap
      (λ m. Outcome.◌>>=◌ m (λ o. elim o as (λ _. Outcome SipError (Option SocketAddr)) [
        | none ↦ ok none
        | some sdp ↦ elim (parse_answer sdp) as (λ _. Outcome SipError (Option SocketAddr)) [
          | ok answer ↦ ok (some (record { ip = answer.addr; port = answer.port }))
          | bail _ ↦ ok none
          | panic ↦ panic
        ]
      ]))
      h
    ∙ ap
        (λ o. elim o as (λ _. Outcome SipError (Option SocketAddr)) [
          | ok answer ↦ ok (some (record { ip = answer.addr; port = answer.port }))
          | bail _ ↦ ok none
          | panic ↦ panic
        ])
        k

lift-ok :
    {A : Type 0} (m : Outcome SipError A) (f : A → Sip Control) (log : List Text) (a : A)
    → m ≡ ok a
    → (lift m >>= f) log ≡ f a log
lift-ok m f log a h = ap (λ o. go_on (o, log) f) h

if-false :
    (test : Bool) (m n : Sip Control) (log : List Text)
    → test ≡ false
    → (if test then m else n) log ≡ n log
if-false test m n log h = ap (λ b. (if b then m else n) log) h

module _ {status cseq : ℕ} {tag : Text} {endpoint : SocketAddr} {resp : Text}
    (a : Answers status cseq tag endpoint resp) where
  Answers-tag : response_tag resp ≡ ok (some tag)
  unfolding response_tag tag_of_to
  Answers-tag =
      ap (λ m. Outcome.◌>>=◌ m tag_of_to)
        (IsResponse-header a.response (codes "To") _ (is_ascii-IsAscii (codes "To") refl)
          (no_colon-NoColon (codes "To") refl) a.to_is)
      ∙ extract_tag_param_lem a.to tag a.to_plain a.tag_is

  Answers-endpoint : sdp_endpoint resp ≡ ok (some endpoint)
  Answers-endpoint =
      sdp_endpoint_of resp a.response.body _
        (ap (extract_sdp_body {E = SipError}) a.response.is_response
          ∙ extract_sdp_body-render (response_line status a.response.reason) a.response.fields
              a.response.body a.response.is_start a.response.are_fields a.says_sdp a.full)
        a.sdp_is

  Answers-with_remote_tag :
      (call : Call)
      → with_remote_tag call resp
        ≡ ok (record call { remote_tag = some (tag_after call.remote_tag tag) })
  unfolding with_remote_tag set_remote_tag
  Answers-with_remote_tag call = elim (Option-cases call.remote_tag) [
    | inl fresh ↦ rw (fresh, Answers-tag, with_remote_tag) refl
    | inr (own, known) ↦
        rw (known, with_remote_tag) (ap (λ o. ok (record call { remote_tag = o })) known)
  ]

module _ (md5_hex : Text → Text) (setup : Setup) (st : InviteState) (t : Tick) where
  pub on_response-answered :
      {tag : Text} {endpoint : SocketAddr} (resp : Text) (log : List Text)
      → Answers 200 st.call.cseq tag endpoint resp
      → on_response md5_hex setup st t resp log
        ≡ (ok (finished (answered_by st.call tag endpoint)), log)
  unfolding on_response on_status on_answer
  on_response-answered {tag} {endpoint} resp log a =
      let tagged_call : Call = record st.call {
        remote_tag = some (tag_after st.call.remote_tag tag);
      } in
      let with_call : ℕ → Call → Sip Control =
        λ status call. on_status md5_hex setup (record st { call = call }) t resp status in
      let with_cseq : ℕ → Option ℕ → Sip Control = λ status resp_cseq.
        if not (is_current st.call.cseq resp_cseq)
        then pure (again st)
        else (lift (with_remote_tag st.call resp) >>= with_call status) in
      let with_status : ℕ → Sip Control =
        λ status. lift (extract_cseq_num resp) >>= with_cseq status in
      let current : not (is_current st.call.cseq (some st.call.cseq)) ≡ false = ground arith in
      ap
        (λ o.
          (elim o as (λ _. Sip Control) [
            | none ↦ pure (again st)
            | some status ↦ with_status status
          ])
            log)
        (IsResponse-status a.response (omega arith))
      ∙ lift-ok (extract_cseq_num resp) (with_cseq 200) log (some st.call.cseq)
          (IsResponse-cseq a.response)
      ∙ if-false _ (pure (again st)) (lift (with_remote_tag st.call resp) >>= with_call 200) log
          current
      ∙ lift-ok (with_remote_tag st.call resp) (with_call 200) log tagged_call
          (Answers-with_remote_tag a st.call)
      ∙ lift-ok (sdp_endpoint resp) (λ addr. pure (finished (on_answer tagged_call addr))) log
          (some endpoint) (Answers-endpoint a)
