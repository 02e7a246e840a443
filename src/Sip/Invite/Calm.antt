-- ===== src/Sip/Invite/Calm.antt =====
-- A response of ASCII characters does not make `invite` panic.
use slmodem_sip_bridge.Base.{
  ℕ, List, [], ◌∷◌, ◌++◌, Bool, true, false, not, ◌||◌, ◌&&◌, Option, none, some, ◌≢◌, refl, ltb,
  leb, ◌==◌, if◌then◌else◌,
}
use slmodem_sip_bridge.Base.Outcome
use slmodem_sip_bridge.Base.Outcome.{Outcome, ok, bail, panic, Calm, >>=-Calm, ok_or-Calm}
use slmodem_sip_bridge.Net.{SocketAddr}
use slmodem_sip_bridge.Sdp.Total.{parse_answer-Calm}
use slmodem_sip_bridge.Sdp.{SdpAnswer, SdpError, parse_answer}
use slmodem_sip_bridge.Sip.Build.{build_ack}
use slmodem_sip_bridge.Sip.Digest.{parse_digest_challenge}
use slmodem_sip_bridge.Sip.Invite.{
  Setup, InviteState, Tick, Control, again, tag_of_to, response_tag, set_remote_tag,
  with_remote_tag, sdp_endpoint, auth_hdr_name, auth_resp_name, auth_retry, on_challenge, on_status,
  on_response,
}
use slmodem_sip_bridge.Sip.Message.Total.Slices.{
  extract_quoted_param-Returns, extract_tag_param-Returns, extract_sdp_body-Returns,
}
use slmodem_sip_bridge.Sip.Message.Total.{Returns, extract_header-Returns, extract_cseq_num-Returns}
use slmodem_sip_bridge.Sip.Message.{
  is_current, parse_status_code, extract_header, extract_cseq_num, extract_quoted_param,
  extract_tag_param, extract_sdp_body,
}
use slmodem_sip_bridge.Sip.{
  Call, SipError, missing_challenge, missing_realm, missing_nonce, auth_failed_after_retry,
  invite_rejected, Sip, pure, fail, lift, send_msg, ◌>>=◌, ◌>>◌,
}
use slmodem_sip_bridge.Text.Ascii.{IsAscii}
use slmodem_sip_bridge.Text.{Text, codes}

Returns-Calm : {E A : Type 0} (m : Outcome E A) → Returns m → Calm m
Returns-Calm m r = λ h. cc r.is_ok

parse_digest_challenge-Calm : (header : Text) → Calm (parse_digest_challenge header)
unfolding parse_digest_challenge
parse_digest_challenge-Calm header =
    let param : (name : Text) → Calm (extract_quoted_param {E = SipError} header name) = λ name.
      Returns-Calm (extract_quoted_param header name) (extract_quoted_param-Returns header name) in
    >>=-Calm (extract_quoted_param header (codes "realm")) _ (param (codes "realm")) (λ r.
      >>=-Calm (Outcome.ok_or r missing_realm) _ (ok_or-Calm r missing_realm) (λ realm.
        >>=-Calm (extract_quoted_param header (codes "nonce")) _ (param (codes "nonce")) (λ n.
          >>=-Calm (Outcome.ok_or n missing_nonce) _ (ok_or-Calm n missing_nonce) (λ nonce.
            >>=-Calm (extract_quoted_param header (codes "opaque")) _ (param (codes "opaque")) (λ o.
              >>=-Calm (extract_quoted_param header (codes "qop")) _ (param (codes "qop"))
                (λ q h. cc))))))

sdp_endpoint-Calm : (resp : Text) → Calm (sdp_endpoint resp)
unfolding sdp_endpoint
sdp_endpoint-Calm resp =
    >>=-Calm (extract_sdp_body resp) _
      (Returns-Calm (extract_sdp_body resp) (extract_sdp_body-Returns resp)) body
  where
    read :
        (o : Outcome SdpError SdpAnswer)
        → Calm o
        → Calm {E = SipError} {A = Option SocketAddr} (elim o [
          | ok answer ↦ ok (some (record { ip = answer.addr; port = answer.port }))
          | bail _ ↦ ok none
          | panic ↦ panic
        ])
    read (ok answer) calm = λ h. cc
    read (bail e) calm = λ h. cc
    read panic calm = absurd (calm refl)

    body :
        (o : Option Text)
        → Calm {E = SipError} {A = Option SocketAddr} (elim o [
          | none ↦ ok none
          | some sdp ↦ elim (parse_answer sdp) [
            | ok answer ↦ ok (some (record { ip = answer.addr; port = answer.port }))
            | bail _ ↦ ok none
            | panic ↦ panic
          ]
        ])
    body none = λ h. cc
    body (some sdp) = read (parse_answer sdp) (parse_answer-Calm sdp)

tag_of_to-Calm : (to : Option Text) → Calm (tag_of_to to)
unfolding tag_of_to
tag_of_to-Calm none = λ h. cc
tag_of_to-Calm (some to) = Returns-Calm (extract_tag_param to) (extract_tag_param-Returns to)

with_remote_tag-Calm : (call : Call) (resp : Text) → IsAscii resp → Calm (with_remote_tag call resp)
unfolding with_remote_tag response_tag
with_remote_tag-Calm call resp ascii = go call.remote_tag
  where
    go :
        (o : Option Text)
        → Calm {E = SipError} {A = Call} (elim o [
          | some _ ↦ ok call
          | none ↦
              Outcome.◌>>=◌
                (Outcome.◌>>=◌ (extract_header resp (codes "To")) tag_of_to)
                (λ tag. ok (set_remote_tag call tag))
        ])
    go (some tag) = λ h. cc
    go none =
        >>=-Calm (Outcome.◌>>=◌ (extract_header resp (codes "To")) tag_of_to) _
          (>>=-Calm (extract_header resp (codes "To")) tag_of_to
            (Returns-Calm (extract_header resp (codes "To"))
              (extract_header-Returns resp (codes "To") ascii))
            tag_of_to-Calm)
          (λ tag h. cc)

-- A part of the exchange that does not panic.
SipCalm : {A : Type 0} → Sip A → Type 0
SipCalm m = (sent : List Text) → (m sent).0 ≢ panic

lift-SipCalm :
    {A B : Type 0} (m : Outcome SipError A) (f : A → Sip B)
    → Calm m
    → ((a : A) → SipCalm (f a))
    → SipCalm (lift m >>= f)
unfolding SipCalm
lift-SipCalm (ok a) f calm next = next a
lift-SipCalm (bail e) f calm next = λ sent h. cc
lift-SipCalm panic f calm next = absurd (calm refl)

send-SipCalm :
    {A : Type 0} (taken : Bool) (msg : Text) (m : Sip A)
    → SipCalm m
    → SipCalm (send_msg taken msg >> m)
unfolding SipCalm send_msg
send-SipCalm true msg m calm = λ sent. calm (sent ++ msg ∷ [])
send-SipCalm false msg m calm = λ sent h. cc

pure-SipCalm : {A : Type 0} (a : A) → SipCalm (pure a)
unfolding SipCalm
pure-SipCalm a = λ sent h. cc

fail-SipCalm : (A : Type 0) (e : SipError) → SipCalm {A = A} (fail e)
unfolding SipCalm
fail-SipCalm A e = λ sent h. cc

if-SipCalm :
    {A : Type 0} (test : Bool) (m n : Sip A)
    → SipCalm m
    → SipCalm n
    → SipCalm (if test then m else n)
if-SipCalm true m n yea nay = yea
if-SipCalm false m n yea nay = nay

auth_retry-SipCalm :
    (setup : Setup) (st : InviteState) (t : Tick) (name value : Text)
    → SipCalm (auth_retry setup st t name value)
unfolding auth_retry
auth_retry-SipCalm setup st t name value =
    send-SipCalm t.ack_ok (build_ack setup.client st.call) _
      (send-SipCalm t.invite_ok _ _ (pure-SipCalm _))

module _ (md5_hex : Text → Text) (setup : Setup) where
  on_challenge-SipCalm :
      (st : InviteState) (t : Tick) (resp : Text) (status : ℕ)
      → IsAscii resp
      → SipCalm (on_challenge md5_hex setup st t resp status)
  unfolding on_challenge
  on_challenge-SipCalm st t resp status ascii =
      if-SipCalm st.auth_retry_done _ _ (fail-SipCalm Control (auth_failed_after_retry status)) (
        lift-SipCalm (extract_header resp (auth_hdr_name status)) _
          (Returns-Calm (extract_header resp (auth_hdr_name status))
            (extract_header-Returns resp (auth_hdr_name status) ascii))
          (λ found.
            lift-SipCalm (Outcome.ok_or found missing_challenge) _
              (ok_or-Calm found missing_challenge)
              (λ auth_header.
                lift-SipCalm (parse_digest_challenge auth_header) _
                  (parse_digest_challenge-Calm auth_header)
                  (λ digest. auth_retry-SipCalm setup st t (auth_resp_name status) _))))

  on_status-SipCalm :
      (st : InviteState) (t : Tick) (resp : Text) (status : ℕ)
      → IsAscii resp
      → SipCalm (on_status md5_hex setup st t resp status)
  unfolding on_status
  on_status-SipCalm st t resp status ascii = if-SipCalm (status == 100) _ _ (pure-SipCalm _) (
      if-SipCalm (status == 180 || status == 183) _ _
        (lift-SipCalm (sdp_endpoint resp) _ (sdp_endpoint-Calm resp) (λ endpoint. pure-SipCalm _))
        (if-SipCalm (status == 200) _ _
          (lift-SipCalm (sdp_endpoint resp) _ (sdp_endpoint-Calm resp) (λ endpoint. pure-SipCalm _))
          (if-SipCalm (status == 401 || status == 407) _ _
            (on_challenge-SipCalm st t resp status ascii)
            (if-SipCalm (leb 400 status && ltb status 700) _ _
              (send-SipCalm t.ack_ok (build_ack setup.client st.call) _
                (fail-SipCalm Control (invite_rejected status)))
              (pure-SipCalm _)))))

  -- A response of ASCII characters, whatever it says, is handled without a panic.
  pub on_response-SipCalm :
      (st : InviteState) (t : Tick) (resp : Text) (sent : List Text)
      → IsAscii resp
      → (on_response md5_hex setup st t resp sent).0 ≢ panic
  unfolding on_response SipCalm
  on_response-SipCalm st t resp sent ascii = go (parse_status_code resp) sent
    where
      go :
          (status : Option ℕ)
          → SipCalm (elim status as (λ _. Sip Control) [
            | none ↦ pure (again st)
            | some code ↦ lift (extract_cseq_num resp) >>= λ resp_cseq.
                if not (is_current st.call.cseq resp_cseq)
                then pure (again st)
                else (lift (with_remote_tag st.call resp) >>= λ call.
                    on_status md5_hex setup (record st { call = call }) t resp code)
          ])
      go none = pure-SipCalm _
      go (some code) =
          lift-SipCalm (extract_cseq_num resp) _
            (Returns-Calm (extract_cseq_num resp) (extract_cseq_num-Returns resp ascii))
            (λ resp_cseq.
              if-SipCalm (not (is_current st.call.cseq resp_cseq)) _ _ (pure-SipCalm _) (
                lift-SipCalm (with_remote_tag st.call resp) _
                  (with_remote_tag-Calm st.call resp ascii)
                  (λ call. on_status-SipCalm (record st { call = call }) t resp code ascii)))
