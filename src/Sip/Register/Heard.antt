-- ===== src/Sip/Register/Heard.antt =====
-- A registration that the server confirms succeeds.
mod Tests
use slmodem_sip_bridge.Base.{
  ℕ, ◌<◌, ◌≤◌, not, List, [], ◌∷◌, ◌++◌, Bool, true, false, Option, none, some, leb, ◌==◌,
  if◌then◌else◌, ◌≡◌, ◌≢◌, refl, ap, ◌∙◌, arith, ◌⊎◌, inl, inr, All,
}
use slmodem_sip_bridge.Base.Outcome
use slmodem_sip_bridge.Base.Outcome.{Outcome, ok, bail, panic}
use slmodem_sip_bridge.Sip.Build.{build_register}
use slmodem_sip_bridge.Sip.Digest.{DigestChallenge, parse_digest_challenge, auth_header_value}
use slmodem_sip_bridge.Sip.Message.{parse_status_code, extract_cseq_num, extract_header, is_current}
use slmodem_sip_bridge.Sip.Message.Fields.{lookup, no_colon-NoColon}
use slmodem_sip_bridge.Sip.Message.Response.Shape.{
  IsResponse, IsResponse-status, IsResponse-header, IsResponse-cseq,
}
use slmodem_sip_bridge.Sip.Register.{
  RegisterTick, is_status, status_or_zero, register_reply, register_loop, register_auth,
  on_register_response, register,
}
use slmodem_sip_bridge.Sip.{
  SipClient, SipError, missing_challenge, register_failed, register_auth_failed, register_timed_out,
  Sip, go_on, ◌>>=◌, ◌>>◌, lift, pure, fail, send_msg,
}
use slmodem_sip_bridge.Text.Ascii.{is_ascii-IsAscii}
use slmodem_sip_bridge.Text.{Text, codes}

-- A round in time in which nothing comes, or a response to another request than the second.
pub record IsPassed (deadline : ℕ) (t : RegisterTick) : Type 0 where
  pub in_time : t.now < deadline
  pub old :
      (t.resp ≡ none)
      ⊎ ((resp : Text) × (status : ℕ) × (cseq : ℕ) × (t.resp ≡ some resp)
          × IsResponse status cseq resp
          × (cseq ≢ 2))

-- The confirmation of the second REGISTER, in time.
pub record IsConfirmed (deadline : ℕ) (t : RegisterTick) : Type 0 where
  pub in_time : t.now < deadline
  pub resp : Text
  pub received : t.resp ≡ some resp
  pub response : IsResponse 200 2 resp

register_reply-confirmed : (resp : Text) → IsResponse 200 2 resp → register_reply resp ≡ ok true
unfolding register_reply
register_reply-confirmed resp r =
    rw (IsResponse-cseq r {E = SipError}, IsResponse-status r (omega arith)) refl

register_reply-old :
    (resp : Text) (status cseq : ℕ)
    → IsResponse status cseq resp
    → cseq ≢ 2
    → register_reply resp ≡ ok false
unfolding register_reply
register_reply-old resp status cseq r h =
    let other : (cseq == 2) ≡ false = ground arith in
    rw (IsResponse-cseq r {E = SipError}) (rw other refl)

module _ (deadline : ℕ) where
  -- What the loop makes of a reply.
  register_loop_reply :
      (t : RegisterTick) (ts : List RegisterTick) (resp : Text) (registered : Bool)
      → t.now < deadline
      → t.resp ≡ some resp
      → register_reply resp ≡ ok registered
      → register_loop deadline (t ∷ ts)
        ≡ (if registered then ok true else register_loop deadline ts)
  unfolding register_loop
  register_loop_reply t ts resp registered soon got reply =
      let early : leb deadline t.now ≡ false = ground arith in rw (early, got) (rw reply refl)

  register_loop_silent :
      (t : RegisterTick) (ts : List RegisterTick)
      → t.now < deadline
      → t.resp ≡ none
      → register_loop deadline (t ∷ ts) ≡ register_loop deadline ts
  unfolding register_loop
  register_loop_silent t ts soon got =
      let early : leb deadline t.now ≡ false = ground arith in rw (early, got) refl

  register_loop-confirmed :
      (before : List RegisterTick) (t : RegisterTick) (ts : List RegisterTick)
      → All (IsPassed deadline) before
      → IsConfirmed deadline t
      → register_loop deadline (before ++ t ∷ ts) ≡ ok true
  register_loop-confirmed [] t ts h c =
      register_loop_reply t ts c.resp true c.in_time c.received
        (register_reply-confirmed c.resp c.response)
  register_loop-confirmed (b ∷ before) t ts (hb, hs) c = elim hb.old [
    | inl silent ↦
        register_loop_silent b (before ++ t ∷ ts) hb.in_time silent
        ∙ register_loop-confirmed before t ts hs c
    | inr (resp, status, cseq, got, r, other) ↦
        register_loop_reply b (before ++ t ∷ ts) resp false hb.in_time got
          (register_reply-old resp status cseq r other)
        ∙ register_loop-confirmed before t ts hs c
  ]

-- The server asks for credentials: a 401 with a challenge that can be read.
pub record Challenges (resp : Text) : Type 0 where
  pub response : IsResponse 401 1 resp
  pub header : Text
  pub header_is : lookup (codes "WWW-Authenticate") response.fields ≡ some header
  pub digest : DigestChallenge
  pub digest_is : parse_digest_challenge header ≡ ok digest

Challenges-register_auth :
    (md5_hex : Text → Text) (client : SipClient) (resp cnonce : Text) (c : Challenges resp)
    → register_auth md5_hex client resp cnonce
      ≡ ok (
          auth_header_value md5_hex c.digest client.username client.password
            (codes "REGISTER")
            (codes "sip:" ++ client.sip_domain)
            cnonce)
unfolding register_auth
Challenges-register_auth md5_hex client resp cnonce c =
    let value : DigestChallenge → Text = λ digest.
      auth_header_value md5_hex digest client.username client.password (codes "REGISTER")
        (codes "sip:" ++ client.sip_domain) cnonce in
    ap
      (λ m. Outcome.◌>>=◌ m (λ found.
        Outcome.◌>>=◌ (Outcome.ok_or found missing_challenge) (λ auth_header.
          Outcome.◌>>=◌ (parse_digest_challenge auth_header) (λ digest. ok (value digest)))))
      (IsResponse-header c.response {E = SipError} (codes "WWW-Authenticate") c.header
        (is_ascii-IsAscii (codes "WWW-Authenticate") refl)
        (no_colon-NoColon (codes "WWW-Authenticate") refl) c.header_is)
    ∙ ap (λ m. Outcome.◌>>=◌ m (λ digest. ok (value digest))) c.digest_is

-- What is sent for a challenge, and that the confirmation is awaited.
module _ (md5_hex : Text → Text) (client : SipClient) (call_id tag branch : Text) (resp : Text)
    (deadline : ℕ) (cnonce branch2 : Text) where
  abbrev pub second_register : DigestChallenge → Text
  second_register digest = build_register client branch2 tag call_id 2 (
      some (
        codes "Authorization",
        auth_header_value md5_hex digest client.username client.password (codes "REGISTER")
            (codes "sip:" ++ client.sip_domain) cnonce,
      ))

  on_register_response-confirmed :
      (c : Challenges resp) (ticks : List RegisterTick) (log : List Text)
      → register_loop deadline ticks ≡ ok true
      → on_register_response md5_hex client call_id tag resp deadline cnonce branch2 true ticks log
        ≡ (ok true, log ++ second_register c.digest ∷ [])
  unfolding on_register_response send_msg
  on_register_response-confirmed c ticks log h =
      let status = IsResponse-status c.response (omega arith) in
      rw (status, Challenges-register_auth md5_hex client resp cnonce c, h) refl

  -- A server that challenges the first REGISTER and confirms the second is believed: if the 401
  -- has a challenge that can be read, both messages are sent, and behind any rounds in time with
  -- nothing or with late copies of other responses the 200 with CSeq 2 arrives in time, `register`
  -- returns `Ok`, and has sent the two requests, the second with the credentials. The 401, the 200
  -- and the late responses are well formed: the header is ASCII lines `Name: value`, with names
  -- that are words and values that are not blank and with a CSeq, a number and a method, behind an
  -- ASCII start line without a colon.
  pub register-confirmed :
      (before : List RegisterTick) (t : RegisterTick) (ts : List RegisterTick) (c : Challenges resp)
      → All (IsPassed deadline) before
      → IsConfirmed deadline t
      → register md5_hex client call_id tag branch true
          (some resp)
          deadline
          cnonce
          branch2
          true
          (before ++ t ∷ ts)
          []
        ≡ (ok true, build_register client branch tag call_id 1 none ∷ second_register c.digest ∷ [])
  unfolding register send_msg
  register-confirmed before t ts c passed confirmed =
      on_register_response-confirmed c (before ++ t ∷ ts)
        (build_register client branch tag call_id 1 none ∷ [])
        (register_loop-confirmed deadline before t ts passed confirmed)
