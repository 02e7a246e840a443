-- ===== src/Sip/Register.antt =====
-- sip.rs: `register`, with the fresh identifiers, the response to the first REGISTER, and what the
-- outside gives in each round of the loop behind the second.
pub mod Confirmed
pub mod Waits
pub mod Heard
mod Tests
use slmodem_sip_bridge.Base.{
  ℕ, List, [], ◌∷◌, ◌++◌, Bool, true, false, not, Option, none, some, leb, ◌==◌, if◌then◌else◌,
}
use slmodem_sip_bridge.Base.Outcome
use slmodem_sip_bridge.Base.Outcome.{Outcome, ok, bail, panic}
use slmodem_sip_bridge.Sip.Build.{build_register}
use slmodem_sip_bridge.Sip.Digest.{parse_digest_challenge, auth_header_value}
use slmodem_sip_bridge.Sip.Message.{parse_status_code, extract_cseq_num, extract_header, is_current}
use slmodem_sip_bridge.Sip.{
  SipClient, SipError, no_response, missing_challenge, register_failed, register_auth_failed,
  register_timed_out, Sip, ◌>>=◌, ◌>>◌, pure, fail, lift, send_msg,
}
use slmodem_sip_bridge.Text.{Text, codes}

-- What the outside gives in one round.
pub record RegisterTick : Type 0 where
  pub now : ℕ
  pub resp : Option Text

-- `status == Some(n)`.
abbrev pub is_status : ℕ → Option ℕ → Bool
is_status n none = false
is_status n (some status) = status == n

-- `status.unwrap_or(0)`.
abbrev pub status_or_zero : Option ℕ → ℕ
status_or_zero none = 0
status_or_zero (some status) = status

-- The response to the second REGISTER: `false` if it is an old one, to be skipped.
unfoldable pub register_reply : Text → Outcome SipError Bool
register_reply resp2 = Outcome.◌>>=◌ (extract_cseq_num resp2) (λ resp_cseq.
    if not (is_current 2 resp_cseq)
    then ok false
    else if is_status 200 (parse_status_code resp2)
    then ok true
    else bail (register_auth_failed (status_or_zero (parse_status_code resp2))))

-- The loop; `false` while it still waits for the next round.
unfoldable pub register_loop : ℕ → List RegisterTick → Outcome SipError Bool
register_loop deadline [] = ok false
register_loop deadline (t ∷ ts) =
    let rest = register_loop deadline ts in
    if leb deadline t.now then bail register_timed_out else elim t.resp [
      | none ↦ rest
      | some resp2 ↦
          Outcome.◌>>=◌ (register_reply resp2) (λ registered. if registered then ok true else rest)
    ]

-- The value of the Authorization header that answers the challenge of a response.
unfoldable pub register_auth : (Text → Text) → SipClient → Text → Text → Outcome SipError Text
register_auth md5_hex client resp cnonce =
    Outcome.◌>>=◌ (extract_header resp (codes "WWW-Authenticate")) (λ found.
      Outcome.◌>>=◌ (Outcome.ok_or found missing_challenge) (λ auth_header.
        Outcome.◌>>=◌ (parse_digest_challenge auth_header) (λ digest. ok (
          auth_header_value md5_hex digest client.username client.password (codes "REGISTER")
            (codes "sip:" ++ client.sip_domain) cnonce))))

-- What stands behind the response to the first REGISTER.
unfoldable pub on_register_response :
    (Text → Text)
    → SipClient
    → Text
    → Text
    → Text
    → ℕ
    → Text
    → Text
    → Bool
    → List RegisterTick
    → Sip Bool
on_register_response md5_hex client call_id tag resp deadline cnonce branch2 second_ok ticks =
    if is_status 200 (parse_status_code resp)
    then pure true
    else if not (is_status 401 (parse_status_code resp))
    then fail (register_failed (status_or_zero (parse_status_code resp)))
    else (do
      auth_value ← lift (register_auth md5_hex client resp cnonce)
      send_msg second_ok
          (build_register client branch2 tag call_id 2 (some (codes "Authorization", auth_value)))
      lift (register_loop deadline ticks))

-- The whole of `register`; `true` if it returns `Ok`. The deadline is of the loop.
unfoldable pub register :
    (Text → Text)
    → SipClient
    → Text
    → Text
    → Text
    → Bool
    → Option Text
    → ℕ
    → Text
    → Text
    → Bool
    → List RegisterTick
    → Sip Bool
register md5_hex client call_id tag branch first_ok received deadline cnonce branch2 second_ok
      ticks =
    do
      send_msg first_ok (build_register client branch tag call_id 1 none)
      resp ← lift (Outcome.ok_or received no_response)
      on_register_response md5_hex client call_id tag resp deadline cnonce branch2 second_ok ticks
