-- ===== src/Sip/Invite/Reply/Handled.antt =====
-- `on_response` of the model (the handling of one response in `invite`) does what the relation says.
use mathlib.Core.Path.{subst}
use slmodem_sip_bridge.Base.{
  ℕ, List, true, false, not, ◌||◌, ◌&&◌, Option, none, some, ◌≡◌, ◌⊎◌, inl, inr, refl, sym, ap,
  arith, ltb, leb, ◌==◌, if◌then◌else◌,
}
use slmodem_sip_bridge.Base.Outcome.{ok}
use slmodem_sip_bridge.Net.{SocketAddr}
use slmodem_sip_bridge.Sip.Invite.Reply.{ignored, provisional, early, picked_up, Replies}
use slmodem_sip_bridge.Sip.Invite.Response.{
  IsCurrent, no_status, stale, unhandled, ringing, progress, success, HasBody, at_cseq, at_tag,
  at_body,
}
use slmodem_sip_bridge.Sip.Invite.{
  Setup, InviteState, Tick, again, finished, with_remote_tag, on_provisional, on_answer,
  sdp_endpoint, on_status, on_response,
}
use slmodem_sip_bridge.Sip.Message.{parse_status_code, extract_cseq_num, is_current}
use slmodem_sip_bridge.Sip.{Call, SipError, pure, lift, ◌>>=◌}
use slmodem_sip_bridge.Text.{Text}
use slmodem_sip_bridge.Sip.Invite.Reply.Challenged.{
  ends, lift-Replies, if-Replies, on_rejection-Replies, on_challenge-Replies,
}

is_current_lem :
    (now : ℕ) (cseq : Option ℕ)
    → not (is_current now cseq) ≡ false
    → (cseq ≡ none) ⊎ (cseq ≡ some now)
is_current_lem now none h = inl refl
is_current_lem now (some n) h = let same : n ≡ now = ground arith in inr (ap some same)

module _ (md5_hex : Text → Text) (setup : Setup) (st : InviteState) (t : Tick)
    (received : Option Text) (sent : List Text) where
  on_provisional-Replies :
      {resp : Text} {status : ℕ} {call : Call} (endpoint : Option SocketAddr)
      → IsCurrent st received resp status call
      → (status ≡ 180) ⊎ (status ≡ 183)
      → sdp_endpoint resp ≡ ok endpoint
      → Replies md5_hex setup st t received
          (pure (on_provisional (record st { call = call }) endpoint))
          sent
  unfolding on_provisional
  on_provisional-Replies none c rings e =
      ends md5_hex setup st t received sent _ (provisional c (inr (rings, e)))
  on_provisional-Replies (some addr) c rings e =
      ends md5_hex setup st t received sent _ (early addr c rings e)

  on_answer-Replies :
      {resp : Text} {call : Call} (endpoint : Option SocketAddr)
      → IsCurrent st received resp 200 call
      → sdp_endpoint resp ≡ ok endpoint
      → Replies md5_hex setup st t received (pure (finished (on_answer call endpoint))) sent
  unfolding on_answer
  on_answer-Replies none c e = ends md5_hex setup st t received sent _ (picked_up none c e)
  on_answer-Replies (some addr) c e =
      ends md5_hex setup st t received sent _ (picked_up (some addr) c e)

  on_status-Replies :
      {resp : Text} {status : ℕ} {call : Call}
      → IsCurrent st received resp status call
      → Replies md5_hex setup st t received
          (on_status md5_hex setup (record st { call = call }) t resp status)
          sent
  unfolding on_status
  on_status-Replies {resp} {status} {call} c =
      if-Replies md5_hex setup st t received sent (status == 100) _ _
        (λ h. ends md5_hex setup st t received sent _ (provisional c (inl (ground arith))))
        (λ not_100.
          if-Replies md5_hex setup st t received sent (status == 180 || status == 183) _ _
            (λ h.
              let rings : (status ≡ 180) ⊎ (status ≡ 183) = ground arith in
              lift-Replies md5_hex setup st t received sent (sdp_endpoint resp) _
                (λ endpoint e. on_provisional-Replies endpoint c rings e)
                (λ o broken. at_body c (rings_body rings) broken))
            (λ not_ringing.
              if-Replies md5_hex setup st t received sent (status == 200) _ _
                (λ h.
                  let ok_status : status ≡ 200 = ground arith in
                  let c' = subst (λ s. IsCurrent st received resp s call) ok_status c in
                  lift-Replies md5_hex setup st t received sent (sdp_endpoint resp) _
                    (λ endpoint e. on_answer-Replies endpoint c' e)
                    (λ o broken. at_body c' success broken))
                (λ not_200.
                  if-Replies md5_hex setup st t received sent (status == 401 || status == 407) _ _
                    (λ h. on_challenge-Replies md5_hex setup st t received sent c h)
                    (λ no_challenge.
                      if-Replies md5_hex setup st t received sent (leb 400 status && ltb status 700)
                        _ _
                        (λ range. on_rejection-Replies md5_hex setup st t received sent c (record {
                          low = ground arith;
                          high = ground arith;
                          no_challenge = (ground arith, ground arith);
                        }))
                        (λ outside. ends md5_hex setup st t received sent _ (
                          ignored (
                            unhandled c (ground arith, ground arith, ground arith, ground arith)
                              (ground arith))))))))
    where
      rings_body : (status ≡ 180) ⊎ (status ≡ 183) → HasBody status
      rings_body (inl e) = subst HasBody (sym e) ringing
      rings_body (inr e) = subst HasBody (sym e) progress

-- What was received decides how the round ends and what is sent, as the relation Reply lists it:
-- nothing, no response, a response to another request and a status without a rule are ignored; a
-- 100, or a 180 or 183 without an endpoint, is noted; with one it ends the exchange in early media,
-- and a 200 ends it answered; the first challenge that can be read is acknowledged and answered by
-- an INVITE with credentials for it, the next CSeq and a new branch; a second one is an error; any
-- other status from 400 to 699 is acknowledged and then an error. A response that cannot be read is
-- that failure, and a message that the socket refuses is an error behind those sent before it.
pub on_response-Replies :
    (md5_hex : Text → Text) (setup : Setup) (st : InviteState) (t : Tick) (resp : Text)
    (sent : List Text)
    → Replies md5_hex setup st t (some resp) (on_response md5_hex setup st t resp) sent
unfolding on_response
on_response-Replies md5_hex setup st t resp sent = go (parse_status_code resp) refl
  where
    go :
        (status : Option ℕ)
        → parse_status_code resp ≡ status
        → Replies md5_hex setup st t
            (some resp)
            (elim status [
              | none ↦ pure (again st)
              | some code ↦ lift (extract_cseq_num resp) >>= λ resp_cseq.
                  if not (is_current st.call.cseq resp_cseq)
                  then pure (again st)
                  else (lift (with_remote_tag st.call resp) >>= λ call.
                      on_status md5_hex setup (record st { call = call }) t resp code)
            ])
            sent
    go none e = ends md5_hex setup st t (some resp) sent _ (ignored (no_status resp refl e))
    go (some code) e =
        lift-Replies md5_hex setup st t (some resp) sent (extract_cseq_num resp) _
          (λ cseq read.
            if-Replies md5_hex setup st t (some resp) sent (not (is_current st.call.cseq cseq)) _ _
              (λ old. other_request code cseq e read old)
              (λ fresh.
                let current = is_current_lem st.call.cseq cseq fresh in
                lift-Replies md5_hex setup st t (some resp) sent (with_remote_tag st.call resp) _
                  (λ call tagging. on_status-Replies md5_hex setup st t (some resp) sent (record {
                    got = refl;
                    status_is = e;
                    cseq = cseq;
                    cseq_is = read;
                    current = current;
                    call_is = tagging;
                  }))
                  (λ o broken. at_tag resp code cseq refl e read current broken)))
          (λ o broken. at_cseq resp code refl e broken)
      where
        other_request :
            (code : ℕ) (cseq : Option ℕ)
            → parse_status_code resp ≡ some code
            → extract_cseq_num {E = SipError} resp ≡ ok cseq
            → not (is_current st.call.cseq cseq) ≡ true
            → Replies md5_hex setup st t (some resp) (pure (again st)) sent
        other_request code none e read old = absurd (cc)
        other_request code (some n) e read old =
            ends md5_hex setup st t (some resp) sent _
              (ignored (stale resp code n refl e read (ground arith)))
