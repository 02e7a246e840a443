-- ===== src/Sip/Invite/Reply/Challenged.antt =====
-- The branches of `invite` that answer a challenge or a refusal, and what the other ones share.
use mathlib.Core.Path.{subst}
use slmodem_sip_bridge.Base.{
  ℕ, List, [], ◌∷◌, Bool, true, false, ◌||◌, Option, none, some, ◌≡◌, inl, inr, refl, arith,
  append-nil, append_assoc, Bool-cases, ◌==◌, if◌then◌else◌,
}
use slmodem_sip_bridge.Base.Outcome
use slmodem_sip_bridge.Base.Outcome.{Outcome, ok, bail, panic, Fails, error, crash}
use slmodem_sip_bridge.Sip.Build.{build_ack}
use slmodem_sip_bridge.Sip.Digest.{DigestChallenge, parse_digest_challenge}
use slmodem_sip_bridge.Sip.Invite.Reply.{
  with_credentials, credentials, retried_state, Refuses, Answerable, Fault, unreadable,
  challenged_again, challenge_unacknowledged, refusal_unacknowledged, Reply, challenged, rejected,
  unsent, failed, panicked, Replies,
}
use slmodem_sip_bridge.Sip.Invite.Response.{
  IsCurrent, Challenge, www, proxy, header, missing, digest, Breaks, at_challenge,
}
use slmodem_sip_bridge.Sip.Invite.{
  Setup, InviteState, Tick, Control, again, auth_invite, auth_retry, on_challenge, auth_hdr_name,
  auth_resp_name,
}
use slmodem_sip_bridge.Sip.Message.{extract_header}
use slmodem_sip_bridge.Sip.{
  Call, SipError, missing_challenge, send_failed, invite_rejected, Sip, pure, fail, lift, send_msg,
  ◌>>=◌, ◌>>◌,
}
use slmodem_sip_bridge.Text.{Text}

challenge_names :
    (status : ℕ)
    → (status == 401 || status == 407) ≡ true
    → Challenge status (auth_hdr_name status) (auth_resp_name status)
challenge_names status h = elim (Bool-cases (status == 401)) [
  | inl first ↦
      let same : 401 ≡ status = ground arith in
      subst (λ s. Challenge s (auth_hdr_name s) (auth_resp_name s)) same www
  | inr other ↦
      let same : 407 ≡ status = ground arith in
      subst (λ s. Challenge s (auth_hdr_name s) (auth_resp_name s)) same proxy
]

module _ (md5_hex : Text → Text) (setup : Setup) (st : InviteState) (t : Tick)
    (received : Option Text) (sent : List Text) where
  -- An outcome without a message.
  pub ends :
      (o : Outcome SipError Control)
      → Reply md5_hex setup st t received o []
      → Replies md5_hex setup st t received (lift o) sent
  ends o r = record { outcome = o; messages = []; logged = rw (append-nil sent) refl; reply = r }

  pub faults :
      {e : SipError} → Fault st t received e → Replies md5_hex setup st t received (fail e) sent
  faults {e} f = ends (bail e) (failed f)

  -- A bind of a computation that sends nothing.
  pub lift-Replies :
      {A : Type 0} (m : Outcome SipError A) (f : A → Sip Control)
      → ((a : A) → m ≡ ok a → Replies md5_hex setup st t received (f a) sent)
      → ((o : Outcome SipError Control) → Fails m o → Breaks st received o)
      → Replies md5_hex setup st t received (lift m >>= f) sent
  lift-Replies (ok a) f h breaks = h a refl
  lift-Replies (bail e) f h breaks =
      ends (bail e) (failed (unreadable (breaks (bail e) (error e refl))))
  lift-Replies panic f h breaks = ends panic (panicked (breaks panic (crash refl)))

  -- A branch of the code, with what its test says.
  pub if-Replies :
      (test : Bool) (m n : Sip Control)
      → (test ≡ true → Replies md5_hex setup st t received m sent)
      → (test ≡ false → Replies md5_hex setup st t received n sent)
      → Replies md5_hex setup st t received (if test then m else n) sent
  if-Replies true m n yea nay = yea refl
  if-Replies false m n yea nay = nay refl

  pub on_rejection-Replies :
      {resp : Text} {status : ℕ} {call : Call}
      → IsCurrent st received resp status call
      → Refuses status
      → Replies md5_hex setup st t received
          (send_msg t.ack_ok (build_ack setup.client call) >> fail (invite_rejected status))
          sent
  unfolding send_msg
  on_rejection-Replies {resp} {status} {call} c refuses = go t.ack_ok refl
    where
      go :
          (ack_ok : Bool)
          → t.ack_ok ≡ ack_ok
          → Replies md5_hex setup st t received
              (send_msg ack_ok (build_ack setup.client call) >> fail (invite_rejected status))
              sent
      go true e = record {
        outcome = bail (invite_rejected status);
        messages = build_ack setup.client call ∷ [];
        logged = refl;
        reply = rejected c refuses e;
      }
      go false e = faults (refusal_unacknowledged c refuses e)

  auth_retry-Replies :
      {call : Call} {answer : Text} (d : DigestChallenge)
      → Answerable st received call answer d
      → Replies md5_hex setup st t received
          (auth_retry setup (record st { call = call }) t answer (credentials md5_hex setup t d))
          sent
  unfolding auth_retry send_msg auth_invite
  auth_retry-Replies {call} {answer} d a = go t.ack_ok t.invite_ok refl refl
    where
      ack : Text
      ack = build_ack setup.client call

      invite : Text
      invite = with_credentials setup call t.branch answer (credentials md5_hex setup t d)

      go :
          (ack_ok invite_ok : Bool)
          → t.ack_ok ≡ ack_ok
          → t.invite_ok ≡ invite_ok
          → Replies md5_hex setup st t received
              (send_msg ack_ok ack
                >> (send_msg invite_ok invite
                    >> pure (again (retried_state st call t.branch t.auth_sent_at))))
              sent
      go false _ e f = faults (challenge_unacknowledged a e)
      go true false e f = record {
        outcome = bail send_failed;
        messages = ack ∷ [];
        logged = refl;
        reply = unsent a e f;
      }
      go true true e f = record {
        outcome = ok (again (retried_state st call t.branch t.auth_sent_at));
        messages = ack ∷ invite ∷ [];
        logged = rw (append_assoc sent (ack ∷ []) (invite ∷ [])) refl;
        reply = challenged d a e f;
      }

  pub on_challenge-Replies :
      {resp : Text} {status : ℕ} {call : Call}
      → IsCurrent st received resp status call
      → (status == 401 || status == 407) ≡ true
      → Replies md5_hex setup st t received
          (on_challenge md5_hex setup (record st { call = call }) t resp status)
          sent
  unfolding on_challenge
  on_challenge-Replies {resp} {status} {call} c h =
      let names = challenge_names status h in
      if-Replies st.auth_retry_done _ _ (λ done. faults (challenged_again c names done))
        (λ fresh.
          lift-Replies (extract_header resp (auth_hdr_name status)) _
            (λ found at. with_header found at names fresh)
            (λ o broken. at_challenge c names fresh (header broken)))
    where
      with_header :
          (found : Option Text)
          → extract_header {E = SipError} resp (auth_hdr_name status) ≡ ok found
          → Challenge status (auth_hdr_name status) (auth_resp_name status)
          → st.auth_retry_done ≡ false
          → Replies md5_hex setup st t received
              (lift (Outcome.ok_or found missing_challenge) >>= λ auth_header.
                lift (parse_digest_challenge auth_header) >>= λ d.
                auth_retry setup
                  (record st { call = call })
                  t
                  (auth_resp_name status)
                  (credentials md5_hex setup t d))
              sent
      with_header none at names fresh =
          faults (unreadable (at_challenge c names fresh (missing at)))
      with_header (some auth_header) at names fresh =
          lift-Replies (parse_digest_challenge auth_header) _
            (λ d read. auth_retry-Replies d (record {
              resp = resp;
              status = status;
              name = auth_hdr_name status;
              current = c;
              challenge = names;
              fresh = fresh;
              asks = record { header = auth_header; header_is = at; digest_is = read };
            }))
            (λ o broken. at_challenge c names fresh (digest auth_header at broken))
