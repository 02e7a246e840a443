-- ===== src/Sip/Invite/Ends/Connect.antt =====
-- What the loop returns, and with it `invite`.
use mathlib.Core.Path.{subst}
use slmodem_sip_bridge.Base.{
  ℕ, ◌+◌, List, [], ◌∷◌, ◌++◌, Bool, true, false, Option, some, ◌≡◌, sym, ap, ◌∙◌,
}
use slmodem_sip_bridge.Base.Outcome.{Outcome, ok, bail, panic}
use slmodem_sip_bridge.Sip.Invite.Conversation.{Exchange, invite_loop-round, invite_loop-Runs}
use slmodem_sip_bridge.Sip.Invite.Invited.{
  Invited, plain, authenticated, Exchange-Invited, start-Invited,
}
use slmodem_sip_bridge.Sip.Invite.Round.{round-Rounds}
use slmodem_sip_bridge.Sip.Invite.{
  Setup, InviteState, Tick, Control, again, finished, loop_control, invite_loop, setup_of, start,
  invite,
}
use slmodem_sip_bridge.Sip.{Call, SipClient, SipError, go_on, send_msg}
use slmodem_sip_bridge.Text.{Text}
use slmodem_sip_bridge.Sip.Invite.Ends.{
  OfSetup, IsInviteState, Connected, Kept, Round-Kept, start-IsInviteState,
}

module _ (md5_hex : Text → Text) (setup : Setup) (local_tag : Text) where
  -- The loop's outcome, for a state whose variables agree.
  Returned : Outcome SipError (Option Call) → Type 0
  Returned (ok (some call)) =
      Connected call × ((authenticated : Bool) × OfSetup setup local_tag authenticated call)
  Returned _ = Unit

  invite_loop-Returned :
      (st : InviteState) (ts : List Tick) (sent : List Text)
      → IsInviteState setup local_tag st
      → Returned (invite_loop md5_hex setup st ts sent).0
  unfolding invite_loop Returned
  invite_loop-Returned st [] sent v = tt
  invite_loop-Returned st (t ∷ ts) sent v =
      let r = round-Rounds md5_hex setup st t sent in
      let shut = ap (λ p. p.0) (invite_loop-round md5_hex setup st t ts sent r.logged) in
      subst Returned (sym shut) (
        go r.outcome (sent ++ r.messages) (Round-Kept md5_hex setup local_tag st t r.result v)
          (λ st' sent' w. invite_loop-Returned st' ts sent' w))
    where
      go :
          (o : Outcome SipError Control) (sent' : List Text)
          → Kept md5_hex setup local_tag o
          → ((st' : InviteState) (sent' : List Text)
              → IsInviteState setup local_tag st'
              → Returned (invite_loop md5_hex setup st' ts sent').0)
          → Returned (go_on (o, sent') (loop_control (λ st'. invite_loop md5_hex setup st' ts))).0
      go (ok (again st')) sent' k later = later st' sent' (unfold Kept in k)
      go (ok (finished call)) sent' k later = (unfold Kept in k)
      go (bail e) sent' k later = tt
      go panic sent' k later = tt

-- Whether the call is authenticated is what its INVITE says.
Invited-OfSetup :
    (setup : Setup) (local_tag : Text) (before : Bool) {auth : Bool} {log : List Text} {call : Call}
    → OfSetup setup local_tag before call
    → Invited setup log call auth
    → OfSetup setup local_tag auth call
Invited-OfSetup setup local_tag before o (plain e i) = record {
  call_id_is = o.call_id_is;
  local_tag_is = o.local_tag_is;
  invite_uri_is = o.invite_uri_is;
  cseq_is = e;
}
Invited-OfSetup setup local_tag before o (authenticated name value e i) = record {
  call_id_is = o.call_id_is;
  local_tag_is = o.local_tag_is;
  invite_uri_is = o.invite_uri_is;
  cseq_is = e;
}

-- A call that `invite` returns is answered, or has early media and an address to send to. It has
-- the identifiers and the request URI of the exchange. The INVITE with its tag, branch and CSeq is
-- among the messages sent, without credentials if the CSeq is 1 and with credentials if it is 2;
-- it is one of the two.
pub invite-Connected :
    (md5_hex : Text → Text) (client : SipClient) (dial sdp_offer : Text) (timeout : ℕ)
    (call_id local_tag branch : Text) (now : ℕ) (first_ok : Bool) (ticks : List Tick) (call : Call)
    (log : List Text)
    → invite md5_hex client dial sdp_offer timeout call_id local_tag branch now first_ok ticks []
      ≡ (ok (some call), log)
    → let setup = setup_of client dial sdp_offer (now + timeout) call_id local_tag branch in
      Connected call
      × ((authenticated : Bool) × OfSetup setup local_tag authenticated call
          × Invited setup log call authenticated)
unfolding invite send_msg
invite-Connected md5_hex client [] sdp_offer timeout call_id local_tag branch now first_ok ticks
      call log h =
    absurd (cc)
invite-Connected md5_hex client (c ∷ dial) sdp_offer timeout call_id local_tag branch now false
      ticks call log h =
    absurd (cc)
invite-Connected md5_hex client (c ∷ dial) sdp_offer timeout call_id local_tag branch now true ticks
      call log h =
    let setup = setup_of client (c ∷ dial) sdp_offer (now + timeout) call_id local_tag branch in
    let st = start setup local_tag branch now in
    let back : Returned md5_hex setup local_tag (ok (some call)) =
      subst (Returned md5_hex setup local_tag) (ap (λ r. r.0) h) (
        invite_loop-Returned md5_hex setup local_tag st ticks (setup.invite ∷ [])
          (start-IsInviteState setup local_tag branch now)) in
    let (connected, (before, of_setup)) : Connected call
        × ((before : Bool) × OfSetup setup local_tag before call) =
      unfold Returned in back in
    let r = invite_loop-Runs md5_hex setup st ticks (setup.invite ∷ []) in
    let same = sym r.logged ∙ h in
    let rounds : Exchange md5_hex setup st ticks (ok (some call)) r.messages =
      subst (λ o. Exchange md5_hex setup st ticks o r.messages) (ap (λ p. p.0) same) r.rounds in
    let (auth, invited) = Exchange-Invited setup (setup.invite ∷ []) rounds (
      unfold start in
      start-Invited client (c ∷ dial) sdp_offer (now + timeout) call_id local_tag branch now) in
    (
      connected,
      (
        auth,
        Invited-OfSetup setup local_tag before of_setup invited,
        subst (λ l. Invited setup l call auth) (ap (λ p. p.1) same) invited,
      ),
    )
