-- ===== src/Sip/Invite/Heard.antt =====
-- The loop in `invite` hears an answer, also behind rounds in which nothing came.
mod Tests
use mathlib.Core.Path.{subst}
use slmodem_sip_bridge.Base.{
  ℕ, zero, suc, ◌+◌, ◌<◌, ◌≤◌, not, List, [], ◌∷◌, ◌++◌, Bool, true, false, is_nil, Option, none,
  some, ltb, leb, if◌then◌else◌, ◌≡◌, ◌≢◌, refl, sym, ap, ◌∙◌, arith, inl, inr, All, Bool-cases,
  length,
}
use slmodem_sip_bridge.Base.Outcome
use slmodem_sip_bridge.Base.Outcome.{Outcome, ok, bail, panic}
use slmodem_sip_bridge.Net.{SocketAddr}
use slmodem_sip_bridge.Sip.Invite.Answered.{Answers, answered_by, on_response-answered}
use slmodem_sip_bridge.Sip.Invite.Conversation.{invite_loop-round}
use slmodem_sip_bridge.Sip.Invite.Round.{counted}
use slmodem_sip_bridge.Sip.Invite.{
  Setup, InviteState, Tick, Control, again, finished, retransmit_due, retransmitted, receive, round,
  loop_control, invite_loop, setup_of, start, invite,
}
use slmodem_sip_bridge.Sip.{Call, SipClient, SipError, Sip, go_on, ◌>>=◌, ◌>>◌, lift, send_msg}
use slmodem_sip_bridge.Text.{Text}

-- A round in time, in which the socket takes what is sent.
pub record IsOpen (setup : Setup) (t : Tick) : Type 0 where
  pub in_time : t.now < setup.deadline
  pub sends : t.resend_ok ≡ true

-- Such a round in which nothing is received.
pub record IsSilent (setup : Setup) (t : Tick) : Type 0 where
  pub goes_through : IsOpen setup t
  pub nothing : t.resp ≡ none

module _ (md5_hex : Text → Text) (setup : Setup) where
  -- The guards of a round let it through to what was received.
  record Reaches (st : InviteState) (t : Tick) (log : List Text) : Type 0 where
    state : InviteState
    sent : List Text
    goes : round md5_hex setup st t log ≡ receive md5_hex setup state t t.resp sent
    same_call : state.call ≡ st.call
    next : state.iterations ≡ st.iterations + 1

  round-Reaches :
      (st : InviteState) (t : Tick) (log : List Text)
      → st.iterations < 1000
      → IsOpen setup t
      → Reaches st t log
  unfolding round send_msg
  round-Reaches st t log below o =
      let few : ltb st.iterations 1000 ≡ true = ground arith in
      let soon : leb setup.deadline t.now ≡ false = ground (arith, o.in_time) in
      elim (Bool-cases (retransmit_due (counted st) t)) [
        | inl due ↦ record {
          state = retransmitted (counted st) t;
          sent = log ++ setup.invite ∷ [];
          goes = simp (few, soon, due, o.sends) refl;
          same_call = unfold retransmitted in refl;
          next = unfold retransmitted in refl;
        }
        | inr quiet ↦ record {
          state = counted st;
          sent = log;
          goes = simp (few, soon, quiet) refl;
          same_call = refl;
          next = refl;
        }
      ]

  invite_loop-receive :
      (st : InviteState) (t : Tick) (ts : List Tick) (log : List Text) (r : Reaches st t log)
      {control : Control} {sent : List Text}
      → receive md5_hex setup r.state t t.resp r.sent ≡ (ok control, sent)
      → invite_loop md5_hex setup st (t ∷ ts) log
        ≡ loop_control (λ st'. invite_loop md5_hex setup st' ts) control sent
  invite_loop-receive st t ts log r e = invite_loop-round md5_hex setup st t ts log (r.goes ∙ e)

  -- From any state of the loop in which rounds are left: an answer that is heard in time ends it.
  -- The call that is returned is that of the state with the endpoint and, if it had none, the tag
  -- of the answer.
  pub invite_loop-answered :
      {tag : Text} {endpoint : SocketAddr} (st : InviteState) (t : Tick) (ts : List Tick)
      (log : List Text) (resp : Text)
      → st.iterations < 1000
      → IsOpen setup t
      → t.resp ≡ some resp
      → Answers 200 st.call.cseq tag endpoint resp
      → (invite_loop md5_hex setup st (t ∷ ts) log).0 ≡ ok (some (answered_by st.call tag endpoint))
  invite_loop-answered {tag} {endpoint} st t ts log resp below o got a =
      let r = round-Reaches st t log below o in
      let a' : Answers 200 r.state.call.cseq tag endpoint resp =
        subst (λ call. Answers 200 call.cseq tag endpoint resp) (sym r.same_call) a in
      let heard =
        ap (λ m. receive md5_hex setup r.state t m r.sent) got
        ∙ on_response-answered md5_hex setup r.state t resp r.sent a' in
      ap (λ m. m.0) (invite_loop-receive st t ts log r heard)
      ∙ ap (λ call. ok (some (answered_by call tag endpoint))) r.same_call

  -- The same behind silent rounds.
  invite_loop-silent :
      {tag : Text} {endpoint : SocketAddr} (st : InviteState) (before : List Tick) (t : Tick)
      (ts : List Tick) (log : List Text) (resp : Text)
      → st.iterations + length before < 1000
      → All (IsSilent setup) before
      → IsOpen setup t
      → t.resp ≡ some resp
      → Answers 200 st.call.cseq tag endpoint resp
      → (invite_loop md5_hex setup st (before ++ t ∷ ts) log).0
        ≡ ok (some (answered_by st.call tag endpoint))
  invite_loop-silent st [] t ts log resp below quiet o got a =
      invite_loop-answered st t ts log resp (omega arith) o got a
  invite_loop-silent {tag} {endpoint} st (b ∷ before) t ts log resp below (hb, quiet) o got a =
      let r = round-Reaches st b log (omega arith) hb.goes_through in
      let a' : Answers 200 r.state.call.cseq tag endpoint resp =
        subst (λ call. Answers 200 call.cseq tag endpoint resp) (sym r.same_call) a in
      let waits : receive md5_hex setup r.state b b.resp r.sent ≡ (ok (again r.state), r.sent) =
        ap (λ m. receive md5_hex setup r.state b m r.sent) hb.nothing in
      ap (λ m. m.0) (invite_loop-receive st b (before ++ t ∷ ts) log r waits)
      ∙ invite_loop-silent r.state before t ts r.sent resp (omega (arith, r.next)) quiet o got a'
      ∙ ap (λ call. ok (some (answered_by call tag endpoint))) r.same_call

-- A far end that answers is connected: if the dial string is not empty, the socket takes the first
-- INVITE and, in the rounds up to the answer, every copy of it, and behind fewer than 1000 rounds
-- in time in which nothing arrives a 200 to it arrives before the deadline, then `invite` returns
-- the call with the 200's To tag and endpoint. The 200 is well formed: its header is ASCII lines
-- `Name: value`, with names that are words and values that are not blank, behind an ASCII start
-- line without a colon; CSeq is 1 and a method; To ends in a tag, with no `=` in front of `tag=`
-- and no white space, `;`, `>` or `,` in the tag; a content type is application/sdp; and
-- `parse_answer` accepts the body, which is not blank.
pub invite-answered :
    (md5_hex : Text → Text) (client : SipClient) (dial sdp_offer : Text) (timeout : ℕ)
    (call_id local_tag branch : Text) (now : ℕ) (before : List Tick) (t : Tick) (ts : List Tick)
    (tag : Text) (endpoint : SocketAddr) (resp : Text)
    → dial ≢ []
    → length before < 1000
    → All
        (IsSilent (setup_of client dial sdp_offer (now + timeout) call_id local_tag branch))
        before
    → IsOpen (setup_of client dial sdp_offer (now + timeout) call_id local_tag branch) t
    → t.resp ≡ some resp
    → Answers 200 1 tag endpoint resp
    → (invite md5_hex client dial sdp_offer timeout call_id local_tag branch now true
        (before ++ t ∷ ts)
        []).0
      ≡ ok (
          some (
            answered_by
              (start
                (setup_of client dial sdp_offer (now + timeout) call_id local_tag branch)
                local_tag
                branch
                now).call
              tag
              endpoint))
unfolding invite start send_msg
invite-answered md5_hex client [] sdp_offer timeout call_id local_tag branch now before t ts tag
      endpoint resp ne few quiet o got a =
    absurd (ne refl)
invite-answered md5_hex client (d ∷ dial) sdp_offer timeout call_id local_tag branch now before t ts
      tag endpoint resp ne few quiet o got a =
    let setup = setup_of client (d ∷ dial) sdp_offer (now + timeout) call_id local_tag branch in
    invite_loop-silent md5_hex setup (start setup local_tag branch now) before t ts
      (setup.invite ∷ []) resp (omega arith) quiet o got a
