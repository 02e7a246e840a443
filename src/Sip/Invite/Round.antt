-- ===== src/Sip/Invite/Round.antt =====
-- One round of the loop in `invite`: its guards, the retransmission, and the reply to a response.
use slmodem_sip_bridge.Base.{
  ◌+◌, ◌-◌, ◌⊎◌, ◌≤◌, ◌<◌, List, [], ◌∷◌, ◌++◌, Bool, true, false, not, Option, none, some, ◌≡◌,
  refl, ap, ◌∙◌, arith, append-nil, append_assoc, ltb, leb, if◌then◌else◌,
}
use slmodem_sip_bridge.Base.Outcome.{Outcome, ok, bail, panic}
use slmodem_sip_bridge.Sip.Invite.Reply.Handled.{on_response-Replies}
use slmodem_sip_bridge.Sip.Invite.Reply.{Reply, Replies, ignored}
use slmodem_sip_bridge.Sip.Invite.Response.{nothing}
use slmodem_sip_bridge.Sip.Invite.{
  Setup, InviteState, Tick, Control, again, receive, retransmit_due, retransmitted, round,
}
use slmodem_sip_bridge.Sip.{
  SipError, send_failed, invite_timed_out, Sip, lift, send_msg, ◌>>◌, response_loop_limit,
}
use slmodem_sip_bridge.Text.{Text}

abbrev pub counted : InviteState → InviteState
counted st = record st { iterations = st.iterations + 1 }

-- A copy of the first INVITE is called for: no provisional response, fewer than seven copies, and
-- the timer has run out.
pub record Due (st : InviteState) (t : Tick) : Type 0 where
  pub unheard : st.got_provisional ≡ false
  pub few_copies : st.retransmit_count < 7
  pub elapsed : st.retransmit_timer ≤ t.timer_now - st.last_send

-- It is not.
abbrev pub Quiet : InviteState → Tick → Type 0
Quiet st t =
    (st.got_provisional ≡ true)
    ⊎ ((7 ≤ st.retransmit_count) ⊎ (t.timer_now - st.last_send < st.retransmit_timer))

-- A round that is run: one of the first thousand, before the deadline.
pub record Runs (setup : Setup) (st : InviteState) (t : Tick) : Type 0 where
  pub few : st.iterations < 1000
  pub soon : t.now < setup.deadline

-- How a round ends and the messages it sends.
pub data Round (md5_hex : Text → Text) (setup : Setup) (st : InviteState) (t : Tick)
    : Outcome SipError Control → List Text → Type 0 where
  overrun : 1000 ≤ st.iterations → Round md5_hex setup st t panic []
  timed_out :
      st.iterations < 1000
      → setup.deadline ≤ t.now
      → Round md5_hex setup st t (bail invite_timed_out) []
  unsent :
      Runs setup st t
      → Due st t
      → t.resend_ok ≡ false
      → Round md5_hex setup st t (bail send_failed) []
  heard :
      {o : Outcome SipError Control} {ms : List Text}
      → Runs setup st t
      → Quiet st t
      → Reply md5_hex setup (counted st) t t.resp o ms
      → Round md5_hex setup st t o ms
  resent :
      {o : Outcome SipError Control} {ms : List Text}
      → Runs setup st t
      → Due st t
      → t.resend_ok ≡ true
      → Reply md5_hex setup (retransmitted (counted st) t) t t.resp o ms
      → Round md5_hex setup st t o (setup.invite ∷ ms)

pub record Rounds (md5_hex : Text → Text) (setup : Setup) (st : InviteState) (t : Tick)
    (m : Sip Control) (sent : List Text) : Type 0 where
  pub outcome : Outcome SipError Control
  pub messages : List Text
  pub logged : m sent ≡ (outcome, sent ++ messages)
  pub result : Round md5_hex setup st t outcome messages

due_lem : (st : InviteState) (t : Tick) → retransmit_due (counted st) t ≡ true → Due st t
unfolding retransmit_due
due_lem st t h = record {
  unheard = ground arith;
  few_copies = ground arith;
  elapsed = ground arith;
}

quiet_lem : (st : InviteState) (t : Tick) → retransmit_due (counted st) t ≡ false → Quiet st t
unfolding retransmit_due
quiet_lem st t h = ground arith

module _ (md5_hex : Text → Text) (setup : Setup) where
  stops :
      (st : InviteState) (t : Tick) (sent : List Text) (o : Outcome SipError Control)
      → Round md5_hex setup st t o []
      → Rounds md5_hex setup st t (lift o) sent
  stops st t sent o r = record {
    outcome = o;
    messages = [];
    logged = rw (append-nil sent) refl;
    result = r;
  }

  if-Rounds :
      (st : InviteState) (t : Tick) (test : Bool) (m n : Sip Control) (sent : List Text)
      → (test ≡ true → Rounds md5_hex setup st t m sent)
      → (test ≡ false → Rounds md5_hex setup st t n sent)
      → Rounds md5_hex setup st t (if test then m else n) sent
  if-Rounds st t true m n sent yea nay = yea refl
  if-Rounds st t false m n sent yea nay = nay refl

  receive-Replies :
      (st : InviteState) (t : Tick) (resp : Option Text) (sent : List Text)
      → Replies md5_hex setup st t resp (receive md5_hex setup st t resp) sent
  receive-Replies st t none sent = record {
    outcome = ok (again st);
    messages = [];
    logged = rw (append-nil sent) refl;
    reply = ignored (nothing refl);
  }
  receive-Replies st t (some resp) sent = on_response-Replies md5_hex setup st t resp sent

  resend-Rounds :
      (st : InviteState) (t : Tick) (sent : List Text)
      → Runs setup st t
      → Due st t
      → Rounds md5_hex setup st t
          (send_msg t.resend_ok setup.invite
            >> receive md5_hex setup (retransmitted (counted st) t) t t.resp)
          sent
  unfolding send_msg
  resend-Rounds st t sent runs due = go t.resend_ok refl
    where
      next : InviteState
      next = retransmitted (counted st) t

      go :
          (resend_ok : Bool)
          → t.resend_ok ≡ resend_ok
          → Rounds md5_hex setup st t
              (send_msg resend_ok setup.invite >> receive md5_hex setup next t t.resp)
              sent
      go false e = stops st t sent (bail send_failed) (unsent runs due e)
      go true e =
          let r = receive-Replies next t t.resp (sent ++ setup.invite ∷ []) in
          record {
            outcome = r.outcome;
            messages = setup.invite ∷ r.messages;
            logged =
                r.logged
                ∙ ap (λ l. (r.outcome, l)) (append_assoc sent (setup.invite ∷ []) r.messages);
            result = resent runs due e r.reply;
          }

  -- Every round of the code is one of these.
  pub round-Rounds :
      (st : InviteState) (t : Tick) (sent : List Text)
      → Rounds md5_hex setup st t (round md5_hex setup st t) sent
  unfolding round
  round-Rounds st t sent =
      if-Rounds st t (not (ltb st.iterations response_loop_limit)) _ _ sent
        (λ over. stops st t sent panic (overrun (ground arith)))
        (λ few.
          if-Rounds st t (leb setup.deadline t.now) _ _ sent
            (λ late.
              stops st t sent (bail invite_timed_out) (timed_out (ground arith) (ground arith)))
            (λ early.
              let runs : Runs setup st t = record { few = ground arith; soon = ground arith } in
              if-Rounds st t (retransmit_due (counted st) t) _ _ sent
                (λ due. resend-Rounds st t sent runs (due_lem st t due))
                (λ quiet.
                  let r = receive-Replies (counted st) t t.resp sent in
                  record {
                    outcome = r.outcome;
                    messages = r.messages;
                    logged = r.logged;
                    result = heard runs (quiet_lem st t quiet) r.reply;
                  })))
