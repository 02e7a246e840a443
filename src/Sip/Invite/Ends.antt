-- ===== src/Sip/Invite/Ends.antt =====
-- The loop's variables while it runs, what it returns, and that it comes to an end.
pub mod Connect
use mathlib.Core.Path.{subst}
use slmodem_sip_bridge.Base.{
  ℕ, ◌+◌, ◌*◌, ◌^◌, min, ◌≤◌, ◌<◌, List, [], ◌∷◌, ◌++◌, Bool, true, false, Option, none, some, ◌≡◌,
  refl, sym, ap, ◌∙◌, arith, every_under, every_under-true, ◌==◌, if◌then◌else◌,
}
use slmodem_sip_bridge.Base.Outcome.{Outcome, ok, bail, panic}
use slmodem_sip_bridge.Net.{SocketAddr}
use slmodem_sip_bridge.Sip.Invite.Conversation.{Exchange, invite_loop-round, invite_loop-Runs}
use slmodem_sip_bridge.Sip.Invite.Invited.{
  Invited, plain, authenticated, Exchange-Invited, start-Invited,
}
use slmodem_sip_bridge.Sip.Invite.Reply.{
  newest, Reply, ignored, provisional, early, picked_up, challenged, rejected, unsent, failed,
  panicked,
}
use slmodem_sip_bridge.Sip.Invite.Response.{Tagged, kept, tagged, IsCurrent-Tagged, Ignores-Tagged}
use slmodem_sip_bridge.Sip.Invite.Round.{
  counted, Round, overrun, timed_out, unsent, heard, resent, round-Rounds,
}
use slmodem_sip_bridge.Sip.Invite.{
  Setup, InviteState, Tick, Control, again, finished, on_answer, retransmitted, round, loop_control,
  invite_loop, setup_of, start, invite,
}
use slmodem_sip_bridge.Sip.{
  Call, CallState, early_media, answered, SipClient, SipError, go_on, send_msg,
}
use slmodem_sip_bridge.Text.{Text}

-- The call is the one that was set up: its identifiers never change, and its CSeq counts the
-- INVITEs that are not copies.
pub record OfSetup (setup : Setup) (local_tag : Text) (authenticated : Bool) (call : Call)
    : Type 0 where
  pub call_id_is : call.call_id ≡ setup.call_id
  pub local_tag_is : call.local_tag ≡ local_tag
  pub invite_uri_is : call.invite_uri ≡ setup.invite_uri
  pub cseq_is : call.cseq ≡ (if authenticated then 2 else 1)

-- The variables of the loop agree with each other: the timer has doubled with every copy, from 500
-- to at most 4000 milliseconds.
pub record IsInviteState (setup : Setup) (local_tag : Text) (st : InviteState) : Type 0 where
  pub of_setup : OfSetup setup local_tag st.auth_retry_done st.call
  pub count_le : st.retransmit_count ≤ 7
  pub timer_is : st.retransmit_timer ≡ min (500 * 2 ^ st.retransmit_count) 4000

-- A call that is returned: it is answered, or it has early media and knows where to send its own.
pub data Connected : Call → Type 0 where
  with_early_media :
      {call : Call} (addr : SocketAddr)
      → call.state ≡ early_media
      → call.remote_rtp ≡ some addr
      → Connected call
  with_answer : {call : Call} → call.state ≡ answered → Connected call

backoff_table :
    every_under 7 (λ n. min (min (500 * 2 ^ n) 4000 * 2) 4000 == min (500 * 2 ^ (n + 1)) 4000)
    ≡ true
unfolding every_under
backoff_table = refl

backoff : (n : ℕ) → n < 7 → min (min (500 * 2 ^ n) 4000 * 2) 4000 ≡ min (500 * 2 ^ (n + 1)) 4000
backoff n h = ground (arith, every_under-true 7 _ backoff_table n h)

module _ (md5_hex : Text → Text) (setup : Setup) (local_tag : Text) where
  Tagged-OfSetup :
      {authenticated : Bool} {call call' : Call}
      → Tagged call call'
      → OfSetup setup local_tag authenticated call
      → OfSetup setup local_tag authenticated call'
  Tagged-OfSetup kept v = v
  Tagged-OfSetup (tagged tag e) v = record {
    call_id_is = v.call_id_is;
    local_tag_is = v.local_tag_is;
    invite_uri_is = v.invite_uri_is;
    cseq_is = v.cseq_is;
  }

  OfSetup-media :
      {authenticated : Bool} {call : Call} (addr : Option SocketAddr) (state : CallState)
      → OfSetup setup local_tag authenticated call
      → OfSetup setup local_tag authenticated (record call { remote_rtp = addr; state = state })
  OfSetup-media addr state v = record {
    call_id_is = v.call_id_is;
    local_tag_is = v.local_tag_is;
    invite_uri_is = v.invite_uri_is;
    cseq_is = v.cseq_is;
  }

  -- What the invariant says of the end of a round.
  pub Kept : Outcome SipError Control → Type 0
  Kept (ok (again st)) = IsInviteState setup local_tag st
  Kept (ok (finished call)) =
      Connected call × ((authenticated : Bool) × OfSetup setup local_tag authenticated call)
  Kept (bail e) = Unit
  Kept panic = Unit

  Reply-Kept :
      (st : InviteState) (t : Tick) (received : Option Text) {o : Outcome SipError Control}
      {ms : List Text}
      → Reply md5_hex setup st t received o ms
      → IsInviteState setup local_tag st
      → Kept o
  unfolding Kept
  Reply-Kept st t received (ignored i) v = record {
    of_setup = Tagged-OfSetup (Ignores-Tagged i) v.of_setup;
    count_le = v.count_le;
    timer_is = v.timer_is;
  }
  Reply-Kept st t received (provisional c what) v = record {
    of_setup = Tagged-OfSetup (IsCurrent-Tagged c) v.of_setup;
    count_le = v.count_le;
    timer_is = v.timer_is;
  }
  Reply-Kept st t received (early addr c rings e) v = (
    with_early_media addr refl refl,
    (
      st.auth_retry_done,
      OfSetup-media (some addr) early_media (Tagged-OfSetup (IsCurrent-Tagged c) v.of_setup),
    ),
  )
  Reply-Kept st t received (picked_up {call = call} endpoint c e) v = (
    with_answer refl,
    (
      st.auth_retry_done,
      OfSetup-media (newest endpoint call.remote_rtp) answered
          (Tagged-OfSetup (IsCurrent-Tagged c) v.of_setup),
    ),
  )
  Reply-Kept st t received (challenged {call = call} digest a acked asked) v =
      let w = Tagged-OfSetup (IsCurrent-Tagged a.current) v.of_setup in
      let once : call.cseq ≡ 1 = ground (arith, w.cseq_is, a.fresh) in
      record {
        of_setup = record {
          call_id_is = w.call_id_is;
          local_tag_is = w.local_tag_is;
          invite_uri_is = w.invite_uri_is;
          cseq_is = omega arith;
        };
        count_le = omega arith;
        timer_is = refl;
      }
  Reply-Kept st t received (rejected c refuses acked) v = tt
  Reply-Kept st t received (unsent a acked refused) v = tt
  Reply-Kept st t received (failed fault) v = tt
  Reply-Kept st t received (panicked broken) v = tt

  pub Round-Kept :
      (st : InviteState) (t : Tick) {o : Outcome SipError Control} {ms : List Text}
      → Round md5_hex setup st t o ms
      → IsInviteState setup local_tag st
      → Kept o
  unfolding Kept retransmitted
  Round-Kept st t (overrun h) v = tt
  Round-Kept st t (timed_out few h) v = tt
  Round-Kept st t (unsent runs due e) v = tt
  Round-Kept st t (heard runs quiet r) v =
      Reply-Kept (counted st) t t.resp r
        (record { of_setup = v.of_setup; count_le = v.count_le; timer_is = v.timer_is })
  Round-Kept st t (resent runs due e r) v =
      let doubled : min (st.retransmit_timer * 2) 4000
          ≡ min (500 * 2 ^ (st.retransmit_count + 1)) 4000 =
        rw v.timer_is (backoff st.retransmit_count due.few_copies) in
      Reply-Kept (retransmitted (counted st) t) t t.resp r (record {
        of_setup = v.of_setup;
        count_le = omega (arith, due.few_copies);
        timer_is = doubled;
      })

module _ (md5_hex : Text → Text) (setup : Setup) (local_tag : Text) where
  -- From a state whose variables agree, with at most seven copies sent and the timer at
  -- min(500 * 2 ^ copies, 4000), a round goes on with such a state, whatever the server sends.
  pub round-IsInviteState :
      (st st' : InviteState) (t : Tick) (sent sent' : List Text)
      → IsInviteState setup local_tag st
      → round md5_hex setup st t sent ≡ (ok (again st'), sent')
      → IsInviteState setup local_tag st'
  unfolding Kept
  round-IsInviteState st st' t sent sent' v e =
      let r = round-Rounds md5_hex setup st t sent in
      let same : r.outcome ≡ ok (again st') = cc r.logged in
      let k : Kept md5_hex setup local_tag (ok (again st')) =
        subst (Kept md5_hex setup local_tag) same
          (Round-Kept md5_hex setup local_tag st t r.result v) in
      k

pub start-IsInviteState :
    (setup : Setup) (local_tag branch : Text) (now : ℕ)
    → IsInviteState setup local_tag (start setup local_tag branch now)
unfolding start
start-IsInviteState setup local_tag branch now = record {
  of_setup = record {
    call_id_is = refl;
    local_tag_is = refl;
    invite_uri_is = refl;
    cseq_is = refl;
  };
  count_le = omega arith;
  timer_is = refl;
}
