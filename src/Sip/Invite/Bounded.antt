-- ===== src/Sip/Invite/Bounded.antt =====
-- The loop in `invite` comes to an end: each round counts itself, and there are at most 1000.
use mathlib.Core.Path.{subst}
use slmodem_sip_bridge.Base.{
  ℕ, ◌+◌, ◌≤◌, ◌<◌, List, [], ◌∷◌, ◌++◌, Bool, true, false, Option, none, ◌≡◌, ◌≢◌, refl, sym, ap,
  arith, length,
}
use slmodem_sip_bridge.Base.Outcome.{Outcome, ok, bail, panic}
use slmodem_sip_bridge.Sip.Invite.Conversation.{invite_loop-round}
use slmodem_sip_bridge.Sip.Invite.Reply.{
  Reply, ignored, provisional, early, picked_up, challenged, rejected, unsent, failed, panicked,
}
use slmodem_sip_bridge.Sip.Invite.Round.{
  counted, Round, overrun, timed_out, unsent, heard, resent, round-Rounds,
}
use slmodem_sip_bridge.Sip.Invite.{
  Setup, InviteState, Tick, Control, again, finished, retransmitted, loop_control, invite_loop,
  start, invite, setup_of,
}
use slmodem_sip_bridge.Sip.{SipClient, SipError, go_on, send_msg}
use slmodem_sip_bridge.Text.{Text}

-- If the loop goes on, this many rounds have been counted.
Counted : ℕ → Outcome SipError Control → Type 0
Counted n (ok (again st)) = st.iterations ≡ n
Counted n _ = Unit

Reply-Counted :
    {md5_hex : Text → Text} (setup : Setup) (st : InviteState) {t : Tick} {received : Option Text}
    {o : Outcome SipError Control} {ms : List Text}
    → Reply md5_hex setup st t received o ms
    → Counted st.iterations o
unfolding Counted
Reply-Counted setup st (ignored i) = refl
Reply-Counted setup st (provisional c what) = refl
Reply-Counted setup st (challenged d a acked asked) = refl
Reply-Counted setup st (early addr c rings e) = tt
Reply-Counted setup st (picked_up endpoint c e) = tt
Reply-Counted setup st (rejected c refuses acked) = tt
Reply-Counted setup st (unsent a acked refused) = tt
Reply-Counted setup st (failed fault) = tt
Reply-Counted setup st (panicked broken) = tt

-- A round that goes on is one of the first thousand, and counts itself.
GoesOn : ℕ → Outcome SipError Control → Type 0
GoesOn n (ok (again st)) = (n < 1000) × (st.iterations ≡ n + 1)
GoesOn n _ = Unit

within : (n : ℕ) (o : Outcome SipError Control) → n < 1000 → Counted (n + 1) o → GoesOn n o
unfolding Counted GoesOn
within n (ok (again st)) h c = (h, c)
within n (ok (finished call)) h c = tt
within n (bail e) h c = tt
within n panic h c = tt

Round-GoesOn :
    {md5_hex : Text → Text} (setup : Setup) (st : InviteState) (t : Tick)
    {o : Outcome SipError Control} {ms : List Text}
    → Round md5_hex setup st t o ms
    → GoesOn st.iterations o
unfolding GoesOn retransmitted
Round-GoesOn setup st t (overrun h) = tt
Round-GoesOn setup st t (timed_out few h) = tt
Round-GoesOn setup st t (unsent runs due e) = tt
Round-GoesOn setup st t (heard {o} runs quiet r) =
    within st.iterations o runs.few (Reply-Counted setup (counted st) r)
Round-GoesOn setup st t (resent {o} runs due e r) =
    within st.iterations o runs.few (Reply-Counted setup (retransmitted (counted st) t) r)

invite_loop-ends :
    (md5_hex : Text → Text) (setup : Setup) (st : InviteState) (ts : List Tick) (sent : List Text)
    → 1000 < st.iterations + length ts
    → st.iterations ≤ 1000
    → (invite_loop md5_hex setup st ts sent).0 ≢ ok none
invite_loop-ends md5_hex setup st [] sent h le = absurd (omega arith)
invite_loop-ends md5_hex setup st (t ∷ ts) sent h le =
    let r = round-Rounds md5_hex setup st t sent in
    let shut = ap (λ p. p.0) (invite_loop-round md5_hex setup st t ts sent r.logged) in
    subst (λ o. o ≢ ok none) (sym shut)
      (go r.outcome (sent ++ r.messages) (Round-GoesOn setup st t r.result)
        (λ st' sent' h' le'. invite_loop-ends md5_hex setup st' ts sent' h' le'))
  where
    go :
        (o : Outcome SipError Control) (sent' : List Text)
        → GoesOn st.iterations o
        → ((st' : InviteState) (sent' : List Text)
            → 1000 < st'.iterations + length ts
            → st'.iterations ≤ 1000
            → (invite_loop md5_hex setup st' ts sent').0 ≢ ok none)
        → (go_on (o, sent') (loop_control (λ st'. invite_loop md5_hex setup st' ts))).0 ≢ ok none
    go (ok (again st')) sent' g later =
        let (few, one_more) : (st.iterations < 1000) × (st'.iterations ≡ st.iterations + 1) =
          unfold GoesOn in g in
        later st' sent' (omega arith) (omega arith)
    go (ok (finished call)) sent' g later = λ e. cc
    go (bail e) sent' g later = λ e. cc
    go panic sent' g later = λ e. cc

-- `invite` has ended, with a call, an error or a panic, when its loop has been given 1001 rounds,
-- whatever happens in them.
pub invite-ends :
    (md5_hex : Text → Text) (client : SipClient) (dial sdp_offer : Text) (timeout : ℕ)
    (call_id local_tag branch : Text) (now : ℕ) (first_ok : Bool) (ticks : List Tick)
    → 1000 < length ticks
    → (invite md5_hex client dial sdp_offer timeout call_id local_tag branch now first_ok ticks
        []).0
      ≢ ok none
unfolding invite send_msg start
invite-ends md5_hex client [] sdp_offer timeout call_id local_tag branch now first_ok ticks h =
    λ e. cc
invite-ends md5_hex client (c ∷ dial) sdp_offer timeout call_id local_tag branch now false ticks h =
    λ e. cc
invite-ends md5_hex client (c ∷ dial) sdp_offer timeout call_id local_tag branch now true ticks h =
    let setup = setup_of client (c ∷ dial) sdp_offer (now + timeout) call_id local_tag branch in
    invite_loop-ends md5_hex setup (start setup local_tag branch now) ticks (setup.invite ∷ [])
      (omega arith) (omega arith)
