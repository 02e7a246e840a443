-- ===== src/Bridge/Run/Poll.antt =====
-- The poll for the answer beside the relay, and the relay with it.
use mathlib.Core.Path.{subst}
use slmodem_sip_bridge.Base.{
  List, [], ◌∷◌, ◌++◌, Bool, true, false, Option, none, some, ◌≡◌, ◌≢◌, inl, inr, refl, sym, ap,
  ◌∙◌, if◌then◌else◌, Bool-cases,
}
use slmodem_sip_bridge.Base.Outcome.{Outcome, ok, bail, panic}
use slmodem_sip_bridge.Bridge.Run.{
  RunError, sip_failed, Pass, is_answered, move, answer_poll, poll_early, relay, connected,
}
use slmodem_sip_bridge.Session.{connecting_media, media_active, is_valid_transition, transition}
use slmodem_sip_bridge.Sip.Answer.{Polled, is_early_media, poll_answer, ack}
use slmodem_sip_bridge.Sip.Build.{build_ack}
use slmodem_sip_bridge.Sip.{
  Call, CallState, trying, SipClient, SipError, send_msg, answered, early_media,
}
use slmodem_sip_bridge.Text.{Text}
use slmodem_sip_bridge.Bridge.Run.Messages.{answer_poll-Polls}
use slmodem_sip_bridge.Bridge.Run.Teardown.{
  in_state, WasSetUp, poll, Front, acknowledged, polled, untouched, PassEnds, unacknowledged,
  if-PassEnds, relay-PassEnds,
}

is_answered-answered : (state : CallState) → is_answered state ≡ true → state ≡ answered
is_answered-answered answered h = refl
is_answered-answered early_media h = absurd (cc)
is_answered-answered trying h = absurd (cc)

is_early_media-early : (state : CallState) → is_early_media state ≡ true → state ≡ early_media
is_early_media-early early_media h = refl
is_early_media-early answered h = absurd (cc)
is_early_media-early trying h = absurd (cc)

module _ (client : SipClient) (pass : Pass) where
  pub answer_poll-bail :
      (call : Call) (polls : List (Option Text × Bool)) (e : RunError)
      → (answer_poll client call polls).0 ≢ bail e
  unfolding answer_poll
  answer_poll-bail call [] e = λ h. cc
  answer_poll-bail call ((received, ack_ok) ∷ polls) e =
      let p = poll_answer client call received ack_ok in
      go p p.result (answer_poll-bail p.call polls e)
    where
      go :
          (p : Polled) (r : Outcome SipError Bool)
          → (answer_poll client p.call polls).0 ≢ bail e
          → (elim r as (λ _. Outcome RunError Call × List Text) [
            | ok true ↦ (ok p.call, p.sent)
            | ok false ↦
                ((answer_poll client p.call polls).0, p.sent ++ (answer_poll client p.call polls).1)
            | bail _ ↦ (ok p.call, p.sent)
            | panic ↦ (panic, p.sent)
          ]).0
            ≢ bail e
      go p (ok true) later = λ h. cc
      go p (ok false) later = later
      go p (bail x) later = λ h. cc
      go p panic later = λ h. cc

  pub poll_early-early :
      (call : Call)
      → is_early_media call.state ≡ true
      → poll_early client call pass ≡ answer_poll client call pass.polls
  unfolding poll_early
  poll_early-early call h =
      ap (λ b. if b then answer_poll client call pass.polls else (ok call, [])) h

  pub poll_early-late :
      (call : Call)
      → is_early_media call.state ≡ false
      → poll_early client call pass ≡ (ok call, [])
  unfolding poll_early
  poll_early-late call h =
      ap (λ b. if b then answer_poll client call pass.polls else (ok call, [])) h

  pub poll_early-bail : (call : Call) (e : RunError) → (poll_early client call pass).0 ≢ bail e
  poll_early-bail call e = elim (Bool-cases (is_early_media call.state)) [
    | inl early ↦
        subst (λ r. r.0 ≢ bail e) (sym (poll_early-early call early))
          (answer_poll-bail call pass.polls e)
    | inr late ↦ subst (λ r. r.0 ≢ bail e) (sym (poll_early-late call late)) (λ h. cc)
  ]

  pub answered-late : (state : CallState) → state ≡ answered → is_early_media state ≡ false
  answered-late state h = ap is_early_media h

  -- The relay of a call that was answered, and of any other.
  pub relay_answered-PassEnds :
      (raw dial : Text) (call : Call)
      → WasSetUp client pass raw dial call
      → call.remote_rtp ≢ none
      → call.state ≡ answered
      → pass.ack_ok ≡ true
      → PassEnds client pass raw
          (relay client (in_state dial media_active) call (build_ack client call ∷ []) pass)
  relay_answered-PassEnds raw dial call up media h taken =
      relay-PassEnds client pass raw dial call (build_ack client call ∷ []) up media
        (λ call' acks e.
          let same = sym (poll_early-late call (answered-late call.state h)) ∙ e in
          let call_is : call ≡ call' = cc in
          let acks_are : [] ≡ acks = ap (λ r. r.1) same in
          subst (λ c. Front client pass call c (build_ack client call ∷ acks)) call_is
            (subst (λ l. Front client pass call call (build_ack client call ∷ l)) acks_are
              (acknowledged h taken)))
        (poll_early-bail call)
        (λ acks e. absurd (cc (poll_early-late call (answered-late call.state h))))

  pub relay_unanswered-PassEnds :
      (raw dial : Text) (call : Call)
      → WasSetUp client pass raw dial call
      → call.remote_rtp ≢ none
      → is_answered call.state ≡ false
      → PassEnds client pass raw (relay client (in_state dial media_active) call [] pass)
  relay_unanswered-PassEnds raw dial call up media h =
      relay-PassEnds client pass raw dial call [] up media
        (λ call' acks e. elim (Bool-cases (is_early_media call.state)) [
          | inl early ↦
              polled (is_early_media-early call.state early)
                (answer_poll-Polls client call pass.polls (sym (poll_early-early call early) ∙ e))
          | inr late ↦
              let same = sym (poll_early-late call late) ∙ e in
              let call_is : call ≡ call' = cc in
              let acks_are : [] ≡ acks = ap (λ r. r.1) same in
              subst (λ c. Front client pass call c acks) call_is
                (subst (λ l. Front client pass call call l) acks_are
                  (untouched (λ s. absurd (cc (ap is_answered s)))
                    (λ s. absurd (cc (ap is_early_media s)))))
        ])
        (poll_early-bail call)
        (λ acks e. elim (Bool-cases (is_early_media call.state)) [
          | inl early ↦
              poll up (is_early_media-early call.state early)
                (answer_poll-Polls client call pass.polls (sym (poll_early-early call early) ∙ e))
          | inr late ↦ absurd (cc (poll_early-late call late))
        ])

  pub connected-PassEnds :
      (raw dial : Text) (call : Call)
      → WasSetUp client pass raw dial call
      → call.remote_rtp ≢ none
      → PassEnds client pass raw (connected client (in_state dial connecting_media) call pass)
  unfolding connected move transition is_valid_transition
  connected-PassEnds raw dial call up media =
      if-PassEnds client pass raw (is_answered call.state) _ _
        (λ h. go (is_answered-answered call.state h) pass.ack_ok refl)
        (λ h. relay_unanswered-PassEnds raw dial call up media h)
    where
      go :
          call.state ≡ answered
          → (ack_ok : Bool) → pass.ack_ok ≡ ack_ok
          → PassEnds client pass raw (elim (ack client call ack_ok []).0 [
            | ok _ ↦
                relay client (in_state dial media_active) call (ack client call ack_ok []).1 pass
            | bail e ↦ record {
              result = bail (sip_failed e);
              session = some (in_state dial connecting_media);
              sent = [];
            }
            | panic ↦ record {
              result = panic;
              session = some (in_state dial connecting_media);
              sent = [];
            }
          ])
      go h true e = unfold ack send_msg in relay_answered-PassEnds raw dial call up media h e
      go h false e = unfold ack send_msg in unacknowledged dial call up h e
