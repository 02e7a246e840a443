-- ===== src/Bridge/Run/Messages.antt =====
-- The messages of the end of a call: the BYE, and the ACKs of the poll beside the relay.
use mathlib.Core.Path.{subst}
use slmodem_sip_bridge.Base.{
  List, [], ◌∷◌, ◌++◌, Bool, true, false, Option, ◌≡◌, refl, if◌then◌else◌,
}
use slmodem_sip_bridge.Base.Outcome.{Outcome, ok, bail, panic}
use slmodem_sip_bridge.Bridge.Run.{RunError, Pass, send_bye, answer_poll}
use slmodem_sip_bridge.Sip.Answer.{Polled, poll_answer, bye}
use slmodem_sip_bridge.Sip.Build.{build_bye}
use slmodem_sip_bridge.Sip.{Call, SipClient, SipError, send_msg}
use slmodem_sip_bridge.Text.{Text}

-- The BYE, if the socket takes it.
abbrev pub last_bye : SipClient → Call → Pass → List Text
last_bye client call pass = if pass.bye_ok then build_bye client call pass.bye_branch ∷ [] else []

-- The poll beside the relay, from one reply to the next: it goes on while a reply is not final, and
-- ends with an answer or an error. An error leaves the call as it is.
pub data Polls (client : SipClient)
    : Call → List (Option Text × Bool) → Outcome RunError Call → List Text → Type 0 where
  relay_over : {call : Call} → Polls client call [] (ok call) []
  not_yet :
      {call : Call} {received : Option Text} {ack_ok : Bool} {polls : List (Option Text × Bool)}
      {o : Outcome RunError Call} {acks : List Text}
      → (poll_answer client call received ack_ok).result ≡ ok false
      → Polls client (poll_answer client call received ack_ok).call polls o acks
      → Polls client call
          ((received, ack_ok) ∷ polls)
          o
          ((poll_answer client call received ack_ok).sent ++ acks)
  picked_up :
      {call : Call} {received : Option Text} {ack_ok : Bool} {polls : List (Option Text × Bool)}
      → (poll_answer client call received ack_ok).result ≡ ok true
      → Polls client call
          ((received, ack_ok) ∷ polls)
          (ok (poll_answer client call received ack_ok).call)
          (poll_answer client call received ack_ok).sent
  failed :
      {call : Call} {received : Option Text} {ack_ok : Bool} {polls : List (Option Text × Bool)}
      (e : SipError)
      → (poll_answer client call received ack_ok).result ≡ bail e
      → Polls client call
          ((received, ack_ok) ∷ polls)
          (ok (poll_answer client call received ack_ok).call)
          (poll_answer client call received ack_ok).sent
  crashed :
      {call : Call} {received : Option Text} {ack_ok : Bool} {polls : List (Option Text × Bool)}
      → (poll_answer client call received ack_ok).result ≡ panic
      → Polls client call
          ((received, ack_ok) ∷ polls)
          panic
          (poll_answer client call received ack_ok).sent

pub send_bye_lem :
    (client : SipClient) (call : Call) (pass : Pass)
    → send_bye client call pass ≡ last_bye client call pass
unfolding send_bye bye send_msg
send_bye_lem client call pass = go pass.bye_ok
  where
    go :
        (bye_ok : Bool)
        → (send_msg bye_ok (build_bye client call pass.bye_branch) []).1
          ≡ (if bye_ok then build_bye client call pass.bye_branch ∷ [] else [])
    go true = refl
    go false = refl

answer_poll_lem :
    (client : SipClient) (call : Call) (polls : List (Option Text × Bool))
    → Polls client call polls (answer_poll client call polls).0 (answer_poll client call polls).1
unfolding answer_poll
answer_poll_lem client call [] = relay_over
answer_poll_lem client call ((received, ack_ok) ∷ polls) =
    one (poll_answer client call received ack_ok).result
      (answer_poll_lem client (poll_answer client call received ack_ok).call polls) refl
  where
    p : Polled
    p = poll_answer client call received ack_ok

    rest : Outcome RunError Call × List Text
    rest = answer_poll client p.call polls

    after : Outcome SipError Bool → Outcome RunError Call × List Text
    after r = elim r [
      | ok true ↦ (ok p.call, p.sent)
      | ok false ↦ (rest.0, p.sent ++ rest.1)
      | bail _ ↦ (ok p.call, p.sent)
      | panic ↦ (panic, p.sent)
    ]

    one :
        (r : Outcome SipError Bool)
        → Polls client p.call polls rest.0 rest.1
        → p.result ≡ r
        → Polls client call ((received, ack_ok) ∷ polls) (after r).0 (after r).1
    one (ok true) later e = picked_up e
    one (ok false) later e = not_yet e later
    one (bail x) later e = failed x e
    one panic later e = crashed e

pub answer_poll-Polls :
    (client : SipClient) (call : Call) (polls : List (Option Text × Bool))
    {o : Outcome RunError Call} {acks : List Text}
    → answer_poll client call polls ≡ (o, acks)
    → Polls client call polls o acks
answer_poll-Polls client call polls {o} {acks} e =
    subst (λ r. Polls client call polls r.0 r.1) e (answer_poll_lem client call polls)
