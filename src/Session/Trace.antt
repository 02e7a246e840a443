-- ===== src/Session/Trace.antt =====
-- Whatever transitions a caller asks for, the session follows the call's life forwards.
use slmodem_sip_bridge.Base.{
  ℕ, suc, ◌+◌, ◌≤◌, ◌≡◌, ◌≢◌, ◌↔◌, refl, arith, true, false, List, [], ◌∷◌, if◌then◌else◌,
}
use slmodem_sip_bridge.Session.{
  SessionState, init, originating, connecting_media, media_active, terminating, terminated, Session,
  is_valid_transition, transition,
}

-- The life of a call, apart from the code: an edge for each thing that can happen next.
pub data Next : SessionState → SessionState → Type 0 where
  dialled : Next init originating
  answered : Next originating connecting_media
  relaying : Next connecting_media media_active
  hung_up : {s : SessionState} → s ≢ init → s ≢ terminating → s ≢ terminated → Next s terminating
  closed : Next terminating terminated

-- How far a call has come.
abbrev pub rank : SessionState → ℕ
rank init = 0
rank originating = 1
rank connecting_media = 2
rank media_active = 3
rank terminating = 4
rank terminated = 5

pub transition-Next :
    (s : Session) (next : SessionState) → (transition s next).1 ≡ true → Next s.state next
unfolding transition
transition-Next s next h = grind (arith, dialled, answered, relaying, hung_up, closed)

Next-accepted : {s next : SessionState} → Next s next → is_valid_transition s next ≡ true
unfolding is_valid_transition
Next-accepted dialled = refl
Next-accepted answered = refl
Next-accepted relaying = refl
Next-accepted (hung_up {s} a b c) = ground arith
Next-accepted closed = refl

-- A transition is accepted exactly along the life of a call; an accepted one moves to the state
-- asked for and keeps the dial string, and a refused one changes nothing.
pub transition_lem :
    (s : Session) (next : SessionState)
    → (((transition s next).1 ≡ true) ↔ Next s.state next)
      × (transition s next
          ≡ (if (transition s next).1 then (record s { state = next }, true) else (s, false)))
transition_lem s next = (
  (transition-Next s next, λ n. unfold transition in rw (Next-accepted n)),
  unfold transition in ground arith,
)

-- A list of requested transitions, one after the other; the number of accepted ones is counted.
unfoldable pub run : Session → List SessionState → Session × ℕ
run s [] = (s, 0)
run s (next ∷ rest) =
    let (s', accepted) = transition s next in
    let (final, n) = run s' rest in (final, if accepted then suc n else n)

rank-transition :
    (s : Session) (next : SessionState)
    → (if (transition s next).1 then 1 else 0) + rank s.state ≤ rank (transition s next).0.state
unfolding transition
rank-transition s next = ground arith

run-rank :
    (s : Session) (requests : List SessionState)
    → (run s requests).1 + rank s.state ≤ rank (run s requests).0.state
unfolding run
run-rank s [] = omega arith
run-rank s (next ∷ rest) =
    ground (arith, rank-transition s next, run-rank (transition s next).0 rest)

rank-le : (s : SessionState) → rank s ≤ 5
rank-le init = omega arith
rank-le _ = omega arith

-- Over any list of requested transitions the rank of the state grows by at least one for each
-- accepted one, so at most five are accepted in the life of a session.
pub run_bounded :
    (s : Session) (requests : List SessionState)
    → ((run s requests).1 + rank s.state ≤ rank (run s requests).0.state) × ((run s requests).1 ≤ 5)
run_bounded s requests =
    let grown = run-rank s requests in
    (grown, omega (arith, grown, rank-le (run s requests).0.state))
