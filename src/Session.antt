-- ===== src/Session.antt =====
-- session.rs: the states of one call, and the guarded transitions between them.
pub mod Trace
mod Tests
use slmodem_sip_bridge.Base.{Bool, true, false, not, if◌then◌else◌}
use slmodem_sip_bridge.Text.{Text}

pub data SessionState : Type 0 where
  init originating connecting_media media_active terminating terminated : SessionState

pub record Session : Type 0 where
  pub dial : Text
  pub state : SessionState

unfoldable pub new : Text → Session
new dial = record { dial = dial; state = init }

-- `matches!((from, to), ...)`.
unfoldable pub is_valid_transition : SessionState → SessionState → Bool
is_valid_transition init originating = true
is_valid_transition originating connecting_media = true
is_valid_transition connecting_media media_active = true
is_valid_transition connecting_media terminating = true
is_valid_transition originating terminating = true
is_valid_transition media_active terminating = true
is_valid_transition terminating terminated = true
is_valid_transition _ _ = false

-- The session after the call, and whether it returned `Ok`.
unfoldable pub transition : Session → SessionState → Session × Bool
unfolding is_valid_transition
transition session next =
    if not (is_valid_transition session.state next)
    then (session, false)
    else (record session { state = next }, true)
