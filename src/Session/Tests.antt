-- ===== src/Session/Tests.antt =====
-- The tests of session.rs.
use slmodem_sip_bridge.Base.{◌≡◌, ◌↔◌, refl, [], ◌∷◌, true, false, if◌then◌else◌}
use slmodem_sip_bridge.Session.Trace.{Next, run, transition_lem}
use slmodem_sip_bridge.Session.{
  originating, connecting_media, media_active, terminating, terminated, Session, new,
  is_valid_transition, transition,
}

abbrev session : Session
session = record { dial = b'1' ∷ []; state = connecting_media }

valid_lifecycle :
    (run (new []) (originating ∷ connecting_media ∷ media_active ∷ terminating ∷ terminated ∷ []))
    ≡ (record { dial = []; state = terminated }, 5)
unfolding run new transition is_valid_transition
valid_lifecycle = refl

rejects_skip : (transition (new []) media_active).1 ≡ false
unfolding new transition is_valid_transition
rejects_skip = refl

transition_lem_example :
    (((transition session media_active).1 ≡ true) ↔ Next session.state media_active)
    × (transition session media_active ≡ (
        if (transition session media_active).1
        then (record session { state = media_active }, true)
        else (session, false)))
transition_lem_example = transition_lem session media_active
