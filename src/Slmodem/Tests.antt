-- ===== src/Slmodem/Tests.antt =====
-- The test of slmodem.rs: a negative descriptor is a panic.
use slmodem_sip_bridge.Base.{◌≡◌, refl, true}
use slmodem_sip_bridge.Base.Int.{negsuc}
use slmodem_sip_bridge.Base.Outcome.{panic}
use slmodem_sip_bridge.Slmodem.{check_fd, socket_from_raw_fd}

rejects_negative_fd : socket_from_raw_fd (negsuc 0) true true ≡ panic
unfolding socket_from_raw_fd check_fd
rejects_negative_fd = refl
