-- ===== src/Main.antt =====
-- main.rs: `main`, from the command line to the end of the bridge. What follows it is logging.
pub mod Dial
pub mod Ends
mod Tests
use slmodem_sip_bridge.Base.{ℕ, List, [], Option, none, some, Bytes}
use slmodem_sip_bridge.Base.Outcome.{Outcome, ok, bail, panic, map_err}
use slmodem_sip_bridge.Bridge.Run.{Pass}
use slmodem_sip_bridge.Bridge.Start.{Startup, BridgeError, run}
use slmodem_sip_bridge.Config.{Cli, Config, from_cli}
use slmodem_sip_bridge.DialString
use slmodem_sip_bridge.DialString.{DialString, DialError}
use slmodem_sip_bridge.Text.{Text, map_some}

pub data MainError : Type 0 where
  invalid_dial_string : DialError → MainError
  bridge_failed : BridgeError → MainError

module _ (md5_hex : Text → Text) (md5_bytes : Bytes → Text) where
  -- `none` while the bridge waits; the messages are those of `run`.
  unfoldable pub main :
      Cli → Startup → List Pass → Option (Outcome MainError (Unit {0})) × List Text
  unfolding from_cli
  main cli out passes =
      let cfg = from_cli cli in
      elim (DialString.parse cfg.dial_string) [
        | ok dial ↦
            let (result, sent) =
              run md5_hex md5_bytes (record cfg { dial_string = dial.as_str }) out passes in
            (map_some (map_err bridge_failed) result, sent)
        | bail e ↦ (some (bail (invalid_dial_string e)), [])
        | panic ↦ (some panic, [])
      ]
