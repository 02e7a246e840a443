-- ===== src/Main/Ends.antt =====
-- The program ends.
use slmodem_sip_bridge.Base.{
  ◌+◌, ◌<◌, List, [], ◌++◌, Bool, true, false, Option, none, some, Bytes, ◌≢◌, refl, arith, Any,
  length,
}
use slmodem_sip_bridge.Base.Outcome.{Outcome, ok, bail, panic, map_err}
use slmodem_sip_bridge.Bridge.Run.{Pass, run_loop}
use slmodem_sip_bridge.Bridge.Run.Calls.{run_loop-ends}
use slmodem_sip_bridge.Bridge.Start.{
  Startup, StartError, BridgeError, start_failed, run_failed, prepare, register_client, Started,
  send_ready, on_registered, start, run,
}
use slmodem_sip_bridge.Config.{Cli, Config, from_cli}
use slmodem_sip_bridge.DialString
use slmodem_sip_bridge.DialString.{DialString, DialError}
use slmodem_sip_bridge.Main.{MainError, invalid_dial_string, bridge_failed, main}
use slmodem_sip_bridge.Sip.Register.Waits.{Expired, register-ends}
use slmodem_sip_bridge.Sip.{SipClient, SipError, register_timeout}
use slmodem_sip_bridge.Text.{Text, map_some}

map_some-some : {A B : Type 0} (f : A → B) (o : Option A) → o ≢ none → map_some f o ≢ none
map_some-some f none h = absurd (h refl)
map_some-some f (some a) h = λ e. cc

send_ready-ends :
    (client : SipClient) (sent : List Text) (ready_ok : Bool)
    → (send_ready client sent ready_ok).result ≢ ok none
unfolding send_ready
send_ready-ends client sent true = λ e. cc
send_ready-ends client sent false = λ e. cc

on_registered-ends :
    (client : SipClient) (ready_ok : Bool) (r : Outcome SipError Bool × List Text)
    → r.0 ≢ ok false
    → (on_registered client ready_ok r).result ≢ ok none
unfolding on_registered
on_registered-ends client ready_ok (ok true, sent) h = send_ready-ends client sent ready_ok
on_registered-ends client ready_ok (ok false, sent) h = absurd (h refl)
on_registered-ends client ready_ok (bail e, sent) h = λ k. cc
on_registered-ends client ready_ok (panic, sent) h = λ k. cc

module _ (md5_hex : Text → Text) (md5_bytes : Bytes → Text) (out : Startup) where
  -- A round of the registration that starts at its deadline or later.
  abbrev pub RegistrationExpires : Type 0
  RegistrationExpires =
      Any (Expired (out.registration.loop_at + register_timeout)) out.registration.ticks

  start-ends :
      (cfg : Config) → RegistrationExpires → (start md5_hex md5_bytes cfg out).result ≢ ok none
  unfolding start register_client
  start-ends cfg late = go (prepare cfg out)
    where
      go :
          (o : Outcome StartError SipClient)
          → (elim o as (λ _. Started) [
            | ok client ↦
                on_registered client out.ready_ok
                  (register_client md5_hex md5_bytes client out.registration [])
            | bail e ↦ record { result = bail e; sent = []; written = [] }
            | panic ↦ record { result = panic; sent = []; written = [] }
          ]).result
            ≢ ok none
      go (ok client) =
          on_registered-ends client out.ready_ok _
            (register-ends md5_hex client _ _ _ _ _ _ _ _ _ _ _ late)
      go (bail e) = λ k. cc
      go panic = λ k. cc

  run-ends :
      (cfg : Config) (passes : List Pass)
      → RegistrationExpires
      → 1000 < length passes
      → (run md5_hex md5_bytes cfg out passes).0 ≢ none
  unfolding run
  run-ends cfg passes late many = go (start md5_hex md5_bytes cfg out).result (start-ends cfg late)
    where
      sent : List Text
      sent = (start md5_hex md5_bytes cfg out).sent

      go :
          (o : Outcome StartError (Option SipClient))
          → o ≢ ok none
          → (elim o as (λ _. Option (Outcome BridgeError (Unit {0})) × List Text) [
            | ok (some client) ↦
                let (result, more) = run_loop client 0 passes in
                (map_some (map_err run_failed) result, sent ++ more)
            | ok none ↦ (none, sent)
            | bail e ↦ (some (bail (start_failed e)), sent)
            | panic ↦ (some panic, sent)
          ]).0
            ≢ none
      go (ok (some client)) h =
          map_some-some (map_err run_failed) (run_loop client 0 passes).0
            (run_loop-ends client 0 passes (omega arith) (omega arith))
      go (ok none) h = absurd (h refl)
      go (bail e) h = λ k. cc
      go panic h = λ k. cc

  -- The program does not run on: if a round of the registration comes at the deadline or later, and
  -- the loop is given more than 1000 passes in each of which the wait, the setup and the relay have
  -- come to an end, then `main` has returned or panicked, whatever their results are.
  pub main-ends :
      (cli : Cli) (passes : List Pass)
      → RegistrationExpires
      → 1000 < length passes
      → (main md5_hex md5_bytes cli out passes).0 ≢ none
  unfolding main from_cli
  main-ends cli passes late many = go (DialString.parse cli.dial_string)
    where
      go :
          (o : Outcome DialError DialString)
          → (elim o as (λ _. Option (Outcome MainError (Unit {0})) × List Text) [
            | ok dial ↦
                let (result, more) =
                  run md5_hex md5_bytes
                    (record (from_cli cli) { dial_string = dial.as_str })
                    out
                    passes in
                (map_some (map_err bridge_failed) result, more)
            | bail e ↦ (some (bail (invalid_dial_string e)), [])
            | panic ↦ (some panic, [])
          ]).0
            ≢ none
      go (ok dial) = map_some-some (map_err bridge_failed) _ (run-ends _ passes late many)
      go (bail e) = λ k. cc
      go panic = λ k. cc
