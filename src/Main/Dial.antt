-- ===== src/Main/Dial.antt =====
-- The dial string of the command line.
use slmodem_sip_bridge.Base.{List, [], Option, some, Bytes, ◌≡◌, refl, sym, ◌∙◌, ap}
use slmodem_sip_bridge.Base.Outcome.{Outcome, ok, bail, map_err}
use slmodem_sip_bridge.Bridge.Run.{Pass}
use slmodem_sip_bridge.Bridge.Start.{Startup, BridgeError, prepare, start, run}
use slmodem_sip_bridge.Config.{Cli, Config, from_cli}
use slmodem_sip_bridge.DialString
use slmodem_sip_bridge.DialString.{DialString, DialError}
use slmodem_sip_bridge.Main.{MainError, invalid_dial_string, bridge_failed, main}
use slmodem_sip_bridge.Text.{Text, map_some}

module _ (md5_hex : Text → Text) (md5_bytes : Bytes → Text) (out : Startup)
    (passes : List Pass) where
  run_dial :
      (cfg : Config) (dial : Text)
      → run md5_hex md5_bytes (record cfg { dial_string = dial }) out passes
        ≡ run md5_hex md5_bytes cfg out passes
  unfolding run start prepare
  run_dial cfg dial = refl

  abbrev finished :
      Option (Outcome BridgeError (Unit {0})) × List Text
      → Option (Outcome MainError (Unit {0})) × List Text
  finished r = (map_some (map_err bridge_failed) r.0, r.1)

  main_accepted :
      (cli : Cli) (dial : DialString)
      → DialString.parse cli.dial_string ≡ ok dial
      → main md5_hex md5_bytes cli out passes
        ≡ finished (run md5_hex md5_bytes (from_cli cli) out passes)
  unfolding from_cli main run
  main_accepted cli dial h = rw (h, main) (ap finished (run_dial (from_cli cli) dial.as_str))

  main_refused :
      (cli : Cli) (e : DialError)
      → DialString.parse cli.dial_string ≡ bail e
      → main md5_hex md5_bytes cli out passes ≡ (some (bail (invalid_dial_string e)), [])
  unfolding from_cli main
  main_refused cli e h = rw (h, main) refl

  from_cli_dial :
      (cli : Cli) (other : Text)
      → run md5_hex md5_bytes (from_cli (record cli { dial_string = other })) out passes
        ≡ run md5_hex md5_bytes (from_cli cli) out passes
  unfolding from_cli
  from_cli_dial cli other = run_dial (from_cli cli) other

  -- The dial string of the command line is only checked: if it is refused, `main` fails before it
  -- sends a message; all that are accepted give the same run.
  pub main-parse :
      (cli : Cli) (other : Text)
      → ((e : DialError)
          → DialString.parse cli.dial_string ≡ bail e
          → main md5_hex md5_bytes cli out passes ≡ (some (bail (invalid_dial_string e)), []))
        × ((a b : DialString)
            → DialString.parse cli.dial_string ≡ ok a
            → DialString.parse other ≡ ok b
            → main md5_hex md5_bytes cli out passes
              ≡ main md5_hex md5_bytes (record cli { dial_string = other }) out passes)
  main-parse cli other = (
    main_refused cli,
    (λ a b h k.
        main_accepted cli a h
        ∙ ap finished (sym (from_cli_dial cli other))
        ∙ sym (main_accepted (record cli { dial_string = other }) b k)),
  )
