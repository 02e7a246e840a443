-- ===== src/DialString/Tests.antt =====
-- The tests of dial_string.rs.
use slmodem_sip_bridge.Base.{◌≡◌, ◌↔◌, refl}
use slmodem_sip_bridge.Base.Outcome.{ok, bail}
use slmodem_sip_bridge.DialString.Accept.{Accepts, parse_iff}
use slmodem_sip_bridge.DialString.{
  empty_dial, unsupported, is_tone_pulse, is_allowed_dial_char, all_allowed,
  strip_tone_pulse_prefix, parse,
}
use slmodem_sip_bridge.Text.{Text, codes, trim_start_matches}

abbrev input : Text
input = codes "T18005551212"

abbrev dial : Text
dial = codes "18005551212"

strips_tone_prefix : parse input ≡ ok (record { as_str = dial })
unfolding parse all_allowed is_allowed_dial_char strip_tone_pulse_prefix is_tone_pulse
    trim_start_matches
strips_tone_prefix = refl

rejects_empty : parse (codes "T") ≡ bail (empty_dial (codes "T"))
unfolding parse all_allowed is_allowed_dial_char strip_tone_pulse_prefix is_tone_pulse
    trim_start_matches
rejects_empty = refl

rejects_injection : parse (codes "1@evil") ≡ bail (unsupported (codes "1@evil"))
unfolding parse all_allowed is_allowed_dial_char strip_tone_pulse_prefix is_tone_pulse
    trim_start_matches
rejects_injection = refl

parse_iff_example : (parse input ≡ ok (record { as_str = dial })) ↔ Accepts input dial
parse_iff_example = parse_iff input dial
