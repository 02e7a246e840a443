-- ===== src/DialString.antt =====
-- dial_string.rs: what slmodemd sends behind `DIAL:` is checked before it becomes a SIP user part.
pub mod Accept
mod Tests
use slmodem_sip_bridge.Base.{ℕ, [], ◌∷◌, Bool, true, ◌&&◌, ◌||◌, not, ◌==◌, if◌then◌else◌, is_nil}
use slmodem_sip_bridge.Base.Outcome.{Outcome, ok, bail, ◌>>=◌, ◌>>◌, ensure}
use slmodem_sip_bridge.Text.Number.{is_ascii_digit}
use slmodem_sip_bridge.Text.{Text, trim_start_matches}

-- The text of a dial string, the field of the struct.
pub record DialString : Type 0 where
  pub as_str : Text

pub data DialError : Type 0 where
  empty_dial : Text → DialError
  unsupported : Text → DialError

unfoldable pub is_tone_pulse : ℕ → Bool
is_tone_pulse c = c == b'T' || c == b't' || c == b'P' || c == b'p'

unfoldable pub strip_tone_pulse_prefix : Text → Text
strip_tone_pulse_prefix input = trim_start_matches is_tone_pulse input

unfoldable pub is_allowed_dial_char : ℕ → Bool
is_allowed_dial_char c =
    is_ascii_digit c || c == b'*' || c == b'#' || c == b'+' || c == b',' || c == b'w' || c == b'W'

unfoldable pub all_allowed : Text → Bool
all_allowed [] = true
all_allowed (c ∷ s) = is_allowed_dial_char c && all_allowed s

unfoldable pub parse : Text → Outcome DialError DialString
parse input = do
  let stripped = strip_tone_pulse_prefix input
  ensure (not (is_nil stripped)) (empty_dial input)
  ensure (all_allowed stripped) (unsupported stripped)
  ok (record { as_str = stripped })
