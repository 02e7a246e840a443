-- ===== src/Bridge/DialWait.antt =====
-- bridge.rs: `wait_for_dial_string`. The arms of its `select!` are events, in the order in which
-- they are taken.
pub mod Segments
use slmodem_sip_bridge.Base.{
  ℕ, ◌+◌, List, [], ◌∷◌, ◌++◌, Bool, true, false, not, Option, none, some, ltb, ◌==◌, if◌then◌else◌,
  Bytes, length, is_nil,
}
use slmodem_sip_bridge.Bridge.{line_buf_limit}
use slmodem_sip_bridge.Text.Utf8.{from_utf8_lossy}
use slmodem_sip_bridge.Text.{Text, codes, strip_prefix, trim}

-- Where the scan of what was read stands: with a dial string, or with a line that has no end yet.
pub data Scan : Type 0 where
  dialled : Text → Scan
  partial : Bytes → Scan

-- The dial string behind `DIAL:`, if there is one.
unfoldable pub behind_dial : Option Text → Option Text
behind_dial none = none
behind_dial (some ds) = if not (is_nil (trim ds)) then some (trim ds) else none

-- The dial string of a whole line.
unfoldable pub line_dial : Bytes → Option Text
line_dial line_buf = behind_dial (strip_prefix (from_utf8_lossy line_buf) (codes "DIAL:"))

-- `line_buf` behind one byte, if the byte does not end the function.
unfoldable pub next_line_buf : Bytes → ℕ → Bytes
next_line_buf line_buf b =
    if b == b'\n'
    then []
    else if ltb line_buf_limit (length (line_buf ++ b ∷ []))
    then []
    else line_buf ++ b ∷ []

-- The dial string, if the byte is the end of a line that has one.
unfoldable pub byte_dial : Bytes → ℕ → Option Text
byte_dial line_buf b = if b == b'\n' then line_dial line_buf else none

-- `for &b in &buf[..n]`.
unfoldable pub scan : Bytes → Bytes → Scan
scan line_buf [] = partial line_buf
scan line_buf (b ∷ bs) =
    let rest = scan (next_line_buf line_buf b) bs in
    elim (byte_dial line_buf b) [ some ds ↦ dialled ds | none ↦ rest ]

pub data DialEvent : Type 0 where
  read : Bytes → DialEvent
  read_error : DialEvent
  silence_tick : Bool → DialEvent
  heartbeat : DialEvent

-- The result: `Some`, `None`, or no result yet.
pub data Waited : Type 0 where
  got_dial : Text → Waited
  closed : Waited
  waiting : Bytes → Waited

-- The loop. A read of no bytes is the end of the stream.
unfoldable pub wait_for_dial_string : Bytes → List DialEvent → Waited
wait_for_dial_string line_buf [] = waiting line_buf
wait_for_dial_string line_buf (read [] ∷ events) = closed
wait_for_dial_string line_buf (read (b ∷ bs) ∷ events) = elim (scan line_buf (b ∷ bs)) [
  | dialled ds ↦ got_dial ds
  | partial line_buf' ↦ wait_for_dial_string line_buf' events
]
wait_for_dial_string line_buf (read_error ∷ events) = closed
wait_for_dial_string line_buf (silence_tick true ∷ events) = wait_for_dial_string line_buf events
wait_for_dial_string line_buf (silence_tick false ∷ events) = closed
wait_for_dial_string line_buf (heartbeat ∷ events) = wait_for_dial_string line_buf events
