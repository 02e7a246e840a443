-- ===== src/Sip/Message.antt =====
-- The parsing helpers of sip.rs. A slice off a character boundary is a panic.
pub mod Total
pub mod Fields
pub mod Response
pub mod Params
mod Tests
use slmodem_sip_bridge.Base.{
  ℕ, ◌+◌, List, [], ◌∷◌, ◌++◌, Bool, true, false, not, ◌&&◌, ◌||◌, Option, none, some, ltb, ◌==◌,
  if◌then◌else◌, is_nil,
}
use slmodem_sip_bridge.Base.Outcome.{Outcome, ok, bail, panic, ◌>>=◌}
use slmodem_sip_bridge.Text.Number.{parse, u16_max, u32_max}
use slmodem_sip_bridge.Text.Split.{lines, split_whitespace, splitn}
use slmodem_sip_bridge.Text.{
  Text, codes, len, slice_to, slice_from, starts_with, find, find_char, contains,
  to_ascii_lowercase, eq_ignore_ascii_case, is_whitespace, trim,
}

-- A slice, or a panic.
abbrev pub slice : {E : Type 0} → Option Text → Outcome E Text
slice none = panic
slice (some s) = ok s

-- The second of the pieces of the first line.
unfoldable pub status_piece : List Text → Option ℕ
status_piece (_ ∷ code ∷ _) = parse u16_max code
status_piece _ = none

unfoldable pub status_line : List Text → Option ℕ
unfolding status_piece
status_line [] = none
status_line (first_line ∷ _) =
    if starts_with first_line (codes "SIP/2.0 ")
    then status_piece (splitn 3 b' ' first_line)
    else none

unfoldable pub parse_status_code : Text → Option ℕ
unfolding status_line
parse_status_code msg = status_line (lines msg)

-- The condition of the `if` in `extract_header`, on a trimmed line.
unfoldable pub header_matches : {E : Type 0} → Text → Text → Outcome E Bool
header_matches prefix trimmed =
    if ltb (len prefix) (len trimmed)
    then (do front ← slice (slice_to trimmed (len prefix)); ok (eq_ignore_ascii_case front prefix))
    else ok false

-- The loop of `extract_header`.
unfoldable pub find_header : {E : Type 0} → Text → List Text → Outcome E (Option Text)
find_header prefix [] = ok none
find_header prefix (line ∷ rest) =
    let later = find_header prefix rest in
    (do
      found ← header_matches prefix (trim line)
      if found
          then (do value ← slice (slice_from (trim line) (len prefix)); ok (some (trim value)))
          else later)

unfoldable pub extract_header : {E : Type 0} → Text → Text → Outcome E (Option Text)
extract_header msg name = find_header (name ++ b':' ∷ []) (lines msg)

-- The number in front of a CSeq value.
unfoldable pub cseq_number : Option Text → Option ℕ
cseq_number none = none
cseq_number (some value) = elim (split_whitespace value) [
  | [] ↦ none
  | num_str ∷ _ ↦ parse u32_max num_str
]

unfoldable pub extract_cseq_num : {E : Type 0} → Text → Outcome E (Option ℕ)
unfolding cseq_number
extract_cseq_num msg = do value ← extract_header msg (codes "CSeq"); ok (cseq_number value)

-- The CSeq of a response is that of the current transaction, or not readable.
abbrev pub is_current : ℕ → Option ℕ → Bool
is_current cseq none = true
is_current cseq (some n) = n == cseq

-- The value behind `param="`, up to the next quote.
unfoldable pub quoted_value : {E : Type 0} → Text → Outcome E (Option Text)
quoted_value rest = elim (find rest (b'"' ∷ [])) [
  | none ↦ ok none
  | some end ↦ do value ← slice (slice_to rest end); ok (some value)
]

unfoldable pub extract_quoted_param : {E : Type 0} → Text → Text → Outcome E (Option Text)
unfolding quoted_value
extract_quoted_param header param =
    let search = param ++ (b'=' ∷ b'"' ∷ []) in
    elim (find header search) [
      | none ↦ ok none
      | some at ↦ do rest ← slice (slice_from header (at + len search)); quoted_value rest
    ]

unfoldable pub ends_tag : ℕ → Bool
ends_tag c = c == b';' || c == b'>' || c == b',' || is_whitespace c

-- The tag in front of a text, if it is not empty.
unfoldable pub tag_value : {E : Type 0} → Text → Outcome E (Option Text)
tag_value rest =
    let end : ℕ = elim (find_char ends_tag rest) [ none ↦ len rest | some n ↦ n ] in
    (do
      value ← slice (slice_to rest end)
      let tag = trim value
      ok (if is_nil tag then none else some tag))

unfoldable pub extract_tag_param : {E : Type 0} → Text → Outcome E (Option Text)
unfolding tag_value
extract_tag_param header = elim (find header (codes "tag=")) [
  | none ↦ ok none
  | some at ↦ do rest ← slice (slice_from header (at + len (codes "tag="))); tag_value rest
]

unfoldable pub is_sdp_content_type : Text → Bool
is_sdp_content_type line =
    let t = to_ascii_lowercase (trim line) in
    starts_with t (codes "content-type:") && contains t (codes "application/sdp")

unfoldable pub any_sdp_content_type : List Text → Bool
any_sdp_content_type [] = false
any_sdp_content_type (line ∷ rest) = is_sdp_content_type line || any_sdp_content_type rest

-- Where the body starts: behind the first blank line.
unfoldable pub body_start : Text → Option ℕ
body_start msg = elim (find msg (b'\r' ∷ b'\n' ∷ b'\r' ∷ b'\n' ∷ [])) [
  | some pos ↦ some (pos + 4)
  | none ↦ elim (find msg (b'\n' ∷ b'\n' ∷ [])) [ some pos ↦ some (pos + 2) | none ↦ none ]
]

unfoldable pub body_at : {E : Type 0} → Text → Option ℕ → Outcome E (Option Text)
body_at msg none = ok none
body_at msg (some start) = do
  body ← slice (slice_from msg start)
  ok (if is_nil (trim body) then none else some body)

unfoldable pub extract_sdp_body : {E : Type 0} → Text → Outcome E (Option Text)
unfolding body_at body_start
extract_sdp_body msg =
    if any_sdp_content_type (lines msg) then body_at msg (body_start msg) else ok none
