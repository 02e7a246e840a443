-- ===== src/Sip/Message/Response/Body.antt =====
-- The body of a message whose fields are known.
use slmodem_sip_bridge.Base.{
  ℕ, ◌+◌, ◌&&◌, ◌||◌, is_nil, List, [], ◌∷◌, ◌++◌, Bool, true, false, none, some, if◌then◌else◌,
  ◌≡◌, ◌≢◌, refl, sym, ap, ◌∙◌, arith, inl, inr, All, Any, append_assoc, map,
}
use slmodem_sip_bridge.Base.Outcome.{ok}
use slmodem_sip_bridge.Sip.Message.{
  is_sdp_content_type, any_sdp_content_type, body_start, body_at, extract_sdp_body,
}
use slmodem_sip_bridge.Sip.Message.Fields.{Field, field_line, render, IsField}
use slmodem_sip_bridge.Sip.Message.Fields.Lookup.{IsStart, lines-render}
use slmodem_sip_bridge.Sip.Message.Fields.Match.{trim-field_line, lowered_colon}
use slmodem_sip_bridge.Text.Equal.{text_eq_iff}
use slmodem_sip_bridge.Sip.Message.Response.{find_cons, find_here}
use slmodem_sip_bridge.Text.Lines.{IsLine, unlines, IsLine-append, IsWord-IsLine}
use slmodem_sip_bridge.Text.Position.{split_at-len, len-append}
use slmodem_sip_bridge.Text.Split.{lines}
use slmodem_sip_bridge.Text.{
  Text, codes, len_utf8, len, map_some, split_at, strip_prefix, starts_with, find, contains,
  ascii_lower, to_ascii_lowercase, eq_ignore_ascii_case, is_whitespace, trim_end, trim,
}

abbrev blank : Text
blank = b'\r' ∷ b'\n' ∷ b'\r' ∷ b'\n' ∷ []

-- A line that is not empty and does not start with `\r`.
abbrev pub IsFull : Text → Type 0
IsFull [] = ⊥
IsFull (c ∷ l) = (c ≢ b'\r') × (c ≢ b'\n') × IsLine l

-- The next character of the text behind a line.
not_in_line :
    (c : ℕ) (l s : Text) → IsLine l → strip_prefix (c ∷ (l ++ b'\r' ∷ b'\n' ∷ s)) blank ≡ none
unfolding strip_prefix
not_in_line c [] s h = ground arith
not_in_line c (d ∷ l) s (hd, hl) = ground arith

-- The end of a line in front of a full one.
not_at_end :
    (d : ℕ) (l s : Text) → d ≢ b'\r' → strip_prefix (b'\r' ∷ b'\n' ∷ d ∷ (l ++ s)) blank ≡ none
unfolding strip_prefix
not_at_end d l s h = ground arith

not_at_newline : (s : Text) → strip_prefix (b'\n' ∷ s) blank ≡ none
unfolding strip_prefix
not_at_newline s = refl

-- A search goes on behind a text in which no match starts.
find_later :
    (l s : Text) (n : ℕ)
    → IsLine l
    → find (b'\r' ∷ b'\n' ∷ s) blank ≡ some n
    → find (l ++ b'\r' ∷ b'\n' ∷ s) blank ≡ some (len l + n)
find_later [] s n h e = e ∙ ap some (omega arith)
find_later (c ∷ l) s n (hc, hl) e =
    find_cons c (l ++ b'\r' ∷ b'\n' ∷ s) blank (not_in_line c l s hl)
    ∙ ap (map_some (λ k. len_utf8 c + k)) (find_later l s n hl e)
    ∙ ap some (omega arith)

-- Where the first blank line behind a line and full ones starts: at the end of the last of them.
abbrev blank_at : Text → List Text → ℕ
blank_at l [] = len l + 0
blank_at l (m ∷ ls) = len l + (1 + (1 + blank_at m ls))

next_line :
    (d : ℕ) (m s : Text) (n : ℕ)
    → d ≢ b'\r'
    → find (d ∷ (m ++ s)) blank ≡ some n
    → find (b'\r' ∷ b'\n' ∷ d ∷ (m ++ s)) blank ≡ some (1 + (1 + n))
next_line d m s n hd e =
    find_cons b'\r' (b'\n' ∷ d ∷ (m ++ s)) blank (not_at_end d m s hd)
    ∙ ap (map_some (λ k. len_utf8 b'\r' + k)) (
        find_cons b'\n' (d ∷ (m ++ s)) blank (not_at_newline (d ∷ (m ++ s)))
        ∙ ap (map_some (λ k. len_utf8 b'\n' + k)) e)

find-blank :
    (l : Text) (ls : List Text) (body : Text)
    → IsLine l
    → All IsFull ls
    → find (unlines (l ∷ (ls ++ [] ∷ [])) ++ body) blank ≡ some (blank_at l ls)
find-blank l [] body h hs =
    ap (λ t. find t blank) (append_assoc l blank body)
    ∙ find_later l (b'\r' ∷ b'\n' ∷ body) 0 h (find_here blank body)
find-blank l ([] ∷ ls) body h hs = absurd hs.0
find-blank l ((d ∷ m) ∷ ls) body h ((hd, hn, hm), hs) =
    let rest = unlines (ls ++ [] ∷ []) in
    ap (λ t. find t blank) (append_assoc l (b'\r' ∷ b'\n' ∷ d ∷ (m ++ b'\r' ∷ b'\n' ∷ rest)) body)
    ∙ find_later l (d ∷ ((m ++ b'\r' ∷ b'\n' ∷ rest) ++ body)) (1 + (1 + blank_at (d ∷ m) ls)) h (
        next_line d (m ++ b'\r' ∷ b'\n' ∷ rest) body (blank_at (d ∷ m) ls) hd
          (find-blank (d ∷ m) ls body (hn, hm) hs))

blank_at-len : (l : Text) (ls : List Text) → len (unlines (l ∷ (ls ++ [] ∷ []))) ≡ blank_at l ls + 4
blank_at-len l [] = omega (arith, len-append l blank)
blank_at-len l (m ∷ ls) =
    omega (arith, len-append l (b'\r' ∷ b'\n' ∷ unlines (m ∷ (ls ++ [] ∷ []))), blank_at-len m ls)

body_start_found :
    (msg : Text) (pos : ℕ) → find msg blank ≡ some pos → body_start msg ≡ some (pos + 4)
unfolding body_start
body_start_found msg pos h = rw (h, body_start) refl

body_at_cut :
    {E : Type 0} (head body : Text) (start : ℕ)
    → len head ≡ start
    → is_nil (trim body) ≡ false
    → body_at {E = E} (head ++ body) (some start) ≡ ok (some body)
unfolding body_at
body_at_cut head body start e full =
    let cut : split_at (head ++ body) start ≡ some (head, body) =
      ap (split_at (head ++ body)) (sym e) ∙ split_at-len head body in
    rw (cut, full) refl

-- The body of a message is what stands behind its blank line.
pub body_at-render :
    {E : Type 0} (start : Text) (fields : List Field) (body : Text)
    → IsLine start
    → All IsFull (map field_line fields)
    → is_nil (trim body) ≡ false
    → body_at {E = E} (render start fields body) (body_start (render start fields body))
      ≡ ok (some body)
unfolding render
body_at-render start fields body hl hs full =
    let ls = map field_line fields in
    let head = unlines (start ∷ (ls ++ [] ∷ [])) in
    ap (body_at (head ++ body))
      (body_start_found (head ++ body) (blank_at start ls) (find-blank start ls body hl hs))
    ∙ body_at_cut head body (blank_at start ls + 4) (blank_at-len start ls) full

field_line-IsFull : (f : Field) → IsField f → IsFull (field_line f)
unfolding is_whitespace
field_line-IsFull ([], value) (ne, _, _, _, _, _, _) = absurd (ne refl)
field_line-IsFull (c ∷ name, value) (ne, ha, (hc, hw), hn, hv, hl, full) = (
  (λ e. absurd (ground arith)),
  (λ e. absurd (ground arith)),
  IsLine-append name (b':' ∷ b' ' ∷ value) (IsWord-IsLine name hw)
      ((λ e. absurd (omega arith)), ((λ e. absurd (omega arith)), hl)),
)

field_lines-IsFull : (fields : List Field) → All IsField fields → All IsFull (map field_line fields)
field_lines-IsFull [] h = tt
field_lines-IsFull (f ∷ fields) (hf, hs) = (field_line-IsFull f hf, field_lines-IsFull fields hs)

-- A field that says that the body is a session description.
abbrev pub SaysSdp : Field → Type 0
SaysSdp (name, value) =
    (eq_ignore_ascii_case name (codes "Content-Type") ≡ true) × (value ≡ codes "application/sdp")

sdp_line :
    (name value : Text)
    → IsField (name, value)
    → SaysSdp (name, value)
    → is_sdp_content_type (field_line (name, value)) ≡ true
unfolding is_sdp_content_type strip_prefix find to_ascii_lowercase ascii_lower trim_end
    is_whitespace
sdp_line name value (ne, ha, hw, _, _, _, _) (same, is_sdp) =
    let lower : to_ascii_lowercase name ≡ codes "content-type" =
      (text_eq_iff (to_ascii_lowercase name) (to_ascii_lowercase (codes "Content-Type"))).0 same in
    let text : to_ascii_lowercase (trim (field_line (name, value)))
        ≡ codes "content-type: application/sdp" =
      ap (λ v. to_ascii_lowercase (trim (field_line (name, v)))) is_sdp
      ∙ ap to_ascii_lowercase (trim-field_line name (codes "application/sdp") ne hw)
      ∙ lowered_colon name (trim_end (b' ' ∷ codes "application/sdp"))
      ∙ ap (λ t. t ++ codes ": application/sdp") lower in
    ap (λ t. starts_with t (codes "content-type:") && contains t (codes "application/sdp")) text

or-true : (a b : Bool) → b ≡ true → (a || b) ≡ true
or-true true b h = refl
or-true false b h = h

any_sdp_cons :
    (line : Text) (ls : List Text)
    → any_sdp_content_type ls ≡ true
    → any_sdp_content_type (line ∷ ls) ≡ true
unfolding any_sdp_content_type
any_sdp_cons line ls h = or-true (is_sdp_content_type line) (any_sdp_content_type ls) h

any_sdp_lem :
    (fields : List Field) (rest : List Text)
    → All IsField fields
    → Any SaysSdp fields
    → any_sdp_content_type (map field_line fields ++ rest) ≡ true
unfolding any_sdp_content_type
any_sdp_lem [] rest h a = absurd a
any_sdp_lem ((name, value) ∷ fields) rest (hf, hs) (inl here) =
    rw (sdp_line name value hf here) refl
any_sdp_lem (f ∷ fields) rest (hf, hs) (inr later) =
    or-true (is_sdp_content_type (field_line f)) _ (any_sdp_lem fields rest hs later)

-- A message with the content type of a session description, of which the body is not blank, gives
-- its body.
pub extract_sdp_body-render :
    {E : Type 0} (start : Text) (fields : List Field) (body : Text)
    → IsStart start
    → All IsField fields
    → Any SaysSdp fields
    → is_nil (trim body) ≡ false
    → extract_sdp_body {E = E} (render start fields body) ≡ ok (some body)
unfolding extract_sdp_body
extract_sdp_body-render {E} start fields body hstart hs says full =
    let msg = render start fields body in
    let typed : any_sdp_content_type (lines msg) ≡ true =
      ap any_sdp_content_type (lines-render start fields body hstart hs)
      ∙ any_sdp_cons start _ (any_sdp_lem fields ([] ∷ lines body) hs says) in
    ap (λ b. if b then body_at {E = E} msg (body_start msg) else ok none) typed
    ∙ body_at-render start fields body hstart.1 (field_lines-IsFull fields hs) full
