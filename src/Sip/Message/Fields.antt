-- ===== src/Sip/Message/Fields.antt =====
-- A message as its start line, its header fields and its body, and what looking a header up finds
-- in it.
pub mod Match
pub mod Lookup
use slmodem_sip_bridge.Base.{
  ℕ, ◌+◌, ◌*◌, ◌<◌, ◌≤◌, not, ◌&&◌, ◌==◌, is_nil, List, [], ◌∷◌, ◌++◌, Bool, true, false, Option,
  none, some, ltb, leb, if◌then◌else◌, ◌≡◌, ◌≢◌, refl, sym, ap, ◌∙◌, arith, inl, inr, All,
  All-append, Bool-cases, map, append_assoc,
}
use slmodem_sip_bridge.Base.Outcome.{Outcome, ok, bail, panic, ◌>>=◌}
use slmodem_sip_bridge.Sip.Message.{slice, header_matches, find_header, extract_header}
use slmodem_sip_bridge.Text.Ascii.{
  IsAscii, is_ascii, is_ascii-IsAscii, split_at-IsAscii, trim-IsAscii,
}
use slmodem_sip_bridge.Text.Equal.{text_eq_iff}
use slmodem_sip_bridge.Text.Lines.{
  IsLine, is_line, is_line-IsLine, avoids, avoids-All, IsWord, unlines, lines-unlines, trim-cons,
  trim_end-cons, IsLine-append, IsWord-IsLine,
}
use slmodem_sip_bridge.Text.Position.{split_at-len, split_at_sound, len-append}
use slmodem_sip_bridge.Text.Split.{lines}
use slmodem_sip_bridge.Text.{
  Text, codes, len, map_some, split_at, slice_to, slice_from, text_eq, ascii_lower,
  to_ascii_lowercase, eq_ignore_ascii_case, is_whitespace, trim_start_matches, trim_end, trim,
}

-- A header field: its name and its value.
abbrev pub Field : Type 0
Field = Text × Text

-- `Name: value`.
abbrev pub field_line : Field → Text
field_line (name, value) = name ++ b':' ∷ b' ' ∷ value

unfoldable pub render : Text → List Field → Text → Text
render start fields body = unlines (start ∷ (map field_line fields ++ [] ∷ [])) ++ body

-- The first field with a name, whatever its case.
unfoldable pub lookup : Text → List Field → Option Text
lookup name [] = none
lookup name ((n, value) ∷ rest) =
    let later = lookup name rest in if eq_ignore_ascii_case n name then some (trim value) else later

abbrev pub NoColon : Text → Type 0
NoColon = All (λ c. c ≢ b':')

-- A line of ASCII characters.
abbrev pub IsAsciiLine : Text → Type 0
IsAsciiLine t = IsAscii t × IsLine t

-- A name is a word without a colon, a value has a character that is not white space.
abbrev pub IsField : Field → Type 0
IsField (name, value) =
    (name ≢ [])
    × IsAscii name
    × IsWord name
    × NoColon name
    × IsAscii value
    × IsLine value
    × (trim_end (b' ' ∷ value) ≢ [])

-- Lower case.
pub to_ascii_lowercase-append :
    (s t : Text) → to_ascii_lowercase (s ++ t) ≡ to_ascii_lowercase s ++ to_ascii_lowercase t
unfolding to_ascii_lowercase
to_ascii_lowercase-append [] t = refl
to_ascii_lowercase-append (c ∷ s) t = ap (◌∷◌ (ascii_lower c)) (to_ascii_lowercase-append s t)

pub to_ascii_lowercase-NoColon : (s : Text) → NoColon s → NoColon (to_ascii_lowercase s)
unfolding to_ascii_lowercase ascii_lower
to_ascii_lowercase-NoColon [] h = tt
to_ascii_lowercase-NoColon (c ∷ s) (hc, hs) =
    ((λ e. hc (ground arith)), to_ascii_lowercase-NoColon s hs)

pub to_ascii_lowercase-len : (s : Text) → IsAscii s → len (to_ascii_lowercase s) ≡ len s
unfolding to_ascii_lowercase ascii_lower
to_ascii_lowercase-len [] h = refl
to_ascii_lowercase-len (c ∷ s) (hc, hs) = let rest = to_ascii_lowercase-len s hs in ground arith

-- A colon cuts a text in one way if it stands in neither front.
pub colon-inj : (s t s' t' : Text) → NoColon s → NoColon t → s ++ b':' ∷ s' ≡ t ++ b':' ∷ t' → s ≡ t
colon-inj [] [] s' t' hs ht e = refl
colon-inj [] (d ∷ t) s' t' hs ht e = absurd (ht.0 (cc))
colon-inj (c ∷ s) [] s' t' hs ht e = absurd (hs.0 (cc))
colon-inj (c ∷ s) (d ∷ t) s' t' hs ht e = let same = colon-inj s t s' t' hs.1 ht.1 (cc) in cc

pub NoColon-absurd : (s t t' : Text) → NoColon s → s ≢ t ++ b':' ∷ t'
NoColon-absurd [] [] t' h = λ e. cc
NoColon-absurd [] (d ∷ t) t' h = λ e. cc
NoColon-absurd (c ∷ s) [] t' h = λ e. h.0 (cc)
NoColon-absurd (c ∷ s) (d ∷ t) t' h = λ e. NoColon-absurd s t t' h.1 (cc)

-- Literal fields are checked by evaluation.
abbrev pub no_colon : Text → Bool
no_colon s = avoids b':' s

pub no_colon-NoColon : (s : Text) → no_colon s ≡ true → NoColon s
no_colon-NoColon s h = avoids-All b':' s h

abbrev pub is_word : Text → Bool
is_word [] = true
is_word (c ∷ s) = not (is_whitespace c) && is_word s

pub is_word-IsWord : (s : Text) → is_word s ≡ true → IsWord s
is_word-IsWord [] h = tt
is_word-IsWord (c ∷ s) h = (ground arith, is_word-IsWord s (ground arith))

abbrev pub is_field : Text → Text → Bool
is_field name value =
    not (is_nil name)
    && is_ascii name
    && is_word name
    && no_colon name
    && is_ascii value
    && is_line value
    && not (is_nil (trim_end (b' ' ∷ value)))

filled : (s : Text) → not (is_nil s) ≡ true → s ≢ []
filled [] h = absurd (cc)
filled (c ∷ s) h = λ e. cc

and-inv : (a b : Bool) → (a && b) ≡ true → (a ≡ true) × (b ≡ true)
and-inv true b h = (refl, h)
and-inv false b h = absurd (cc)

pub is_field-IsField : (name value : Text) → is_field name value ≡ true → IsField (name, value)
is_field-IsField name value h =
    let (h6, full) = and-inv _ (not (is_nil (trim_end (b' ' ∷ value)))) h in
    let (h5, hl) = and-inv _ (is_line value) h6 in
    let (h4, hv) = and-inv _ (is_ascii value) h5 in
    let (h3, hc) = and-inv _ (no_colon name) h4 in
    let (h2, hw) = and-inv _ (is_word name) h3 in
    let (h1, ha) = and-inv (not (is_nil name)) (is_ascii name) h2 in
    (
      filled name h1,
      is_ascii-IsAscii name ha,
      is_word-IsWord name hw,
      no_colon-NoColon name hc,
      is_ascii-IsAscii value hv,
      is_line-IsLine value hl,
      filled (trim_end (b' ' ∷ value)) full,
    )
