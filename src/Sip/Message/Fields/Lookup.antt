-- ===== src/Sip/Message/Fields/Lookup.antt =====
-- `extract_header` on a message of which the fields are known.
use mathlib.Core.Path.{subst}
use slmodem_sip_bridge.Base.{
  ◌<◌, List, [], ◌∷◌, ◌++◌, true, false, Option, none, some, map, if◌then◌else◌, ◌≡◌, ◌≢◌, refl,
  sym, ap, ◌∙◌, arith, inl, inr, All, All-append, Bool-cases, append_assoc,
}
use slmodem_sip_bridge.Base.Outcome.{Outcome, ok}
use slmodem_sip_bridge.Sip.Message.{header_matches, find_header, extract_header}
use slmodem_sip_bridge.Sip.Message.Fields.{
  Field, field_line, render, lookup, NoColon, IsField, to_ascii_lowercase-len,
}
use slmodem_sip_bridge.Sip.Message.Fields.Match.{
  trim-trim_end, trim-space, trim-field_line, header_matches_cut, header_matches-NoColon,
  header_matches_field, lowered_colon,
}
use slmodem_sip_bridge.Text.Ascii.{IsAscii, trim-All, trim-IsAscii}
use slmodem_sip_bridge.Text.Equal.{text_eq_iff}
use slmodem_sip_bridge.Text.Lines.{IsLine, lines-unlines, IsWord-IsLine, IsLine-append}
use slmodem_sip_bridge.Text.Position.{split_at-len, len-append}
use slmodem_sip_bridge.Text.Split.{lines}
use slmodem_sip_bridge.Text.{
  Text, len, split_at, to_ascii_lowercase, eq_ignore_ascii_case, trim_start_matches, trim_end, trim,
}

-- Names that are equal but for their case are equally long.
same-len :
    (n name : Text)
    → IsAscii n
    → IsAscii name
    → eq_ignore_ascii_case n name ≡ true
    → len n ≡ len name
same-len n name hn hname same =
    sym (to_ascii_lowercase-len n hn)
    ∙ ap len ((text_eq_iff (to_ascii_lowercase n) (to_ascii_lowercase name)).0 same)
    ∙ to_ascii_lowercase-len name hname

colon-same :
    (n name : Text)
    → eq_ignore_ascii_case n name ≡ true
    → eq_ignore_ascii_case (n ++ b':' ∷ []) (name ++ b':' ∷ []) ≡ true
colon-same n name same = (text_eq_iff _ _).1 (
    lowered_colon n []
    ∙ ap (λ t. t ++ b':' ∷ to_ascii_lowercase [])
        ((text_eq_iff (to_ascii_lowercase n) (to_ascii_lowercase name)).0 same)
    ∙ sym (lowered_colon name []))

blank-IsAscii : IsAscii (trim [])
unfolding trim_start_matches trim_end
blank-IsAscii = tt

blank-NoColon : NoColon (trim [])
unfolding trim_start_matches trim_end
blank-NoColon = tt

-- The value of the option, or else what a later search gives.
abbrev pub or_later : {E : Type 0} → Option Text → Outcome E (Option Text) → Outcome E (Option Text)
or_later none later = later
or_later (some v) later = ok (some v)

module _ {E : Type 0} where
  find_header_skip :
      (prefix line : Text) (rest : List Text)
      → header_matches {E = E} prefix (trim line) ≡ ok false
      → find_header {E = E} prefix (line ∷ rest) ≡ find_header prefix rest
  unfolding find_header
  find_header_skip prefix line rest h = rw h refl

  find_header_hit :
      (prefix line front w : Text) (rest : List Text)
      → trim line ≡ front ++ w
      → len front ≡ len prefix
      → header_matches {E = E} prefix (trim line) ≡ ok true
      → find_header {E = E} prefix (line ∷ rest) ≡ ok (some (trim w))
  unfolding find_header
  find_header_hit prefix line front w rest cut e h =
      let piece : split_at (trim line) (len prefix) ≡ some (front, w) =
        ap (λ t. split_at t (len prefix)) cut
        ∙ ap (split_at (front ++ w)) (sym e)
        ∙ split_at-len front w in
      rw (h, piece) refl

  module _ (name : Text) (ascii : IsAscii name) (plain : NoColon name) where
    find_header_field :
        (n value : Text) (rest : List Text)
        → IsField (n, value)
        → find_header {E = E} (name ++ b':' ∷ []) (field_line (n, value) ∷ rest) ≡ (
            if eq_ignore_ascii_case n name
            then ok (some (trim value))
            else find_header (name ++ b':' ∷ []) rest)
    find_header_field n value rest (ne, hn, hw, hc, hv, hl, full) =
        elim (Bool-cases (eq_ignore_ascii_case n name)) [
          | inl same ↦ rw same (hit same)
          | inr differ ↦ rw differ (skip differ)
        ]
      where
        w : Text
        w = trim_end (b' ' ∷ value)

        line : trim (field_line (n, value)) ≡ n ++ b':' ∷ w
        line = trim-field_line n value ne hw

        cut : trim (field_line (n, value)) ≡ (n ++ b':' ∷ []) ++ w
        cut = line ∙ sym (append_assoc n (b':' ∷ []) w)

        whole : IsAscii (field_line (n, value))
        whole =
            All-append (λ c. c < 0x80) n (b':' ∷ b' ' ∷ value) hn (omega arith, (omega arith, hv))

        hit :
            eq_ignore_ascii_case n name ≡ true
            → find_header {E = E} (name ++ b':' ∷ []) (field_line (n, value) ∷ rest)
              ≡ ok (some (trim value))
        hit same =
            let long : len (n ++ b':' ∷ []) ≡ len (name ++ b':' ∷ []) = omega (
              arith,
              len-append n (b':' ∷ []),
              len-append name (b':' ∷ []),
              same-len n name hn ascii same,
            ) in
            find_header_hit (name ++ b':' ∷ []) (field_line (n, value)) (n ++ b':' ∷ []) w rest cut
              long
              (ap (header_matches (name ++ b':' ∷ [])) cut
                ∙ header_matches_cut (name ++ b':' ∷ []) (n ++ b':' ∷ []) w long full
                ∙ ap ok (colon-same n name same))
            ∙ ap (λ v. ok (some v)) (trim-trim_end (b' ' ∷ value) ∙ trim-space value)

        skip :
            eq_ignore_ascii_case n name ≡ false
            → find_header {E = E} (name ++ b':' ∷ []) (field_line (n, value) ∷ rest)
              ≡ find_header (name ++ b':' ∷ []) rest
        skip differ = find_header_skip (name ++ b':' ∷ []) (field_line (n, value)) rest (
            ap (header_matches (name ++ b':' ∷ [])) line
            ∙ header_matches_field name n w plain hc
                (subst IsAscii line (trim-IsAscii (field_line (n, value)) whole)) differ)

    -- Behind the fields stands a blank line.
    find_header_fields :
        (fields : List Field) (rest : List Text)
        → All IsField fields
        → find_header {E = E} (name ++ b':' ∷ []) (map field_line fields ++ [] ∷ rest)
          ≡ or_later (lookup name fields) (find_header (name ++ b':' ∷ []) rest)
    unfolding lookup
    find_header_fields [] rest h =
        find_header_skip (name ++ b':' ∷ []) [] rest
          (header_matches-NoColon name (trim []) blank-IsAscii blank-NoColon)
    find_header_fields ((n, value) ∷ fields) rest (hf, hs) =
        find_header_field n value (map field_line fields ++ [] ∷ rest) hf
        ∙ (elim (Bool-cases (eq_ignore_ascii_case n name)) [
          | inl same ↦ rw same refl
          | inr differ ↦ rw differ (find_header_fields fields rest hs)
        ])

-- A start line has no colon: it is that of a response.
abbrev pub IsStart : Text → Type 0
IsStart start = IsAscii start × IsLine start × NoColon start

field_line-IsLine : (f : Field) → IsField f → IsLine (field_line f)
field_line-IsLine (name, value) (_, _, hw, _, _, hl, _) =
    IsLine-append name (b':' ∷ b' ' ∷ value) (IsWord-IsLine name hw)
      ((λ e. absurd (omega arith)), ((λ e. absurd (omega arith)), hl))

field_lines-IsLine :
    (fields : List Field) → All IsField fields → All IsLine (map field_line fields ++ [] ∷ [])
field_lines-IsLine [] h = (tt, tt)
field_lines-IsLine (f ∷ fields) (hf, hs) = (field_line-IsLine f hf, field_lines-IsLine fields hs)

pub lines-render :
    (start : Text) (fields : List Field) (body : Text)
    → IsStart start
    → All IsField fields
    → lines (render start fields body) ≡ start ∷ (map field_line fields ++ [] ∷ lines body)
unfolding render
lines-render start fields body (_, hl, _) hs =
    lines-unlines (start ∷ (map field_line fields ++ [] ∷ [])) body
      (hl, field_lines-IsLine fields hs)
    ∙ ap (◌∷◌ start) (append_assoc (map field_line fields) ([] ∷ []) (lines body))

-- Looking a header up in a message finds the first field with that name, in any case, and its value
-- without white space around it; only if there is none, what looks like such a header in the body.
-- The name has no colon; the start line, a response's, has none either; the fields are of ASCII
-- characters, each a word without a colon and a value that is not blank.
pub extract_header-render :
    {E : Type 0} (start : Text) (fields : List Field) (body name : Text)
    → IsStart start
    → All IsField fields
    → IsAscii name
    → NoColon name
    → extract_header {E = E} (render start fields body) name
      ≡ or_later (lookup name fields) (extract_header body name)
unfolding extract_header
extract_header-render {E} start fields body name hstart hs ascii plain =
    ap (find_header (name ++ b':' ∷ [])) (lines-render start fields body hstart hs)
    ∙ find_header_skip (name ++ b':' ∷ []) start (map field_line fields ++ [] ∷ lines body) (
        header_matches-NoColon name (trim start) (trim-IsAscii start hstart.0)
          (trim-All (λ c. c ≢ b':') start hstart.2))
    ∙ find_header_fields name ascii plain fields (lines body) hs
