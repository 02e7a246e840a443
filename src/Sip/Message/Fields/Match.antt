-- ===== src/Sip/Message/Fields/Match.antt =====
-- Which lines of an ASCII message `extract_header` takes for a header.
use mathlib.Core.Path.{subst}
use slmodem_sip_bridge.Base.{
  ℕ, [], ◌∷◌, ◌++◌, Bool, true, false, some, ltb, is_nil, ◌&&◌, ◌≡◌, ◌≢◌, refl, sym, ap, ◌∙◌, arith,
  inl, inr, ◌⊎◌, Bool-cases, append_assoc,
}
use slmodem_sip_bridge.Base.Outcome.{ok}
use slmodem_sip_bridge.Sip.Message.{header_matches}
use slmodem_sip_bridge.Sip.Message.Fields.{
  field_line, NoColon, to_ascii_lowercase-append, to_ascii_lowercase-NoColon, colon-inj,
  NoColon-absurd,
}
use slmodem_sip_bridge.Text.Ascii.{IsAscii, split_at-IsAscii}
use slmodem_sip_bridge.Text.Equal.{text_eq_iff}
use slmodem_sip_bridge.Text.Lines.{IsWord, trim-cons, trim_end-cons}
use slmodem_sip_bridge.Text.Position.{split_at-len, split_at_sound, len-append, len_utf8_pos}
use slmodem_sip_bridge.Text.{
  Text, len, split_at, ascii_lower, to_ascii_lowercase, eq_ignore_ascii_case, is_whitespace,
  trim_start_matches, trim_end, trim,
}

not_true : (b : Bool) → b ≢ true → b ≡ false
not_true true h = absurd (h refl)
not_true false h = refl

-- `trim` does not see what `trim_end` takes away.
trim_end-trim_end : (s : Text) → trim_end (trim_end s) ≡ trim_end s
unfolding trim_end
trim_end-trim_end [] = refl
trim_end-trim_end (c ∷ s) = elim (Bool-cases (is_nil (trim_end s) && is_whitespace c)) [
  | inl gone ↦ rw gone refl
  | inr kept ↦ rw (kept, trim_end-trim_end s, kept) refl
]

trim_white : (c : ℕ) (s : Text) → is_whitespace c ≡ true → trim (c ∷ s) ≡ trim s
unfolding trim_start_matches
trim_white c s h = rw h refl

trim_end_gone :
    (c : ℕ) (s : Text) → is_whitespace c ≡ true → trim_end s ≡ [] → trim_end (c ∷ s) ≡ []
unfolding trim_end
trim_end_gone c s h e = rw (e, h) refl

trim_end_kept :
    (c : ℕ) (s : Text) (d : ℕ) (t : Text) → trim_end s ≡ d ∷ t → trim_end (c ∷ s) ≡ c ∷ trim_end s
unfolding trim_end
trim_end_kept c s d t e = rw e refl

nil-cases : (s : Text) → (s ≡ []) ⊎ ((c : ℕ) × (t : Text) × (s ≡ c ∷ t))
nil-cases [] = inl refl
nil-cases (c ∷ t) = inr (c, t, refl)

pub trim-trim_end : (s : Text) → trim (trim_end s) ≡ trim s
trim-trim_end [] = unfold trim_end in refl
trim-trim_end (c ∷ s) = elim (Bool-cases (is_whitespace c)) [
  | inl white ↦ elim (nil-cases (trim_end s)) [
    | inl gone ↦
        ap trim (trim_end_gone c s white gone ∙ sym gone)
        ∙ trim-trim_end s
        ∙ sym (trim_white c s white)
    | inr (d, t, kept) ↦
        ap trim (trim_end_kept c s d t kept)
        ∙ trim_white c (trim_end s) white
        ∙ trim-trim_end s
        ∙ sym (trim_white c s white)
  ]
  | inr black ↦
      ap trim (trim_end-cons c s black)
      ∙ trim-cons c (trim_end s) black
      ∙ ap (◌∷◌ c) (trim_end-trim_end s)
      ∙ sym (trim-cons c s black)
]

pub trim-space : (s : Text) → trim (b' ' ∷ s) ≡ trim s
unfolding trim_start_matches is_whitespace
trim-space s = refl

trim_end-word : (w s : Text) → IsWord w → trim_end (w ++ s) ≡ w ++ trim_end s
trim_end-word [] s h = refl
trim_end-word (c ∷ w) s (hc, hw) = trim_end-cons c (w ++ s) hc ∙ ap (◌∷◌ c) (trim_end-word w s hw)

-- A field's line keeps its name, and the colon.
pub trim-field_line :
    (name value : Text)
    → name ≢ []
    → IsWord name
    → trim (field_line (name, value)) ≡ name ++ b':' ∷ trim_end (b' ' ∷ value)
unfolding is_whitespace
trim-field_line [] value ne h = absurd (ne refl)
trim-field_line (c ∷ name) value ne (hc, hs) =
    trim-cons c (name ++ b':' ∷ b' ' ∷ value) hc
    ∙ ap (◌∷◌ c) (
        trim_end-word name (b':' ∷ b' ' ∷ value) hs
        ∙ ap (λ t. name ++ t) (trim_end-cons b':' (b' ' ∷ value) refl))

All-front : (s t : Text) → NoColon (s ++ t) → NoColon s
All-front [] t h = tt
All-front (c ∷ s) t (hc, hs) = (hc, All-front s t hs)

pub lowered_colon :
    (s t : Text)
    → to_ascii_lowercase (s ++ b':' ∷ t) ≡ to_ascii_lowercase s ++ b':' ∷ to_ascii_lowercase t
unfolding to_ascii_lowercase ascii_lower
lowered_colon s t = to_ascii_lowercase-append s (b':' ∷ t) ∙ refl

lowered :
    (front name : Text)
    → eq_ignore_ascii_case front (name ++ b':' ∷ []) ≡ true
    → to_ascii_lowercase front ≡ to_ascii_lowercase name ++ b':' ∷ []
lowered front name matched =
    (text_eq_iff (to_ascii_lowercase front) (to_ascii_lowercase (name ++ b':' ∷ []))).0 matched
    ∙ lowered_colon name []
    ∙ unfold to_ascii_lowercase in refl

module _ {E : Type 0} where
  -- The front of a line is as long as the prefix, and there is more.
  pub header_matches_cut :
      (prefix front rest : Text)
      → len front ≡ len prefix
      → rest ≢ []
      → header_matches {E = E} prefix (front ++ rest) ≡ ok (eq_ignore_ascii_case front prefix)
  unfolding header_matches
  header_matches_cut prefix front [] e ne = absurd (ne refl)
  header_matches_cut prefix front (c ∷ rest) e ne =
      let longer : ltb (len prefix) (len (front ++ c ∷ rest)) ≡ true =
        ground (arith, len-append front (c ∷ rest), len_utf8_pos c) in
      let cut : split_at (front ++ c ∷ rest) (len prefix) ≡ some (front, c ∷ rest) =
        ap (split_at (front ++ c ∷ rest)) (sym e) ∙ split_at-len front (c ∷ rest) in
      rw (longer, cut) refl

  -- No front of a line is the prefix.
  header_matches_other :
      (prefix trimmed : Text)
      → IsAscii trimmed
      → ((front rest : Text) → trimmed ≡ front ++ rest → eq_ignore_ascii_case front prefix ≡ false)
      → header_matches {E = E} prefix trimmed ≡ ok false
  unfolding header_matches
  header_matches_other prefix trimmed h other = elim (Bool-cases (ltb (len prefix) (len trimmed))) [
    | inr short ↦ rw short refl
    | inl longer ↦
        let (front, rest, cut, _, _) = split_at-IsAscii trimmed (len prefix) h (ground arith) in
        rw (longer, cut)
          (ap ok (other front rest (split_at_sound trimmed (len prefix) (front, rest) cut)))
  ]

  -- A line without a colon is no header.
  pub header_matches-NoColon :
      (name trimmed : Text)
      → IsAscii trimmed
      → NoColon trimmed
      → header_matches {E = E} (name ++ b':' ∷ []) trimmed ≡ ok false
  header_matches-NoColon name trimmed h plain =
      header_matches_other (name ++ b':' ∷ []) trimmed h (λ front rest e.
        not_true (eq_ignore_ascii_case front (name ++ b':' ∷ [])) (λ matched.
          NoColon-absurd (to_ascii_lowercase front) (to_ascii_lowercase name) []
            (to_ascii_lowercase-NoColon front (All-front front rest (subst NoColon e plain)))
            (lowered front name matched)))

  -- A field with another name.
  pub header_matches_field :
      (name n w : Text)
      → NoColon name
      → NoColon n
      → IsAscii (n ++ b':' ∷ w)
      → eq_ignore_ascii_case n name ≡ false
      → header_matches {E = E} (name ++ b':' ∷ []) (n ++ b':' ∷ w) ≡ ok false
  header_matches_field name n w hname hn h differ =
      header_matches_other (name ++ b':' ∷ []) (n ++ b':' ∷ w) h (λ front rest e.
        not_true (eq_ignore_ascii_case front (name ++ b':' ∷ [])) (λ matched.
          let same : to_ascii_lowercase n ≡ to_ascii_lowercase name =
            colon-inj (to_ascii_lowercase n) (to_ascii_lowercase name) (to_ascii_lowercase w)
              (to_ascii_lowercase rest) (to_ascii_lowercase-NoColon n hn)
              (to_ascii_lowercase-NoColon name hname)
              (sym (lowered_colon n w)
                ∙ ap to_ascii_lowercase e
                ∙ to_ascii_lowercase-append front rest
                ∙ ap (λ t. t ++ to_ascii_lowercase rest) (lowered front name matched)
                ∙ append_assoc (to_ascii_lowercase name) (b':' ∷ []) (to_ascii_lowercase rest)) in
          let both : true ≡ false =
            sym ((text_eq_iff (to_ascii_lowercase n) (to_ascii_lowercase name)).1 same) ∙ differ in
          cc))
