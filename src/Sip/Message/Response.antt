-- ===== src/Sip/Message/Response.antt =====
-- What the client reads from a response that is well formed: its status, its CSeq and its tag.
pub mod Body
pub mod Shape
use mathlib.Core.Path.{subst}
use slmodem_sip_bridge.Base.{
  ℕ, zero, suc, ◌+◌, ◌^◌, ◌<◌, ◌≤◌, not, ◌&&◌, ◌||◌, ◌==◌, is_nil, List, [], ◌∷◌, ◌++◌, Bool, true,
  false, Option, none, some, leb, if◌then◌else◌, ◌≡◌, ◌≢◌, refl, sym, ap, ◌∙◌, arith, inl, inr, All,
  Bool-cases, append_assoc, append-nil, map,
}
use slmodem_sip_bridge.Base.Outcome.{Outcome, ok, ◌>>=◌}
use slmodem_sip_bridge.Sip.Message.{
  slice, status_piece, status_line, parse_status_code, cseq_number, extract_cseq_num,
  extract_header, ends_tag, tag_value, extract_tag_param,
}
use slmodem_sip_bridge.Sip.Message.Fields.{Field, field_line, render, lookup, NoColon, IsField}
use slmodem_sip_bridge.Sip.Message.Fields.Lookup.{
  IsStart, lines-render, or_later, extract_header-render,
}
use slmodem_sip_bridge.Text.Lines.{avoids-All, IsWord, words_from_space, IsDigit-IsWord, trim-word}
use slmodem_sip_bridge.Text.Number.{IsDigit, show, show-Digits, parse, parse-show, u16_max, u32_max}
use slmodem_sip_bridge.Text.Position.{
  strip_prefix_lem, strip_prefix-append, split_at-len, find_char-none, len-append,
}
use slmodem_sip_bridge.Text.Split.{lines, splitn_from, splitn, split_whitespace, words_from}
use slmodem_sip_bridge.Text.{
  Text, codes, len_utf8, len, map_some, slice_to, slice_from, split_at, strip_prefix, starts_with,
  find, find_char, is_whitespace, trim,
}

-- `SIP/2.0 200 OK`.
unfoldable pub response_line : ℕ → Text → Text
response_line status reason = codes "SIP/2.0 " ++ (show status ++ b' ' ∷ reason)

splitn_from-append :
    (n sep : ℕ) (piece w s : Text)
    → All (λ c. c ≢ sep) w
    → splitn_from (suc n) sep piece (w ++ sep ∷ s) ≡ (piece ++ w) ∷ splitn_from n sep [] s
unfolding splitn_from
splitn_from-append n sep piece [] s h =
    let hit : (sep == sep) ≡ true = ground arith in rw (hit, append-nil piece, splitn_from) refl
splitn_from-append n sep piece (c ∷ w) s (hc, hw) =
    let other : (c == sep) ≡ false = ground arith in
    rw (other, splitn_from)
      (splitn_from-append n sep (piece ++ c ∷ []) w s hw
        ∙ ap (λ p. p ∷ splitn_from n sep [] s) (append_assoc piece (c ∷ []) w))

IsDigit-NoSpace : (s : Text) → All IsDigit s → All (λ c. c ≢ b' ') s
IsDigit-NoSpace [] h = tt
IsDigit-NoSpace (c ∷ s) (hc, hs) = ((λ e. absurd (omega arith)), IsDigit-NoSpace s hs)

show-NoSpace : (n : ℕ) → All (λ c. c ≢ b' ') (show n)
show-NoSpace n = let (d, ds, e, all) = show-Digits n in rw e (IsDigit-NoSpace (d ∷ ds) all)

sip_no_space : All (λ c. c ≢ b' ') (codes "SIP/2.0")
sip_no_space = avoids-All b' ' (codes "SIP/2.0") refl

response_line-splitn :
    (status : ℕ) (reason : Text)
    → splitn 3 b' ' (response_line status reason)
      ≡ codes "SIP/2.0" ∷ (show status ∷ (splitn_from zero b' ' [] reason))
unfolding splitn response_line
response_line-splitn status reason =
    splitn_from-append 1 b' ' [] (codes "SIP/2.0") (show status ++ b' ' ∷ reason) sip_no_space
    ∙ ap (λ ps. codes "SIP/2.0" ∷ ps)
        (splitn_from-append zero b' ' [] (show status) reason (show-NoSpace status))

pub status_line-response_line :
    (status : ℕ) (reason : Text) (rest : List Text)
    → status ≤ 65535
    → status_line (response_line status reason ∷ rest) ≡ some status
unfolding status_line status_piece strip_prefix response_line
status_line-response_line status reason rest le =
    rw (response_line-splitn status reason) (parse-show status u16_max (omega arith) (omega arith))

-- The number in front of a CSeq value.
pub cseq_number-show :
    (n : ℕ) (method : Text) → n ≤ u32_max → cseq_number (some (show n ++ b' ' ∷ method)) ≡ some n
unfolding cseq_number split_whitespace
cseq_number-show n method le =
    let (d, ds, e, all) = show-Digits n in
    let first : words_from [] (show n ++ b' ' ∷ method) ≡ show n ∷ words_from [] method =
      ap (λ t. words_from [] (t ++ b' ' ∷ method)) e
      ∙ words_from_space d ds method (IsDigit-IsWord (d ∷ ds) all)
      ∙ ap (λ t. t ∷ words_from [] method) (sym e) in
    rw (first, cseq_number) (parse-show n u32_max (omega arith) le)

abbrev pub NoEquals : Text → Type 0
NoEquals = All (λ c. c ≢ b'=')

-- No match of `tag=` starts in front of the first `=` but at its own place.
not_tag :
    (c : ℕ) (s t : Text)
    → NoEquals (c ∷ s)
    → strip_prefix ((c ∷ s) ++ (codes "tag=" ++ t)) (codes "tag=") ≡ none
unfolding strip_prefix
not_tag c [] t h = ground arith
not_tag c (d ∷ []) t h = ground arith
not_tag c (d ∷ e ∷ []) t h = ground arith
not_tag c (d ∷ e ∷ f ∷ s) t (_, (_, (_, (hf, _)))) = ground arith

pub find_cons :
    (c : ℕ) (s p : Text)
    → strip_prefix (c ∷ s) p ≡ none
    → find (c ∷ s) p ≡ map_some (λ n. len_utf8 c + n) (find s p)
unfolding find
find_cons c s p h = ground arith

pub find_here : (p s : Text) → find (p ++ s) p ≡ some 0
unfolding find
find_here [] [] = unfold strip_prefix in refl
find_here [] (c ∷ s) = unfold strip_prefix in refl
find_here (c ∷ p) s = ground (arith, strip_prefix-append (c ∷ p) s)

find_tag :
    (front tag : Text)
    → NoEquals front
    → find (front ++ (codes "tag=" ++ tag)) (codes "tag=") ≡ some (len front)
find_tag [] tag h = find_here (codes "tag=") tag
find_tag (c ∷ front) tag h =
    find_cons c (front ++ (codes "tag=" ++ tag)) (codes "tag=") (not_tag c front tag h)
    ∙ ap (map_some (λ n. len_utf8 c + n)) (find_tag front tag h.1)

-- A tag: no white space, and nothing that ends it.
abbrev pub IsTag : Text → Type 0
IsTag tag = (tag ≢ []) × IsWord tag × All (λ c. ends_tag c ≡ false) tag

tag_value-IsTag : {E : Type 0} (tag : Text) → IsTag tag → tag_value {E = E} tag ≡ ok (some tag)
unfolding tag_value
tag_value-IsTag [] (ne, _, _) = absurd (ne refl)
tag_value-IsTag (c ∷ tag) (_, hw, ht) =
    let whole : split_at (c ∷ tag) (len (c ∷ tag)) ≡ some (c ∷ tag, []) =
      ap (λ t. split_at t (len (c ∷ tag))) (sym (append-nil (c ∷ tag)))
      ∙ split_at-len (c ∷ tag) [] in
    rw (find_char-none ends_tag (c ∷ tag) ht, whole, trim-word c tag hw) refl

-- The tag behind a text without `=`.
pub extract_tag_param_lem :
    {E : Type 0} (front tag : Text)
    → NoEquals front
    → IsTag tag
    → extract_tag_param {E = E} (front ++ (codes "tag=" ++ tag)) ≡ ok (some tag)
unfolding extract_tag_param
extract_tag_param_lem front tag h ht =
    let text = front ++ (codes "tag=" ++ tag) in
    let cut : split_at text (len front + 4) ≡ some (front ++ codes "tag=", tag) =
      ap (λ t. split_at t (len front + 4)) (sym (append_assoc front (codes "tag=") tag))
      ∙ ap (split_at ((front ++ codes "tag=") ++ tag)) (sym (len-append front (codes "tag=")))
      ∙ split_at-len (front ++ codes "tag=") tag in
    rw (find_tag front tag h, cut, extract_tag_param) (tag_value-IsTag tag ht)
