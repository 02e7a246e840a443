-- ===== src/Sip/Message/Total.antt =====
-- The parsing helpers do not panic: `extract_header` and `extract_cseq_num` on ASCII text.
pub mod Slices
use mathlib.Core.Path.{subst}
use slmodem_sip_bridge.Base.{
  ℕ, ◌+◌, ◌≤◌, ◌<◌, List, [], ◌∷◌, ◌++◌, Bool, true, false, Option, none, some, ◌≡◌, refl, sym, ap,
  ◌∙◌, arith, ltb, if◌then◌else◌, is_nil, All, append_assoc, append-nil,
}
use slmodem_sip_bridge.Base.Outcome.{Outcome, ok, bail, panic, ◌>>=◌}
use slmodem_sip_bridge.Sip.Message.{
  slice, header_matches, find_header, extract_header, cseq_number, extract_cseq_num, quoted_value,
  extract_quoted_param, ends_tag, tag_value, extract_tag_param, any_sdp_content_type, body_start,
  body_at, extract_sdp_body,
}
use slmodem_sip_bridge.Text.Ascii.{IsAscii, split_at-IsAscii, trim-IsAscii, lines-IsAscii}
use slmodem_sip_bridge.Text.Position.{split_at-len, len-append, find_sound, find_char_sound}
use slmodem_sip_bridge.Text.Split.{lines}
use slmodem_sip_bridge.Text.{
  Text, codes, len, map_some, split_at, slice_to, slice_from, find, find_char, eq_ignore_ascii_case,
  trim,
}

-- The call returns `Ok`.
pub record Returns {E A : Type 0} (m : Outcome E A) : Type 0 where
  pub value : A
  pub is_ok : m ≡ ok value

pub ok-Returns : {E A : Type 0} (a : A) → Returns {E = E} (ok a)
ok-Returns a = record { value = a; is_ok = refl }

pub bind-Returns :
    {E A B : Type 0} (m : Outcome E A) (f : A → Outcome E B)
    → Returns m
    → ((a : A) → m ≡ ok a → Returns (f a))
    → Returns (m >>= f)
bind-Returns (ok a) f r h = h a refl
bind-Returns (bail e) f r h = absurd (cc r.is_ok)
bind-Returns panic f r h = absurd (cc r.is_ok)

pub if-Returns :
    {E A : Type 0} (test : Bool) (m n : Outcome E A)
    → (test ≡ true → Returns m)
    → (test ≡ false → Returns n)
    → Returns (if test then m else n)
if-Returns true m n yea nay = yea refl
if-Returns false m n yea nay = nay refl

pub slice-Returns :
    {E : Type 0} (piece : Option Text) (s : Text) → piece ≡ some s → Returns (slice {E = E} piece)
slice-Returns none s h = absurd (cc)
slice-Returns (some t) s h = record { value = t; is_ok = refl }

slice_to-Returns :
    {E : Type 0} (s : Text) (n : ℕ) → IsAscii s → n ≤ len s → Returns (slice {E = E} (slice_to s n))
slice_to-Returns s n h le =
    let (a, b, e, _, _) = split_at-IsAscii s n h le in
    slice-Returns (slice_to s n) a (ap (map_some (λ p. p.0)) e)

slice_from-Returns :
    {E : Type 0} (s : Text) (n : ℕ)
    → IsAscii s
    → n ≤ len s
    → Returns (slice {E = E} (slice_from s n))
slice_from-Returns s n h le =
    let (a, b, e, _, _) = split_at-IsAscii s n h le in
    slice-Returns (slice_from s n) b (ap (map_some (λ p. p.1)) e)

header_matches-Returns :
    {E : Type 0} (prefix trimmed : Text)
    → IsAscii trimmed
    → Returns (header_matches {E = E} prefix trimmed)
unfolding header_matches
header_matches-Returns prefix trimmed h =
    if-Returns (ltb (len prefix) (len trimmed)) _ _
      (λ longer.
        bind-Returns (slice (slice_to trimmed (len prefix))) _
          (slice_to-Returns trimmed (len prefix) h (ground arith))
          (λ front _. ok-Returns (eq_ignore_ascii_case front prefix)))
      (λ _. ok-Returns false)

header_matches-longer :
    {E : Type 0} (prefix trimmed : Text)
    → header_matches {E = E} prefix trimmed ≡ ok true
    → len prefix < len trimmed
unfolding header_matches
header_matches-longer {E} prefix trimmed h = go (ltb (len prefix) (len trimmed)) refl h
  where
    go :
        (test : Bool)
        → ltb (len prefix) (len trimmed) ≡ test
        → ◌≡◌ {A = Outcome E Bool}
            (if test
              then slice (slice_to trimmed (len prefix))
                >>= (λ front. ok (eq_ignore_ascii_case front prefix))
              else ok false)
            (ok true)
        → len prefix < len trimmed
    go true e k = ground arith
    go false e k = absurd (cc)

find_header-Returns :
    {E : Type 0} (prefix : Text) (ls : List Text)
    → All IsAscii ls
    → Returns (find_header {E = E} prefix ls)
unfolding find_header
find_header-Returns prefix [] h = ok-Returns none
find_header-Returns {E} prefix (line ∷ rest) (hl, hs) =
    bind-Returns (header_matches prefix (trim line)) _
      (header_matches-Returns prefix (trim line) (trim-IsAscii line hl))
      (λ found e.
        if-Returns found _ _
          (λ yea.
            bind-Returns (slice (slice_from (trim line) (len prefix))) _
              (slice_from-Returns (trim line) (len prefix) (trim-IsAscii line hl)
                (omega (arith, header_matches-longer {E = E} prefix (trim line) (e ∙ ap ok yea))))
              (λ value _. ok-Returns (some (trim value))))
          (λ _. find_header-Returns prefix rest hs))

-- Looking a header up returns, without a panic, in every ASCII message.
pub extract_header-Returns :
    {E : Type 0} (msg name : Text) → IsAscii msg → Returns (extract_header {E = E} msg name)
unfolding extract_header
extract_header-Returns msg name h =
    find_header-Returns (name ++ b':' ∷ []) (lines msg) (lines-IsAscii msg h)

pub extract_cseq_num-Returns :
    {E : Type 0} (msg : Text) → IsAscii msg → Returns (extract_cseq_num {E = E} msg)
unfolding extract_cseq_num
extract_cseq_num-Returns msg h =
    bind-Returns (extract_header msg (codes "CSeq")) _ (extract_header-Returns msg (codes "CSeq") h)
      (λ value _. ok-Returns (cseq_number value))
