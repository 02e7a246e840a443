-- ===== src/Text/Lines.antt =====
-- What `lines`, `split_whitespace` and `trim` do with texts whose pieces are known: a message that
-- is built line by line is read back line by line.
use slmodem_sip_bridge.Base.{
  ℕ, List, [], ◌∷◌, ◌++◌, Bool, true, false, not, ◌&&◌, ◌==◌, ◌≡◌, ◌≢◌, refl, ap, sym, ◌∙◌, arith,
  append_assoc, append-nil, All, All-append,
}
use slmodem_sip_bridge.Text.{Text, is_whitespace, trim_start_matches, trim_end, trim}
use slmodem_sip_bridge.Text.Number.{IsDigit}
use slmodem_sip_bridge.Text.Split.{strip_cr, lines_from, lines, words_from}

-- No line end in the text.
abbrev pub IsLine : Text → Type 0
IsLine = All (λ c. c ≢ b'\n')

-- No white space in the text.
abbrev pub IsWord : Text → Type 0
IsWord = All (λ c. is_whitespace c ≡ false)

abbrev pub crlf : Text
crlf = b'\r' ∷ b'\n' ∷ []

-- Lines, each behind its `\r\n`.
abbrev pub unlines : List Text → Text
unlines [] = []
unlines (l ∷ ls) = l ++ (b'\r' ∷ b'\n' ∷ unlines ls)

strip_cr-append : (l : Text) → strip_cr (l ++ b'\r' ∷ []) ≡ l
unfolding strip_cr
strip_cr-append [] = refl
strip_cr-append (c ∷ []) = refl
strip_cr-append (c ∷ d ∷ l) = ap (◌∷◌ c) (strip_cr-append (d ∷ l))

lines_from-append : (l cur s : Text) → IsLine l → lines_from cur (l ++ s) ≡ lines_from (cur ++ l) s
unfolding lines_from
lines_from-append [] cur s h = rw append-nil
lines_from-append (c ∷ l) cur s (hc, hl) =
    let other : (c == b'\n') ≡ false = ground arith in
    rw (other, lines_from) (lines_from-append l (cur ++ c ∷ []) s hl ∙ rw append_assoc)

lines_from_end : (cur s : Text) → lines_from cur (b'\r' ∷ b'\n' ∷ s) ≡ cur ∷ lines s
unfolding lines_from lines
lines_from_end cur s = rw strip_cr-append

-- A line in front of a text is the first of its lines.
pub lines_cons : (l s : Text) → IsLine l → lines (l ++ (b'\r' ∷ b'\n' ∷ s)) ≡ l ∷ lines s
unfolding lines
lines_cons l s h = lines_from-append l [] _ h ∙ lines_from_end l s

pub lines-unlines :
    (ls : List Text) (s : Text) → All IsLine ls → lines (unlines ls ++ s) ≡ ls ++ lines s
lines-unlines [] s h = refl
lines-unlines (l ∷ ls) s (hl, hls) =
    rw (append_assoc l (b'\r' ∷ b'\n' ∷ unlines ls) s)
      (lines_cons l (unlines ls ++ s) hl ∙ ap (◌∷◌ l) (lines-unlines ls s hls))

words_from-append :
    (w : Text) (d : ℕ) (cur s : Text)
    → IsWord w
    → words_from (d ∷ cur) (w ++ s) ≡ words_from (d ∷ (cur ++ w)) s
unfolding words_from
words_from-append [] d cur s h = rw append-nil
words_from-append (c ∷ w) d cur s (hc, hw) =
    rw (hc, words_from) (words_from-append w d (cur ++ c ∷ []) s hw ∙ rw append_assoc)

-- A word at the end of a text, behind white space or at its start, is its last word.
pub words_from_word : (c : ℕ) (w : Text) → IsWord (c ∷ w) → words_from [] (c ∷ w) ≡ (c ∷ w) ∷ []
unfolding words_from
words_from_word c w (hc, hw) =
    rw (hc, words_from)
      (ap (words_from (c ∷ [])) (sym (append-nil w)) ∙ words_from-append w c [] [] hw)

-- A word in front of a space.
pub words_from_space :
    (c : ℕ) (w s : Text)
    → IsWord (c ∷ w)
    → words_from [] (c ∷ (w ++ b' ' ∷ s)) ≡ (c ∷ w) ∷ words_from [] s
unfolding words_from is_whitespace
words_from_space c w s (hc, hw) = rw (hc, words_from) (words_from-append w c [] (b' ' ∷ s) hw)

-- A character that is not white space stays where it is.
pub trim_end-cons : (c : ℕ) (s : Text) → is_whitespace c ≡ false → trim_end (c ∷ s) ≡ c ∷ trim_end s
unfolding trim_end
trim_end-cons c s h = ground arith

trim_end-IsWord : (w : Text) → IsWord w → trim_end w ≡ w
trim_end-IsWord [] h = unfold trim_end in refl
trim_end-IsWord (c ∷ w) (hc, hw) = trim_end-cons c w hc ∙ ap (◌∷◌ c) (trim_end-IsWord w hw)

pub trim-cons : (c : ℕ) (s : Text) → is_whitespace c ≡ false → trim (c ∷ s) ≡ c ∷ trim_end s
unfolding trim_start_matches
trim-cons c s h = rw h (trim_end-cons c s h)

-- A text that ends in a word has no white space at its end.
pub trim_end-append :
    (s : Text) (c : ℕ) (w : Text) → IsWord (c ∷ w) → trim_end (s ++ c ∷ w) ≡ s ++ c ∷ w
unfolding trim_end
trim_end-append [] c w h = trim_end-IsWord (c ∷ w) h
trim_end-append (d ∷ []) c w h = rw (trim_end-append [] c w h)
trim_end-append (d ∷ e ∷ s) c w h = rw (trim_end-append (e ∷ s) c w h)

pub trim-append :
    (b : ℕ) (s : Text) (c : ℕ) (w : Text)
    → is_whitespace b ≡ false
    → IsWord (c ∷ w)
    → trim (b ∷ (s ++ c ∷ w)) ≡ b ∷ (s ++ c ∷ w)
unfolding trim_start_matches
trim-append b s c w hb hw = rw hb (trim_end-append (b ∷ s) c w hw)

pub trim-word : (c : ℕ) (w : Text) → IsWord (c ∷ w) → trim (c ∷ w) ≡ c ∷ w
unfolding trim_start_matches
trim-word c w h = rw h.0 (trim_end-IsWord (c ∷ w) h)

-- Digits are neither white space nor line ends.
pub IsDigit-IsWord : (s : Text) → All IsDigit s → IsWord s
unfolding is_whitespace
IsDigit-IsWord [] h = tt
IsDigit-IsWord (c ∷ s) (hc, hs) = (ground arith, IsDigit-IsWord s hs)

pub IsWord-IsLine : (s : Text) → IsWord s → IsLine s
unfolding is_whitespace
IsWord-IsLine [] h = tt
IsWord-IsLine (c ∷ s) (hc, hs) = (ground arith, IsWord-IsLine s hs)

-- Literal texts are checked by evaluation: no character of the text is the one that is avoided.
abbrev pub avoids : ℕ → Text → Bool
avoids d [] = true
avoids d (c ∷ s) = not (c == d) && avoids d s

pub avoids-All : (d : ℕ) (s : Text) → avoids d s ≡ true → All (λ c. c ≢ d) s
avoids-All d [] h = tt
avoids-All d (c ∷ s) h = ground (arith, avoids-All d s)

abbrev pub is_line : Text → Bool
is_line s = avoids b'\n' s

pub is_line-IsLine : (s : Text) → is_line s ≡ true → IsLine s
is_line-IsLine s h = avoids-All b'\n' s h

pub IsLine-append : (s t : Text) → IsLine s → IsLine t → IsLine (s ++ t)
IsLine-append s t = All-append _ s t
