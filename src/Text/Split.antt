-- ===== src/Text/Split.antt =====
-- `lines`, `split_whitespace` and `splitn`.
use slmodem_sip_bridge.Base.{ℕ, zero, suc, List, [], ◌∷◌, ◌++◌, true, false, ◌==◌, if◌then◌else◌}
use slmodem_sip_bridge.Text.{Text, is_whitespace}

-- The text of a line without its `\r`, if it ends in one.
unfoldable pub strip_cr : Text → Text
strip_cr [] = []
strip_cr (c ∷ []) = if c == b'\r' then [] else c ∷ []
strip_cr (c ∷ d ∷ s) = c ∷ strip_cr (d ∷ s)

-- `str::lines`: a line ends at `\n` or `\r\n`. The last line needs no end; then it keeps a `\r`.
unfoldable pub lines_from : Text → Text → List Text
unfolding strip_cr
lines_from [] [] = []
lines_from (c ∷ line) [] = (c ∷ line) ∷ []
lines_from line (c ∷ s) = elim (c == b'\n') [
  | true ↦ strip_cr line ∷ lines_from [] s
  | false ↦ lines_from (line ++ c ∷ []) s
]

unfoldable pub lines : Text → List Text
unfolding lines_from
lines s = lines_from [] s

-- `str::split_whitespace`: the longest runs of other characters.
unfoldable pub words_from : Text → Text → List Text
words_from [] [] = []
words_from (c ∷ word) [] = (c ∷ word) ∷ []
words_from [] (c ∷ s) = elim (is_whitespace c) [
  | true ↦ words_from [] s
  | false ↦ words_from (c ∷ []) s
]
words_from (d ∷ word) (c ∷ s) = elim (is_whitespace c) [
  | true ↦ (d ∷ word) ∷ words_from [] s
  | false ↦ words_from (d ∷ (word ++ c ∷ [])) s
]

unfoldable pub split_whitespace : Text → List Text
unfolding words_from
split_whitespace s = words_from [] s

-- `str::splitn(n, sep)` for a character: at most n pieces, the last with the rest of the text.
unfoldable pub splitn_from : ℕ → ℕ → Text → Text → List Text
splitn_from zero sep piece s = (piece ++ s) ∷ []
splitn_from (suc n) sep piece [] = piece ∷ []
splitn_from (suc n) sep piece (c ∷ s) = elim (c == sep) [
  | true ↦ piece ∷ splitn_from n sep [] s
  | false ↦ splitn_from (suc n) sep (piece ++ c ∷ []) s
]

unfoldable pub splitn : ℕ → ℕ → Text → List Text
unfolding splitn_from
splitn zero sep s = []
splitn (suc n) sep s = splitn_from n sep [] s
