-- ===== src/Text/Tests.antt =====
-- Runs of the library operations that the model defines.
use slmodem_sip_bridge.Base.{◌≡◌, refl, [], ◌∷◌}
use slmodem_sip_bridge.Text.Split.{
  lines, splitn, split_whitespace, lines_from, splitn_from, words_from,
}
use slmodem_sip_bridge.Text.Utf8.{from_utf8_lossy, decode_from, decode_byte, first_byte, next_byte}
use slmodem_sip_bridge.Text.{codes, is_whitespace}

lines_of_both_kinds : lines (codes "a\r\n\nb") ≡ codes "a" ∷ [] ∷ codes "b" ∷ []
unfolding lines lines_from
lines_of_both_kinds = refl

splitn_keeps_the_rest : splitn 3 b' ' (codes "a b c d") ≡ codes "a" ∷ codes "b" ∷ codes "c d" ∷ []
unfolding splitn splitn_from
splitn_keeps_the_rest = refl

split_whitespace_words : split_whitespace (codes " a \tb ") ≡ codes "a" ∷ codes "b" ∷ []
unfolding split_whitespace words_from is_whitespace
split_whitespace_words = refl

-- A good character, a cut one and a stray byte.
utf8_lossy :
    from_utf8_lossy (0xc3 ∷ 0xa9 ∷ 0xe2 ∷ 0x82 ∷ 0x41 ∷ 0xff ∷ [])
    ≡ 0xe9 ∷ 0xfffd ∷ 0x41 ∷ 0xfffd ∷ []
unfolding from_utf8_lossy decode_from decode_byte first_byte next_byte
utf8_lossy = refl
