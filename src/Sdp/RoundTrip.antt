-- ===== src/Sdp/RoundTrip.antt =====
-- `parse_answer` reads back the endpoint that `build_offer` writes.
use slmodem_sip_bridge.Base.{
  ℕ, ◌≤◌, ◌<◌, List, [], ◌∷◌, ◌++◌, true, false, some, ◌≡◌, ◌≢◌, refl, ap, sym, ◌∙◌, arith, All,
  append_assoc, append-nil, lt→ltb,
}
use slmodem_sip_bridge.Base.Outcome.{ok}
use slmodem_sip_bridge.Net.Shown.{show_ip}
use slmodem_sip_bridge.Net.Word.{IsIpAddr, show_ip-IsToken, show-IsWord}
use slmodem_sip_bridge.Net.{IpAddr, v4, v6, parse_ip}
use slmodem_sip_bridge.Sdp.{
  ip_ver, offer_lines, build_offer, AnswerState, connection_line, audio_words, audio_line,
  answer_line, answer_lines, finish_answer, initial, parse_answer,
}
use slmodem_sip_bridge.Text.Lines.{
  IsLine, IsWord, unlines, lines-unlines, trim-append, trim-cons, words_from_word, words_from_space,
  IsWord-IsLine, IsDigit-IsWord, IsLine-append, is_line, is_line-IsLine,
}
use slmodem_sip_bridge.Text.Number.{show, show-Digits, parse, parse-show, u16_max}
use slmodem_sip_bridge.Text.Split.{lines, split_whitespace, words_from}
use slmodem_sip_bridge.Text.{Text, codes, is_whitespace, trim, strip_prefix, text_eq}

-- A line that begins with neither `c` nor `m` is skipped.
answer_line_other :
    (c : ℕ) (s : Text) (st : AnswerState)
    → is_whitespace c ≡ false
    → c ≢ b'c'
    → c ≢ b'm'
    → answer_line (trim (c ∷ s)) st ≡ ok st
unfolding answer_line strip_prefix connection_line audio_line
answer_line_other c s st h hc hm = rw (trim-cons c s h) (ground arith)

-- The `c=` line of the offer.
connection_parts :
    (ip : IpAddr) (c : ℕ) (w : Text)
    → IsWord (c ∷ w)
    → split_whitespace (codes "IN " ++ (ip_ver ip ++ (b' ' ∷ c ∷ w)))
      ≡ codes "IN" ∷ ip_ver ip ∷ (c ∷ w) ∷ []
unfolding split_whitespace ip_ver is_whitespace
connection_parts (v4 a b d e) c w h = ap (λ t. codes "IN" ∷ codes "IP4" ∷ t) (words_from_word c w h)
connection_parts (v6 s) c w h = ap (λ t. codes "IN" ∷ codes "IP6" ∷ t) (words_from_word c w h)

connection_trim :
    (ip : IpAddr) (c : ℕ) (w : Text)
    → IsWord (c ∷ w)
    → trim (codes "c=IN " ++ (ip_ver ip ++ (b' ' ∷ c ∷ w)))
      ≡ codes "c=IN " ++ (ip_ver ip ++ (b' ' ∷ c ∷ w))
unfolding ip_ver is_whitespace
connection_trim (v4 a b d e) c w h = trim-append b'c' (codes "=IN IP4 ") c w refl h
connection_trim (v6 s) c w h = trim-append b'c' (codes "=IN IP6 ") c w refl h

connection_line_words :
    (rest a b text : Text) (ip : IpAddr) (st : AnswerState)
    → split_whitespace rest ≡ a ∷ b ∷ text ∷ []
    → parse_ip text ≡ some ip
    → connection_line (some rest) st ≡ record st { connection_addr = some ip }
unfolding connection_line
connection_line_words rest a b text ip st words parsed = ground arith

-- The `c=` line of an offer gives its address.
answer_line_connection :
    (ip : IpAddr) (st : AnswerState)
    → IsIpAddr ip
    → parse_ip (show_ip ip) ≡ some ip
    → answer_line (trim (codes "c=IN " ++ (ip_ver ip ++ (b' ' ∷ show_ip ip)))) st
      ≡ ok (record st { connection_addr = some ip })
unfolding answer_line strip_prefix audio_line
answer_line_connection ip st valid back =
    let (c, w, e, h) = show_ip-IsToken ip valid in
    let parsed : parse_ip (c ∷ w) ≡ some ip = rw e at back in
    rw (e, connection_trim ip c w h)
      (ap ok (
        connection_line_words _ (codes "IN") (ip_ver ip) (c ∷ w) ip st (connection_parts ip c w h)
          parsed))

audio_words_of_offer :
    (c : ℕ) (w : Text)
    → IsWord (c ∷ w)
    → split_whitespace (c ∷ (w ++ codes " RTP/AVP 0")) ≡ (c ∷ w) ∷ codes "RTP/AVP" ∷ codes "0" ∷ []
unfolding split_whitespace
audio_words_of_offer c w h =
    words_from_space c w (codes "RTP/AVP 0") h
    ∙ ap (◌∷◌ (c ∷ w)) (unfold words_from is_whitespace in refl)

audio_words_port :
    (text proto : Text) (port : ℕ) (st : AnswerState)
    → parse u16_max text ≡ some port
    → audio_words (text ∷ proto ∷ codes "0" ∷ []) st
      ≡ ok (record st { media_port = some port; has_audio_line = true })
unfolding audio_words text_eq
audio_words_port text proto port st parsed = rw parsed

-- The `m=` line of an offer gives its port.
answer_line_audio :
    (port : ℕ) (st : AnswerState)
    → port ≤ u16_max
    → answer_line (trim (codes "m=audio " ++ (show port ++ codes " RTP/AVP 0"))) st
      ≡ ok (record st { media_port = some port; has_audio_line = true })
unfolding answer_line strip_prefix connection_line audio_line audio_words
answer_line_audio port st le =
    let (d, ds, e, all) = show-Digits port in
    let word : IsWord (d ∷ ds) = IsDigit-IsWord (d ∷ ds) all in
    let parsed : parse u16_max (d ∷ ds) ≡ some port =
      rw e at (parse-show port u16_max (omega arith) le) in
    let white : is_whitespace b'm' ≡ false = unfold is_whitespace in refl in
    let zero_word : IsWord (codes "0") = (unfold is_whitespace in refl, tt) in
    let trimmed : trim (codes "m=audio " ++ ((d ∷ ds) ++ codes " RTP/AVP 0"))
        ≡ codes "m=audio " ++ ((d ∷ ds) ++ codes " RTP/AVP 0") =
      rw (← append_assoc (d ∷ ds) (codes " RTP/AVP ") (codes "0")) (
        trim-append b'm' (codes "=audio " ++ (d ∷ ds ++ codes " RTP/AVP ")) b'0' [] white
          zero_word) in
    rw (e, trimmed)
      (ap (λ ws. audio_words ws st) (audio_words_of_offer d ds word)
        ∙ audio_words_port (d ∷ ds) (codes "RTP/AVP") port st parsed)

answer_lines_step :
    (line : Text) (rest : List Text) (st st' : AnswerState)
    → answer_line (trim line) st ≡ ok st'
    → answer_lines (line ∷ rest) st ≡ answer_lines rest st'
unfolding answer_lines
answer_lines_step line rest st st' h = rw h

-- A line of the offer that `parse_answer` skips.
skip :
    (c : ℕ) (s : Text) (rest : List Text) (st : AnswerState)
    → is_whitespace c ≡ false
    → c ≢ b'c'
    → c ≢ b'm'
    → answer_lines ((c ∷ s) ∷ rest) st ≡ answer_lines rest st
skip c s rest st h hc hm = answer_lines_step (c ∷ s) rest st st (answer_line_other c s st h hc hm)

literal : (s t : Text) → is_line s ≡ true → IsLine t → IsLine (s ++ t)
literal s t h = IsLine-append s t (is_line-IsLine s h)

shown : (n : ℕ) (t : Text) → IsLine t → IsLine (show n ++ t)
shown n t = IsLine-append (show n) t (IsWord-IsLine (show n) (show-IsWord n))

ip_text-IsLine : (ip : IpAddr) → IsIpAddr ip → IsLine (ip_ver ip ++ (b' ' ∷ show_ip ip))
unfolding ip_ver
ip_text-IsLine ip valid =
    IsLine-append (ip_ver ip) (b' ' ∷ show_ip ip) (ver ip) (literal (codes " ") _ refl address)
  where
    ver : (ip : IpAddr) → IsLine (ip_ver ip)
    ver (v4 a b c d) = is_line-IsLine (codes "IP4") refl
    ver (v6 s) = is_line-IsLine (codes "IP6") refl

    address : IsLine (show_ip ip)
    address = let (c, w, e, h) = show_ip-IsToken ip valid in rw e (IsWord-IsLine (c ∷ w) h)

module _ (ip : IpAddr) (port session_id : ℕ) (valid : IsIpAddr ip) where
  offer_lines-IsLine : All IsLine (offer_lines ip port session_id)
  unfolding offer_lines
  offer_lines-IsLine =
      let address = ip_text-IsLine ip valid in
      (
        literal (codes "v=") _ refl (IsWord-IsLine _ (show-IsWord 0)),
        (
          literal (codes "o=slmodem-sip-bridge ") _ refl (
              shown session_id _ (
                literal (codes " ") _ refl
                  (shown session_id _ (literal (codes " IN ") _ refl address)))),
          (
            is_line-IsLine (codes "s=slmodem-sip-bridge") refl,
            (
              literal (codes "c=IN ") _ refl address,
              (
                is_line-IsLine (codes "t=0 0") refl,
                (
                  literal (codes "m=audio ") _ refl
                      (shown port _ (is_line-IsLine (codes " RTP/AVP 0") refl)),
                  (
                    is_line-IsLine (codes "a=rtpmap:0 PCMU/8000") refl,
                    (
                      literal (codes "a=ptime:") _ refl (IsWord-IsLine _ (show-IsWord 20)),
                      (is_line-IsLine (codes "a=sendrecv") refl, tt),
                    ),
                  ),
                ),
              ),
            ),
          ),
        ),
      )

  offer_lines_answer :
      port ≤ u16_max
      → parse_ip (show_ip ip) ≡ some ip
      → answer_lines (offer_lines ip port session_id) initial
        ≡ ok (record { connection_addr = some ip; media_port = some port; has_audio_line = true })
  unfolding offer_lines is_whitespace
  offer_lines_answer le back =
      let connected : AnswerState = record initial { connection_addr = some ip } in
      let done : AnswerState = record {
        connection_addr = some ip;
        media_port = some port;
        has_audio_line = true;
      } in
      skip b'v' _ _ initial refl (omega arith) (omega arith)
      ∙ skip b'o' _ _ initial refl (omega arith) (omega arith)
      ∙ skip b's' _ _ initial refl (omega arith) (omega arith)
      ∙ answer_lines_step _ _ initial connected (answer_line_connection ip initial valid back)
      ∙ skip b't' _ _ connected refl (omega arith) (omega arith)
      ∙ answer_lines_step _ _ connected done (answer_line_audio port connected le)
      ∙ skip b'a' _ _ done refl (omega arith) (omega arith)
      ∙ skip b'a' _ _ done refl (omega arith) (omega arith)
      ∙ skip b'a' _ _ done refl (omega arith) (omega arith)
      ∙ unfold answer_lines in refl

-- The offer for a valid address and a port that is not 0 is built without a panic, and
-- `parse_answer` reads that address and port back from it, if the address is read back from its
-- text.
pub parse_answer-build_offer :
    {E : Type 0} (ip : IpAddr) (port session_id : ℕ)
    → IsIpAddr ip
    → parse_ip (show_ip ip) ≡ some ip
    → 0 < port
    → port ≤ u16_max
    → (sdp : Text) × (build_offer {E = E} ip port session_id ≡ ok sdp)
      × (parse_answer sdp ≡ ok (record { addr = ip; port = port }))
unfolding build_offer parse_answer
parse_answer-build_offer ip port session_id valid back pos le =
    let ls = offer_lines ip port session_id in
    let read : lines (unlines ls) ≡ ls =
      ap lines (sym (append-nil (unlines ls)))
      ∙ lines-unlines ls [] (offer_lines-IsLine ip port session_id valid)
      ∙ unfold lines in append-nil ls in
    (
      unlines ls,
      rw (lt→ltb 0 port pos),
      rw (read, offer_lines_answer ip port session_id valid le back) (unfold finish_answer in refl),
    )
