-- ===== src/Sdp/Total.antt =====
-- `parse_answer` does not panic.
use slmodem_sip_bridge.Base.{List, [], ◌∷◌, Option, none, some}
use slmodem_sip_bridge.Base.Outcome.{ensure, ok_or, Calm, >>=-Calm, ok_or-Calm, ensure-Calm}
use slmodem_sip_bridge.Sdp.{
  invalid_port, no_pcmu, no_audio_line, no_connection, no_media_port, AnswerState, any_pcmu,
  audio_words, audio_line, answer_line, answer_lines, finish_answer, initial, parse_answer,
}
use slmodem_sip_bridge.Text.Number.{parse, u16_max}
use slmodem_sip_bridge.Text.Split.{lines, split_whitespace}
use slmodem_sip_bridge.Text.{Text, codes, strip_prefix, trim}

audio_words-Calm : (ws : List Text) (st : AnswerState) → Calm (audio_words ws st)
unfolding audio_words
audio_words-Calm [] st = λ h. cc
audio_words-Calm (port_text ∷ []) st =
    >>=-Calm (ok_or (parse u16_max port_text) invalid_port) _
      (ok_or-Calm (parse u16_max port_text) invalid_port) (λ port h. cc)
audio_words-Calm (port_text ∷ proto ∷ []) st =
    >>=-Calm (ok_or (parse u16_max port_text) invalid_port) _
      (ok_or-Calm (parse u16_max port_text) invalid_port) (λ port h. cc)
audio_words-Calm (port_text ∷ proto ∷ pt ∷ pts) st =
    >>=-Calm (ok_or (parse u16_max port_text) invalid_port) _
      (ok_or-Calm (parse u16_max port_text) invalid_port)
      (λ port.
        >>=-Calm (ensure (any_pcmu (pt ∷ pts)) no_pcmu) _
          (ensure-Calm (any_pcmu (pt ∷ pts)) no_pcmu) (λ _ h. cc))

audio_line-Calm : (rest : Option Text) (st : AnswerState) → Calm (audio_line rest st)
unfolding audio_line
audio_line-Calm none st = λ h. cc
audio_line-Calm (some rest) st = audio_words-Calm (split_whitespace rest) st

answer_lines-Calm : (ls : List Text) (st : AnswerState) → Calm (answer_lines ls st)
unfolding answer_lines answer_line
answer_lines-Calm [] st = λ h. cc
answer_lines-Calm (line ∷ rest) st =
    >>=-Calm (answer_line (trim line) st) _
      (audio_line-Calm (strip_prefix (trim line) (codes "m=audio ")) _)
      (λ st'. answer_lines-Calm rest st')

finish_answer-Calm : (st : AnswerState) → Calm (finish_answer st)
unfolding finish_answer
finish_answer-Calm st =
    >>=-Calm (ensure st.has_audio_line no_audio_line) _
      (ensure-Calm st.has_audio_line no_audio_line)
      (λ _.
        >>=-Calm (ok_or st.connection_addr no_connection) _
          (ok_or-Calm st.connection_addr no_connection)
          (λ addr.
            >>=-Calm (ok_or st.media_port no_media_port) _ (ok_or-Calm st.media_port no_media_port)
              (λ port h. cc)))

-- Whatever text the far end sends as its answer, the parser returns an answer or an error.
pub parse_answer-Calm : (sdp : Text) → Calm (parse_answer sdp)
unfolding parse_answer
parse_answer-Calm sdp =
    >>=-Calm (answer_lines (lines sdp) initial) _ (answer_lines-Calm (lines sdp) initial)
      finish_answer-Calm
