-- ===== src/Sdp/Sound.antt =====
-- What an accepted answer is: where its port and address come from, and what its lines offer.
use mathlib.Core.Path.{subst}
use slmodem_sip_bridge.Base.{
  ℕ, List, [], ◌∷◌, true, Option, none, some, ◌≡◌, ◌⊎◌, inl, inr, refl, arith, All, Any,
  Option-cases, Bool-cases,
}
use slmodem_sip_bridge.Base.Outcome.{ok, >>=-ok}
use slmodem_sip_bridge.Net.{IpAddr, parse_ip}
use slmodem_sip_bridge.Sdp.{
  SdpAnswer, AnswerState, connection_words, connection_line, any_pcmu, audio_words, audio_line,
  answer_line, answer_lines, finish_answer, initial, parse_answer,
}
use slmodem_sip_bridge.Text.Equal.{text_eq_iff}
use slmodem_sip_bridge.Text.Number.{parse, u16_max}
use slmodem_sip_bridge.Text.Split.{lines, split_whitespace}
use slmodem_sip_bridge.Text.{Text, codes, strip_prefix, text_eq, trim}

-- The payload type 0 is listed.
abbrev pub OffersPcmu : List Text → Type 0
OffersPcmu = Any (λ pt. pt ≡ codes "0")

-- The line is an `m=audio` line with this port and, behind the protocol, payload types with 0.
pub record AudioLine (line : Text) (port : ℕ) : Type 0 where
  pub rest : Text
  pub port_text : Text
  pub proto : Text
  pub payload_types : List Text
  pub prefix : strip_prefix (trim line) (codes "m=audio ") ≡ some rest
  pub words : split_whitespace rest ≡ port_text ∷ proto ∷ payload_types
  pub port_is : parse u16_max port_text ≡ some port
  pub pcmu : OffersPcmu payload_types

-- The line is a `c=` line whose third word is this address.
pub record ConnectionLine (line : Text) (ip : IpAddr) : Type 0 where
  pub rest : Text
  pub net : Text
  pub kind : Text
  pub text : Text
  pub more : List Text
  pub prefix : strip_prefix (trim line) (codes "c=") ≡ some rest
  pub words : split_whitespace rest ≡ net ∷ kind ∷ text ∷ more
  pub ip_is : parse_ip text ≡ some ip

-- A line that is an `m=audio` line is one with a port and with PCMU.
abbrev pub AudioOk : Text → Type 0
AudioOk line =
    (strip_prefix (trim line) (codes "m=audio ") ≡ none) ⊎ ((port : ℕ) × AudioLine line port)

-- What one line does to the loop's variables.
record LineEffect (line : Text) (st st' : AnswerState) : Type 0 where
  audio_ok : AudioOk line
  port_from :
      ((st'.media_port ≡ st.media_port) × (st'.has_audio_line ≡ st.has_audio_line))
      ⊎ ((port : ℕ) × AudioLine line port × (st'.media_port ≡ some port))
  address_from :
      (st'.connection_addr ≡ st.connection_addr)
      ⊎ ((ip : IpAddr) × ConnectionLine line ip × (st'.connection_addr ≡ some ip))

any_pcmu-OffersPcmu : (pts : List Text) → any_pcmu pts ≡ true → OffersPcmu pts
unfolding any_pcmu
any_pcmu-OffersPcmu [] h = cc
any_pcmu-OffersPcmu (pt ∷ pts) h = elim (Bool-cases (text_eq pt (codes "0"))) [
  | inl zero_type ↦ inl ((text_eq_iff pt (codes "0")).0 zero_type)
  | inr other ↦ inr (any_pcmu-OffersPcmu pts (rw other at h))
]

-- The effect of a `c=` line, and of no such line.
abbrev ConnectionEffect : Text → AnswerState → AnswerState → Type 0
ConnectionEffect line st st' =
    (st' ≡ st)
    ⊎ ((ip : IpAddr) × ConnectionLine line ip × (st' ≡ record st { connection_addr = some ip }))

module _ (line : Text) (st : AnswerState) where
  connection_words_effect :
      (rest : Text) (words : List Text)
      → strip_prefix (trim line) (codes "c=") ≡ some rest
      → split_whitespace rest ≡ words
      → ConnectionEffect line st (connection_words words st)
  unfolding connection_words
  connection_words_effect rest (a ∷ b ∷ text ∷ more) p w = elim (Option-cases (parse_ip text)) [
    | inl other ↦ inl (ground arith)
    | inr (ip, is) ↦ inr (
      ip,
      record {
        rest = rest;
        net = a;
        kind = b;
        text = text;
        more = more;
        prefix = p;
        words = w;
        ip_is = is;
      },
      ground arith,
    )
  ]
  connection_words_effect rest _ p w = inl refl

  connection_line_effect :
      (o : Option Text)
      → strip_prefix (trim line) (codes "c=") ≡ o
      → ConnectionEffect line st (connection_line o st)
  unfolding connection_line
  connection_line_effect none p = inl refl
  connection_line_effect (some rest) p = connection_words_effect rest (split_whitespace rest) p refl

-- The effect of an `m=audio` line, and of no such line.
abbrev AudioEffect : Text → AnswerState → AnswerState → Type 0
AudioEffect line st st' =
    ((strip_prefix (trim line) (codes "m=audio ") ≡ none) × (st' ≡ st))
    ⊎ ((port : ℕ) × AudioLine line port
        × (st' ≡ record st { media_port = some port; has_audio_line = true }))

module _ (line : Text) (st st' : AnswerState) where
  audio_words_effect :
      (rest : Text) (words : List Text)
      → strip_prefix (trim line) (codes "m=audio ") ≡ some rest
      → split_whitespace rest ≡ words
      → audio_words words st ≡ ok st'
      → AudioEffect line st st'
  unfolding audio_words
  audio_words_effect rest (port_text ∷ proto ∷ pt ∷ pts) p w h =
      elim (Option-cases (parse u16_max port_text)) [
        | inl bad ↦ absurd (ground arith)
        | inr (port, is) ↦
            let listed : any_pcmu (pt ∷ pts) ≡ true = ground arith in
            inr (
              port,
              record {
                rest = rest;
                port_text = port_text;
                proto = proto;
                payload_types = pt ∷ pts;
                prefix = p;
                words = w;
                port_is = is;
                pcmu = any_pcmu-OffersPcmu (pt ∷ pts) listed;
              },
              ground arith,
            )
      ]
  audio_words_effect rest _ p w h = absurd (ground arith)

  audio_line_effect :
      (o : Option Text)
      → strip_prefix (trim line) (codes "m=audio ") ≡ o
      → audio_line o st ≡ ok st'
      → AudioEffect line st st'
  unfolding audio_line
  audio_line_effect none p h = inl (p, ground arith)
  audio_line_effect (some rest) p h = audio_words_effect rest (split_whitespace rest) p refl h

-- The lines that a value of the loop's variables may come from.
abbrev PortFrom : List Text → AnswerState → AnswerState → Type 0
PortFrom ls st st' =
    ((st'.media_port ≡ st.media_port) × (st'.has_audio_line ≡ st.has_audio_line))
    ⊎ ((port : ℕ) × Any (λ l. AudioLine l port) ls × (st'.media_port ≡ some port))

abbrev AddressFrom : List Text → AnswerState → AnswerState → Type 0
AddressFrom ls st st' =
    (st'.connection_addr ≡ st.connection_addr)
    ⊎ ((ip : IpAddr) × Any (λ l. ConnectionLine l ip) ls × (st'.connection_addr ≡ some ip))

abbrev LinesEffect : List Text → AnswerState → AnswerState → Type 0
LinesEffect ls st st' = All AudioOk ls × PortFrom ls st st' × AddressFrom ls st st'

AudioEffect-AudioOk : (line : Text) (st st' : AnswerState) → AudioEffect line st st' → AudioOk line
AudioEffect-AudioOk line st st' (inl (other, _)) = inl other
AudioEffect-AudioOk line st st' (inr (p, l, _)) = inr (p, l)

module _ (line : Text) (ls : List Text) (st mid next st' : AnswerState) where
  PortFrom-cons :
      ConnectionEffect line st mid
      → AudioEffect line mid next
      → PortFrom ls next st'
      → PortFrom (line ∷ ls) st st'
  PortFrom-cons c a (inr (p, from, e)) = inr (p, inr from, e)
  PortFrom-cons c (inr (p, from, e)) (inl same) = inr (p, inl from, ground arith)
  PortFrom-cons (inl c) (inl (_, e)) (inl same) = inl (ground arith)
  PortFrom-cons (inr (ip, _, c)) (inl (_, e)) (inl same) = inl (ground arith)

  AddressFrom-cons :
      ConnectionEffect line st mid
      → AudioEffect line mid next
      → AddressFrom ls next st'
      → AddressFrom (line ∷ ls) st st'
  AddressFrom-cons c a (inr (ip, from, e)) = inr (ip, inr from, e)
  AddressFrom-cons (inr (ip, from, c)) (inl (_, e)) (inl same) = inr (ip, inl from, ground arith)
  AddressFrom-cons (inr (ip, from, c)) (inr (_, _, e)) (inl same) = inr (ip, inl from, ground arith)
  AddressFrom-cons (inl c) (inl (_, e)) (inl same) = inl (ground arith)
  AddressFrom-cons (inl c) (inr (_, _, e)) (inl same) = inl (ground arith)

answer_lines_effect :
    (ls : List Text) (st st' : AnswerState) → answer_lines ls st ≡ ok st' → LinesEffect ls st st'
unfolding answer_lines answer_line
answer_lines_effect [] st st' h = (tt, inl (ground arith), inl (ground arith))
answer_lines_effect (line ∷ ls) st st' h =
    let mid = connection_line (strip_prefix (trim line) (codes "c=")) st in
    let (next, step, rest) = >>=-ok (answer_line (trim line) st) (λ t. answer_lines ls t) h in
    let conn = connection_line_effect line st _ refl in
    let audio = audio_line_effect line mid next _ refl step in
    let (oks, port, address) = answer_lines_effect ls next st' rest in
    (
      (AudioEffect-AudioOk line mid next audio, oks),
      PortFrom-cons line ls st mid next st' conn audio port,
      AddressFrom-cons line ls st mid next st' conn audio address,
    )

finish_answer_lem :
    (st : AnswerState) (a : SdpAnswer)
    → finish_answer st ≡ ok a
    → (st.media_port ≡ some a.port) × (st.connection_addr ≡ some a.addr)
unfolding finish_answer
finish_answer_lem st a h = ground arith

-- An accepted answer: its port comes from an `m=audio` line with payload type 0 and its address
-- from a `c=` line, and every `m=audio` line of the answer has a port and payload type 0.
pub parse_answer_sound :
    (sdp : Text) (a : SdpAnswer)
    → parse_answer sdp ≡ ok a
    → All AudioOk (lines sdp)
      × Any (λ l. AudioLine l a.port) (lines sdp)
      × Any (λ l. ConnectionLine l a.addr) (lines sdp)
unfolding parse_answer
parse_answer_sound sdp a h =
    let (st, read, finish) = >>=-ok (answer_lines (lines sdp) initial) finish_answer h in
    let (oks, port, address) = answer_lines_effect (lines sdp) initial st read in
    (oks, ported st finish port, addressed st finish address)
  where
    ported :
        (st : AnswerState)
        → finish_answer st ≡ ok a
        → PortFrom (lines sdp) initial st
        → Any (λ l. AudioLine l a.port) (lines sdp)
    ported st f (inl same) = absurd (ground (arith, finish_answer_lem st a f))
    ported st f (inr (p, from, e)) =
        let same : p ≡ a.port = ground (arith, finish_answer_lem st a f) in
        subst (λ q. Any (λ l. AudioLine l q) (lines sdp)) same from

    addressed :
        (st : AnswerState)
        → finish_answer st ≡ ok a
        → AddressFrom (lines sdp) initial st
        → Any (λ l. ConnectionLine l a.addr) (lines sdp)
    addressed st f (inl same) = absurd (ground (arith, finish_answer_lem st a f))
    addressed st f (inr (ip, from, e)) =
        let same : ip ≡ a.addr = ground (arith, finish_answer_lem st a f) in
        subst (λ q. Any (λ l. ConnectionLine l q) (lines sdp)) same from
