-- ===== src/Rtp/Layout.antt =====
-- The RTP layout of a datagram, and that `parse_packet` accepts exactly what has it.
use slmodem_sip_bridge.Base.{
  ℕ, ◌*◌, ◌/◌, ◌%◌, ◌≤◌, ◌<◌, bit_and, Bool, true, false, [], ◌∷◌, ◌++◌, Option, none, some, ltb,
  ◌==◌, ◌≡◌, ◌≢◌, ◌↔◌, ◌⊎◌, inl, inr, refl, ap, sym, ◌∙◌, arith, Bytes, length, drop, length-append,
  drop-append_add, split_length, Bool-cases, append_assoc, All, take, take-append-drop, length-take,
  length-drop,
}
use slmodem_sip_bridge.Base.Outcome.{ok}
use slmodem_sip_bridge.Base.Word.{u16_from_be}
use slmodem_sip_bridge.Rtp.Header.{version_bits, header_length_lem}
use slmodem_sip_bridge.Rtp.Parse.{HeaderAt, nonempty, after_header, parse_packet-append}
use slmodem_sip_bridge.Rtp.{header_length, parse_body, parse_packet}

-- The RTP layout: version 2 in the first byte, eleven more bytes of fixed header, four for each of
-- the contributing sources counted in the first byte, an extension exactly if the extension bit is
-- set, and a payload that is not empty. The padding bit is not looked at.
pub data Extension : Bool → Bytes → Type 0 where
  absent : Extension false []
  present :
      {a b hi lo : ℕ} {words : Bytes}
      → length words ≡ 4 * u16_from_be hi lo
      → Extension true (a ∷ b ∷ hi ∷ lo ∷ words)

pub record Layout (packet payload : Bytes) : Type 0 where
  pub first : ℕ
  pub fixed : Bytes
  pub csrc : Bytes
  pub extension : Bytes
  pub header : HeaderAt first fixed csrc
  pub version : first / 64 ≡ 2
  pub extended : Extension (first / 16 % 2 == 1) extension
  pub split : packet ≡ first ∷ (fixed ++ (csrc ++ (extension ++ payload)))
  pub ne_nil : payload ≢ []

nonempty_lem : (payload : Bytes) → payload ≢ [] → nonempty payload ≡ some payload
nonempty_lem [] h = absurd (h refl)
nonempty_lem (b ∷ bs) h = refl

after_header-Extension :
    {bit : Bool} {extension : Bytes} (payload : Bytes)
    → Extension bit extension
    → payload ≢ []
    → after_header bit (extension ++ payload) ≡ some payload
after_header-Extension payload absent h = nonempty_lem payload h
after_header-Extension payload (present {words} len) h =
    ap nonempty (drop-append_add words payload _ 0 (omega arith)) ∙ nonempty_lem payload h

-- A packet with the layout gives its payload.
pub Layout-parse :
    {E : Type 0} (packet payload : Bytes)
    → Layout packet payload
    → parse_packet {E = E} packet ≡ ok (some payload)
Layout-parse packet payload l =
    let back = l.extension ++ payload in
    ap parse_packet (l.split ∙ ap (◌∷◌ l.first) (sym (append_assoc l.fixed l.csrc back)))
    ∙ parse_packet-append l.first l.fixed l.csrc l.header back l.version
    ∙ ap ok (after_header-Extension payload l.extended l.ne_nil)

-- The header of a packet that is long enough and has the right version.
record Pieces (packet : Bytes) : Type 0 where
  first : ℕ
  fixed : Bytes
  csrc : Bytes
  rest : Bytes
  header : HeaderAt first fixed csrc
  version : first / 64 ≡ 2
  split : packet ≡ first ∷ (fixed ++ (csrc ++ rest))

Pieces-of :
    (b : ℕ) (bs : Bytes)
    → b < 256
    → b / 64 ≡ 2
    → header_length b ≤ length (b ∷ bs)
    → Pieces (b ∷ bs)
Pieces-of b bs byte two enough =
    let len = header_length_lem b byte in
    let (fixed, back, e, n) = split_length 11 bs (omega (arith, len)) in
    let fits : 4 * (b % 16) ≤ length back =
      omega (arith, len, length-append fixed back, ap length e) in
    let (csrc, rest, e', m) = split_length (4 * (b % 16)) back fits in
    record {
      first = b;
      fixed = fixed;
      csrc = csrc;
      rest = rest;
      header = record { byte = byte; fixed_length = n; csrc_length = m };
      version = two;
      split = ap (◌∷◌ b) (e ∙ ap (λ t. fixed ++ t) e');
    }

-- Either the packet is refused, or it has a header.
parse_packet_cases :
    {E : Type 0} (packet : Bytes)
    → All (λ b. b < 256) packet
    → (parse_packet {E = E} packet ≡ ok none) ⊎ Pieces packet
unfolding parse_packet parse_body
parse_packet_cases [] h = inl refl
parse_packet_cases (b ∷ bs) (byte, _) = elim (Bool-cases (ltb (length (b ∷ bs)) 13)) [
  | inl short ↦ inl (rw short)
  | inr long ↦ elim (Bool-cases (bit_and (b / 64) 0x03 == 2)) [
    | inr other ↦ inl (rw (long, other))
    | inl two ↦ elim (Bool-cases (ltb (length (b ∷ bs)) (header_length b))) [
      | inl cut ↦ inl (rw (long, two, cut))
      | inr whole ↦ inr (Pieces-of b bs byte (ground (arith, version_bits b byte)) (ground arith))
    ]
  ]
]

Pieces-parse :
    {E : Type 0} (packet : Bytes) (p : Pieces packet)
    → parse_packet {E = E} packet ≡ ok (after_header (p.first / 16 % 2 == 1) p.rest)
Pieces-parse packet p =
    ap parse_packet (p.split ∙ ap (◌∷◌ p.first) (sym (append_assoc p.fixed p.csrc p.rest)))
    ∙ parse_packet-append p.first p.fixed p.csrc p.header p.rest p.version

nonempty_inv : (d payload : Bytes) → nonempty d ≡ some payload → (d ≡ payload) × (payload ≢ [])
nonempty_inv [] payload h = cc
nonempty_inv (b ∷ bs) payload h = (ground arith, λ e. cc)

length-pos : (s : Bytes) → s ≢ [] → 0 < length s
length-pos [] h = absurd (h refl)
length-pos (b ∷ bs) h = omega arith

-- What `after_header` accepts is an extension and a payload.
after_header_inv :
    (bit : Bool) (rest payload : Bytes)
    → after_header bit rest ≡ some payload
    → (extension : Bytes) × Extension bit extension × (rest ≡ extension ++ payload) × (payload ≢ [])
after_header_inv false [] payload h = cc
after_header_inv false (b ∷ bs) payload h = ([], absent, ground arith, λ e. cc)
after_header_inv true (a ∷ b ∷ hi ∷ lo ∷ rest) payload h =
    let n = 4 * u16_from_be hi lo in
    let (dropped, ne) = nonempty_inv (drop n rest) payload h in
    let pos = length-pos payload ne in
    let fits : n ≤ length rest = omega (arith, pos, length-drop n rest, ap length dropped) in
    (
      a ∷ b ∷ hi ∷ lo ∷ take n rest,
      present (length-take n rest fits),
      ap (λ t. a ∷ b ∷ hi ∷ lo ∷ t)
          (sym (take-append-drop n rest) ∙ ap (λ t. take n rest ++ t) dropped),
      ne,
    )
after_header_inv true _ payload h = cc

parse-Layout :
    {E : Type 0} (packet payload : Bytes)
    → All (λ b. b < 256) packet
    → parse_packet {E = E} packet ≡ ok (some payload)
    → Layout packet payload
parse-Layout {E} packet payload bytes h = elim (parse_packet_cases {E = E} packet bytes) [
  | inl refused ↦ absurd (cc)
  | inr p ↦
      let accepted : after_header (p.first / 16 % 2 == 1) p.rest ≡ some payload =
        cc (Pieces-parse {E = E} packet p) in
      let (extension, extended, split, ne) =
        after_header_inv (p.first / 16 % 2 == 1) p.rest payload accepted in
      record {
        first = p.first;
        fixed = p.fixed;
        csrc = p.csrc;
        extension = extension;
        header = p.header;
        version = p.version;
        extended = extended;
        split = p.split ∙ ap (λ t. p.first ∷ (p.fixed ++ (p.csrc ++ t))) split;
        ne_nil = ne;
      }
]

-- On any datagram `parse_packet` returns (it never indexes out of range), and it returns a payload
-- exactly if the datagram has the RTP layout with that payload.
pub parse_packet_iff :
    {E : Type 0} (packet : Bytes)
    → All (λ b. b < 256) packet
    → ((result : Option Bytes) × (parse_packet {E = E} packet ≡ ok result))
      × ((payload : Bytes)
          → (parse_packet {E = E} packet ≡ ok (some payload)) ↔ Layout packet payload)
parse_packet_iff packet bytes = (
  elim (parse_packet_cases packet bytes) [
    | inl refused ↦ (none, refused)
    | inr p ↦ (after_header (p.first / 16 % 2 == 1) p.rest, Pieces-parse packet p)
  ],
  λ payload. (parse-Layout packet payload bytes, Layout-parse packet payload),
)
