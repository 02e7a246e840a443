-- ===== src/Bridge/Relay/Stream.antt =====
-- slmodemd to RTP: how the bytes of the reads become payloads.
use slmodem_sip_bridge.Base.{
  ℕ, ◌+◌, ◌%◌, ◌^◌, ◌≤◌, ◌<◌, List, [], ◌∷◌, ◌++◌, true, Option, none, some, ◌≡◌, ◌≢◌, refl, sym,
  ap, ◌∙◌, arith, Bytes, length, length-append, append_assoc, append-nil, All, All-append, leb,
}
use slmodem_sip_bridge.Base.Outcome.{ok}
use slmodem_sip_bridge.Bridge.Relay.{SlToRtp, send_slin, sl_to_rtp}
use slmodem_sip_bridge.Codec.Buffer.{encode_chunks-append, length-encode_chunks}
use slmodem_sip_bridge.Codec.Stream.{align_slin_buffer_lem}
use slmodem_sip_bridge.Codec.{residual_bytes, encode_chunks, encode_ulaw, align_slin_buffer}
use slmodem_sip_bridge.Rtp.Clock.{build_all}
use slmodem_sip_bridge.Rtp.{RtpSender, build_packet, send_packet}

abbrev pub concat : List Bytes → Bytes
concat [] = []
concat (bs ∷ rest) = bs ++ concat rest

-- A read that gives something, at most the buffer's 2048 bytes.
abbrev pub IsRead : Bytes → Type 0
IsRead bytes = (bytes ≢ []) × (length bytes ≤ 2048)

-- A payload that `send_packet` takes.
abbrev pub IsPayload : Bytes → Type 0
IsPayload payload = (payload ≢ []) × (length payload ≤ 1024)

-- What the loop did between two states, given the bytes that it read: the payloads are the encoding
-- of all whole samples, and each went out as one packet of the sender.
pub record Relayed (st st' : SlToRtp) (bytes : Bytes) : Type 0 where
  pub payloads : List Bytes
  pub sendable : All IsPayload payloads
  pub sender_is : st'.sender ≡ (build_all st.sender payloads).0
  pub packets_are : st'.packets ≡ st.packets ++ (build_all st.sender payloads).1
  pub total_is : st'.total ≡ (st.total + length (concat payloads)) % 2 ^ 64
  pub whole : Bytes
  pub whole_even : length whole % 2 ≡ 0
  pub split : residual_bytes st.residual ++ bytes ≡ whole ++ residual_bytes st'.residual
  pub encoded : concat payloads ≡ encode_chunks whole

send_packet-IsPayload :
    {E : Type 0} (s : RtpSender) (payload : Bytes)
    → IsPayload payload
    → send_packet {E = E} s payload ≡ ok (build_packet s payload)
unfolding send_packet
send_packet-IsPayload s [] (ne, le) = absurd (ne refl)
send_packet-IsPayload s (b ∷ bs) (ne, le) =
    let fits : leb (length (b ∷ bs)) 1488 ≡ true = ground arith in rw fits refl

encode_ulaw-even :
    {E : Type 0} (slin : Bytes)
    → length slin % 2 ≡ 0
    → encode_ulaw {E = E} slin ≡ ok (encode_chunks slin)
unfolding encode_ulaw
encode_ulaw-even slin h = rw h refl

encode_chunks-IsPayload :
    (slin : Bytes)
    → length slin % 2 ≡ 0
    → slin ≢ []
    → length slin ≤ 2049
    → IsPayload (encode_chunks slin)
unfolding encode_chunks
encode_chunks-IsPayload [] even ne le = absurd (ne refl)
encode_chunks-IsPayload (b ∷ []) even ne le = absurd (omega arith)
encode_chunks-IsPayload (lo ∷ hi ∷ slin) even ne le =
    (λ e. cc, omega (arith, length-encode_chunks slin))

-- One read with samples in it.
send_slin-Relayed :
    {E : Type 0} (st : SlToRtp) (bytes slin : Bytes) (residual : Option ℕ)
    → st.total < 2 ^ 64
    → residual_bytes st.residual ++ bytes ≡ slin ++ residual_bytes residual
    → length slin % 2 ≡ 0
    → length slin ≤ 2049
    → (st' : SlToRtp) × (send_slin {E = E} st (slin, residual) ≡ ok st')
      × (st'.residual ≡ residual)
      × Relayed st st' bytes
unfolding send_slin build_all encode_chunks
send_slin-Relayed st bytes [] residual lt split even le = (
  record st { residual = residual },
  refl,
  refl,
  record {
    payloads = [];
    sendable = tt;
    sender_is = refl;
    packets_are = sym (append-nil st.packets);
    total_is = omega arith;
    whole = [];
    whole_even = refl;
    split = split;
    encoded = refl;
  },
)
send_slin-Relayed st bytes (b ∷ slin) residual lt split even le =
    let ulaw = encode_chunks (b ∷ slin) in
    let p = encode_chunks-IsPayload (b ∷ slin) even (λ e. cc) le in
    (
      record {
        residual = residual;
        sender = (build_packet st.sender ulaw).0;
        total = (st.total + length ulaw) % 2 ^ 64;
        packets = st.packets ++ (build_packet st.sender ulaw).1 ∷ [];
      },
      rw (encode_ulaw-even (b ∷ slin) even, send_packet-IsPayload st.sender ulaw p) refl,
      refl,
      record {
        payloads = ulaw ∷ [];
        sendable = (p, tt);
        sender_is = refl;
        packets_are = refl;
        total_is = ap (λ n. (st.total + n) % 2 ^ 64) (ap length (sym (append-nil ulaw)));
        whole = b ∷ slin;
        whole_even = even;
        split = split;
        encoded = append-nil ulaw;
      },
    )

build_all-append :
    (s : RtpSender) (ps qs : List Bytes)
    → ((build_all s (ps ++ qs)).0 ≡ (build_all (build_all s ps).0 qs).0)
      × ((build_all s (ps ++ qs)).1 ≡ (build_all s ps).1 ++ (build_all (build_all s ps).0 qs).1)
unfolding build_all
build_all-append s [] qs = (refl, refl)
build_all-append s (p ∷ ps) qs =
    let (sender, packets) = build_all-append (build_packet s p).0 ps qs in
    (sender, ap (◌∷◌ (build_packet s p).1) packets)

concat-append : (ps qs : List Bytes) → concat (ps ++ qs) ≡ concat ps ++ concat qs
concat-append [] qs = refl
concat-append (p ∷ ps) qs =
    ap (◌++◌ p) (concat-append ps qs) ∙ sym (append_assoc p (concat ps) (concat qs))

Relayed-trans :
    (st mid st' : SlToRtp) (xs ys : Bytes)
    → Relayed st mid xs
    → Relayed mid st' ys
    → Relayed st st' (xs ++ ys)
Relayed-trans st mid st' xs ys r q =
    let (sender, packets) = build_all-append st.sender r.payloads q.payloads in
    let joined = concat-append r.payloads q.payloads in
    let len : length (concat (r.payloads ++ q.payloads))
        ≡ length (concat r.payloads) + length (concat q.payloads) =
      ap length joined ∙ length-append (concat r.payloads) (concat q.payloads) in
    record {
      payloads = r.payloads ++ q.payloads;
      sendable = All-append IsPayload r.payloads q.payloads r.sendable q.sendable;
      sender_is = q.sender_is ∙ ap (λ s. (build_all s q.payloads).0) r.sender_is ∙ sym sender;
      packets_are =
          q.packets_are
          ∙ ap (λ s. mid.packets ++ (build_all s q.payloads).1) r.sender_is
          ∙ ap (λ l. l ++ (build_all (build_all st.sender r.payloads).0 q.payloads).1) r.packets_are
          ∙ append_assoc st.packets (build_all st.sender r.payloads).1 _
          ∙ ap (◌++◌ st.packets) (sym packets);
      total_is = omega (arith, len, r.total_is, q.total_is);
      whole = r.whole ++ q.whole;
      whole_even = omega (arith, length-append r.whole q.whole, r.whole_even, q.whole_even);
      split =
          sym (append_assoc (residual_bytes st.residual) xs ys)
          ∙ ap (λ l. l ++ ys) r.split
          ∙ append_assoc r.whole (residual_bytes mid.residual) ys
          ∙ ap (◌++◌ r.whole) q.split
          ∙ sym (append_assoc r.whole q.whole (residual_bytes st'.residual));
      encoded =
          joined
          ∙ ap (λ l. l ++ concat q.payloads) r.encoded
          ∙ ap (◌++◌ (encode_chunks r.whole)) q.encoded
          ∙ sym (encode_chunks-append r.whole q.whole r.whole_even);
    }

length-residual_bytes : (r : Option ℕ) → length (residual_bytes r) ≤ 1
length-residual_bytes none = omega arith
length-residual_bytes (some b) = omega arith

-- One read.
read-Relayed :
    {E : Type 0} (st : SlToRtp) (bytes : Bytes)
    → st.total < 2 ^ 64
    → IsRead bytes
    → (st' : SlToRtp) × (send_slin {E = E} st (align_slin_buffer st.residual bytes) ≡ ok st')
      × Relayed st st' bytes
read-Relayed st bytes lt (ne, le) =
    let aligned = align_slin_buffer st.residual bytes in
    let (split, even) = align_slin_buffer_lem st.residual bytes in
    let total_length : length (residual_bytes st.residual) + length bytes
        ≡ length aligned.0 + length (residual_bytes aligned.1) =
      sym (length-append (residual_bytes st.residual) bytes)
      ∙ ap length split
      ∙ length-append aligned.0 (residual_bytes aligned.1) in
    let (st', e, _, r) =
      send_slin-Relayed st bytes aligned.0 aligned.1 lt split even
        (omega (arith, total_length, length-residual_bytes st.residual)) in
    (st', e, r)

Relayed-total : {st st' : SlToRtp} {bytes : Bytes} → Relayed st st' bytes → st'.total < 2 ^ 64
Relayed-total r = omega (arith, r.total_is)

nothing-Relayed : (st : SlToRtp) → st.total < 2 ^ 64 → Relayed st st []
unfolding build_all encode_chunks
nothing-Relayed st lt = record {
  payloads = [];
  sendable = tt;
  sender_is = refl;
  packets_are = sym (append-nil st.packets);
  total_is = omega arith;
  whole = [];
  whole_even = refl;
  split = append-nil (residual_bytes st.residual);
  encoded = refl;
}

sl_to_rtp-read :
    {E : Type 0} (st st' : SlToRtp) (bytes : Bytes) (reads : List Bytes)
    → bytes ≢ []
    → send_slin {E = E} st (align_slin_buffer st.residual bytes) ≡ ok st'
    → sl_to_rtp {E = E} st (bytes ∷ reads) ≡ sl_to_rtp {E = E} st' reads
unfolding sl_to_rtp
sl_to_rtp-read st st' [] reads ne e = absurd (ne refl)
sl_to_rtp-read st st' (b ∷ bs) reads ne e = rw e refl

-- However slmodemd's audio is split into reads of 1 to 2048 bytes, from a byte count below 2 ^ 64,
-- the loop does not panic, and what it sends is one packet of the sender for each payload, of 1 to
-- 1024 bytes; the payloads together are the encoding of all whole samples of the bytes read, a
-- last single byte being kept for later.
pub sl_to_rtp-Relayed :
    {E : Type 0} (st : SlToRtp) (reads : List Bytes)
    → st.total < 2 ^ 64
    → All IsRead reads
    → (st' : SlToRtp) × (sl_to_rtp {E = E} st reads ≡ ok st') × Relayed st st' (concat reads)
sl_to_rtp-Relayed st [] lt h = (st, unfold sl_to_rtp in refl, nothing-Relayed st lt)
sl_to_rtp-Relayed st (bytes ∷ reads) lt ((ne, le), hs) =
    let (mid, e, r) = read-Relayed st bytes lt (ne, le) in
    let (st', e', q) = sl_to_rtp-Relayed mid reads (Relayed-total r) hs in
    (
      st',
      sl_to_rtp-read st mid bytes reads ne e ∙ e',
      Relayed-trans st mid st' bytes (concat reads) r q,
    )
