-- ===== src/Bridge/DialWait/Segments.antt =====
-- The dial string does not depend on how the bytes were split into reads, nor on the ticks between.
use slmodem_sip_bridge.Base.{
  ℕ, ◌+◌, ◌≤◌, List, [], ◌∷◌, ◌++◌, true, false, Option, none, some, ◌≡◌, ◌≢◌, refl, ap, ◌∙◌, arith,
  Bytes, length, length-append, append_assoc, append-nil, All,
}
use slmodem_sip_bridge.Bridge.DialWait.{
  Scan, dialled, partial, line_dial, next_line_buf, byte_dial, scan, DialEvent, read, read_error,
  silence_tick, heartbeat, Waited, got_dial, waiting, wait_for_dial_string,
}

-- The scan goes on with more bytes.
abbrev pub resume : Scan → Bytes → Scan
resume (dialled ds) bs = dialled ds
resume (partial line_buf) bs = scan line_buf bs

pub scan-append : (line_buf xs ys : Bytes) → scan line_buf (xs ++ ys) ≡ resume (scan line_buf xs) ys
unfolding scan
scan-append line_buf [] ys = refl
scan-append line_buf (x ∷ xs) ys =
    go (byte_dial line_buf x) (scan-append (next_line_buf line_buf x) xs ys)
  where
    go :
        (o : Option Bytes)
        → scan (next_line_buf line_buf x) (xs ++ ys)
          ≡ resume (scan (next_line_buf line_buf x) xs) ys
        → ◌≡◌ {A = Scan}
            (elim o [ some ds ↦ dialled ds | none ↦ scan (next_line_buf line_buf x) (xs ++ ys) ])
            (resume
              (elim o [ some ds ↦ dialled ds | none ↦ scan (next_line_buf line_buf x) xs ])
              ys)
    go none h = h
    go (some ds) h = refl

abbrev pub Bounded : Scan → Type 0
Bounded (dialled ds) = Unit
Bounded (partial line_buf) = length line_buf ≤ 256

next_line_buf-Bounded : (line_buf : Bytes) (b : ℕ) → length (next_line_buf line_buf b) ≤ 256
unfolding next_line_buf
next_line_buf-Bounded line_buf b = ground arith

-- If the line buffer holds at most 256 bytes, it does so after every scan that finds no dial
-- string, whatever is read.
pub scan-Bounded : (line_buf bs : Bytes) → length line_buf ≤ 256 → Bounded (scan line_buf bs)
unfolding scan
scan-Bounded line_buf [] h = h
scan-Bounded line_buf (b ∷ bs) h =
    go (byte_dial line_buf b)
      (scan-Bounded (next_line_buf line_buf b) bs (next_line_buf-Bounded line_buf b))
  where
    go :
        (o : Option Bytes)
        → Bounded (scan (next_line_buf line_buf b) bs)
        → Bounded (elim o [ some ds ↦ dialled ds | none ↦ scan (next_line_buf line_buf b) bs ])
    go none h = h
    go (some ds) h = tt

-- An event that does not end the wait by itself.
abbrev pub IsOpen : DialEvent → Type 0
IsOpen (read bytes) = bytes ≢ []
IsOpen read_error = ⊥
IsOpen (silence_tick written) = written ≡ true
IsOpen heartbeat = Unit

-- The bytes of all reads.
abbrev pub bytes_read : List DialEvent → Bytes
bytes_read [] = []
bytes_read (read bytes ∷ events) = bytes ++ bytes_read events
bytes_read (_ ∷ events) = bytes_read events

abbrev pub waited : Scan → Waited
waited (dialled ds) = got_dial ds
waited (partial line_buf) = waiting line_buf

-- If nothing closes the socket, the wait is a scan of the bytes read: the dial string and the line
-- kept for later depend neither on how the reads split them nor on the ticks between the reads.
pub wait_for_dial_string-scan :
    (line_buf : Bytes) (events : List DialEvent)
    → All IsOpen events
    → wait_for_dial_string line_buf events ≡ waited (scan line_buf (bytes_read events))
unfolding wait_for_dial_string
wait_for_dial_string-scan line_buf [] h = unfold scan in refl
wait_for_dial_string-scan line_buf (read [] ∷ events) (h, hs) = absurd (h refl)
wait_for_dial_string-scan line_buf (read (b ∷ bs) ∷ events) (h, hs) =
    rw (scan-append line_buf (b ∷ bs) (bytes_read events))
      (go (scan line_buf (b ∷ bs)) (λ lb. wait_for_dial_string-scan lb events hs))
  where
    go :
        (s : Scan)
        → ((lb : Bytes) → wait_for_dial_string lb events ≡ waited (scan lb (bytes_read events)))
        → ◌≡◌ {A = Waited}
            (elim s [ dialled ds ↦ got_dial ds | partial lb ↦ wait_for_dial_string lb events ])
            (waited (resume s (bytes_read events)))
    go (dialled ds) later = refl
    go (partial lb) later = later lb
wait_for_dial_string-scan line_buf (read_error ∷ events) (h, hs) = absurd h
wait_for_dial_string-scan line_buf (silence_tick true ∷ events) (h, hs) =
    wait_for_dial_string-scan line_buf events hs
wait_for_dial_string-scan line_buf (silence_tick false ∷ events) (h, hs) = absurd (cc)
wait_for_dial_string-scan line_buf (heartbeat ∷ events) (h, hs) =
    wait_for_dial_string-scan line_buf events hs

scan-kept :
    (line_buf line_buf' : Bytes) (b : ℕ) (bs : Bytes)
    → byte_dial line_buf b ≡ none
    → next_line_buf line_buf b ≡ line_buf'
    → scan line_buf (b ∷ bs) ≡ scan line_buf' bs
unfolding scan
scan-kept line_buf line_buf' b bs inside kept = rw (inside, kept, scan) refl

scan-rest_of_line :
    (line_buf line rest : Bytes)
    → All (λ b. b ≢ b'\n') line
    → length line_buf + length line ≤ 256
    → scan line_buf (line ++ b'\n' ∷ rest) ≡ scan (line_buf ++ line) (b'\n' ∷ rest)
scan-rest_of_line line_buf [] rest h le = rw (append-nil line_buf) refl
scan-rest_of_line line_buf (b ∷ line) rest (hb, hs) le =
    let kept : next_line_buf line_buf b ≡ line_buf ++ b ∷ [] =
      unfold next_line_buf in ground (arith, length-append line_buf (b ∷ [])) in
    let inside : byte_dial line_buf b ≡ none = unfold byte_dial in ground arith in
    let fits : length (line_buf ++ b ∷ []) + length line ≤ 256 =
      omega (arith, length-append line_buf (b ∷ [])) in
    scan-kept line_buf (line_buf ++ b ∷ []) b (line ++ b'\n' ∷ rest) inside kept
    ∙ scan-rest_of_line (line_buf ++ b ∷ []) line rest hs fits
    ∙ ap (λ lb. scan lb (b'\n' ∷ rest)) (append_assoc line_buf (b ∷ []) line)

-- From an empty buffer, a line of at most 256 bytes and its newline end the scan with the line's
-- dial string if it has one; if not, the scan goes on behind it with an empty buffer.
pub scan-line :
    (line rest : Bytes)
    → All (λ b. b ≢ b'\n') line
    → length line ≤ 256
    → scan [] (line ++ b'\n' ∷ rest)
      ≡ (elim (line_dial line) [ some ds ↦ dialled ds | none ↦ scan [] rest ])
scan-line line rest h le =
    scan-rest_of_line [] line rest h (omega arith) ∙ unfold scan byte_dial next_line_buf in refl
