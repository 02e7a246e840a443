-- ===== src/Bridge/Relay/Stats/Intervals.antt =====
-- The reports of the relay are the summaries of its intervals.
use slmodem_sip_bridge.Base.{
  ℕ, ◌+◌, ◌%◌, ◌^◌, min, List, [], ◌∷◌, ◌++◌, Bool, true, false, map, length, ◌≡◌, refl, ap, ◌∙◌,
  arith,
}
use slmodem_sip_bridge.Bridge.Relay.Stats.{
  max, Throughput, no_frames, RtpStats, count_received, report_received, rtp_stats_start,
  SentThroughput, SlStats, report_sent, sl_stats_start,
}
use slmodem_sip_bridge.Text.Number.{u64_max}

-- The frames cut behind those at which a report is due, the frames so far first: the intervals that
-- are complete, and the one that is not.
abbrev pub intervals : List ℕ → List (ℕ × Bool) → List (List ℕ) × List ℕ
intervals frames [] = ([], frames)
intervals frames ((len, true) ∷ rest) =
    let later = intervals [] rest in ((frames ++ len ∷ []) ∷ later.0, later.1)
intervals frames ((len, false) ∷ rest) = intervals (frames ++ len ∷ []) rest

abbrev pub sum : List ℕ → ℕ
sum [] = 0
sum (n ∷ ns) = n + sum ns

abbrev pub least : List ℕ → ℕ
least [] = u64_max
least (n ∷ ns) = min n (least ns)

abbrev pub greatest : List ℕ → ℕ
greatest [] = 0
greatest (n ∷ ns) = max n (greatest ns)

-- The bytes, the number and the sizes of the frames of an interval.
abbrev pub summary : List ℕ → Throughput
summary ns = record {
  interval_bytes = sum ns % 2 ^ 64;
  frames = length ns % 2 ^ 64;
  min_frame = least ns;
  max_frame = greatest ns;
}

abbrev pub sent_summary : List ℕ → SentThroughput
sent_summary ns = record { interval_bytes = sum ns % 2 ^ 64; frames = length ns % 2 ^ 64 }

sum-append : (ns : List ℕ) (n : ℕ) → sum (ns ++ n ∷ []) ≡ sum ns + n
sum-append [] n = omega arith
sum-append (m ∷ ns) n = omega (arith, sum-append ns n)

length-append : (ns : List ℕ) (n : ℕ) → length (ns ++ n ∷ []) ≡ length ns + 1
length-append [] n = omega arith
length-append (m ∷ ns) n = omega (arith, length-append ns n)

least-append : (ns : List ℕ) (n : ℕ) → least (ns ++ n ∷ []) ≡ min (least ns) n
least-append [] n = omega arith
least-append (m ∷ ns) n = omega (arith, least-append ns n)

greatest-append : (ns : List ℕ) (n : ℕ) → greatest (ns ++ n ∷ []) ≡ max (greatest ns) n
greatest-append [] n = ground arith
greatest-append (m ∷ ns) n = ground (arith, greatest-append ns n)

wrapped :
    (bytes frames n lo hi : ℕ)
    → ◌≡◌ {A = Throughput}
        (record {
          interval_bytes = (bytes % 2 ^ 64 + n) % 2 ^ 64;
          frames = (frames % 2 ^ 64 + 1) % 2 ^ 64;
          min_frame = lo;
          max_frame = hi;
        })
        (record {
          interval_bytes = (bytes + n) % 2 ^ 64;
          frames = (frames + 1) % 2 ^ 64;
          min_frame = lo;
          max_frame = hi;
        })
wrapped bytes frames n lo hi =
    ap
      (λ b. record {
        interval_bytes = b;
        frames = (frames % 2 ^ 64 + 1) % 2 ^ 64;
        min_frame = lo;
        max_frame = hi;
      })
      (omega arith)
    ∙ ap
        (λ f. record {
          interval_bytes = (bytes + n) % 2 ^ 64;
          frames = f;
          min_frame = lo;
          max_frame = hi;
        })
        (omega arith)

count_received-summary :
    (ns : List ℕ) (n : ℕ) → count_received (summary ns) n ≡ summary (ns ++ n ∷ [])
unfolding count_received
count_received-summary ns n =
    rw (sum-append ns n, length-append ns n, least-append ns n, greatest-append ns n)
      (wrapped (sum ns) (length ns) n (min (least ns) n) (max (greatest ns) n))

-- The lengths of the frames.
abbrev pub lengths : List (ℕ × Bool) → List ℕ
lengths [] = []
lengths ((len, due) ∷ rest) = len ∷ lengths rest

next_total : (base len : ℕ) → (base % 2 ^ 64 + len) % 2 ^ 64 ≡ (base + len) % 2 ^ 64
next_total base len = omega arith

total_assoc : (a b c : ℕ) → a + b + c ≡ a + (b + c)
total_assoc a b c = omega arith

report_received-intervals :
    (base : ℕ) (ns : List ℕ) (frames : List (ℕ × Bool))
    → report_received (record { total = base % 2 ^ 64; interval = summary ns }) frames ≡ (
      record {
        total = (base + sum (lengths frames)) % 2 ^ 64;
        interval = summary (intervals ns frames).1;
      },
      map summary (intervals ns frames).0,
    )
unfolding report_received no_frames
report_received-intervals base ns [] =
    ap (λ t. (record { total = t; interval = summary ns }, [])) (omega arith)
report_received-intervals base ns ((len, true) ∷ rest) =
    let counted = count_received (summary ns) len in
    ap
      (λ t.
        let later = report_received (record { total = t; interval = no_frames }) rest in
        (later.0, counted ∷ later.1))
      (next_total base len)
    ∙ ap (λ later. (later.0, counted ∷ later.1)) (report_received-intervals (base + len) [] rest)
    ∙ ap
        (λ t. (
          record { total = t % 2 ^ 64; interval = summary (intervals [] rest).1 },
          counted ∷ map summary (intervals [] rest).0,
        ))
        (total_assoc base len (sum (lengths rest)))
    ∙ ap
        (λ c. (
          record {
            total = (base + (len + sum (lengths rest))) % 2 ^ 64;
            interval = summary (intervals [] rest).1;
          },
          c ∷ map summary (intervals [] rest).0,
        ))
        (count_received-summary ns len)
report_received-intervals base ns ((len, false) ∷ rest) =
    ap
      (λ t. report_received (record { total = t; interval = count_received (summary ns) len }) rest)
      (next_total base len)
    ∙ ap (λ c. report_received (record { total = (base + len) % 2 ^ 64; interval = c }) rest)
        (count_received-summary ns len)
    ∙ report_received-intervals (base + len) (ns ++ len ∷ []) rest
    ∙ ap
        (λ t. (
          record { total = t % 2 ^ 64; interval = summary (intervals (ns ++ len ∷ []) rest).1 },
          map summary (intervals (ns ++ len ∷ []) rest).0,
        ))
        (total_assoc base len (sum (lengths rest)))

report_received_lem :
    (frames : List (ℕ × Bool))
    → report_received rtp_stats_start frames ≡ (
      record { total = sum (lengths frames) % 2 ^ 64; interval = summary (intervals [] frames).1 },
      map summary (intervals [] frames).0,
    )
unfolding rtp_stats_start no_frames
report_received_lem frames =
    report_received-intervals 0 [] frames
    ∙ ap
        (λ t. (
          record { total = t % 2 ^ 64; interval = summary (intervals [] frames).1 },
          map summary (intervals [] frames).0,
        ))
        (omega arith)

-- What `sl_to_rtp` would report of the same interval.
abbrev sent_of : Throughput → SentThroughput
sent_of i = record { interval_bytes = i.interval_bytes; frames = i.frames }

abbrev sl_of : RtpStats → SlStats
sl_of st = record { total = st.total; interval = sent_of st.interval }

report_sent-report_received :
    (st : RtpStats) (frames : List (ℕ × Bool))
    → report_sent (sl_of st) frames
      ≡ (sl_of (report_received st frames).0, map sent_of (report_received st frames).1)
unfolding report_sent report_received count_received no_frames
report_sent-report_received st [] = refl
report_sent-report_received st ((len, true) ∷ rest) =
    let counted : SentThroughput = sent_of (count_received st.interval len) in
    ap (λ later. (later.0, counted ∷ later.1))
      (report_sent-report_received
        (record { total = (st.total + len) % 2 ^ 64; interval = no_frames }) rest)
report_sent-report_received st ((len, false) ∷ rest) =
    report_sent-report_received
      (record { total = (st.total + len) % 2 ^ 64; interval = count_received st.interval len }) rest

map-map :
    {A B C : Type 0} (g : B → C) (f : A → B) (xs : List A)
    → map g (map f xs) ≡ map (λ x. g (f x)) xs
map-map g f [] = refl
map-map g f (x ∷ xs) = ap (◌∷◌ (g (f x))) (map-map g f xs)

report_sent_lem :
    (frames : List (ℕ × Bool))
    → report_sent sl_stats_start frames ≡ (
      record {
        total = sum (lengths frames) % 2 ^ 64;
        interval = sent_summary (intervals [] frames).1;
      },
      map sent_summary (intervals [] frames).0,
    )
unfolding sl_stats_start rtp_stats_start no_frames
report_sent_lem frames =
    report_sent-report_received rtp_stats_start frames
    ∙ ap (λ r. (sl_of r.0, map sent_of r.1)) (report_received_lem frames)
    ∙ ap
        (λ reports. (
          record {
            total = sum (lengths frames) % 2 ^ 64;
            interval = sent_summary (intervals [] frames).1;
          },
          reports,
        ))
        (map-map sent_of summary (intervals [] frames).0)

-- What `rtp_to_sl` reports are the summaries of the complete intervals: the bytes and the number of
-- their frames, and the smallest and the largest frame; `sl_to_rtp` reports the same without the
-- sizes. What is left are the total of all frames and the summary of the interval that is not
-- complete. Bytes, frames and totals are modulo 2 ^ 64.
pub reports-summary :
    (frames : List (ℕ × Bool))
    → (report_received rtp_stats_start frames ≡ (
      record { total = sum (lengths frames) % 2 ^ 64; interval = summary (intervals [] frames).1 },
      map summary (intervals [] frames).0,
    ))
      × (report_sent sl_stats_start frames ≡ (
        record {
          total = sum (lengths frames) % 2 ^ 64;
          interval = sent_summary (intervals [] frames).1;
        },
        map sent_summary (intervals [] frames).0,
      ))
reports-summary frames = (report_received_lem frames, report_sent_lem frames)
