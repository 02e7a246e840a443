-- ===== src/Bridge/Relay/Stats.antt =====
-- bridge.rs: the statistics of both directions of `relay_media`. A frame is its length, with whether
-- two seconds have passed since the last report when it has been passed on. A usize has 64 bits.
pub mod Intervals
mod Tests
use slmodem_sip_bridge.Base.{
  ℕ, ◌+◌, ◌-◌, ◌%◌, ◌^◌, ◌<◌, min, List, [], ◌∷◌, ◌++◌, Bool, true, false, Option, none, some, ltb,
  map, if◌then◌else◌, length, ◌≡◌, refl, sym, ap, ◌∙◌, arith, append_assoc, append-nil,
}
use slmodem_sip_bridge.Text.Number.{u64_max}

abbrev pub max : ℕ → ℕ → ℕ
max a b = if ltb a b then b else a

-- What is reported of `rtp_to_sl`.
pub record Throughput : Type 0 where
  pub interval_bytes : ℕ
  pub frames : ℕ
  pub min_frame : ℕ
  pub max_frame : ℕ

unfoldable pub no_frames : Throughput
no_frames = record { interval_bytes = 0; frames = 0; min_frame = u64_max; max_frame = 0 }

pub record RtpStats : Type 0 where
  pub total : ℕ
  pub interval : Throughput

unfoldable pub count_received : Throughput → ℕ → Throughput
count_received i len = record {
  interval_bytes = (i.interval_bytes + len) % 2 ^ 64;
  frames = (i.frames + 1) % 2 ^ 64;
  min_frame = min i.min_frame len;
  max_frame = max i.max_frame len;
}

-- The counters over a sequence of frames, and the reports.
unfoldable pub report_received : RtpStats → List (ℕ × Bool) → RtpStats × List Throughput
report_received st [] = (st, [])
report_received st ((len, due) ∷ rest) =
    let counted = count_received st.interval len in
    let total = (st.total + len) % 2 ^ 64 in
    let later =
      report_received (record { total = total; interval = if due then no_frames else counted })
        rest in
    (later.0, if due then counted ∷ later.1 else later.1)

-- What is reported of `sl_to_rtp`.
pub record SentThroughput : Type 0 where
  pub interval_bytes : ℕ
  pub frames : ℕ

pub record SlStats : Type 0 where
  pub total : ℕ
  pub interval : SentThroughput

unfoldable pub report_sent : SlStats → List (ℕ × Bool) → SlStats × List SentThroughput
report_sent st [] = (st, [])
report_sent st ((len, due) ∷ rest) =
    let counted : SentThroughput = record {
      interval_bytes = (st.interval.interval_bytes + len) % 2 ^ 64;
      frames = (st.interval.frames + 1) % 2 ^ 64;
    } in
    let total = (st.total + len) % 2 ^ 64 in
    let next : SentThroughput =
      if due then record { interval_bytes = 0; frames = 0 } else counted in
    let later = report_sent (record { total = total; interval = next }) rest in
    (later.0, if due then counted ∷ later.1 else later.1)

unfoldable pub rtp_stats_start : RtpStats
unfolding no_frames
rtp_stats_start = record { total = 0; interval = no_frames }

unfoldable pub sl_stats_start : SlStats
sl_stats_start = record { total = 0; interval = record { interval_bytes = 0; frames = 0 } }
