-- ===== src/Bridge/Relay/Stats/Tests.antt =====
-- Three frames with one report.
use slmodem_sip_bridge.Base.{ℕ, ◌%◌, ◌^◌, List, [], ◌∷◌, true, false, Bool, map, ◌≡◌}
use slmodem_sip_bridge.Bridge.Relay.Stats.{
  report_received, rtp_stats_start, report_sent, sl_stats_start,
}
use slmodem_sip_bridge.Bridge.Relay.Stats.Intervals.{
  intervals, sum, lengths, summary, sent_summary, reports-summary,
}

abbrev frames : List (ℕ × Bool)
frames = (160, false) ∷ (80, true) ∷ (20, false) ∷ []

reports-summary_example :
    (report_received rtp_stats_start frames ≡ (
      record { total = sum (lengths frames) % 2 ^ 64; interval = summary (intervals [] frames).1 },
      map summary (intervals [] frames).0,
    ))
    × (report_sent sl_stats_start frames ≡ (
      record {
        total = sum (lengths frames) % 2 ^ 64;
        interval = sent_summary (intervals [] frames).1;
      },
      map sent_summary (intervals [] frames).0,
    ))
reports-summary_example = reports-summary frames
