-- ===== src/Config.antt =====
-- pkg/config/config.go: the settings that the modelled parts read. The length of a segment is a constant of the
-- program (SegmentSec = 1); here it is a setting of its own, so that what depends on it shows.
use fast_tv_playout_core.Base.{ℕ, String, ℤ}

-- config.SegmentSec
abbrev pub segment_length : ℕ
segment_length = 1

pub record Config : Type 0 where
  pub segment_sec : ℕ
  pub channel_id : String
  pub variant_id : String
  pub slate_uri : String
  pub publish_ahead_s : ℤ
  pub preload_window_s : ℤ
  pub live_lead_s : ℤ
  pub playlist_window_max : ℤ
  pub retain_s : ℤ
  pub scte35_tags : String
  pub source_timeout_ms : ℤ
