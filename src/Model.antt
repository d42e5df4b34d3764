-- ===== src/Model.antt =====
-- pkg/models/models.go: what the parts of the program hand to one another.
use fast_tv_playout_core.Base.{String, ℤ, Bool}
use fast_tv_playout_core.Clock.{Instant}

pub record TimelineEntry : Type 0 where
  pub type : String
  pub asset_id : String
  pub uri : String
  pub start : Instant
  pub duration_s : ℤ
  pub offset_s : ℤ
  pub category : String
  pub scte35 : String

pub record AdItem : Type 0 where
  pub uri : String
  pub duration_s : ℤ
  pub creative_id : String
  pub type : String

pub record ClipItem : Type 0 where
  pub seq : ℤ
  pub uri : String
  pub start_at : Instant
  pub duration_s : ℤ
  pub offset_s : ℤ
  pub discontinuity : Bool
  pub type : String
  pub title : String
  pub entry_start : Instant
  pub break_start : Instant
  pub break_dur_s : ℤ
  pub scte35 : String
