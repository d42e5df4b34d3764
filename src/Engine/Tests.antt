-- ===== src/Engine/Tests.antt =====
-- A channel without ad pods, from its first tick.
use fast_tv_playout_core.Base.{
  ℕ, ◌+◌, ◌*◌, ◌≡◌, refl, true, false, Option, none, some, List, [], ◌∷◌, String, ℤ, pos, inr,
  arith, wrap64, ◌*ℤ◌,
}
use fast_tv_playout_core.Clock.{Instant, second, seconds}
use fast_tv_playout_core.Config.{Config}
use fast_tv_playout_core.Model.{TimelineEntry}
use fast_tv_playout_core.Pods.{PodSource, ready}
use fast_tv_playout_core.Plan.{segment}
use fast_tv_playout_core.Stitch.{SegmentMeta}
use fast_tv_playout_core.Stitch.Add.{add_all}
use fast_tv_playout_core.Engine.{Answers, Engine, new_engine}
use fast_tv_playout_core.Engine.Tick.{truncate, tick, run, fetch_budget}
use fast_tv_playout_core.Engine.Handing.{Climbs}
use fast_tv_playout_core.Engine.Runs.{run-Climbs}
use fast_tv_playout_core.Engine.Reaches.{is_handed, tick-is_handed}

abbrev channel : Config
channel = record {
  segment_sec = 1;
  channel_id = "c1";
  variant_id = "v1";
  slate_uri = "slate.m3u8";
  publish_ahead_s = pos 5;
  preload_window_s = pos 60;
  live_lead_s = pos 2;
  playlist_window_max = pos 10;
  retain_s = pos 30;
  scte35_tags = "both";
  source_timeout_ms = pos 1000;
}

abbrev no_ads : PodSource Unit
no_ads = record {
  pod = λ e due s. record { items = []; state = ready; source = s };
  give_up = λ at s. s;
  evict = λ at s. s;
}

abbrev break_of_three : TimelineEntry
break_of_three = record {
  type = "ad_break";
  asset_id = "";
  uri = "";
  start = 1000 * second;
  duration_s = pos 3;
  offset_s = pos 0;
  category = "";
  scte35 = "";
}

abbrev segment_at : ℤ → SegmentMeta
segment_at at = record {
  seq = pos 0;
  duration = 0;
  program_date_time = 0;
  discontinuity = false;
  tags = [];
  avail_start = 0;
  avail_dur = pos 0;
  kind = "";
  title = "";
  entry_start = 0;
  break_start = 0;
  break_dur_s = pos 0;
  uri = record { variant = ""; name = "" };
  map_uri = record { variant = ""; name = "" };
  src = "slate.m3u8";
  idx = at;
}

-- Everything answers at once.
abbrev at_once : Answers
at_once = record {
  timeline = λ from to. some (break_of_three ∷ []);
  elapsed = λ c. pos 0;
  prepare = λ budget c uri at loop now. inr (record {
    meta = segment_at at;
    seg = 1 ∷ [];
    init = 2 ∷ [];
    init_name = "init_a.mp4";
    slate = false;
  });
  disk = λ c. record { directory = true; init = true; segment = true };
  written = true;
  clock = 1000 * second;
}

abbrev no_message : String → Option (List ℕ)
no_message text = none

abbrev seg_name : ℤ → String
seg_name n = "seg.m4s"

abbrev fresh : Engine Unit
fresh = new_engine channel [] tt

abbrev two_ticks : List (Instant × Answers)
two_ticks = (1000 * second, at_once) ∷ (1000 * second + 250000000, at_once) ∷ []

run-Climbs_example :
    let r = run no_message seg_name no_ads channel two_ticks fresh in
    Climbs fresh.last_tried r.2 r.0.last_tried
    × (r.0.st ≡ add_all no_message seg_name channel fresh.st r.2)
run-Climbs_example = run-Climbs no_message seg_name no_ads channel two_ticks fresh

fresh_tried : fresh.last_tried ≡ 0
unfolding new_engine
fresh_tried = refl

slot_of : truncate (1000 * second + 250000000) (segment channel) ≡ 1000 * second
unfolding truncate seconds wrap64 ◌*ℤ◌
slot_of = refl

tick-is_handed_example :
    is_handed
      (truncate (1000 * second + 250000000) (segment channel) + 2 * second)
      (tick no_message seg_name no_ads channel (1000 * second + 250000000) at_once fresh).2
    ≡ true
tick-is_handed_example =
    tick-is_handed no_message seg_name no_ads channel (1000 * second + 250000000) at_once fresh 5 2
      2 refl refl (omega arith) refl (omega arith) (λ c. refl) (omega arith) (omega arith)
      (omega (arith, slot_of, fresh_tried))

-- Half of a lead of two seconds.
budget : fetch_budget channel ≡ pos second
unfolding fetch_budget wrap64 ◌*ℤ◌
budget = refl
