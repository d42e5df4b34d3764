-- ===== src/Plan/Tests.antt =====
-- A channel without ad pods: its schedule has a movie and a break.
use fast_tv_playout_core.Base.{
  ℕ, ◌+◌, ◌-◌, ◌*◌, ◌<◌, ◌≤◌, ◌≡◌, ◌/◌, ◌%◌, ◌^◌, refl, List, [], ◌∷◌, arith, String, ℤ, pos,
  length, pos_part, quot, Option, some, ◌⊎◌,
}
use fast_tv_playout_core.Clock.{second, Instant}
use fast_tv_playout_core.Model.{TimelineEntry, AdItem, ClipItem}
use fast_tv_playout_core.Config.{Config}
use fast_tv_playout_core.Pods.{PodSource, ready}
use fast_tv_playout_core.Plan.{
  build_ad_break_quanta, build_plan, plan_entry, find_entry, finish_clip,
}
use fast_tv_playout_core.Plan.Quanta.{length-build_ad_break_quanta}
use fast_tv_playout_core.Plan.Laws.{Laid, build_plan-Laid}
use fast_tv_playout_core.Plan.Shows.{plan_entry-playing}
use fast_tv_playout_core.Schedule.Air.{Picture, IsSound, playing}

abbrev channel : Config
channel = record {
  segment_sec = 1;
  channel_id = "c1";
  variant_id = "v1";
  slate_uri = "slate.mp4";
  publish_ahead_s = pos 5;
  preload_window_s = pos 60;
  live_lead_s = pos 2;
  playlist_window_max = pos 10;
  retain_s = pos 30;
  scte35_tags = "";
  source_timeout_ms = pos 1000;
}

abbrev no_ads : PodSource Unit
no_ads = record {
  pod = λ e due s. record { items = []; state = ready; source = s };
  give_up = λ at s. s;
  evict = λ at s. s;
}

abbrev movie : TimelineEntry
movie = record {
  type = "content";
  asset_id = "film";
  uri = "film.mp4";
  start = 1000 * second;
  duration_s = pos 100;
  offset_s = pos 7;
  category = "";
  scte35 = "";
}

abbrev break_of_three : TimelineEntry
break_of_three = record movie { type = "ad_break"; duration_s = pos 3 }

abbrev spot : AdItem
spot = record { uri = "ad.mp4"; duration_s = pos 5; creative_id = "ad"; type = "ad" }

length-build_ad_break_quanta_example :
    length (build_ad_break_quanta break_of_three (spot ∷ []) channel) ≡ pos_part (quot (pos 3) 1)
length-build_ad_break_quanta_example =
    length-build_ad_break_quanta break_of_three (spot ∷ []) channel

build_plan-Laid_example :
    let clips = (build_plan no_ads (1000 * second) channel (movie ∷ []) tt).0 in
    Laid channel (1000 * second) clips
    × (length clips ≤ 5)
    × ((length clips ≡ 5) ⊎ (2 < length clips))
build_plan-Laid_example =
    build_plan-Laid no_ads channel (1000 * second) (movie ∷ []) 5 2 tt refl refl (omega arith) refl
      (omega arith)

movie-sound : IsSound movie
movie-sound = record {
  whole = refl;
  duration = refl;
  positive = omega arith;
  short = omega arith;
  offset = refl;
  near = omega arith;
}

abbrev shown : Picture
shown = record { uri = "film.mp4"; asset_id = "film"; type = "content"; position = 11 * second }

plan_entry-playing_example :
    (c : ClipItem) × ((plan_entry no_ads channel
        (1000 * second)
        (1004 * second)
        (find_entry (1004 * second) (movie ∷ []))
        tt)
      ≡ (some c, tt))
    × (let f = finish_clip (1004 * second) "" c in
        (f.type ≡ "content") × (f.uri ≡ "film.mp4") × (f.offset_s ≡ pos (11 * second / second)))
unfolding playing fast_tv_playout_core.Schedule.end_of fast_tv_playout_core.Clock.seconds
    fast_tv_playout_core.Base.wrap64 fast_tv_playout_core.Base.◌*ℤ◌
plan_entry-playing_example =
    plan_entry-playing no_ads channel (1000 * second) (1004 * second) (movie ∷ []) tt "" shown
      (omega arith, movie-sound, tt) refl refl refl
