-- ===== src/Engine.antt =====
-- services/engine/engine.go: one tick of the engine, and notifyingPods of services/engine/events.go.
pub mod Tick
pub mod Handing
pub mod Runs
pub mod Reaches
mod Tests
use fast_tv_playout_core.Base.{
  ℕ, zero, suc, ◌+◌, ◌-◌, ◌*◌, ◌%◌, ◌==◌, Bool, true, false, not, ◌&&◌, ◌||◌, Option, none, some,
  List, [], ◌∷◌, ◌++◌, map, if◌then◌else◌, is_nil, length, String, str_eq, ℤ, pos, ltb_ℤ, wrap64,
  ◌*ℤ◌, pos_part,
}
use fast_tv_playout_core.Clock.{
  Instant, Duration, second, is_zero, before, after, add, sub, seconds,
}
use fast_tv_playout_core.Config.{Config}
use fast_tv_playout_core.Model.{TimelineEntry, ClipItem}
use fast_tv_playout_core.Pods.{PodSource}
use fast_tv_playout_core.Plan.{segment, quant_seq, build_plan}
use fast_tv_playout_core.Failures.{SourceFailure, FailedAt, source_failed}
use fast_tv_playout_core.Announce.{Segment, Notice, Announcer, announce}
use fast_tv_playout_core.Stitch.{SegmentMeta, Stitcher, new_stitcher}
use fast_tv_playout_core.Stitch.Files.{Disk}
use fast_tv_playout_core.Stitch.Add.{Prepare, Handed, add_clip}

-- What the engine publishes, without engine.started.
pub data EngineEvent : Type 0 where
  schedule_stale : Instant → EngineEvent
  ads_fallback : Instant → EngineEvent
  source_error : SourceFailure → EngineEvent
  on_the_air : Notice → EngineEvent

-- engineState
pub record EngineState : Type 0 where
  pub now_seq : ℤ
  pub window_len : ℕ
  pub last_timeline_at : Instant
  pub ad_state : String
  pub gaps : ℕ
  pub segments : ℕ
  pub last_playlist_at : Instant

-- engine: the fields that change, for a source of pods with some state.
pub record Engine (S : Type 0) : Type 0 where
  pub entries : List TimelineEntry
  pub entries_at : Instant
  pub entries_to : Instant
  pub last_tried : Instant
  pub st : Stitcher
  pub pods : S
  pub announcer : Announcer
  pub failed_at : FailedAt
  pub stale_at : Instant
  pub ready : Bool
  pub status : EngineState

-- newEngine, on a directory with some files
pub new_engine : {S : Type 0} → Config → List String → S → Engine S
new_engine cfg files pods = record {
  entries = [];
  entries_at = 0;
  entries_to = 0;
  last_tried = 0;
  st = new_stitcher cfg files;
  pods = pods;
  announcer = record {
    announced_to = 0;
    on_air = record { kind = ""; title = ""; entry = 0; brk = 0 };
  };
  failed_at = [];
  stale_at = 0;
  ready = false;
  status = record {
    now_seq = pos 0;
    window_len = 0;
    last_timeline_at = 0;
    ad_state = "";
    gaps = 0;
    segments = 0;
    last_playlist_at = 0;
  };
}

-- What the schedule, the sources, the clock and the file system answer during a tick.
pub record Answers : Type 0 where
  -- GetTimelineRange, none where it fails
  pub timeline : Instant → Instant → Option (List TimelineEntry)
  -- time.Since(started) when the turn of a clip comes
  pub elapsed : ClipItem → Duration
  -- what the resolver gives within a budget
  pub prepare : Duration → ClipItem → Prepare
  pub disk : ClipItem → Disk
  -- whether the playlist could be written
  pub written : Bool
  -- time.Now()
  pub clock : Instant

-- notifyingPods: the source of pods, and what was published.
pub record Notifying (S : Type 0) : Type 0 where
  pub pods : S
  pub published : List EngineEvent

abbrev pub notifying_pods : {S : Type 0} → PodSource S → PodSource (Notifying S)
notifying_pods p = record {
  pod = λ e due n.
      let a = p.pod e due n.pods in
      record { items = a.items; state = a.state; source = record n { pods = a.source } };
  give_up = λ start n. record {
    pods = p.give_up start n.pods;
    published = n.published ++ (ads_fallback start ∷ []);
  };
  evict = λ now n. record n { pods = p.evict now n.pods };
}
