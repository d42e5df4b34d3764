-- ===== src/Engine/Tick.antt =====
-- services/engine/engine.go: tick, in the order of the source; what is downloaded ahead of time is computed, but the
-- downloads are not modelled.
use fast_tv_playout_core.Base.{
  ℕ, suc, ◌-◌, ◌*◌, ◌%◌, ◌==◌, Bool, true, false, not, ◌&&◌, ◌||◌, Option, none, some, List, [],
  ◌∷◌, ◌++◌, map, if◌then◌else◌, is_nil, length, String, str_eq, ℤ, pos, ltb_ℤ, wrap64, ◌*ℤ◌,
  pos_part,
}
use fast_tv_playout_core.Clock.{
  Instant, Duration, second, is_zero, before, after, add, sub, seconds,
}
use fast_tv_playout_core.Config.{Config}
use fast_tv_playout_core.Model.{TimelineEntry, ClipItem}
use fast_tv_playout_core.Pods.{PodSource}
use fast_tv_playout_core.Plan.{segment, quant_seq, build_plan}
use fast_tv_playout_core.Failures.{SourceFailure, FailedAt, source_failed}
use fast_tv_playout_core.Announce.{Segment, announce}
use fast_tv_playout_core.Stitch.{SegmentMeta, Stitcher}
use fast_tv_playout_core.Stitch.Add.{Handed, add_clip}
use fast_tv_playout_core.Engine.{
  EngineEvent, schedule_stale, source_error, on_the_air, EngineState, Engine, Answers, Notifying,
  notifying_pods,
}

-- now.Truncate(d)
unfoldable pub truncate : Instant → Duration → Instant
truncate now d = if ltb_ℤ (pos 0) d then now - now % pos_part d else now

-- scheduleRefresh, prefetchAhead and tickBudget
abbrev pub schedule_refresh : Duration
schedule_refresh = pos 500000000

abbrev pub prefetch_ahead : Duration
prefetch_ahead = pos (10 * second)

abbrev pub tick_budget : Duration
tick_budget = pos second

abbrev pub read_ahead : Config → Duration
read_ahead cfg =
    if ltb_ℤ (pos 0) (seconds cfg.publish_ahead_s)
    then seconds cfg.publish_ahead_s
    else seconds cfg.preload_window_s

-- The schedule is read again.
abbrev pub reads_again : {S : Type 0} → Config → Instant → Instant → Engine S → Bool
reads_again cfg now slot e =
    is_zero e.entries_at
    || not (ltb_ℤ (sub now e.entries_at) schedule_refresh)
    || before e.entries_to (add slot (read_ahead cfg))

unfoldable pub after_reading :
    {S : Type 0}
    → Config
    → Instant
    → Instant
    → Option (List TimelineEntry)
    → Engine S
    → Engine S × List EngineEvent
after_reading cfg now slot none e =
    if not (ltb_ℤ (sub now e.stale_at) (pos (30 * second)))
    then (record e { stale_at = now }, schedule_stale e.entries_at ∷ [])
    else (e, [])
after_reading cfg now slot (some read) e = (
  record e {
    entries = read;
    entries_at = now;
    entries_to = add slot (seconds cfg.preload_window_s);
  },
  [],
)

unfoldable pub read_schedule :
    {S : Type 0} → Config → Answers → Instant → Instant → Engine S → Engine S × List EngineEvent
unfolding after_reading
read_schedule cfg a now slot e =
    if reads_again cfg now slot e
    then after_reading cfg now slot (a.timeline slot (add slot (seconds cfg.preload_window_s))) e
    else (e, [])

pub is_seen : String → ℤ → List ClipItem → Bool
is_seen uri offset [] = false
is_seen uri offset (c ∷ cs) =
    str_eq c.uri uri && not (ltb_ℤ c.offset_s offset || ltb_ℤ offset c.offset_s)
    || is_seen uri offset cs

-- The clips that are downloaded ahead of time; `seen` are those of them that came before.
unfoldable pub clips_to_prefetch : Instant → List ClipItem → List ClipItem → List ClipItem
unfolding is_seen
clips_to_prefetch prefetch_until seen [] = []
clips_to_prefetch prefetch_until seen (c ∷ cs) =
    let known = is_seen c.uri c.offset_s seen in
    let rest = clips_to_prefetch prefetch_until (if known then seen else c ∷ seen) cs in
    if after c.start_at prefetch_until then [] else if known then rest else c ∷ rest

-- fetchBudget
unfoldable pub fetch_budget : Config → Duration
fetch_budget cfg =
    let half = wrap64 (cfg.live_lead_s *ℤ pos 500) in
    let ms = if ltb_ℤ half (pos 300) then pos 300 else half in
    let ms' =
      if ltb_ℤ (pos 0) cfg.source_timeout_ms && ltb_ℤ cfg.source_timeout_ms ms
      then cfg.source_timeout_ms
      else ms in
    wrap64 (ms' *ℤ pos 1000000)

-- onFail: what is published of some failures.
unfoldable pub tell_failures : FailedAt → List SourceFailure → FailedAt × List EngineEvent
tell_failures m [] = (m, [])
tell_failures m (f ∷ fs) =
    let step = source_failed m f in
    let rest = tell_failures step.0 fs in
    (rest.0, if step.1 then source_error f ∷ rest.1 else rest.1)

-- What the loop over the plan changes.
pub record Loop : Type 0 where
  pub last_tried : Instant
  pub st : Stitcher
  pub failed_at : FailedAt
  pub published : List EngineEvent
  pub appended : ℕ

abbrev pub handed : Config → Answers → ClipItem → Handed
handed cfg a c = record { clip = c; prepare = a.prepare (fetch_budget cfg) c; disk = a.disk c }

-- A clip that is not released by this tick.
abbrev pub is_skipped : Instant → Loop → ClipItem → Bool
is_skipped release l c = after c.start_at release || not (after c.start_at l.last_tried)

-- Parameters: reading a message from text, and the names of the files of segments.
module _ (parse : String → Option (List ℕ)) (seg_name : ℤ → String) (cfg : Config)
    (a : Answers) where
  unfoldable pub hand_over : ClipItem → Loop → Loop
  unfolding tell_failures
  hand_over c l =
      let h = handed cfg a c in
      let r = add_clip parse seg_name h.prepare cfg h.disk l.st c in
      let told = tell_failures l.failed_at r.1 in
      record {
        last_tried = c.start_at;
        st = r.2;
        failed_at = told.0;
        published = l.published ++ told.1;
        appended = if r.0 then suc l.appended else l.appended;
      }

  -- The loop over the plan, and the clips that it handed over.
  unfoldable pub hand_plan : Instant → List ClipItem → Loop → Loop × List Handed
  unfolding hand_over
  hand_plan release [] l = (l, [])
  hand_plan release (c ∷ cs) l =
      let skip = is_skipped release l c in
      let rest = hand_plan release cs (if skip then l else hand_over c l) in
      if skip
      then rest
      else if ltb_ℤ tick_budget (a.elapsed c)
      then (l, [])
      else (rest.0, handed cfg a c ∷ rest.1)

-- writePlaylist
abbrev pub write_playlist : {S : Type 0} → Answers → Engine S → Engine S
write_playlist a e =
    if a.written
    then record e { ready = true; status = record e.status { last_playlist_at = a.clock } }
    else e

abbrev pub shown_segment : SegmentMeta → Segment
shown_segment it = record {
  program_date_time = it.program_date_time;
  kind = it.kind;
  title = it.title;
  entry_start = it.entry_start;
  break_start = it.break_start;
  break_dur_s = it.break_dur_s;
}

pub gaps_of : List ClipItem → ℕ
gaps_of [] = 0
gaps_of (it ∷ plan) = if str_eq it.type "slate" then suc (gaps_of plan) else gaps_of plan

pub ad_state_of : List ClipItem → String → String
ad_state_of [] state = state
ad_state_of (it ∷ plan) state = ad_state_of plan (if str_eq it.type "ad" then "ad" else state)

unfoldable pub status_of :
    {S : Type 0} → Config → Answers → Instant → List ClipItem → Engine S → EngineState
unfolding gaps_of ad_state_of
status_of cfg a slot plan e = record e.status {
  now_seq = quant_seq slot cfg.segment_sec;
  window_len = length plan;
  gaps = gaps_of plan;
  ad_state = ad_state_of plan "none";
  segments = length e.st.win.items;
  last_timeline_at = if is_nil e.entries then e.status.last_timeline_at else a.clock;
}

module _ (parse : String → Option (List ℕ)) (seg_name : ℤ → String) {S : Type 0}
    (pods : PodSource S) (cfg : Config) where
  -- The plan of a tick, with what it does to the source of the pods.
  unfoldable pub plan_of : Instant → Engine S → List ClipItem × Notifying S
  plan_of slot e =
      let p =
        build_plan (notifying_pods pods) slot cfg e.entries
          (record { pods = e.pods; published = [] }) in
      (p.0, (notifying_pods pods).evict slot p.1)

  abbrev pub loop_of : Engine S → Loop
  loop_of e = record {
    last_tried = e.last_tried;
    st = e.st;
    failed_at = e.failed_at;
    published = [];
    appended = 0;
  }

  abbrev pub after_loop : Answers → Engine S → S → Loop → Engine S
  after_loop a e s l =
      let e' : Engine S = record e {
        pods = s;
        last_tried = l.last_tried;
        st = l.st;
        failed_at = l.failed_at;
      } in
      if l.appended == 0 then e' else write_playlist a e'

  -- tick: the engine, what it published, and the clips that it handed to the stitcher.
  unfoldable pub tick : Instant → Answers → Engine S → Engine S × List EngineEvent × List Handed
  unfolding hand_plan
  tick now a e =
      let slot = truncate now (segment cfg) in
      let read = read_schedule cfg a now slot e in
      let p = plan_of slot read.0 in
      let loop =
        hand_plan parse seg_name cfg a (add now (seconds cfg.live_lead_s)) p.0 (loop_of read.0) in
      let e' = after_loop a read.0 p.1.pods loop.0 in
      let aired = announce now (map shown_segment e'.st.win.items) e'.announcer in
      (
        record e' { announcer = aired.0; status = status_of cfg a slot p.0 e' },
        read.1 ++ (p.1.published ++ (loop.0.published ++ map on_the_air aired.1)),
        loop.1,
      )

  -- run: one tick after the other.
  unfoldable pub run :
      List (Instant × Answers) → Engine S → Engine S × List EngineEvent × List Handed
  unfolding tick
  run [] e = (e, [], [])
  run (t ∷ ts) e =
      let r = tick t.0 t.1 e in let rest = run ts r.0 in (rest.0, r.1 ++ rest.1, r.2 ++ rest.2)
