-- ===== src/Plan.antt =====
-- services/engine/plan.go: the clips of the next seconds, from the schedule and the ad pods.
pub mod Quanta
pub mod Laws
pub mod Shows
pub mod Began
mod Tests
use fast_tv_playout_core.Base.{
  ℕ, zero, suc, ◌+◌, ◌-◌, ◌*◌, ◌/◌, ◌≡◌, Bool, true, false, not, ◌&&◌, ◌||◌, Option, none, some,
  List, [], ◌∷◌, ◌++◌, ltb, leb, String, str_eq, if◌then◌else◌, ℤ, pos, pos_part, sub_ℕ, ltb_ℤ,
  quot, wrap64, ◌+ℤ◌, ◌-ℤ◌, length, get_elem?, replicate, take,
}
use fast_tv_playout_core.Clock.{
  Instant, Duration, second, before, after, add, seconds, sub, unix, minus,
}
use fast_tv_playout_core.Model.{TimelineEntry, AdItem, ClipItem}
use fast_tv_playout_core.Config.{Config}
use fast_tv_playout_core.Pods.{PodState, ready, pending, failed, PodAnswer, PodSource}

abbrev pub segment : Config → Duration
segment cfg = seconds (pos cfg.segment_sec)

-- findEntry: the first entry that covers the moment.
unfoldable pub find_entry : Instant → List TimelineEntry → Option TimelineEntry
find_entry ts [] = none
find_entry ts (e ∷ es) =
    if not (before ts e.start) && before ts (add e.start (seconds e.duration_s))
    then some e
    else find_entry ts es

unfoldable pub quant_seq : Instant → ℕ → ℤ
quant_seq ts seg = quot (unix ts) seg

-- The slices of one item of a pod.
pub item_quanta : ℕ → AdItem → ℕ → ℕ → List ClipItem
item_quanta seg it i zero = []
item_quanta seg it i (suc n) =
    record {
      seq = pos 0;
      uri = it.uri;
      start_at = 0;
      duration_s = pos seg;
      offset_s = pos (i * seg);
      discontinuity = false;
      type = "ad";
      title = it.creative_id;
      entry_start = 0;
      break_start = 0;
      break_dur_s = pos 0;
      scte35 = "";
    }
    ∷ item_quanta seg it (suc i) n

pub pod_quanta : ℕ → List AdItem → List ClipItem
unfolding item_quanta
pod_quanta seg [] = []
pod_quanta seg (it ∷ items) =
    item_quanta seg it 0 (pos_part (quot it.duration_s seg)) ++ pod_quanta seg items

pub slate_quantum : Config → ClipItem
slate_quantum cfg = record {
  seq = pos 0;
  uri = cfg.slate_uri;
  start_at = 0;
  duration_s = pos cfg.segment_sec;
  offset_s = pos 0;
  discontinuity = false;
  type = "slate";
  title = "";
  entry_start = 0;
  break_start = 0;
  break_dur_s = pos 0;
  scte35 = "";
}

pub mark_first : List ClipItem → List ClipItem
mark_first [] = []
mark_first (c ∷ cs) = record c { discontinuity = true } ∷ cs

-- buildAdBreakQuanta. The break lasts a positive time, since it covers the moment of a clip.
unfoldable pub build_ad_break_quanta : TimelineEntry → List AdItem → Config → List ClipItem
unfolding pod_quanta slate_quantum mark_first
build_ad_break_quanta br items cfg =
    let total = pos_part (quot br.duration_s cfg.segment_sec) in
    let out = pod_quanta cfg.segment_sec items in
    mark_first (take total (out ++ replicate (total - length out) (slate_quantum cfg)))

-- The clip of a moment before its type is known.
pub blank : Config → Instant → ClipItem
blank cfg ts = record {
  seq = quant_seq ts cfg.segment_sec;
  uri = "";
  start_at = ts;
  duration_s = pos cfg.segment_sec;
  offset_s = pos 0;
  discontinuity = false;
  type = "";
  title = "";
  entry_start = 0;
  break_start = 0;
  break_dur_s = pos 0;
  scte35 = "";
}

pub slate_clip : Config → Instant → ClipItem
unfolding blank
slate_clip cfg ts = record (blank cfg ts) { type = "slate"; uri = cfg.slate_uri }

pub program_clip : Config → Instant → TimelineEntry → ClipItem
unfolding blank
program_clip cfg ts e = record (blank cfg ts) {
  type = e.type;
  uri = e.uri;
  title = if str_eq e.asset_id "" then e.uri else e.asset_id;
  entry_start = e.start;
  offset_s = wrap64 (quot (sub ts e.start) second +ℤ e.offset_s);
}

-- The clip of a break: breakItems[idx], or the slate past its end.
pub break_clip : Config → Instant → TimelineEntry → List AdItem → ClipItem
unfolding slate_clip build_ad_break_quanta
break_clip cfg ts e items =
    elim (get_elem? (build_ad_break_quanta e items cfg)
      (pos_part (sub ts e.start) / pos_part (segment cfg))) [
        | none ↦ slate_clip cfg ts
        | some c ↦ record c {
          seq = quant_seq ts cfg.segment_sec;
          start_at = ts;
          duration_s = pos cfg.segment_sec;
          entry_start = e.start;
          break_start = e.start;
          break_dur_s = e.duration_s;
          scte35 = e.scte35;
        }
      ]

-- A clip that is released now.
abbrev pub is_due : Config → Instant → Instant → Bool
is_due cfg now ts = not (after ts (add now (seconds cfg.live_lead_s)))

module _ {S : Type 0} (pods : PodSource S) (cfg : Config) (now : Instant) where
  -- The case of an ad break: no clip is the return of a plan that waits for its pod.
  pub plan_break : Instant → TimelineEntry → S → Option ClipItem × S
  plan_break ts e s =
      let answer = pods.pod e (is_due cfg now ts) s in
      elim answer.state [
        | ready ↦ (some (break_clip cfg ts e answer.items), answer.source)
        | _ ↦
            if is_due cfg now ts
            then (some (break_clip cfg ts e []), pods.give_up e.start answer.source)
            else (none, answer.source)
      ]

  pub plan_entry : Instant → Option TimelineEntry → S → Option ClipItem × S
  plan_entry ts none s = (some (slate_clip cfg ts), s)
  plan_entry ts (some e) s =
      if str_eq e.type "content" || str_eq e.type "bumper"
      then (some (program_clip cfg ts e), s)
      else if str_eq e.type "ad_break"
      then plan_break ts e s
      else (some (slate_clip cfg ts), s)

-- What the loop does to a clip before it keeps it.
pub finish_clip : Instant → String → ClipItem → ClipItem
finish_clip ts prev c =
    let slate = str_eq c.type "slate" in
    let edge =
      not (str_eq prev "ad") && str_eq c.type "ad"
      || str_eq prev "ad" && not (str_eq c.type "ad") in
    record c {
      offset_s = if slate then unix ts else c.offset_s;
      title = if slate then "slate" else c.title;
      discontinuity = edge || c.discontinuity;
    }

module _ {S : Type 0} (pods : PodSource S) (cfg : Config) (now : Instant)
    (entries : List TimelineEntry) (end : Instant) where
  -- The loop, on fuel: out of it, the plan stops.
  pub plan_loop : ℕ → Instant → String → S → List ClipItem × S
  plan_loop zero ts prev s = ([], s)
  plan_loop (suc fuel) ts prev s =
      if after ts (add end (minus (segment cfg)))
      then ([], s)
      else let (planned, s') = plan_entry pods cfg now ts (find_entry ts entries) s in
        elim planned [
          | none ↦ ([], s')
          | some item ↦
              let clip = finish_clip ts prev item in
              let rest = plan_loop fuel (add ts (segment cfg)) clip.type s' in
              (clip ∷ rest.0, rest.1)
        ]

abbrev pub plan_ahead : Config → ℤ
plan_ahead cfg =
    if ltb_ℤ (pos 0) cfg.publish_ahead_s then cfg.publish_ahead_s else cfg.preload_window_s

unfoldable pub build_plan :
    {S : Type 0} → PodSource S → Instant → Config → List TimelineEntry → S → List ClipItem × S
unfolding plan_loop
build_plan pods now cfg entries s =
    plan_loop pods cfg now entries (add now (seconds (plan_ahead cfg))) (pos_part (plan_ahead cfg))
      now "" s
