-- ===== src/Engine/Reaches.antt =====
-- services/engine/engine.go: a tick that keeps to its budget hands over every clip that is due.
use fast_tv_playout_core.Base.{
  ℕ, zero, suc, ◌+◌, ◌*◌, ◌^◌, ◌≤◌, ◌<◌, ◌≡◌, refl, Bool, true, false, ◌||◌, ◌==◌, Bool-cases, inl,
  inr, Option, List, [], ◌∷◌, length, String, ℤ, pos, ltb_ℤ, arith,
}
use fast_tv_playout_core.Clock.{Instant, second, add, seconds, seconds_pos}
use fast_tv_playout_core.Config.{Config}
use fast_tv_playout_core.Model.{ClipItem}
use fast_tv_playout_core.Pods.{PodSource}
use fast_tv_playout_core.Plan.{segment, plan_ahead, build_plan}
use fast_tv_playout_core.Plan.Laws.{Laid, build_plan-Laid}
use fast_tv_playout_core.Stitch.Add.{Handed}
use fast_tv_playout_core.Engine.{Engine, Answers, notifying_pods}
use fast_tv_playout_core.Engine.Tick.{
  truncate, read_schedule, Loop, is_skipped, hand_over, hand_plan, tick_budget, plan_of, loop_of,
  tick,
}
use fast_tv_playout_core.Engine.Runs.{read_schedule-Untouched}

-- A clip of a moment is among some clips.
unfoldable pub is_handed : Instant → List Handed → Bool
is_handed t [] = false
is_handed t (h ∷ hs) = h.clip.start_at == t || is_handed t hs

module _ (parse : String → Option (List ℕ)) (seg_name : ℤ → String) (cfg : Config) (a : Answers)
    (release : Instant) (one : cfg.segment_sec ≡ 1)
    (quick : (c : ClipItem) → ltb_ℤ tick_budget (a.elapsed c) ≡ false) where
  hand_plan-is_handed :
      (cs : List ClipItem) (ts t k : ℕ) (l : Loop)
      → Laid cfg ts cs
      → k < length cs
      → t ≡ ts + k * second
      → l.last_tried < t
      → t ≤ release
      → is_handed t (hand_plan parse seg_name cfg a release cs l).1 ≡ true
  unfolding hand_plan is_handed hand_over
  hand_plan-is_handed [] ts t k l laid h q above below = absurd (omega (arith, h))
  hand_plan-is_handed (c ∷ cs) ts t zero l laid h q above below =
      let due : is_skipped release l c ≡ false = ground (arith, laid.0.start, q, above, below) in
      rw (due, quick c) (ground (arith, laid.0.start, q))
  hand_plan-is_handed (c ∷ cs) ts t (suc k) l laid h q above below =
      let later : t ≡ ts + cfg.segment_sec * second + k * second = rw one (omega (arith, q)) in
      let go : (l' : Loop)
          → l'.last_tried < t
          → is_handed t (hand_plan parse seg_name cfg a release cs l').1 ≡ true =
        λ l' b.
          hand_plan-is_handed cs (ts + cfg.segment_sec * second) t k l' laid.1 (omega (arith, h))
            later b below in
      elim (Bool-cases (is_skipped release l c)) [
        | inl e ↦ rw e (go l above)
        | inr e ↦
            let next = go (hand_over parse seg_name cfg a c l) (omega (arith, laid.0.start, q)) in
            rw (e, quick c) (ground (arith, next))
      ]

truncate-within : (now : Instant) (cfg : Config) → truncate now (segment cfg) ≤ now
unfolding truncate
truncate-within now cfg = ground arith

-- For segments of a second, a look-ahead and a lead below 2^32 seconds, and any source of pods: a tick that
-- never passes its budget hands to the stitcher a clip for every second from the slot of the tick up to the
-- lead that is in the plan and is later than the last clip that was handed over.
pub tick-is_handed :
    (parse : String → Option (List ℕ)) (seg_name : ℤ → String) {S : Type 0} (pods : PodSource S)
    (cfg : Config) (now : Instant) (a : Answers) (e : Engine S) (ahead lead k : ℕ)
    → cfg.segment_sec ≡ 1
    → cfg.live_lead_s ≡ pos lead
    → lead < 2 ^ 32
    → plan_ahead cfg ≡ pos ahead
    → ahead < 2 ^ 32
    → ((c : ClipItem) → ltb_ℤ tick_budget (a.elapsed c) ≡ false)
    → k ≤ lead
    → k < ahead
    → e.last_tried < truncate now (segment cfg) + k * second
    → is_handed (truncate now (segment cfg) + k * second) (tick parse seg_name pods cfg now a e).2
      ≡ true
tick-is_handed parse seg_name pods cfg now a e ahead lead k one led near far small quick in_lead
      in_plan above =
    let slot = truncate now (segment cfg) in
    let read = (read_schedule cfg a now slot e).0 in
    let (same_st, same_tried) = read_schedule-Untouched cfg a now slot e in
    let (laid, at_most, enough) =
      build_plan-Laid (notifying_pods pods) cfg slot read.entries ahead lead
        (record { pods = read.pods; published = [] }) one led near far small in
    let release : add now (seconds cfg.live_lead_s) ≡ now + lead * second =
      rw (led, seconds_pos lead near) (omega arith) in
    unfold tick plan_of in
    hand_plan-is_handed parse seg_name cfg a (add now (seconds cfg.live_lead_s)) one quick
      (build_plan (notifying_pods pods) slot cfg read.entries
        (record { pods = read.pods; published = [] })).0
      slot (slot + k * second) k (loop_of parse seg_name pods cfg read) laid
      (elim enough [ inl w ↦ omega (arith, w, in_plan) | inr w ↦ omega (arith, w, in_lead) ]) refl
      (omega (arith, same_tried, above)) (omega (arith, release, truncate-within now cfg, in_lead))
