-- ===== src/Engine/Runs.antt =====
-- services/engine/engine.go: what holds after any number of ticks.
use fast_tv_playout_core.Base.{
  ℕ, ◌*◌, ◌≡◌, not, pos, refl, sym, ap, subst, ◌∙◌, Bool-cases, inl, inr, Option, none, some, List,
  [], ◌∷◌, String, ℤ, ltb_ℤ, All, All-append, ◌==◌,
}
use fast_tv_playout_core.Clock.{Instant, second, add, seconds, sub}
use fast_tv_playout_core.Config.{Config}
use fast_tv_playout_core.Model.{TimelineEntry}
use fast_tv_playout_core.Pods.{PodSource}
use fast_tv_playout_core.Plan.{segment}
use fast_tv_playout_core.Plan.Began.{HasBegun, build_plan-HasBegun}
use fast_tv_playout_core.Stitch.Add.{Handed, add_all}
use fast_tv_playout_core.Engine.{Engine, Answers, notifying_pods}
use fast_tv_playout_core.Engine.Tick.{
  truncate, reads_again, after_reading, read_schedule, Loop, hand_plan, plan_of, loop_of,
  after_loop, tick, run,
}
use fast_tv_playout_core.Engine.Handing.{Climbs, Climbs-append, add_all-append, hand_plan-IsHanding}

-- Reading the schedule leaves the stitcher and the last clip as they are.
abbrev pub Untouched : {S : Type 0} → Engine S → Engine S → Type 0
Untouched e e' = (e'.st ≡ e.st) × (e'.last_tried ≡ e.last_tried)

module _ {S : Type 0} (cfg : Config) (a : Answers) (now slot : Instant) (e : Engine S) where
  pub read_schedule-Untouched : Untouched e (read_schedule cfg a now slot e).0
  unfolding read_schedule
  read_schedule-Untouched = elim (Bool-cases (reads_again cfg now slot e)) [
    | inr n ↦ rw n (refl, refl)
    | inl y ↦ rw y (read (a.timeline slot (add slot (seconds cfg.preload_window_s))))
  ]
    where
      read : (o : Option (List TimelineEntry)) → Untouched e (after_reading cfg now slot o e).0
      read none =
          unfold after_reading in
          elim (Bool-cases (not (ltb_ℤ (sub now e.stale_at) (pos (30 * second))))) [
            | inl y ↦ rw y (refl, refl)
            | inr n ↦ rw n (refl, refl)
          ]
      read (some es) = unfold after_reading in (refl, refl)

module _ (parse : String → Option (List ℕ)) (seg_name : ℤ → String) {S : Type 0}
    (pods : PodSource S) (cfg : Config) where
  after_loop-Untouched :
      (a : Answers) (e : Engine S) (s : S) (l : Loop)
      → let e' = after_loop parse seg_name pods cfg a e s l in
        (e'.st ≡ l.st) × (e'.last_tried ≡ l.last_tried)
  after_loop-Untouched a e s l = elim (Bool-cases (l.appended == 0)) [
    | inl z ↦ rw z (refl, refl)
    | inr n ↦ elim (Bool-cases a.written) [
      | inl w ↦ rw (n, w) (refl, refl)
      | inr w ↦ rw (n, w) (refl, refl)
    ]
  ]

  -- What ticks do to an engine, with the clips they handed over.
  record IsRun (e e' : Engine S) (given : List Handed) : Type 0 where
    stitched : e'.st ≡ add_all parse seg_name cfg e.st given
    climbs : Climbs e.last_tried given e'.last_tried
    begun : All (λ h. HasBegun h.clip) given

  tick-IsRun :
      (now : Instant) (a : Answers) (e : Engine S)
      → let r = tick parse seg_name pods cfg now a e in IsRun e r.0 r.2
  unfolding tick plan_of
  tick-IsRun now a e =
      let slot = truncate now (segment cfg) in
      let read = (read_schedule cfg a now slot e).0 in
      let (same_st, same_tried) = read_schedule-Untouched cfg a now slot e in
      let p = plan_of parse seg_name pods cfg slot read in
      let l = loop_of parse seg_name pods cfg read in
      let r = hand_plan parse seg_name cfg a (add now (seconds cfg.live_lead_s)) p.0 l in
      let h = hand_plan-IsHanding parse seg_name cfg a (add now (seconds cfg.live_lead_s)) p.0 l in
      let (after_st, after_tried) = after_loop-Untouched a read p.1.pods r.0 in
      record {
        stitched = after_st ∙ h.stitched ∙ ap (λ s. add_all parse seg_name cfg s r.1) same_st;
        climbs =
            subst (λ t. Climbs e.last_tried r.1 t) (sym after_tried)
              (subst (λ t. Climbs t r.1 r.0.last_tried) same_tried h.climbs);
        begun = h.planned HasBegun (
            build_plan-HasBegun (notifying_pods pods) slot cfg read.entries
              (record { pods = read.pods; published = [] }));
      }

  run-IsRun :
      (ts : List (Instant × Answers)) (e : Engine S)
      → let r = run parse seg_name pods cfg ts e in IsRun e r.0 r.2
  unfolding run add_all Climbs
  run-IsRun [] e = record { stitched = refl; climbs = refl; begun = tt }
  run-IsRun (t ∷ ts) e =
      let r = tick parse seg_name pods cfg t.0 t.1 e in
      let h = tick-IsRun t.0 t.1 e in
      let k = run-IsRun ts r.0 in
      let rest = run parse seg_name pods cfg ts r.0 in
      record {
        stitched =
            k.stitched
            ∙ ap (λ s. add_all parse seg_name cfg s rest.2) h.stitched
            ∙ sym (add_all-append parse seg_name cfg e.st r.2 rest.2);
        climbs =
            Climbs-append e.last_tried r.0.last_tried rest.0.last_tried r.2 rest.2 h.climbs
              k.climbs;
        begun = All-append (λ x. HasBegun x.clip) r.2 rest.2 h.begun k.begun;
      }

-- The stitcher of an engine after some ticks is what adding the clips that were handed over, in order, makes of
-- the stitcher before; these clips start strictly one after the other, each later than the last one that was
-- tried before, and the last of them is remembered: no moment is handed over twice.
pub run-Climbs :
    (parse : String → Option (List ℕ)) (seg_name : ℤ → String) {S : Type 0} (pods : PodSource S)
    (cfg : Config) (ts : List (Instant × Answers)) (e : Engine S)
    → let r = run parse seg_name pods cfg ts e in
      Climbs e.last_tried r.2 r.0.last_tried × (r.0.st ≡ add_all parse seg_name cfg e.st r.2)
run-Climbs parse seg_name pods cfg ts e =
    let h = run-IsRun parse seg_name pods cfg ts e in (h.climbs, h.stitched)
