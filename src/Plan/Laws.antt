-- ===== src/Plan/Laws.antt =====
-- The plan as a whole: its clips stand one segment after another, and it holds back only what is not due.
use fast_tv_playout_core.Base.{
  ℕ, zero, suc, ◌+◌, ◌-◌, ◌*◌, ◌^◌, ◌≤◌, ◌<◌, ◌≡◌, refl, ap, subst, ◌≢◌, ◌⊎◌, inl, inr, true, false,
  ◌||◌, Option, none, some, List, [], ◌∷◌, arith, pos, length, String, str_eq, Bool-cases,
  Option-cases, wrap64_minus, dec_lt,
}
use fast_tv_playout_core.Clock.{Instant, second, seconds_pos, minus, add, after}
use fast_tv_playout_core.Model.{TimelineEntry, AdItem, ClipItem}
use fast_tv_playout_core.Config.{Config}
use fast_tv_playout_core.Pods.{PodSource}
use fast_tv_playout_core.Plan.{
  segment, find_entry, quant_seq, build_plan, plan_loop, plan_entry, plan_break, plan_ahead,
  finish_clip, break_clip, program_clip, slate_clip, is_due,
}

-- Clips of one segment each, without a hole, from a moment; a clip is numbered by its moment.
pub record IsClipOf (cfg : Config) (ts : Instant) (c : ClipItem) : Type 0 where
  pub start : c.start_at ≡ ts
  pub numbered : c.seq ≡ quant_seq ts cfg.segment_sec
  pub long : c.duration_s ≡ pos cfg.segment_sec

abbrev pub Laid : Config → Instant → List ClipItem → Type 0
Laid cfg ts [] = Unit {0}
Laid cfg ts (c ∷ cs) = IsClipOf cfg ts c × Laid cfg (ts + cfg.segment_sec * second) cs

slate_clip-IsClipOf : (cfg : Config) (ts : ℕ) → IsClipOf cfg ts (slate_clip cfg ts)
unfolding slate_clip
slate_clip-IsClipOf cfg ts = record { start = refl; numbered = refl; long = refl }

program_clip-IsClipOf :
    (cfg : Config) (ts : ℕ) (e : TimelineEntry) → IsClipOf cfg ts (program_clip cfg ts e)
unfolding program_clip
program_clip-IsClipOf cfg ts e = record { start = refl; numbered = refl; long = refl }

break_clip-IsClipOf :
    (cfg : Config) (ts : ℕ) (e : TimelineEntry) (items : List AdItem)
    → IsClipOf cfg ts (break_clip cfg ts e items)
unfolding break_clip
break_clip-IsClipOf cfg ts e items = record {
  start = ground arith;
  numbered = ground arith;
  long = ground arith;
}

finish_clip-IsClipOf :
    (cfg : Config) (ts : ℕ) (prev : String) (c : ClipItem)
    → IsClipOf cfg ts c
    → IsClipOf cfg ts (finish_clip ts prev c)
unfolding finish_clip
finish_clip-IsClipOf cfg ts prev c i = record {
  start = i.start;
  numbered = i.numbered;
  long = i.long;
}

module _ {S : Type 0} (pods : PodSource S) (cfg : Config) (now : Instant) where
  plan_break-IsClipOf :
      (ts : ℕ) (e : TimelineEntry) (s : S) (c : ClipItem)
      → (plan_break pods cfg now ts e s).0 ≡ some c
      → IsClipOf cfg ts c
  unfolding plan_break
  plan_break-IsClipOf ts e s c h =
      let answer = pods.pod e (is_due cfg now ts) s in
      let a = break_clip-IsClipOf cfg ts e answer.items in
      let b = break_clip-IsClipOf cfg ts e [] in
      record {
        start = ground (arith, a.start, b.start);
        numbered = ground (arith, a.numbered, b.numbered);
        long = ground (arith, a.long, b.long);
      }

  plan_entry-IsClipOf :
      (ts : ℕ) (e : Option TimelineEntry) (s : S) (c : ClipItem)
      → (plan_entry pods cfg now ts e s).0 ≡ some c
      → IsClipOf cfg ts c
  unfolding plan_entry
  plan_entry-IsClipOf ts none s c h =
      subst (IsClipOf cfg ts) (ground arith) (slate_clip-IsClipOf cfg ts)
  plan_entry-IsClipOf ts (some e) s c h =
      elim (Bool-cases (str_eq e.type "content" || str_eq e.type "bumper")) [
        | inl p ↦ subst (IsClipOf cfg ts) (ground arith) (program_clip-IsClipOf cfg ts e)
        | inr p ↦ elim (Bool-cases (str_eq e.type "ad_break")) [
          | inl q ↦ plan_break-IsClipOf ts e s c (ground arith)
          | inr q ↦ subst (IsClipOf cfg ts) (ground arith) (slate_clip-IsClipOf cfg ts)
        ]
      ]

  -- A clip that is due is planned, whatever the ad pods do.
  plan_break_due :
      (ts : ℕ) (e : TimelineEntry) (s : S)
      → is_due cfg now ts ≡ true
      → (plan_break pods cfg now ts e s).0 ≢ none
  unfolding plan_break
  plan_break_due ts e s h = ground arith

  plan_entry_due :
      (ts : ℕ) (e : Option TimelineEntry) (s : S)
      → is_due cfg now ts ≡ true
      → (plan_entry pods cfg now ts e s).0 ≢ none
  unfolding plan_entry
  plan_entry_due ts none s h = ground arith
  plan_entry_due ts (some e) s h = ground (arith, plan_break_due ts e s h)

module _ {S : Type 0} (pods : PodSource S) (cfg : Config) (now : Instant)
    (entries : List TimelineEntry) (a lead : ℕ) (one : cfg.segment_sec ≡ 1)
    (led : cfg.live_lead_s ≡ pos lead) (near : lead < 2 ^ 32) where
  abbrev end : Instant
  end = now + a * second

  -- The k-th moment of the plan.
  abbrev moment : ℕ → ℕ
  moment k = now + k * second

  -- A stretch of the plan: it is whole, or it was held back behind the lead.
  abbrev Stretch : ℕ → ℕ → List ClipItem → Type 0
  Stretch k fuel r =
      Laid cfg (moment k) r × (length r ≤ fuel) × ((length r ≡ fuel) ⊎ (lead < k + length r))

  room : (k : ℕ) → k < a → after (moment k) (add end (minus (segment cfg))) ≡ false
  unfolding minus
  room k h = rw (one, seconds_pos 1 (omega arith), wrap64_minus second (omega arith)) (ground arith)

  due_within : (k : ℕ) → k ≤ lead → is_due cfg now (moment k) ≡ true
  due_within k h = rw (led, seconds_pos lead near) (ground arith)

  next_moment : (k : ℕ) → add (moment k) (segment cfg) ≡ moment (suc k)
  next_moment k = rw (one, seconds_pos 1 (omega arith)) (omega arith)

  module _ (fuel k : ℕ) (prev : String) (s : S) (h : k < a) where
    abbrev planned : Option ClipItem × S
    planned = plan_entry pods cfg now (moment k) (find_entry (moment k) entries) s

    abbrev after_clip : ClipItem → List ClipItem
    after_clip c =
        (plan_loop pods cfg now entries end fuel (moment (suc k))
          (finish_clip (moment k) prev c).type planned.1).0

    plan_loop_held :
        planned.0 ≡ none → (plan_loop pods cfg now entries end (suc fuel) (moment k) prev s).0 ≡ []
    unfolding plan_loop
    plan_loop_held e = rw (plan_loop, room k h, e)

    plan_loop_next :
        (c : ClipItem)
        → planned.0 ≡ some c
        → (plan_loop pods cfg now entries end (suc fuel) (moment k) prev s).0
          ≡ finish_clip (moment k) prev c ∷ after_clip c
    unfolding plan_loop finish_clip
    plan_loop_next c e = rw (plan_loop, room k h, e, next_moment k)

  plan_loop-Stretch :
      (fuel k : ℕ) (prev : String) (s : S)
      → k + fuel ≡ a
      → Stretch k fuel (plan_loop pods cfg now entries end fuel (moment k) prev s).0
  plan_loop-Stretch zero k prev s h = unfold plan_loop in (tt, omega arith, inl refl)
  plan_loop-Stretch (suc fuel) k prev s h =
      elim (Option-cases (planned fuel k prev s (omega arith)).0) [
        | inl e ↦ rw (plan_loop_held fuel k prev s (omega arith) e) (tt, omega arith, inr (held e))
        | inr (c, e) ↦ rw (plan_loop_next fuel k prev s (omega arith) c e) (
            next c e (
              plan_loop-Stretch fuel (suc k) (finish_clip (moment k) prev c).type
                (planned fuel k prev s (omega arith)).1 (omega arith)))
      ]
    where
      held :
          (plan_entry pods cfg now (moment k) (find_entry (moment k) entries) s).0 ≡ none
          → lead < k + 0
      held e = elim (dec_lt lead k) [
        | yes g ↦ omega arith
        | no g ↦ absurd (plan_entry_due pods cfg now (moment k) _ s (due_within k (omega arith)) e)
      ]

      more : {n : ℕ} → (n ≡ fuel) ⊎ (lead < suc k + n) → (suc n ≡ suc fuel) ⊎ (lead < k + suc n)
      more (inl e) = inl (ap suc e)
      more (inr e) = inr (omega arith)

      next :
          (c : ClipItem)
          → (plan_entry pods cfg now (moment k) (find_entry (moment k) entries) s).0 ≡ some c
          → Stretch (suc k) fuel (after_clip fuel k prev s (omega arith) c)
          → Stretch k
              (suc fuel)
              (finish_clip (moment k) prev c ∷ after_clip fuel k prev s (omega arith) c)
      next c e t = (
        (
          finish_clip-IsClipOf cfg (moment k) prev c
              (plan_entry-IsClipOf pods cfg now (moment k) _ s c e),
          subst (λ u. Laid cfg u (after_clip fuel k prev s (omega arith) c)) (rw one (omega arith))
              t.0,
        ),
        omega (arith, t.1),
        more t.2,
      )

-- For segments of a second, a look-ahead and a lead below 2^32 seconds, and any pod source: the clips of
-- buildPlan stand second after second from now on, each numbered by its second and one second long; there are
-- at most as many as the plan looks ahead, and if there are fewer, then more than the lead.
pub build_plan-Laid :
    {S : Type 0} (pods : PodSource S) (cfg : Config) (now : Instant) (entries : List TimelineEntry)
    (a lead : ℕ) (s : S)
    → cfg.segment_sec ≡ 1
    → cfg.live_lead_s ≡ pos lead
    → lead < 2 ^ 32
    → plan_ahead cfg ≡ pos a
    → a < 2 ^ 32
    → let clips = (build_plan pods now cfg entries s).0 in
      Laid cfg now clips × (length clips ≤ a) × ((length clips ≡ a) ⊎ (lead < length clips))
unfolding build_plan
build_plan-Laid pods cfg now entries a lead s one led near ah small =
    rw (ah, seconds_pos a small, at_end)
      (subst (λ ts. Whole ts (plan_loop pods cfg now entries (now + a * second) a ts "" s).0)
        at_start
        (from_zero _ _
          (plan_loop-Stretch pods cfg now entries a lead one led near a 0 "" s (omega arith))))
  where
    Whole : ℕ → List ClipItem → Type 0
    Whole ts r = Laid cfg ts r × (length r ≤ a) × ((length r ≡ a) ⊎ (lead < length r))

    from_zero :
        (ts : ℕ) (r : List ClipItem)
        → Laid cfg ts r × (length r ≤ a) × ((length r ≡ a) ⊎ (lead < 0 + length r))
        → Whole ts r
    from_zero ts r t = (t.0, t.1, elim t.2 [ inl e ↦ inl e | inr h ↦ inr (omega arith) ])

    at_start : now + 0 * second ≡ now
    at_start = omega arith

    at_end : now + a * second - 0 ≡ now + a * second
    at_end = omega arith
