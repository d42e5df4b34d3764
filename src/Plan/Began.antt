-- ===== src/Plan/Began.antt =====
-- services/engine/plan.go: a clip of a break belongs to a break that has begun.
use mathlib.Core.Option.{some-injective, none-ne-some}
use fast_tv_playout_core.Base.{
  ℕ, zero, suc, ◌/◌, ◌≤◌, ◌≡◌, refl, sym, ap, subst, ◌∙◌, Bool, true, false, not, ◌&&◌, ◌||◌,
  Bool-cases, inl, inr, Option, none, some, List, [], ◌∷◌, if◌then◌else◌, String, pos, str_eq,
  get_elem?, pos_part, All, arith,
}
use fast_tv_playout_core.Clock.{Instant, before, after, add, seconds, sub, minus}
use fast_tv_playout_core.Config.{Config}
use fast_tv_playout_core.Model.{TimelineEntry, AdItem, ClipItem}
use fast_tv_playout_core.Pods.{PodState, ready, pending, failed, PodSource}
use fast_tv_playout_core.Plan.{
  segment, find_entry, quant_seq, build_ad_break_quanta, blank, slate_clip, program_clip,
  break_clip, is_due, plan_break, plan_entry, finish_clip, plan_loop, plan_ahead, build_plan,
}

abbrev pub HasBegun : ClipItem → Type 0
HasBegun c = c.break_start ≤ c.start_at

-- A planned clip, if there is one.
pub Begun : Option ClipItem → Type 0
Begun none = Unit
Begun (some c) = HasBegun c

abbrev Covers : Instant → Option TimelineEntry → Type 0
Covers ts e = (x : TimelineEntry) → e ≡ some x → x.start ≤ ts

find_entry-Covers : (ts : Instant) (es : List TimelineEntry) → Covers ts (find_entry ts es)
unfolding find_entry
find_entry-Covers ts [] x q = absurd (none-ne-some x q)
find_entry-Covers ts (e ∷ es) x q =
    elim (Bool-cases (not (before ts e.start) && before ts (add e.start (seconds e.duration_s)))) [
      | inl b ↦
          let same =
            some-injective e x (sym (ap (λ c. if c then some e else find_entry ts es) b) ∙ q) in
          subst (λ y. y.start ≤ ts) same (ground (arith, b))
      | inr b ↦
          find_entry-Covers ts es x (sym (ap (λ c. if c then some e else find_entry ts es) b) ∙ q)
    ]

slate_clip-HasBegun : (cfg : Config) (ts : Instant) → HasBegun (slate_clip cfg ts)
unfolding slate_clip blank
slate_clip-HasBegun cfg ts = omega arith

program_clip-HasBegun :
    (cfg : Config) (ts : Instant) (e : TimelineEntry) → HasBegun (program_clip cfg ts e)
unfolding program_clip blank
program_clip-HasBegun cfg ts e = omega arith

break_clip-HasBegun :
    (cfg : Config) (ts : Instant) (e : TimelineEntry) (items : List AdItem)
    → e.start ≤ ts
    → HasBegun (break_clip cfg ts e items)
break_clip-HasBegun cfg ts e items h =
    unfold break_clip in
    go (
      get_elem? (build_ad_break_quanta e items cfg)
        (pos_part (sub ts e.start) / pos_part (segment cfg)))
  where
    go :
        (o : Option ClipItem)
        → HasBegun (elim o [
          | none ↦ slate_clip cfg ts
          | some c ↦ record c {
            seq = quant_seq ts cfg.segment_sec;
            start_at = ts;
            duration_s = pos cfg.segment_sec;
            entry_start = e.start;
            break_start = e.start;
            break_dur_s = e.duration_s;
            scte35 = e.scte35;
          }
        ])
    go none = slate_clip-HasBegun cfg ts
    go (some c) = h

module _ {S : Type 0} (pods : PodSource S) (cfg : Config) (now : Instant) where
  plan_break-Begun :
      (ts : Instant) (e : TimelineEntry) (s : S)
      → e.start ≤ ts
      → Begun (plan_break pods cfg now ts e s).0
  unfolding plan_break
  plan_break-Begun ts e s h =
      let answer = pods.pod e (is_due cfg now ts) s in go answer.state answer.items answer.source
    where
      wait :
          (b : Bool) (x y : S)
          → Begun
              (if◌then◌else◌ {A = Option ClipItem × S} b
                (some (break_clip cfg ts e []), x)
                (none, y)).0
      wait true x y = unfold Begun in break_clip-HasBegun cfg ts e [] h
      wait false x y = unfold Begun in tt

      go :
          (st : PodState) (items : List AdItem) (source : S)
          → Begun
              (elim st as (λ x. Option ClipItem × S) [
                | ready ↦ (some (break_clip cfg ts e items), source)
                | _ ↦
                    if◌then◌else◌ {A = Option ClipItem × S}
                      (is_due cfg now ts)
                      (some (break_clip cfg ts e []), pods.give_up e.start source)
                      (none, source)
              ]).0
      go ready items source = unfold Begun in break_clip-HasBegun cfg ts e items h
      go pending items source = wait (is_due cfg now ts) (pods.give_up e.start source) source
      go failed items source = wait (is_due cfg now ts) (pods.give_up e.start source) source

  plan_entry-Begun :
      (ts : Instant) (e : Option TimelineEntry) (s : S)
      → Covers ts e
      → Begun (plan_entry pods cfg now ts e s).0
  unfolding plan_entry Begun
  plan_entry-Begun ts none s h = slate_clip-HasBegun cfg ts
  plan_entry-Begun ts (some e) s h =
      elim (Bool-cases (str_eq e.type "content" || str_eq e.type "bumper")) [
        | inl p ↦ rw p (program_clip-HasBegun cfg ts e)
        | inr p ↦ rw p (elim (Bool-cases (str_eq e.type "ad_break")) [
          | inl q ↦ rw q (plan_break-Begun ts e s (h e refl))
          | inr q ↦ rw q (slate_clip-HasBegun cfg ts)
        ])
      ]

  module _ (entries : List TimelineEntry) (end : Instant) where
    plan_loop-Begun :
        (fuel : ℕ) (ts : Instant) (prev : String) (s : S)
        → All HasBegun (plan_loop pods cfg now entries end fuel ts prev s).0
    unfolding plan_loop
    plan_loop-Begun zero ts prev s = tt
    plan_loop-Begun (suc fuel) ts prev s =
        elim (Bool-cases (after ts (add end (minus (segment cfg))))) [
          | inl e ↦ rw e tt
          | inr e ↦ rw e (
              kept (plan_entry pods cfg now ts (find_entry ts entries) s)
                (plan_entry-Begun ts (find_entry ts entries) s (find_entry-Covers ts entries))
                (λ c.
                  plan_loop-Begun fuel (add ts (segment cfg)) (finish_clip ts prev c).type
                    (plan_entry pods cfg now ts (find_entry ts entries) s).1))
        ]
      where
        kept :
            (p : Option ClipItem × S)
            → Begun p.0
            → ((c : ClipItem)
                → All HasBegun
                    (plan_loop pods cfg now entries end fuel
                      (add ts (segment cfg))
                      (finish_clip ts prev c).type
                      p.1).0)
            → All HasBegun
                (elim p.0 as (λ x. List ClipItem × S) [
                  | none ↦ ([], p.1)
                  | some item ↦
                      let clip = finish_clip ts prev item in
                      let rest =
                        plan_loop pods cfg now entries end fuel
                          (add ts (segment cfg))
                          clip.type
                          p.1 in
                      (clip ∷ rest.0, rest.1)
                ]).0
        kept (none, s') b r = tt
        kept (some c, s') b r = (unfold finish_clip Begun in b, r c)

pub build_plan-HasBegun :
    {S : Type 0} (pods : PodSource S) (now : Instant) (cfg : Config) (entries : List TimelineEntry)
    (s : S)
    → All HasBegun (build_plan pods now cfg entries s).0
unfolding build_plan
build_plan-HasBegun pods now cfg entries s =
    plan_loop-Begun pods cfg now entries (add now (seconds (plan_ahead cfg)))
      (pos_part (plan_ahead cfg)) now "" s
