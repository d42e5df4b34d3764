-- ===== src/Engine/Handing.antt =====
-- services/engine/engine.go: the loop over the plan hands clips to the stitcher.
use fast_tv_playout_core.Base.{
  ℕ, ◌≤◌, ◌<◌, ◌≡◌, refl, sym, subst, Bool-cases, inl, inr, Option, List, [], ◌∷◌, ◌++◌, String, ℤ,
  ltb_ℤ, All, arith,
}
use fast_tv_playout_core.Clock.{Instant}
use fast_tv_playout_core.Config.{Config}
use fast_tv_playout_core.Model.{ClipItem}
use fast_tv_playout_core.Stitch.{Stitcher}
use fast_tv_playout_core.Stitch.Add.{Handed, add_clip, add_all}
use fast_tv_playout_core.Engine.{Answers}
use fast_tv_playout_core.Engine.Tick.{Loop, handed, is_skipped, hand_over, hand_plan, tick_budget}

-- Clips that start one after the other, from after a moment up to another.
unfoldable pub Climbs : Instant → List Handed → Instant → Type 0
Climbs t [] u = t ≡ u
Climbs t (h ∷ hs) u = (t < h.clip.start_at) × Climbs h.clip.start_at hs u

pub Climbs-append :
    (t u v : Instant) (xs ys : List Handed) → Climbs t xs u → Climbs u ys v → Climbs t (xs ++ ys) v
unfolding Climbs
Climbs-append t u v [] ys h k = subst (λ w. Climbs w ys v) (sym h) k
Climbs-append t u v (x ∷ xs) ys h k = (h.0, Climbs-append x.clip.start_at u v xs ys h.1 k)

pub Climbs-positive :
    (t u : Instant) (hs : List Handed) → Climbs t hs u → All (λ h. 0 < h.clip.start_at) hs
unfolding Climbs
Climbs-positive t u [] c = tt
Climbs-positive t u (h ∷ hs) c = (omega (arith, c.0), Climbs-positive h.clip.start_at u hs c.1)

pub add_all-append :
    (parse : String → Option (List ℕ)) (seg_name : ℤ → String) (cfg : Config) (s : Stitcher)
    (xs ys : List Handed)
    → add_all parse seg_name cfg s (xs ++ ys)
      ≡ add_all parse seg_name cfg (add_all parse seg_name cfg s xs) ys
unfolding add_all
add_all-append parse seg_name cfg s [] ys = refl
add_all-append parse seg_name cfg s (x ∷ xs) ys =
    add_all-append parse seg_name cfg (add_clip parse seg_name x.prepare cfg x.disk s x.clip).2 xs
      ys

-- What the loop does to a stitcher, with the clips it handed over.
pub record IsHanding (parse : String → Option (List ℕ)) (seg_name : ℤ → String) (cfg : Config)
    (release : Instant) (cs : List ClipItem) (l : Loop) (r : Loop × List Handed) : Type 1 where
  pub stitched : r.0.st ≡ add_all parse seg_name cfg l.st r.1
  pub climbs : Climbs l.last_tried r.1 r.0.last_tried
  pub released : All (λ h. h.clip.start_at ≤ release) r.1
  pub planned : (P : ClipItem → Type 0) → All P cs → All (λ h. P h.clip) r.1

module _ (parse : String → Option (List ℕ)) (seg_name : ℤ → String) (cfg : Config) (a : Answers)
    (release : Instant) where
  abbrev Holding : List ClipItem → Loop → Loop × List Handed → Type 1
  Holding = IsHanding parse seg_name cfg release

  none_handed : (cs : List ClipItem) (l : Loop) → Holding cs l (l, [])
  unfolding add_all Climbs
  none_handed cs l = record { stitched = refl; climbs = refl; released = tt; planned = λ P h. tt }

  pass_over :
      (c : ClipItem) (cs : List ClipItem) (l : Loop) (r : Loop × List Handed)
      → Holding cs l r
      → Holding (c ∷ cs) l r
  pass_over c cs l r h = record {
    stitched = h.stitched;
    climbs = h.climbs;
    released = h.released;
    planned = λ P p. h.planned P p.1;
  }

  handed_more :
      (c : ClipItem) (cs : List ClipItem) (l : Loop) (r : Loop × List Handed)
      → l.last_tried < c.start_at
      → c.start_at ≤ release
      → Holding cs (hand_over parse seg_name cfg a c l) r
      → Holding (c ∷ cs) l (r.0, handed cfg a c ∷ r.1)
  unfolding add_all Climbs hand_over
  handed_more c cs l r above below h = record {
    stitched = h.stitched;
    climbs = (above, h.climbs);
    released = (below, h.released);
    planned = λ P p. (p.0, h.planned P p.1);
  }

  pub hand_plan-IsHanding :
      (cs : List ClipItem) (l : Loop) → Holding cs l (hand_plan parse seg_name cfg a release cs l)
  unfolding hand_plan
  hand_plan-IsHanding [] l = none_handed [] l
  hand_plan-IsHanding (c ∷ cs) l = elim (Bool-cases (is_skipped release l c)) [
    | inl e ↦ rw e (pass_over c cs l _ (hand_plan-IsHanding cs l))
    | inr e ↦ rw e (elim (Bool-cases (ltb_ℤ tick_budget (a.elapsed c))) [
      | inl b ↦ rw b (none_handed (c ∷ cs) l)
      | inr b ↦ rw b (
          handed_more c cs l _ (ground (arith, e)) (ground (arith, e))
            (hand_plan-IsHanding cs (hand_over parse seg_name cfg a c l)))
    ])
  ]
