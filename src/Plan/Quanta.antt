-- ===== src/Plan/Quanta.antt =====
-- buildAdBreakQuanta: a break is cut into exactly as many clips as it has segments.
use fast_tv_playout_core.Base.{
  ℕ, zero, suc, ◌+◌, ◌-◌, ◌≡◌, refl, ap, List, [], ◌∷◌, ◌++◌, arith, pos_part, quot, length,
  replicate, take, length-append, length-take, length-replicate,
}
use fast_tv_playout_core.Model.{TimelineEntry, AdItem, ClipItem}
use fast_tv_playout_core.Config.{Config}
use fast_tv_playout_core.Plan.{
  build_ad_break_quanta, mark_first, pod_quanta, item_quanta, slate_quantum,
}

length-mark_first : (cs : List ClipItem) → length (mark_first cs) ≡ length cs
unfolding mark_first
length-mark_first [] = refl
length-mark_first (c ∷ cs) = refl

-- The number of segments that a pod fills.
pub pod_segments : ℕ → List AdItem → ℕ
pod_segments seg [] = 0
pod_segments seg (it ∷ items) = pos_part (quot it.duration_s seg) + pod_segments seg items

length-item_quanta : (seg : ℕ) (it : AdItem) (i n : ℕ) → length (item_quanta seg it i n) ≡ n
unfolding item_quanta
length-item_quanta seg it i zero = refl
length-item_quanta seg it i (suc n) = ap suc (length-item_quanta seg it (suc i) n)

pub length-pod_quanta :
    (seg : ℕ) (items : List AdItem) → length (pod_quanta seg items) ≡ pod_segments seg items
unfolding pod_quanta pod_segments
length-pod_quanta seg [] = refl
length-pod_quanta seg (it ∷ items) = omega (
  arith,
  length-append (item_quanta seg it 0 (pos_part (quot it.duration_s seg))) (pod_quanta seg items),
  length-item_quanta seg it 0 (pos_part (quot it.duration_s seg)),
  length-pod_quanta seg items,
)

-- An ad break has as many clips as whole segments, whatever its pod: a short pod is filled up and a long one is
-- cut.
pub length-build_ad_break_quanta :
    (br : TimelineEntry) (items : List AdItem) (cfg : Config)
    → length (build_ad_break_quanta br items cfg) ≡ pos_part (quot br.duration_s cfg.segment_sec)
unfolding build_ad_break_quanta
length-build_ad_break_quanta br items cfg =
    let total = pos_part (quot br.duration_s cfg.segment_sec) in
    let out = pod_quanta cfg.segment_sec items in
    omega (
      arith,
      length-mark_first (take total (out ++ replicate (total - length out) (slate_quantum cfg))),
      length-take total (out ++ replicate (total - length out) (slate_quantum cfg)),
      length-append out (replicate (total - length out) (slate_quantum cfg)),
      length-replicate (total - length out) (slate_quantum cfg),
    )
