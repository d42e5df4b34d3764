-- ===== src/Filler/Tests.antt =====
-- A registry with three partner creatives and one of the house, and a break of half a minute.
use fast_tv_playout_core.Base.{
  ℕ, ◌<◌, ◌≤◌, ◌≡◌, refl, Bool, true, false, List, [], ◌∷◌, String, arith, length, take, pos, ◌*◌,
  Option, some, none, sort_stable,
}
use fast_tv_playout_core.Filler.{Creative, best_subset, pool_size, is_better}
use fast_tv_playout_core.Clock.{second}
use fast_tv_playout_core.Model.{TimelineEntry}
use fast_tv_playout_core.Filler.Source.{StaticFiller, filler_pod, filler_evict}
use fast_tv_playout_core.Filler.Keeps.{pod_keeps}
use fast_tv_playout_core.Filler.Best.{IsBest, best_subset-IsBest}

abbrev creative : String → String → ℕ → Creative
creative id type secs = record {
  id = id;
  type = type;
  category = "any" ∷ [];
  duration = secs;
  uri = id;
  active = true;
}

abbrev partners : List Creative
partners = creative "a" "partner" 5 ∷ creative "b" "partner" 4 ∷ creative "c" "partner" 3 ∷ []

abbrev registry : List Creative
registry = creative "h" "house" 2 ∷ partners

best_subset-IsBest_example : IsBest 8 (take pool_size partners) (best_subset partners 8)
best_subset-IsBest_example =
    best_subset-IsBest partners 8 (omega arith, (omega arith, (omega arith, tt))) (omega arith)

abbrev the_break : TimelineEntry
the_break = record {
  type = "ad_break";
  asset_id = "";
  uri = "";
  start = 5000 * second;
  duration_s = pos 8;
  offset_s = pos 0;
  category = "midroll";
  scte35 = "";
}

abbrev new_filler : StaticFiller
new_filler = record { registry = []; mtime = 0; last = ""; pods = [] }

pod_keeps_example :
    let (items, f) =
      filler_pod
        (some (record { mtime = 1; parsed = some registry }))
        (pos 1)
        the_break
        new_filler in
    (filler_pod none (pos 1) the_break (filler_evict (5001 * second) f)).0 ≡ items
pod_keeps_example =
    pod_keeps (some (record { mtime = 1; parsed = some registry })) none (pos 1) the_break
      (5001 * second) new_filler (omega arith)

-- Five and three seconds make eight.
five_and_three : best_subset partners 8 ≡ creative "a" "partner" 5 ∷ creative "c" "partner" 3 ∷ []
unfolding best_subset is_better sort_stable fast_tv_playout_core.Base.insert_by
five_and_three = refl
