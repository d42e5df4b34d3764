-- ===== src/Filler/Keeps.antt =====
-- A break keeps its pod for as long as it is not long over.
use fast_tv_playout_core.Base.{
  ℕ, ◌+◌, ◌≤◌, ◌≡◌, refl, sym, ap, subst, ◌∙◌, Option-cases, inl, inr, ==_same, Option, none, some,
  List, [], ◌∷◌, arith, ℤ, pos, wrap64_minus,
}
use fast_tv_playout_core.Clock.{Instant, add, minus}
use fast_tv_playout_core.Model.{TimelineEntry, AdItem}
use fast_tv_playout_core.Filler.Source.{
  Disk, StaticFiller, find_pod, recent_pods, filler_pod, new_pod, known_or, filler_evict, hour,
}

find_pod-recent_pods :
    (start cutoff : ℕ) (pods : List (Instant × List AdItem))
    → cutoff ≤ start
    → find_pod start (recent_pods cutoff pods) ≡ find_pod start pods
unfolding find_pod recent_pods
find_pod-recent_pods start cutoff [] h = refl
find_pod-recent_pods start cutoff ((k, items) ∷ pods) h =
    ground (arith, find_pod-recent_pods start cutoff pods h)

filler_pod_found :
    (disk : Option Disk) (seg : ℤ) (e : TimelineEntry) (f : StaticFiller) (items : List AdItem)
    → find_pod e.start f.pods ≡ some items
    → filler_pod disk seg e f ≡ (items, f)
unfolding filler_pod
filler_pod_found disk seg e f items h = ap (λ o. known_or o f (new_pod disk seg e f)) h

filler_pod_new :
    (disk : Option Disk) (seg : ℤ) (e : TimelineEntry) (f : StaticFiller)
    → find_pod e.start f.pods ≡ none
    → filler_pod disk seg e f ≡ new_pod disk seg e f
unfolding filler_pod
filler_pod_new disk seg e f h = ap (λ o. known_or o f (new_pod disk seg e f)) h

new_pod_known :
    (disk : Option Disk) (seg : ℤ) (e : TimelineEntry) (f : StaticFiller)
    → find_pod e.start (new_pod disk seg e f).1.pods ≡ some (new_pod disk seg e f).0
unfolding new_pod find_pod
new_pod_known disk seg e f = rw (==_same e.start e.start refl) refl

-- After an answer the pod is remembered.
filler_pod_known :
    (disk : Option Disk) (seg : ℤ) (e : TimelineEntry) (f : StaticFiller)
    → find_pod e.start (filler_pod disk seg e f).1.pods ≡ some (filler_pod disk seg e f).0
filler_pod_known disk seg e f = elim (Option-cases (find_pod e.start f.pods)) [
  | inl h ↦
      subst (λ (r : List AdItem × StaticFiller). find_pod e.start r.1.pods ≡ some r.0)
        (sym (filler_pod_new disk seg e f h)) (new_pod_known disk seg e f)
  | inr (items, h) ↦
      subst (λ (r : List AdItem × StaticFiller). find_pod e.start r.1.pods ≡ some r.0)
        (sym (filler_pod_found disk seg e f items h)) h
]

evicted :
    (now : ℕ) (e : TimelineEntry) (g : StaticFiller) (items : List AdItem)
    → now ≤ e.start + hour
    → find_pod e.start g.pods ≡ some items
    → find_pod e.start (filler_evict now g).pods ≡ some items
unfolding filler_evict minus
evicted now e g items h k =
    find_pod-recent_pods e.start (add now (minus (pos hour))) g.pods (cutoff) ∙ k
  where
    cutoff : add now (minus (pos hour)) ≤ e.start
    cutoff = ground (arith, wrap64_minus hour)

-- A break that was given a pod gets the same one again, whatever the registry file has become, when evict has
-- run in between at a moment not later than an hour after the start of the break.
pub pod_keeps :
    (disk disk' : Option Disk) (seg : ℤ) (e : TimelineEntry) (now : ℕ) (f : StaticFiller)
    → now ≤ e.start + hour
    → let (items, f') = filler_pod disk seg e f in
      (filler_pod disk' seg e (filler_evict now f')).0 ≡ items
pod_keeps disk disk' seg e now f h =
    let (items, f') = filler_pod disk seg e f in
    ap (λ (r : List AdItem × StaticFiller). r.0)
      (filler_pod_found disk' seg e (filler_evict now f') items
        (evicted now e f' items h (filler_pod_known disk seg e f)))
