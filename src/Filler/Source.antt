-- ===== src/Filler/Source.antt =====
-- The static filler as a source of pods: the registry is read again when its file changes.
use fast_tv_playout_core.Base.{
  ℕ, ◌*◌, ◌==◌, Option, none, some, List, [], ◌∷◌, if◌then◌else◌, String, ℤ,
}
use fast_tv_playout_core.Clock.{Instant, second, before, add, minus}
use fast_tv_playout_core.Base.{pos}
use fast_tv_playout_core.Model.{TimelineEntry, AdItem}
use fast_tv_playout_core.Pods.{PodSource, ready}
use fast_tv_playout_core.Filler.{Creative, fill_break}

-- What the registry file is at a moment: gone, or a time and what its text says; none is a text that is no registry.
pub record Disk : Type 0 where
  pub mtime : Instant
  pub parsed : Option (List Creative)

pub record StaticFiller : Type 0 where
  pub registry : List Creative
  pub mtime : Instant
  pub last : String
  pub pods : List (Instant × List AdItem)

unfoldable pub reload : Option Disk → StaticFiller → StaticFiller
reload none f = record f { registry = []; mtime = 0 }
reload (some d) f =
    if d.mtime == f.mtime
    then f
    else elim d.parsed [ none ↦ f | some reg ↦ record f { registry = reg; mtime = d.mtime } ]

unfoldable pub find_pod : Instant → List (Instant × List AdItem) → Option (List AdItem)
find_pod start [] = none
find_pod start ((k, items) ∷ pods) = if start == k then some items else find_pod start pods

-- The creative that ends the pod, or the one that ended the pod before.
pub ending_id : String → List AdItem → String
ending_id last [] = last
ending_id last (it ∷ items) = ending_id it.creative_id items

-- A pod that is not known yet.
unfoldable pub new_pod : Option Disk → ℤ → TimelineEntry → StaticFiller → List AdItem × StaticFiller
unfolding ending_id
new_pod disk seg e f =
    let r = reload disk f in
    let items = fill_break r.registry e.duration_s e.category f.last seg in
    (items, record r { last = ending_id r.last items; pods = (e.start, items) ∷ r.pods })

abbrev pub known_or :
    Option (List AdItem) → StaticFiller → List AdItem × StaticFiller → List AdItem × StaticFiller
known_or none f new = new
known_or (some items) f new = (items, f)

unfoldable pub filler_pod :
    Option Disk → ℤ → TimelineEntry → StaticFiller → List AdItem × StaticFiller
filler_pod disk seg e f = known_or (find_pod e.start f.pods) f (new_pod disk seg e f)

-- The pods that evict keeps.
unfoldable pub recent_pods : Instant → List (Instant × List AdItem) → List (Instant × List AdItem)
recent_pods cutoff [] = []
recent_pods cutoff ((k, items) ∷ pods) =
    let rest = recent_pods cutoff pods in if before k cutoff then rest else (k, items) ∷ rest

abbrev pub hour : ℕ
hour = 3600 * second

unfoldable pub filler_evict : Instant → StaticFiller → StaticFiller
unfolding recent_pods
filler_evict now f = record f { pods = recent_pods (add now (minus (pos hour))) f.pods }

-- podSource, for a file that stays as it is and segments of one length.
abbrev pub static_filler : Option Disk → ℤ → PodSource StaticFiller
static_filler disk seg = record {
  pod = λ e due f. record {
    items = (filler_pod disk seg e f).0;
    state = ready;
    source = (filler_pod disk seg e f).1;
  };
  give_up = λ start f. f;
  evict = filler_evict;
}
